-- ===== src/Owner/Tests.antt =====
-- server.go: a shutdown of a server with one connection.
use ramix.Manager
use ramix.Owner.{
  Fleet, OwnerWorld, Others, WaitRound, no_moves, shutdown_owner, quiesce_all, force_close_all,
  each_connection, drain_connections, wait_all, wait_each, drain_pool, finish_owner, up_to_waits,
}
use ramix.Prelude.{true, false, ◌∷◌, [], Option, Bool, arith, ◌≡◌, some, none, refl}
use ramix.Connection.{
  NetConnection, new_net_connection, writer_done, stop_sends, quiesce_reads, request_close_matching,
}
use ramix.Manager.{add_connection, new_connection_manager, select_group, insert}
use ramix.Connection.Requests.{CloseReason, request_close}
use ramix.Pool.{pool_of, begin_drain, stop_accepting, drain_in, drain_new}
use ramix.Server.{new_server, stop_connection_setups}
use ramix.Server.State.{state_stopping}
use ramix.Manager.Holds.{IsManager, add_connection-IsManager, has_key}
use ramix.Owner.Closed.{IsShutDown, shutdown_owner-IsShutDown}

abbrev quiet : Others
quiet f = (f, no_moves f)

abbrev one_round : WaitRound
one_round = record {
  between_reads = quiet;
  before_wait = λ _. quiet;
  chosen = λ _. true;
  before_look = quiet;
  changed = false;
  before_next = quiet;
}

abbrev calm : OwnerWorld
calm = record {
  before_setups = quiet;
  setups_chosen = true;
  before_quiesce = λ _. quiet;
  before_pool = quiet;
  pool_chosen = true;
  before_drain = λ _. quiet;
  writer_chosen = λ _. true;
  before_force = λ _. quiet;
  wait_rounds = one_round ∷ [];
  before_services = quiet;
  services_end = true;
  before_late = λ _. quiet;
}

-- The services do not end.
abbrev hanging : OwnerWorld
hanging = record calm { services_end = false }

abbrev ended_connection : NetConnection CloseReason
ended_connection = record (new_net_connection 4) { state = 3; writer = writer_done }

abbrev one_connection : Fleet
one_connection = record {
  manager = add_connection 5 (new_connection_manager 2);
  conns = λ _. ended_connection;
  pool = pool_of 1 1;
  server = record new_server { state = state_stopping };
  resources_closed = false;
}

abbrev was_late : Option (Bool × Fleet) → Option Bool
was_late none = none
was_late (some (late, f)) = some late

in_time : was_late (shutdown_owner calm one_connection) ≡ some false
unfolding shutdown_owner up_to_waits quiesce_all force_close_all each_connection drain_connections
    wait_all wait_each drain_pool finish_owner Manager.snapshot begin_drain add_connection
    new_connection_manager select_group insert stop_accepting drain_in drain_new stop_sends
    quiesce_reads new_net_connection Manager.finalization_snapshot request_close
    request_close_matching stop_connection_setups
in_time = refl

too_late : was_late (shutdown_owner hanging one_connection) ≡ some true
unfolding shutdown_owner up_to_waits quiesce_all force_close_all each_connection drain_connections
    wait_all wait_each drain_pool finish_owner Manager.snapshot begin_drain add_connection
    new_connection_manager select_group insert stop_accepting drain_in drain_new stop_sends
    quiesce_reads new_net_connection Manager.finalization_snapshot request_close
    request_close_matching stop_connection_setups
too_late = refl

no_connection : IsManager (new_connection_manager 2)
unfolding new_connection_manager
no_connection = record { some_group = omega arith; sorted = λ g key h. absurd (cc h) }

one_group : IsManager one_connection.manager
one_group = add_connection-IsManager 5 (new_connection_manager 2) no_connection

held : has_key 5 (Manager.snapshot one_connection.manager) ≡ true
unfolding Manager.snapshot add_connection select_group insert new_connection_manager
held = refl

shutdown_owner-IsShutDown_example :
    (late : Bool) × (g : Fleet) × (shutdown_owner hanging one_connection ≡ some (late, g))
    × IsShutDown 5 late g
shutdown_owner-IsShutDown_example =
    shutdown_owner-IsShutDown 5 hanging one_connection one_group held refl
