-- ===== src/Server/Tests.antt =====
-- The life of a server on concrete steps.
use ramix.Server.State.{rank}
use ramix.Server.{
  Server, new_server, claim_run, begin_serving, shutdown, start_owner, stop_connection_setups,
  finish_shutdown, begin_connection_setup, step_run, step_rollback, step_serve, step_shutdown,
  step_owner, step_stop_setups, step_finish, step_setup, Steps, done, more, close_shutdown_done,
  return_terminal, terminal_shutdown_error, rollback_startup, ◌≡◌,
}
use ramix.Server.Shutdown.{
  IsOrderly, reachable-IsOrderly, reachable-rank, stopped_forever, stopping_ends, LeadsToStopped,
}
use ramix.Prelude.{false, true, arith, ◌≤◌, ◌≡◌, refl, err, server_stopped}

abbrev claimed_server : Server
claimed_server = (claim_run new_server).1

abbrev running_server : Server
running_server = begin_serving false claimed_server

-- A connection is being set up when a call of Shutdown comes.
abbrev stopping_server : Server
stopping_server = (shutdown (begin_connection_setup running_server).1).1

abbrev draining_server : Server
draining_server = stop_connection_setups (start_owner stopping_server)

abbrev late_server : Server
late_server = finish_shutdown true draining_server

to_stopping : Steps new_server stopping_server
unfolding claim_run begin_serving begin_connection_setup shutdown
to_stopping =
    more
      (more
        (more (more (done new_server) (step_run new_server)) (step_serve claimed_server false refl))
        (step_setup running_server))
      (step_shutdown _)

to_late : Steps stopping_server late_server
unfolding claim_run begin_serving begin_connection_setup shutdown start_owner stop_connection_setups
to_late =
    more
      (more (more (done stopping_server) (step_owner stopping_server (omega arith)))
        (step_stop_setups (start_owner stopping_server) refl))
      (step_finish draining_server true refl)

reachable-IsOrderly_example : IsOrderly stopping_server
reachable-IsOrderly_example = reachable-IsOrderly stopping_server to_stopping

reachable-rank_example : rank stopping_server.state ≤ rank late_server.state
reachable-rank_example = reachable-rank to_stopping to_late

stopping_ends_example : LeadsToStopped stopping_server
unfolding claim_run begin_serving begin_connection_setup shutdown
stopping_ends_example = stopping_ends to_stopping refl

to_rolled_back : Steps new_server (rollback_startup claimed_server)
unfolding claim_run
to_rolled_back =
    more (more (done new_server) (step_run new_server)) (step_rollback claimed_server refl)

stopped_forever_example :
    ((claim_run (rollback_startup claimed_server)).0 ≡ err server_stopped)
    × ((shutdown (rollback_startup claimed_server)).0 ≡ return_terminal)
    × (terminal_shutdown_error (rollback_startup claimed_server)
        ≡ terminal_shutdown_error (rollback_startup claimed_server))
unfolding claim_run rollback_startup close_shutdown_done
stopped_forever_example =
    stopped_forever to_rolled_back refl (done (rollback_startup claimed_server))
