-- ===== src/Owner.antt =====
-- server.go (shutdownOwner), manager.go (quiesceAll, forceCloseAll, waitAll), connection.go (wait,
-- stopSendsAndDrain): the goroutine that shuts a server down, over its connections, its pool and its
-- manager. Between its calls other goroutines make any number of moves. That the services end is an
-- argument, and of closeServingResources (Launch.antt) the call is modelled here.
pub mod Keeps
pub mod Track
pub mod Loops
pub mod Waits
pub mod Closed
mod Tests
use ramix.Connection
use ramix.Server
use ramix.Manager
use ramix.Pool
use ramix.Manager.Holds.{has_key}
use ramix.Prelude.{
  ℕ, Bool, List, Option, update, true, if◌then◌else◌, false, none, ◌∷◌, ◌&&◌, length, ◌++◌, ◌||◌,
  ◌≡◌, server_stopping, ◌==◌, not, some, [],
}
use ramix.Manager.{
  Manager, add_connection, begin_finalizing, finalization_snapshot, leave_group, mark_finalized,
}
use ramix.Connection.{
  NetConnection, quiesce_reads, WriterPoint, stop_sends, writer_done, connection_closed_state,
}
use ramix.Connection.Requests.{CloseReason, request_close, operation_read, sentinel}
use ramix.Pool.{Pool, begin_drain, force_cancel, stop_accepting}
use ramix.Server.{Server, finish_shutdown, stop_connection_setups}

-- The connections by their ids, with what else the owner touches; `resources_closed` says that
-- closeServingResources was called.
pub record Fleet : Type 0 where
  pub manager : Manager
  pub conns : ℕ → NetConnection CloseReason
  pub pool : Pool
  pub server : Server
  pub resources_closed : Bool

abbrev pub with_conn : ℕ → NetConnection CloseReason → Fleet → Fleet
with_conn id c f = record f { conns = update f.conns id c }

abbrev pub with_manager : Manager → Fleet → Fleet
with_manager m f = record f { manager = m }

-- A move of another goroutine: a step of a connection, of the server or of the pool, or a
-- critical section of the manager. A supervisor leaves the group of its connection behind
-- the first section of removeConnection, and marks it as finalized when it is closed.
pub data Move : Fleet → Fleet → Type 0 where
  move_connection :
      (f : Fleet) (id : ℕ) (c : NetConnection CloseReason)
      → Connection.Step (f.conns id) c
      → Move f (with_conn id c f)
  move_add : (f : Fleet) (id : ℕ) → Move f (with_manager (add_connection id f.manager) f)
  move_remove : (f : Fleet) (id : ℕ) → Move f (with_manager (begin_finalizing id f.manager) f)
  move_leave :
      (f : Fleet) (id : ℕ)
      → has_key id f.manager.finalizing ≡ true
      → Move f (with_manager (leave_group id f.manager) f)
  move_finalized :
      (f : Fleet) (id : ℕ)
      → (f.conns id).state ≡ connection_closed_state
      → Move f (with_manager (mark_finalized id f.manager) f)
  move_pool : (f : Fleet) (o : Pool.Operation) → Move f (record f { pool = (Pool.step o f.pool).1 })
  move_server : (f : Fleet) (s : Server) → Server.Step f.server s → Move f (record f { server = s })

pub data Moves : Fleet → Fleet → Type 0 where
  no_moves : (f : Fleet) → Moves f f
  and_move : {f g h : Fleet} → Moves f g → Move g h → Moves f h

-- What other goroutines do at a point of the owner.
abbrev pub Others : Type 0
Others = (f : Fleet) → (g : Fleet) × Moves f g

-- A round of waitAll: `chosen` says that select takes the channel of the connection where that is
-- closed, and `changed` that it takes finalizingChange; the context has ended where it does not.
pub record WaitRound : Type 0 where
  pub between_reads : Others
  pub before_wait : ℕ → Others
  pub chosen : ℕ → Bool
  pub before_look : Others
  pub changed : Bool
  pub before_next : Others

-- The points of shutdownOwner, and which side its selects take.
pub record OwnerWorld : Type 0 where
  pub before_setups : Others
  pub setups_chosen : Bool
  pub before_quiesce : ℕ → Others
  pub before_pool : Others
  pub pool_chosen : Bool
  pub before_drain : ℕ → Others
  pub writer_chosen : ℕ → Bool
  pub before_force : ℕ → Others
  pub wait_rounds : List WaitRound
  pub before_services : Others
  pub services_end : Bool
  pub before_late : ℕ → Others

-- A call for each connection of a snapshot, with other moves before it.
unfoldable pub each_connection :
    (ℕ → Others) → (NetConnection CloseReason → NetConnection CloseReason) → List ℕ → Fleet → Fleet
each_connection others call [] f = f
each_connection others call (id ∷ ids) f =
    let g = (others id f).0 in each_connection others call ids (with_conn id (call (g.conns id)) g)

-- The errors of quiesceReads are dropped by the owner.
unfoldable pub quiesce_all : (ℕ → Others) → Fleet → Fleet
unfolding each_connection
quiesce_all others f = each_connection others quiesce_reads (Manager.snapshot f.manager) f

abbrev pub stopping_reason : CloseReason
stopping_reason = record { operation = operation_read; cause = sentinel server_stopping }

unfoldable pub force_close_all : (ℕ → Others) → Fleet → Fleet
unfolding each_connection
force_close_all others f =
    each_connection others (request_close stopping_reason) (Manager.snapshot f.manager) f

abbrev pub is_writer_done : WriterPoint → Bool
is_writer_done writer_done = true
is_writer_done _ = false

-- The loop of stopSendsAndDrain: whether all writers ended in time.
unfoldable pub drain_connections : (ℕ → Others) → (ℕ → Bool) → List ℕ → Fleet → Bool × Fleet
drain_connections others chosen [] f = (true, f)
drain_connections others chosen (id ∷ ids) f =
    let stopped = with_conn id (stop_sends (f.conns id)) f in
    let g = (others id stopped).0 in
    let rest = drain_connections others chosen ids g in
    if chosen id && is_writer_done (g.conns id).writer then rest else (false, g)

-- wait, for each: `c.done` is closed where the state is closed.
unfoldable pub wait_each : (ℕ → Others) → (ℕ → Bool) → List ℕ → Fleet → Bool × Fleet
wait_each others chosen [] f = (true, f)
wait_each others chosen (id ∷ ids) f =
    let g = (others id f).0 in
    let rest = wait_each others chosen ids g in
    if chosen id && (g.conns id).state == connection_closed_state then rest else (false, g)

-- `waiting` is no Go value: waitAll is not back yet.
pub data WaitEnd : Type 0 where
  waited timed_out waiting : WaitEnd

-- A round behind its waits; `next` is the rounds that follow.
abbrev pub after_waits : WaitRound → Bool × Fleet → (Fleet → WaitEnd × Fleet) → WaitEnd × Fleet
after_waits round (false, f) next = (timed_out, f)
after_waits round (true, f) next =
    let g = (round.before_look f).0 in
    if length (finalization_snapshot g.manager) == 0
    then (waited, g)
    else if round.changed
    then next (round.before_next g).0
    else (timed_out, g)

unfoldable pub wait_all : List WaitRound → Fleet → WaitEnd × Fleet
unfolding wait_each
wait_all [] f = (waiting, f)
wait_all (round ∷ rounds) f =
    let g = (round.between_reads f).0 in
    let ids = Manager.snapshot f.manager ++ finalization_snapshot g.manager in
    if length ids == 0
    then (waited, g)
    else after_waits round (wait_each round.before_wait round.chosen ids g) (wait_all rounds)

-- stopAcceptingAndDrain; where its context ends first it cancels the tasks.
unfoldable pub drain_pool : Others → Bool → Fleet → Bool × Fleet
drain_pool others chosen f =
    let g = (others (record f { pool = begin_drain f.pool })).0 in
    if chosen && g.pool.done then (true, g) else (false, record g { pool = force_cancel g.pool })

-- The end: a late owner forces what is left, and then the server is stopped.
unfoldable pub finish_owner : OwnerWorld → Bool → Fleet → Fleet
finish_owner world late f =
    let forced = force_close_all world.before_late (record f { pool = force_cancel f.pool }) in
    let g = if late then forced else f in record g { server = finish_shutdown late g.server }

abbrev pub is_late : WaitEnd → Bool
is_late waited = false
is_late _ = true

-- waitAll and the services; none where waitAll is not back yet.
abbrev pub after_wait_all : OwnerWorld → Bool → WaitEnd × Fleet → Option (Bool × Fleet)
after_wait_all world late (waiting, f) = none
after_wait_all world late (end, f) =
    let late_now = late || is_late end || not world.services_end in
    some (late_now, finish_owner world late_now (world.before_services f).0)

-- From the setups up to waitAll: whether something was late.
unfoldable pub up_to_waits : OwnerWorld → Fleet → Bool × Fleet
unfolding quiesce_all force_close_all drain_connections drain_pool
up_to_waits world f =
    let g = (world.before_setups f).0 in
    let setups_late = not (world.setups_chosen && g.server.setups == 0) in
    let drained =
      drain_pool world.before_pool world.pool_chosen (quiesce_all world.before_quiesce g) in
    let sent =
      drain_connections world.before_drain world.writer_chosen (Manager.snapshot drained.1.manager)
        drained.1 in
    (setups_late || not drained.0 || not sent.0, force_close_all world.before_force sent.1)

abbrev pub close_intake : Fleet → Fleet
close_intake f = record f {
  pool = stop_accepting f.pool;
  server = stop_connection_setups f.server;
  resources_closed = true;
}

-- shutdownOwner: whether it was late, and what it leaves.
unfoldable pub shutdown_owner : OwnerWorld → Fleet → Option (Bool × Fleet)
unfolding up_to_waits wait_all finish_owner
shutdown_owner world f =
    let before = up_to_waits world (close_intake f) in
    after_wait_all world before.0 (wait_all world.wait_rounds before.1)
