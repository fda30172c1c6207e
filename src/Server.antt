-- ===== src/Server.antt =====
-- server.go, server_state.go: the life of a server, as steps of the goroutines that touch its
-- state under stateMu and setupMu. A call of Run is `run_at`: where its goroutine stands. The
-- goroutine that owns the shutdown is `owner_at`. Goroutines between the state change and
-- `shutdownStartOnce.Do` are counted in `starters`. Listeners, services and connections are not
-- part of the state: what they decide (an error at startup, a time-out) is the caller's choice of
-- step.
pub mod State
pub mod Life
pub mod Startup
pub mod Owning
pub mod Preserve
pub mod Rank
pub mod Shutdown
mod Tests
use ramix.Server.State.{
  ServerState, state_new, state_starting, state_running, state_stopping, state_stopped,
}
use ramix.Prelude.{
  ℕ, Bool, false, if◌then◌else◌, Result, suc, true, ◌||◌, ◌-◌, Option, ◌≡◌, ok, Error, ◌<◌, err,
  some, server_stopped, shutdown_timeout, server_running, none,
}

pub data RunPoint : Type 0 where
  run_idle run_starting run_serving run_left : RunPoint

-- `owner_admitting` comes before stopConnectionSetups, `owner_draining` behind it.
pub data OwnerPoint : Type 0 where
  owner_none owner_admitting owner_draining owner_left : OwnerPoint

-- `startup_done` and `shutdown_done` say that the channel is closed; `closes` counts the calls of
-- close on `shutdownDone`, of which a second one would panic. `shutdown_once` is the once that
-- guards it and `start_once` is shutdownStartOnce. `setups` is the count of setupWG.
pub record Server : Type 0 where
  pub state : ServerState
  pub stop_requested : Bool
  pub startup_done : Bool
  pub shutdown_done : Bool
  pub closes : ℕ
  pub shutdown_once : Bool
  pub start_once : Bool
  pub timed_out : Bool
  pub accepting_setups : Bool
  pub setups : ℕ
  pub starters : ℕ
  pub run_at : RunPoint
  pub owner_at : OwnerPoint

abbrev pub new_server : Server
new_server = record {
  state = state_new;
  stop_requested = false;
  startup_done = false;
  shutdown_done = false;
  closes = 0;
  shutdown_once = false;
  start_once = false;
  timed_out = false;
  accepting_setups = false;
  setups = 0;
  starters = 0;
  run_at = run_idle;
  owner_at = owner_none;
}

-- closeOnce on shutdownDone.
unfoldable pub close_shutdown_done : Server → Server
close_shutdown_done s =
    if s.shutdown_once
    then s
    else record s { shutdown_once = true; shutdown_done = true; closes = suc s.closes }

abbrev pub claim_in : ServerState → Server → Result (Unit {0}) × Server
claim_in state_new s = (ok tt, record s { state = state_starting; run_at = run_starting })
claim_in state_stopped s = (err server_stopped, s)
claim_in _ s = (err server_running, s)

-- What a call of Run does under the lock.
unfoldable pub claim_run : Server → Result (Unit {0}) × Server
claim_run s = claim_in s.state s

-- The last section of rollbackStartup.
unfoldable pub rollback_startup : Server → Server
rollback_startup s =
    close_shutdown_done (record s {
      state = state_stopped;
      timed_out = false;
      startup_done = true;
      run_at = run_left;
    })

-- The section of Run that starts to serve, unless a stop was requested or its context ended.
unfoldable pub begin_serving : Bool → Server → Server
begin_serving cancelled s = if s.stop_requested || cancelled then rollback_startup s else record s {
  accepting_setups = true;
  state = state_running;
  startup_done = true;
  run_at = run_serving;
}

abbrev pub stop_if_running : ServerState → ServerState
stop_if_running state_running = state_stopping
stop_if_running other = other

-- startShutdown up to the once; Run, its only caller, waits for shutdownDone from there on.
unfoldable pub start_shutdown : Server → Server
start_shutdown s = record s {
  state = stop_if_running s.state;
  starters = suc s.starters;
  run_at = run_left;
}

-- What a call of Shutdown goes on with: it returns with nil or with the terminal error, or waits for
-- one of the two channels.
pub data ShutdownWait : Type 0 where
  return_nil return_terminal await_startup await_shutdown : ShutdownWait

abbrev pub shutdown_in : ServerState → Server → ShutdownWait × Server
shutdown_in state_new s = (return_nil, s)
shutdown_in state_starting s = (await_startup, record s { stop_requested = true })
shutdown_in state_running s =
    (await_shutdown, record s { state = state_stopping; starters = suc s.starters })
shutdown_in state_stopping s = (await_shutdown, s)
shutdown_in state_stopped s = (return_terminal, s)

unfoldable pub shutdown : Server → ShutdownWait × Server
shutdown s = shutdown_in s.state s

-- `shutdownStartOnce.Do`, by one of those who are about to.
unfoldable pub start_owner : Server → Server
start_owner s =
    if s.start_once
    then record s { starters = s.starters - 1 }
    else record s { starters = s.starters - 1; start_once = true; owner_at = owner_admitting }

unfoldable pub stop_connection_setups : Server → Server
stop_connection_setups s = record s { accepting_setups = false; owner_at = owner_draining }

-- The last section of shutdownOwner, after a drain that was in time or not.
unfoldable pub finish_shutdown : Bool → Server → Server
finish_shutdown late s =
    close_shutdown_done
      (record s { timed_out = late || s.timed_out; state = state_stopped; owner_at = owner_left })

unfoldable pub begin_connection_setup : Server → Bool × Server
begin_connection_setup s =
    if s.accepting_setups then (true, record s { setups = suc s.setups }) else (false, s)

unfoldable pub finish_connection_setup : Server → Server
finish_connection_setup s = record s { setups = s.setups - 1 }

-- terminalShutdownError
unfoldable pub terminal_shutdown_error : Server → Option Error
terminal_shutdown_error s = if s.timed_out then some shutdown_timeout else none

-- The steps, each where its goroutine stands at it. Any number of callers may call Run, Shutdown and
-- begin_connection_setup at any time; Run's own goroutine and the owner go on from where they are.
pub data Step : Server → Server → Type 0 where
  step_run : (s : Server) → Step s (claim_run s).1
  step_rollback : (s : Server) → s.run_at ≡ run_starting → Step s (rollback_startup s)
  step_serve :
      (s : Server) (cancelled : Bool) → s.run_at ≡ run_starting → Step s (begin_serving cancelled s)
  step_cancel : (s : Server) → s.run_at ≡ run_serving → Step s (start_shutdown s)
  step_shutdown : (s : Server) → Step s (shutdown s).1
  step_owner : (s : Server) → 0 < s.starters → Step s (start_owner s)
  step_stop_setups : (s : Server) → s.owner_at ≡ owner_admitting → Step s (stop_connection_setups s)
  step_finish :
      (s : Server) (late : Bool) → s.owner_at ≡ owner_draining → Step s (finish_shutdown late s)
  step_setup : (s : Server) → Step s (begin_connection_setup s).1
  step_setup_done : (s : Server) → 0 < s.setups → Step s (finish_connection_setup s)

-- Any number of steps.
pub data Steps : Server → Server → Type 0 where
  done : (s : Server) → Steps s s
  more : {s t u : Server} → Steps s t → Step t u → Steps s u
