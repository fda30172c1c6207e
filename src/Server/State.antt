-- ===== src/Server/State.antt =====
-- server_state.go: the states of a server, in the order in which it passes them, and what each
-- allows.
use ramix.Prelude.{ℕ, Result, ok, err, server_running, server_stopped}

pub data ServerState : Type 0 where
  state_new state_starting state_running state_stopping state_stopped : ServerState

abbrev pub rank : ServerState → ℕ
rank state_new = 0
rank state_starting = 1
rank state_running = 2
rank state_stopping = 3
rank state_stopped = 4

unfoldable pub mutation_error : ServerState → Result (Unit {0})
mutation_error state_new = ok tt
mutation_error state_stopped = err server_stopped
mutation_error _ = err server_running
