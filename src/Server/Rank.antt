-- ===== src/Server/Rank.antt =====
-- server.go: no step takes the state of a server back.
use ramix.Server.State.{
  ServerState, rank, state_new, state_starting, state_running, state_stopping, state_stopped,
}
use ramix.Server.Life.{Life, starting_lem}
use ramix.Server.{
  Server, claim_run, claim_in, rollback_startup, begin_serving, close_shutdown_done, start_shutdown,
  stop_if_running, shutdown, shutdown_in, start_owner, stop_connection_setups, finish_shutdown,
  begin_connection_setup, finish_connection_setup, Step, step_run, step_rollback, step_serve,
  step_cancel, step_shutdown, step_owner, step_stop_setups, step_finish, step_setup,
  step_setup_done, ◌≡◌,
}
use ramix.Prelude.{
  ◌≤◌, ◌≡◌, Bool, true, arith, Bool-cases, false, inl, ap, if_true, inr, if_false, ◌||◌, suc, ◌∙◌,
  refl,
}

abbrev pub is_stopped : ServerState → Bool
is_stopped state_stopped = true
is_stopped _ = false

rank_le : (st : ServerState) → rank st ≤ 4
rank_le state_new = omega arith
rank_le state_starting = omega arith
rank_le state_running = omega arith
rank_le state_stopping = omega arith
rank_le state_stopped = omega arith

close_shutdown_done-state : (s : Server) → (close_shutdown_done s).state ≡ s.state
unfolding close_shutdown_done
close_shutdown_done-state s = elim (Bool-cases s.shutdown_once) [
  | inl e ↦ ap (λ (t : Server). t.state) (if_true _ _ e)
  | inr e ↦ ap (λ (t : Server). t.state) (if_false _ _ e)
]

rollback_startup-state : (s : Server) → (rollback_startup s).state ≡ state_stopped
unfolding rollback_startup
rollback_startup-state s = close_shutdown_done-state _

pub finish_shutdown-state :
    (s : Server) (late : Bool) → (finish_shutdown late s).state ≡ state_stopped
unfolding finish_shutdown
finish_shutdown-state s late = close_shutdown_done-state _

stopped_rank : (st : ServerState) {last : ServerState} → last ≡ state_stopped → rank st ≤ rank last
stopped_rank st e = rw e (rank_le st)

claim_in-rank :
    (st : ServerState) (s : Server) → s.state ≡ st → rank s.state ≤ rank (claim_in st s).1.state
claim_in-rank state_new s e = rw e (omega arith)
claim_in-rank state_starting s e = omega arith
claim_in-rank state_running s e = omega arith
claim_in-rank state_stopping s e = omega arith
claim_in-rank state_stopped s e = omega arith

shutdown_in-rank :
    (st : ServerState) (s : Server) → s.state ≡ st → rank s.state ≤ rank (shutdown_in st s).1.state
shutdown_in-rank state_new s e = omega arith
shutdown_in-rank state_starting s e = omega arith
shutdown_in-rank state_running s e = rw e (omega arith)
shutdown_in-rank state_stopping s e = omega arith
shutdown_in-rank state_stopped s e = omega arith

stop_if_running-rank : (st : ServerState) → rank st ≤ rank (stop_if_running st)
stop_if_running-rank state_new = omega arith
stop_if_running-rank state_starting = omega arith
stop_if_running-rank state_running = omega arith
stop_if_running-rank state_stopping = omega arith
stop_if_running-rank state_stopped = omega arith

begin_serving-rank :
    (s : Server) (cancelled : Bool)
    → s.state ≡ state_starting
    → rank s.state ≤ rank (begin_serving cancelled s).state
unfolding begin_serving
begin_serving-rank s cancelled e = elim (Bool-cases (s.stop_requested || cancelled)) [
  | inl stop ↦ rw (if_true _ _ stop) (stopped_rank s.state (rollback_startup-state s))
  | inr go ↦ rw (if_false _ _ go) (rw e (omega arith))
]

pub start_owner-state : (s : Server) → (start_owner s).state ≡ s.state
unfolding start_owner
start_owner-state s = elim (Bool-cases s.start_once) [
  | inl e ↦ ap (λ (t : Server). t.state) (if_true _ _ e)
  | inr e ↦ ap (λ (t : Server). t.state) (if_false _ _ e)
]

pub start_owner-timed_out : (s : Server) → (start_owner s).timed_out ≡ s.timed_out
unfolding start_owner
start_owner-timed_out s = elim (Bool-cases s.start_once) [
  | inl e ↦ ap (λ (t : Server). t.timed_out) (if_true _ _ e)
  | inr e ↦ ap (λ (t : Server). t.timed_out) (if_false _ _ e)
]

pub setup-same :
    {V : Type 0} (read : Server → V) (s : Server)
    → read (record s { setups = suc s.setups }) ≡ read s
    → read (begin_connection_setup s).1 ≡ read s
unfolding begin_connection_setup
setup-same read s same = elim (Bool-cases s.accepting_setups) [
  | inl e ↦ ap (λ (x : Bool × Server). read x.1) (if_true _ _ e) ∙ same
  | inr e ↦ ap (λ (x : Bool × Server). read x.1) (if_false _ _ e)
]

-- A step never takes the server's state back.
pub Step-rank : {s t : Server} → Life s → Step s t → rank s.state ≤ rank t.state
unfolding claim_run shutdown start_shutdown stop_connection_setups finish_connection_setup
Step-rank l (step_run s) = claim_in-rank s.state s refl
Step-rank l (step_rollback s e) = stopped_rank s.state (rollback_startup-state s)
Step-rank l (step_serve s cancelled e) = begin_serving-rank s cancelled (starting_lem s e l).state
Step-rank l (step_cancel s e) = stop_if_running-rank s.state
Step-rank l (step_shutdown s) = shutdown_in-rank s.state s refl
Step-rank l (step_owner s e) = omega (arith, ap rank (start_owner-state s))
Step-rank l (step_stop_setups s e) = omega arith
Step-rank l (step_finish s late e) = stopped_rank s.state (finish_shutdown-state s late)
Step-rank l (step_setup s) = omega (arith, ap rank (setup-same (λ x. x.state) s refl))
Step-rank l (step_setup_done s e) = omega arith
