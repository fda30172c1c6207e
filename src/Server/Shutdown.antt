-- ===== src/Server/Shutdown.antt =====
-- server.go: what a reachable server's state, its channels and its terminal error can be.
use ramix.Server.State.{rank, state_stopping, state_stopped}
use ramix.Server.Life.{
  Life, life_new, life_starting, life_running, life_claimed, life_admitting, life_draining,
  life_rolled_back, life_finished, starting_lem, draining_lem, new_server-Life, IsOpen, IsClosed,
  admitting_lem,
}
use ramix.Server.Preserve.{Steps-Life}
use ramix.Server.{
  Server, new_server, claim_run, claim_in, start_shutdown, stop_if_running, shutdown, shutdown_in,
  start_owner, stop_connection_setups, finish_shutdown, finish_connection_setup, Step, step_run,
  step_rollback, step_serve, step_cancel, step_shutdown, step_owner, step_stop_setups, step_finish,
  step_setup, step_setup_done, Steps, done, more, owner_admitting, ◌≡◌, terminal_shutdown_error,
  return_terminal, owner_draining,
}
use ramix.Prelude.{
  ◌≤◌, ◌≡◌, Bool, arith, false, ap, if_false, ◌∙◌, refl, sym, err, server_stopped, if◌then◌else◌,
  some, shutdown_timeout, none, ◌&&◌, ◌<◌,
}
use mathlib.Core.Path.{subst}
use ramix.Server.Rank.{
  Step-rank, finish_shutdown-state, is_stopped, setup-same, start_owner-state,
  start_owner-timed_out,
}

-- What the channel shutdownDone and the gate of the setups say.
pub record IsOrderly (s : Server) : Type 0 where
  pub closed_once : s.closes ≤ 1
  pub closed_when_stopped : s.shutdown_done ≡ is_stopped s.state
  pub shut_when_stopped : (is_stopped s.state && s.accepting_setups) ≡ false

open-IsOrderly :
    (s : Server)
    → IsOpen s.shutdown_once s.shutdown_done s.closes
    → is_stopped s.state ≡ false
    → IsOrderly s
open-IsOrderly s gate ne = record {
  closed_once = omega (arith, gate.count);
  closed_when_stopped = gate.flag ∙ sym ne;
  shut_when_stopped = ap (λ b. b && s.accepting_setups) ne;
}

closed-IsOrderly :
    (s : Server)
    → IsClosed s.shutdown_once s.shutdown_done s.closes
    → s.state ≡ state_stopped
    → s.accepting_setups ≡ false
    → IsOrderly s
closed-IsOrderly s gate e shut = record {
  closed_once = omega (arith, gate.count);
  closed_when_stopped = gate.flag ∙ sym (ap is_stopped e);
  shut_when_stopped = ap (λ st. is_stopped st && s.accepting_setups) e ∙ shut;
}

Life-IsOrderly : (s : Server) → Life s → IsOrderly s
Life-IsOrderly s (life_new at) = open-IsOrderly s at.open_done (ap is_stopped at.state)
Life-IsOrderly s (life_starting at) = open-IsOrderly s at.open_done (ap is_stopped at.state)
Life-IsOrderly s (life_running at) = open-IsOrderly s at.open_done (ap is_stopped at.state)
Life-IsOrderly s (life_claimed at) = open-IsOrderly s at.open_done (ap is_stopped at.state)
Life-IsOrderly s (life_admitting at) = open-IsOrderly s at.open_done (ap is_stopped at.state)
Life-IsOrderly s (life_draining at) = open-IsOrderly s at.open_done (ap is_stopped at.state)
Life-IsOrderly s (life_rolled_back at) = closed-IsOrderly s at.closed_done at.state at.setups
Life-IsOrderly s (life_finished at) = closed-IsOrderly s at.closed_done at.state at.setups

-- In every server that any interleaving of callers, Run and the shutdown's owner reaches,
-- shutdownDone was closed at most once, which is so exactly where the state is stopped, and a
-- stopped server admits no connection.
pub reachable-IsOrderly : (s : Server) → Steps new_server s → IsOrderly s
reachable-IsOrderly s steps = Life-IsOrderly s (Steps-Life new_server-Life steps)

-- From any server that a life reaches, no further steps take its state back in the order new,
-- starting, running, stopping, stopped.
pub reachable-rank : {s t : Server} → Steps new_server s → Steps s t → rank s.state ≤ rank t.state
reachable-rank before (done s) = omega arith
reachable-rank before (more {t = u} steps step) = omega (
  arith,
  reachable-rank before steps,
  Step-rank (Steps-Life (Steps-Life new_server-Life before) steps) step,
)

-- Stopped, with the same terminal error.
abbrev pub IsStoppedAs : Server → Server → Type 0
IsStoppedAs s t = (t.state ≡ state_stopped) × (t.timed_out ≡ s.timed_out)

Step-stopped : {s t : Server} → Life s → s.state ≡ state_stopped → Step s t → IsStoppedAs s t
unfolding claim_run shutdown start_shutdown stop_connection_setups finish_connection_setup
Step-stopped l e (step_run s) = subst (λ st. IsStoppedAs s (claim_in st s).1) (sym e) (e, refl)
Step-stopped l e (step_rollback s at) = absurd (let p = (starting_lem s at l).state in cc)
Step-stopped l e (step_serve s cancelled at) = absurd (let p = (starting_lem s at l).state in cc)
Step-stopped l e (step_cancel s at) = (ap stop_if_running e, refl)
Step-stopped l e (step_shutdown s) =
    subst (λ st. IsStoppedAs s (shutdown_in st s).1) (sym e) (e, refl)
Step-stopped l e (step_owner s some_starter) = (start_owner-state s ∙ e, start_owner-timed_out s)
Step-stopped l e (step_stop_setups s at) = absurd (let p = (admitting_lem s at l).state in cc)
Step-stopped l e (step_finish s late at) = absurd (let p = (draining_lem s at l).state in cc)
Step-stopped l e (step_setup s) =
    (setup-same (λ x. x.state) s refl ∙ e, setup-same (λ x. x.timed_out) s refl)
Step-stopped l e (step_setup_done s some_setup) = (e, refl)

stays : {s t : Server} → Life s → s.state ≡ state_stopped → Steps s t → IsStoppedAs s t
stays l e (done s) = (e, refl)
stays l e (more steps step) =
    let (at, same) = stays l e steps in
    let (at_last, same_last) = Step-stopped (Steps-Life l steps) at step in
    (at_last, same_last ∙ same)

-- Once a server is stopped, every later call of Run is refused with ErrServerStopped, and every
-- later call of Shutdown returns at once, with the terminal error that the server had when it
-- stopped.
pub stopped_forever :
    {s t : Server}
    → Steps new_server s
    → s.state ≡ state_stopped
    → Steps s t
    → ((claim_run t).0 ≡ err server_stopped)
      × ((shutdown t).0 ≡ return_terminal)
      × (terminal_shutdown_error t ≡ terminal_shutdown_error s)
unfolding claim_run shutdown terminal_shutdown_error
stopped_forever {t = t} before e steps =
    let (at, same) = stays (Steps-Life new_server-Life before) e steps in
    (
      ap (λ st. (claim_in st t).0) at,
      ap (λ st. (shutdown_in st t).0) at,
      ap (λ (late : Bool). if late then some shutdown_timeout else none) same,
    )

-- A step of the goroutines that a shutdown has started, with no help of a caller, of Run's context
-- or of a setup.
pub data OwnStep : Server → Server → Type 0 where
  own_start : (s : Server) → 0 < s.starters → OwnStep s (start_owner s)
  own_stop_setups :
      (s : Server) → s.owner_at ≡ owner_admitting → OwnStep s (stop_connection_setups s)
  own_finish :
      (s : Server) (late : Bool) → s.owner_at ≡ owner_draining → OwnStep s (finish_shutdown late s)

pub data OwnSteps : Server → Server → Type 0 where
  own_done : (s : Server) → OwnSteps s s
  own_more : {s t u : Server} → OwnStep s t → OwnSteps t u → OwnSteps s u

-- The first of those who are about to start the owner starts it.
started : (s : Server) → s.start_once ≡ false → (start_owner s).owner_at ≡ owner_admitting
unfolding start_owner
started s e = ap (λ (t : Server). t.owner_at) (if_false _ _ e)

-- Own steps alone lead to the state stopped.
abbrev pub LeadsToStopped : Server → Type 0
LeadsToStopped s = (t : Server) × OwnSteps s t × (t.state ≡ state_stopped)

step_before : {s t : Server} → OwnStep s t → LeadsToStopped t → LeadsToStopped s
step_before step (u, steps, stopped) = (u, own_more step steps, stopped)

ends_draining : (s : Server) → s.owner_at ≡ owner_draining → LeadsToStopped s
ends_draining s e =
    step_before (own_finish s false e)
      (finish_shutdown false s, own_done (finish_shutdown false s), finish_shutdown-state s false)

ends_admitting : (s : Server) → s.owner_at ≡ owner_admitting → LeadsToStopped s
unfolding stop_connection_setups
ends_admitting s e =
    step_before (own_stop_setups s e) (ends_draining (stop_connection_setups s) refl)

-- A shutdown that has begun ends by itself: from every reachable server in the state stopping, the
-- steps of the shutdown's own goroutines alone (the start of the owner by the one who claimed the
-- shutdown, the end of the setups' admission, the end of the drain) lead to the state stopped, with
-- no further call of Run or Shutdown, no end of Run's context and no step of a setup.
pub stopping_ends : {s : Server} → Steps new_server s → s.state ≡ state_stopping → LeadsToStopped s
stopping_ends {s = s} before e = ends (Steps-Life new_server-Life before)
  where
    ends : Life s → LeadsToStopped s
    ends (life_new at) = absurd (let p = at.state in cc)
    ends (life_starting at) = absurd (let p = at.state in cc)
    ends (life_running at) = absurd (let p = at.state in cc)
    ends (life_claimed at) =
        step_before (own_start s at.count) (ends_admitting (start_owner s) (started s at.once))
    ends (life_admitting at) = ends_admitting s at.point
    ends (life_draining at) = ends_draining s at.point
    ends (life_rolled_back at) = absurd (let p = at.state in cc)
    ends (life_finished at) = absurd (let p = at.state in cc)
