-- ===== src/Server/Preserve.antt =====
-- server.go: every step keeps the invariant of the server's life.
use ramix.Server.Life.{
  Life, life_new, life_starting, life_running, life_claimed, life_admitting, life_draining,
  life_rolled_back, life_finished,
}
use ramix.Server.{
  Server, claim_run, shutdown, begin_connection_setup, finish_connection_setup, Step, step_run,
  step_rollback, step_serve, step_cancel, step_shutdown, step_owner, step_stop_setups, step_finish,
  step_setup, step_setup_done, Steps, done, more, ◌-◌,
}
use ramix.Prelude.{Bool, ℕ, Bool-cases, ◌-◌, inl, refl, if_false, suc, if_true, sym, inr}
use mathlib.Core.Path.{subst}
use ramix.Server.Startup.{
  claim_in-Life, rollback_startup-Life, begin_serving-Life, start_shutdown-Life,
}
use ramix.Server.Owning.{
  finish_shutdown-Life, shutdown_in-Life, start_owner-Life, stop_connection_setups-Life,
}

-- The count of the setups is no part of the invariant.
count-Life : (s : Server) (n : ℕ) → Life s → Life (record s { setups = n })
count-Life s n (life_new at) = life_new (record {
  state = at.state;
  run = at.run;
  setups = at.setups;
  owner = at.owner;
  open_done = at.open_done;
})
count-Life s n (life_starting at) = life_starting (record {
  state = at.state;
  run = at.run;
  setups = at.setups;
  owner = at.owner;
  open_done = at.open_done;
})
count-Life s n (life_running at) =
    life_running
      (record { state = at.state; past = at.past; owner = at.owner; open_done = at.open_done })
count-Life s n (life_claimed at) = life_claimed (record {
  state = at.state;
  once = at.once;
  count = at.count;
  point = at.point;
  past = at.past;
  open_done = at.open_done;
})
count-Life s n (life_admitting at) = life_admitting (record {
  state = at.state;
  once = at.once;
  point = at.point;
  past = at.past;
  open_done = at.open_done;
})
count-Life s n (life_draining at) = life_draining (record {
  state = at.state;
  once = at.once;
  point = at.point;
  setups = at.setups;
  past = at.past;
  open_done = at.open_done;
})
count-Life s n (life_rolled_back at) = life_rolled_back (record {
  state = at.state;
  run = at.run;
  startup = at.startup;
  setups = at.setups;
  owner = at.owner;
  closed_done = at.closed_done;
})
count-Life s n (life_finished at) = life_finished (record {
  state = at.state;
  once = at.once;
  point = at.point;
  setups = at.setups;
  past = at.past;
  closed_done = at.closed_done;
})

begin_connection_setup-Life : (s : Server) → Life s → Life (begin_connection_setup s).1
unfolding begin_connection_setup
begin_connection_setup-Life s l = elim (Bool-cases s.accepting_setups) [
  | inl open_gate ↦
      subst (λ (x : Bool × Server). Life x.1) (sym (if_true _ _ open_gate))
        (count-Life s (suc s.setups) l)
  | inr shut ↦ subst (λ (x : Bool × Server). Life x.1) (sym (if_false _ _ shut)) l
]

-- Every step of every goroutine keeps the invariant.
pub Step-Life : {s t : Server} → Life s → Step s t → Life t
unfolding claim_run shutdown finish_connection_setup
Step-Life l (step_run s) = claim_in-Life s.state s refl l
Step-Life l (step_rollback s e) = rollback_startup-Life s e l
Step-Life l (step_serve s cancelled e) = begin_serving-Life s cancelled e l
Step-Life l (step_cancel s e) = start_shutdown-Life s e l
Step-Life l (step_shutdown s) = shutdown_in-Life s.state s refl l
Step-Life l (step_owner s e) = start_owner-Life s e l
Step-Life l (step_stop_setups s e) = stop_connection_setups-Life s e l
Step-Life l (step_finish s late e) = finish_shutdown-Life s late e l
Step-Life l (step_setup s) = begin_connection_setup-Life s l
Step-Life l (step_setup_done s e) = count-Life s (s.setups - 1) l

pub Steps-Life : {s t : Server} → Life s → Steps s t → Life t
Steps-Life l (done s) = l
Steps-Life l (more steps step) = Step-Life (Steps-Life l steps) step
