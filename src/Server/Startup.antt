-- ===== src/Server/Startup.antt =====
-- server.go: the steps of Run keep the invariant of the server's life.
use ramix.Server.State.{
  ServerState, state_new, state_starting, state_running, state_stopping, state_stopped,
}
use ramix.Server.Life.{
  Life, life_new, life_starting, life_running, life_claimed, life_admitting, life_draining,
  life_rolled_back, life_finished, new_lem, starting_lem,
}
use ramix.Server.{
  Server, claim_in, rollback_startup, begin_serving, close_shutdown_done, start_shutdown,
  stop_if_running, ◌≡◌, run_starting, run_serving,
}
use ramix.Prelude.{◌≡◌, Bool, Bool-cases, arith, inl, refl, if_false, ◌||◌, ap, suc, if_true, inr}

pub claim_in-Life : (st : ServerState) (s : Server) → s.state ≡ st → Life s → Life (claim_in st s).1
claim_in-Life state_new s e l =
    let at = new_lem s e l in
    life_starting (record {
      state = refl;
      run = refl;
      setups = at.setups;
      owner = at.owner;
      open_done = at.open_done;
    })
claim_in-Life state_starting s e l = l
claim_in-Life state_running s e l = l
claim_in-Life state_stopping s e l = l
claim_in-Life state_stopped s e l = l

-- A server that is starting rolls back and is stopped.
pub rollback_startup-Life :
    (s : Server) → s.run_at ≡ run_starting → Life s → Life (rollback_startup s)
unfolding rollback_startup close_shutdown_done
rollback_startup-Life s e l =
    let at = starting_lem s e l in
    rw (if_false _ _ at.open_done.once) (
      life_rolled_back (record {
        state = refl;
        run = refl;
        startup = refl;
        setups = at.setups;
        owner = at.owner;
        closed_done = record { once = refl; flag = refl; count = ap suc at.open_done.count };
      }))

pub begin_serving-Life :
    (s : Server) (cancelled : Bool)
    → s.run_at ≡ run_starting
    → Life s
    → Life (begin_serving cancelled s)
unfolding begin_serving
begin_serving-Life s cancelled e l = elim (Bool-cases (s.stop_requested || cancelled)) [
  | inl stop ↦ rw (if_true _ _ stop) (rollback_startup-Life s e l)
  | inr go ↦ rw (if_false _ _ go) (
      let at = starting_lem s e l in
      life_running (record {
        state = refl;
        past = record { not_idle = λ e. cc; not_starting = λ e. cc; flag = refl };
        owner = at.owner;
        open_done = at.open_done;
      }))
]

pub start_shutdown-Life : (s : Server) → s.run_at ≡ run_serving → Life s → Life (start_shutdown s)
unfolding start_shutdown
start_shutdown-Life s e (life_new at) = absurd (let p = at.run in cc)
start_shutdown-Life s e (life_starting at) = absurd (let p = at.run in cc)
start_shutdown-Life s e (life_running at) = life_claimed (record {
  state = ap stop_if_running at.state;
  once = at.owner.once;
  count = omega arith;
  point = at.owner.point;
  past = record { not_idle = λ e. cc; not_starting = λ e. cc; flag = at.past.flag };
  open_done = at.open_done;
})
start_shutdown-Life s e (life_claimed at) = life_claimed (record {
  state = ap stop_if_running at.state;
  once = at.once;
  count = omega arith;
  point = at.point;
  past = record { not_idle = λ e. cc; not_starting = λ e. cc; flag = at.past.flag };
  open_done = at.open_done;
})
start_shutdown-Life s e (life_admitting at) = life_admitting (record {
  state = ap stop_if_running at.state;
  once = at.once;
  point = at.point;
  past = record { not_idle = λ e. cc; not_starting = λ e. cc; flag = at.past.flag };
  open_done = at.open_done;
})
start_shutdown-Life s e (life_draining at) = life_draining (record {
  state = ap stop_if_running at.state;
  once = at.once;
  point = at.point;
  setups = at.setups;
  past = record { not_idle = λ e. cc; not_starting = λ e. cc; flag = at.past.flag };
  open_done = at.open_done;
})
start_shutdown-Life s e (life_rolled_back at) = absurd (let p = at.run in cc)
start_shutdown-Life s e (life_finished at) = life_finished (record {
  state = ap stop_if_running at.state;
  once = at.once;
  point = at.point;
  setups = at.setups;
  past = record { not_idle = λ e. cc; not_starting = λ e. cc; flag = at.past.flag };
  closed_done = at.closed_done;
})
