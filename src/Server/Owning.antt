-- ===== src/Server/Owning.antt =====
-- server.go: the calls of a shutdown keep the invariant of the server's life.
use ramix.Server.State.{
  ServerState, state_new, state_starting, state_running, state_stopping, state_stopped,
}
use ramix.Server.Life.{
  Life, life_new, life_starting, life_running, life_claimed, life_admitting, life_draining,
  life_rolled_back, life_finished, running_lem, admitting_lem, draining_lem,
}
use ramix.Server.{
  Server, close_shutdown_done, shutdown_in, start_owner, stop_connection_setups, finish_shutdown,
  ◌≡◌, ◌<◌, owner_admitting, owner_draining,
}
use ramix.Prelude.{◌≡◌, Bool, ◌<◌, arith, refl, if_false, ap, true, suc, if_true}

pub shutdown_in-Life :
    (st : ServerState) (s : Server) → s.state ≡ st → Life s → Life (shutdown_in st s).1
shutdown_in-Life state_new s e l = l
shutdown_in-Life state_running s e l =
    let at = running_lem s e l in
    life_claimed (record {
      state = refl;
      once = at.owner.once;
      count = omega arith;
      point = at.owner.point;
      past = at.past;
      open_done = at.open_done;
    })
shutdown_in-Life state_stopping s e l = l
shutdown_in-Life state_stopped s e l = l
shutdown_in-Life state_starting s e l = request s l
  where
    request : (s : Server) → Life s → Life (record s { stop_requested = true })
    request s (life_new at) = life_new (record {
      state = at.state;
      run = at.run;
      setups = at.setups;
      owner = at.owner;
      open_done = at.open_done;
    })
    request s (life_starting at) = life_starting (record {
      state = at.state;
      run = at.run;
      setups = at.setups;
      owner = at.owner;
      open_done = at.open_done;
    })
    request s (life_running at) =
        life_running
          (record { state = at.state; past = at.past; owner = at.owner; open_done = at.open_done })
    request s (life_claimed at) = life_claimed (record {
      state = at.state;
      once = at.once;
      count = at.count;
      point = at.point;
      past = at.past;
      open_done = at.open_done;
    })
    request s (life_admitting at) = life_admitting (record {
      state = at.state;
      once = at.once;
      point = at.point;
      past = at.past;
      open_done = at.open_done;
    })
    request s (life_draining at) = life_draining (record {
      state = at.state;
      once = at.once;
      point = at.point;
      setups = at.setups;
      past = at.past;
      open_done = at.open_done;
    })
    request s (life_rolled_back at) = life_rolled_back (record {
      state = at.state;
      run = at.run;
      startup = at.startup;
      setups = at.setups;
      owner = at.owner;
      closed_done = at.closed_done;
    })
    request s (life_finished at) = life_finished (record {
      state = at.state;
      once = at.once;
      point = at.point;
      setups = at.setups;
      past = at.past;
      closed_done = at.closed_done;
    })

pub start_owner-Life : (s : Server) → 0 < s.starters → Life s → Life (start_owner s)
unfolding start_owner
start_owner-Life s e (life_new at) = absurd (let p = at.owner.count in omega arith)
start_owner-Life s e (life_starting at) = absurd (let p = at.owner.count in omega arith)
start_owner-Life s e (life_running at) = absurd (let p = at.owner.count in omega arith)
start_owner-Life s e (life_claimed at) = rw (if_false _ _ at.once) (
    life_admitting (record {
      state = at.state;
      once = refl;
      point = refl;
      past = at.past;
      open_done = at.open_done;
    }))
start_owner-Life s e (life_admitting at) = rw (if_true _ _ at.once) (
    life_admitting (record {
      state = at.state;
      once = at.once;
      point = at.point;
      past = at.past;
      open_done = at.open_done;
    }))
start_owner-Life s e (life_draining at) = rw (if_true _ _ at.once) (
    life_draining (record {
      state = at.state;
      once = at.once;
      point = at.point;
      setups = at.setups;
      past = at.past;
      open_done = at.open_done;
    }))
start_owner-Life s e (life_rolled_back at) = absurd (let p = at.owner.count in omega arith)
start_owner-Life s e (life_finished at) = rw (if_true _ _ at.once) (
    life_finished (record {
      state = at.state;
      once = at.once;
      point = at.point;
      setups = at.setups;
      past = at.past;
      closed_done = at.closed_done;
    }))

pub stop_connection_setups-Life :
    (s : Server) → s.owner_at ≡ owner_admitting → Life s → Life (stop_connection_setups s)
unfolding stop_connection_setups
stop_connection_setups-Life s e l =
    let at = admitting_lem s e l in
    life_draining (record {
      state = at.state;
      once = at.once;
      point = refl;
      setups = refl;
      past = at.past;
      open_done = at.open_done;
    })

pub finish_shutdown-Life :
    (s : Server) (late : Bool)
    → s.owner_at ≡ owner_draining
    → Life s
    → Life (finish_shutdown late s)
unfolding finish_shutdown close_shutdown_done
finish_shutdown-Life s late e l =
    let at = draining_lem s e l in
    rw (if_false _ _ at.open_done.once) (
      life_finished (record {
        state = refl;
        once = at.once;
        point = refl;
        setups = at.setups;
        past = at.past;
        closed_done = record { once = refl; flag = refl; count = ap suc at.open_done.count };
      }))
