-- ===== src/Server/Life.antt =====
-- server.go: the invariant of a server's life, which every step of every goroutine keeps.
use ramix.Server.State.{state_new, state_starting, state_running, state_stopping, state_stopped}
use ramix.Server.{
  Server, new_server, run_idle, run_starting, run_left, owner_none, owner_admitting, owner_draining,
  owner_left, ◌≡◌, RunPoint, OwnerPoint,
}
use ramix.Prelude.{◌≡◌, false, true, ◌<◌, refl, ◌≢◌, Bool, ℕ}

-- shutdownDone is open.
pub record IsOpen (shutdown_once shutdown_done : Bool) (closes : ℕ) : Type 0 where
  pub once : shutdown_once ≡ false
  pub flag : shutdown_done ≡ false
  pub count : closes ≡ 0

-- shutdownDone was closed, once.
pub record IsClosed (shutdown_once shutdown_done : Bool) (closes : ℕ) : Type 0 where
  pub once : shutdown_once ≡ true
  pub flag : shutdown_done ≡ true
  pub count : closes ≡ 1

-- No goroutine owns the shutdown, and none is about to.
pub record IsUnowned (start_once : Bool) (starters : ℕ) (owner_at : OwnerPoint) : Type 0 where
  pub once : start_once ≡ false
  pub count : starters ≡ 0
  pub point : owner_at ≡ owner_none

-- Run has passed its startup.
pub record IsPast (run_at : RunPoint) (startup_done : Bool) : Type 0 where
  pub not_idle : run_at ≢ run_idle
  pub not_starting : run_at ≢ run_starting
  pub flag : startup_done ≡ true

pub record AtNew (s : Server) : Type 0 where
  pub state : s.state ≡ state_new
  pub run : s.run_at ≡ run_idle
  pub setups : s.accepting_setups ≡ false
  pub owner : IsUnowned s.start_once s.starters s.owner_at
  pub open_done : IsOpen s.shutdown_once s.shutdown_done s.closes

pub record AtStarting (s : Server) : Type 0 where
  pub state : s.state ≡ state_starting
  pub run : s.run_at ≡ run_starting
  pub setups : s.accepting_setups ≡ false
  pub owner : IsUnowned s.start_once s.starters s.owner_at
  pub open_done : IsOpen s.shutdown_once s.shutdown_done s.closes

pub record AtRunning (s : Server) : Type 0 where
  pub state : s.state ≡ state_running
  pub past : IsPast s.run_at s.startup_done
  pub owner : IsUnowned s.start_once s.starters s.owner_at
  pub open_done : IsOpen s.shutdown_once s.shutdown_done s.closes

-- The state is stopping, and some goroutine is about to start the owner.
pub record AtClaimed (s : Server) : Type 0 where
  pub state : s.state ≡ state_stopping
  pub once : s.start_once ≡ false
  pub count : 0 < s.starters
  pub point : s.owner_at ≡ owner_none
  pub past : IsPast s.run_at s.startup_done
  pub open_done : IsOpen s.shutdown_once s.shutdown_done s.closes

pub record AtAdmitting (s : Server) : Type 0 where
  pub state : s.state ≡ state_stopping
  pub once : s.start_once ≡ true
  pub point : s.owner_at ≡ owner_admitting
  pub past : IsPast s.run_at s.startup_done
  pub open_done : IsOpen s.shutdown_once s.shutdown_done s.closes

pub record AtDraining (s : Server) : Type 0 where
  pub state : s.state ≡ state_stopping
  pub once : s.start_once ≡ true
  pub point : s.owner_at ≡ owner_draining
  pub setups : s.accepting_setups ≡ false
  pub past : IsPast s.run_at s.startup_done
  pub open_done : IsOpen s.shutdown_once s.shutdown_done s.closes

pub record AtRolledBack (s : Server) : Type 0 where
  pub state : s.state ≡ state_stopped
  pub run : s.run_at ≡ run_left
  pub startup : s.startup_done ≡ true
  pub setups : s.accepting_setups ≡ false
  pub owner : IsUnowned s.start_once s.starters s.owner_at
  pub closed_done : IsClosed s.shutdown_once s.shutdown_done s.closes

pub record AtFinished (s : Server) : Type 0 where
  pub state : s.state ≡ state_stopped
  pub once : s.start_once ≡ true
  pub point : s.owner_at ≡ owner_left
  pub setups : s.accepting_setups ≡ false
  pub past : IsPast s.run_at s.startup_done
  pub closed_done : IsClosed s.shutdown_once s.shutdown_done s.closes

-- Where a server can be.
pub data Life (s : Server) : Type 0 where
  life_new : AtNew s → Life s
  life_starting : AtStarting s → Life s
  life_running : AtRunning s → Life s
  life_claimed : AtClaimed s → Life s
  life_admitting : AtAdmitting s → Life s
  life_draining : AtDraining s → Life s
  life_rolled_back : AtRolledBack s → Life s
  life_finished : AtFinished s → Life s

pub new_server-Life : Life new_server
new_server-Life = life_new (record {
  state = refl;
  run = refl;
  setups = refl;
  owner = record { once = refl; count = refl; point = refl };
  open_done = record { once = refl; flag = refl; count = refl };
})

-- In the first state nothing was started.
pub new_lem : (s : Server) → s.state ≡ state_new → Life s → AtNew s
new_lem s e (life_new at) = at
new_lem s e (life_starting at) = absurd (let p = at.state in cc)
new_lem s e (life_running at) = absurd (let p = at.state in cc)
new_lem s e (life_claimed at) = absurd (let p = at.state in cc)
new_lem s e (life_admitting at) = absurd (let p = at.state in cc)
new_lem s e (life_draining at) = absurd (let p = at.state in cc)
new_lem s e (life_rolled_back at) = absurd (let p = at.state in cc)
new_lem s e (life_finished at) = absurd (let p = at.state in cc)

-- While Run starts up, the server is in its second state.
pub starting_lem : (s : Server) → s.run_at ≡ run_starting → Life s → AtStarting s
starting_lem s e (life_new at) = absurd (let p = at.run in cc)
starting_lem s e (life_starting at) = at
starting_lem s e (life_running at) = absurd (at.past.not_starting e)
starting_lem s e (life_claimed at) = absurd (at.past.not_starting e)
starting_lem s e (life_admitting at) = absurd (at.past.not_starting e)
starting_lem s e (life_draining at) = absurd (at.past.not_starting e)
starting_lem s e (life_rolled_back at) = absurd (let p = at.run in cc)
starting_lem s e (life_finished at) = absurd (at.past.not_starting e)

-- While the server runs, no one owns its shutdown.
pub running_lem : (s : Server) → s.state ≡ state_running → Life s → AtRunning s
running_lem s e (life_new at) = absurd (let p = at.state in cc)
running_lem s e (life_starting at) = absurd (let p = at.state in cc)
running_lem s e (life_running at) = at
running_lem s e (life_claimed at) = absurd (let p = at.state in cc)
running_lem s e (life_admitting at) = absurd (let p = at.state in cc)
running_lem s e (life_draining at) = absurd (let p = at.state in cc)
running_lem s e (life_rolled_back at) = absurd (let p = at.state in cc)
running_lem s e (life_finished at) = absurd (let p = at.state in cc)

-- What holds where the owner begins.
pub admitting_lem : (s : Server) → s.owner_at ≡ owner_admitting → Life s → AtAdmitting s
admitting_lem s e (life_new at) = absurd (let p = at.owner.point in cc)
admitting_lem s e (life_starting at) = absurd (let p = at.owner.point in cc)
admitting_lem s e (life_running at) = absurd (let p = at.owner.point in cc)
admitting_lem s e (life_claimed at) = absurd (let p = at.point in cc)
admitting_lem s e (life_admitting at) = at
admitting_lem s e (life_draining at) = absurd (let p = at.point in cc)
admitting_lem s e (life_rolled_back at) = absurd (let p = at.owner.point in cc)
admitting_lem s e (life_finished at) = absurd (let p = at.point in cc)

-- What holds once connection setups are stopped.
pub draining_lem : (s : Server) → s.owner_at ≡ owner_draining → Life s → AtDraining s
draining_lem s e (life_new at) = absurd (let p = at.owner.point in cc)
draining_lem s e (life_starting at) = absurd (let p = at.owner.point in cc)
draining_lem s e (life_running at) = absurd (let p = at.owner.point in cc)
draining_lem s e (life_claimed at) = absurd (let p = at.point in cc)
draining_lem s e (life_admitting at) = absurd (let p = at.point in cc)
draining_lem s e (life_draining at) = at
draining_lem s e (life_rolled_back at) = absurd (let p = at.owner.point in cc)
draining_lem s e (life_finished at) = absurd (let p = at.point in cc)
