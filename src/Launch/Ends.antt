-- ===== src/Launch/Ends.antt =====
-- server.go: what it means that a server serves or is rolled back.
use ramix.Prelude.{
  ◌≡◌, [], true, Bool, false, not, if_false, ap, suc, ◌++◌, ◌∙◌, sym, refl, if◌then◌else◌, if_true,
  arith, ◌||◌,
}
use ramix.Launch.{
  Launch, roll_back, serve, Launched, close_serving_resources, Ending, startup_canceled, serving,
  returned_nil, conclude, World, LaunchError, fails, returned, ids_of, goes_on, is_cancelled,
  start_panics,
}
use ramix.Options.{ServerOptions, same}
use ramix.Pool.{start, new, started, Pool, is_new}
use ramix.Server.{rollback_startup, begin_serving, close_shutdown_done, Server, run_serving}
use ramix.Server.State.{state_running, state_stopped}
use ramix.Launch.Bind.{Part, HasBound, keys_of, IsStarting, AllTls, canceled-HasBound}

-- It runs: it listens for its transports, in order, over TLS exactly where it has a certificate; a
-- service runs on every listener, the pool has started, connections are let in, nothing is closed.
pub record IsServing (o : ServerOptions) (u : Launch) : Type 0 where
  pub state : u.life.state ≡ state_running
  pub startup : u.life.startup_done ≡ true
  pub setups : u.life.accepting_setups ≡ true
  pub bound_keys : keys_of u.listeners ≡ o.transports
  pub bound_flags : AllTls (not (same o.cert_file [])) u.listeners
  pub held : u.bound ≡ ids_of u.listeners
  pub none_closed : u.closed ≡ []
  pub services : u.services ≡ u.listeners
  pub gate : u.serve_gate_open ≡ true
  pub pool : u.worker_pool.state ≡ started

-- It is stopped: what was bound is closed, once each, and no service or worker was started.
pub record IsRolledBack (u : Launch) : Type 0 where
  pub state : u.life.state ≡ state_stopped
  pub startup : u.life.startup_done ≡ true
  pub shutdown_done : u.life.shutdown_done ≡ true
  pub closes : u.life.closes ≡ 1
  pub setups : u.life.accepting_setups ≡ false
  pub all_closed : u.closed ≡ u.bound
  pub no_services : u.services ≡ []
  pub pool : u.worker_pool.state ≡ new

-- Run panics in none of its checks.
pub data Outcome (o : ServerOptions) : Launched × Launch → Type 0 where
  serves : {u : Launch} → IsServing o u → Outcome o (serving, u)
  cancels : {u : Launch} → IsRolledBack u → Outcome o (returned_nil, u)
  gives_up : {u : Launch} (e : LaunchError) → IsRolledBack u → Outcome o (returned e, u)

pub roll_back-IsRolledBack :
    {o : ServerOptions} (u : Launch) → IsStarting o u → IsRolledBack (roll_back u)
unfolding roll_back close_serving_resources rollback_startup close_shutdown_done
roll_back-IsRolledBack u s = rw (if_false _ _ s.not_shut) (record {
  state = refl;
  startup = refl;
  shutdown_done = refl;
  closes = ap suc s.none_shut;
  setups = s.no_setups;
  all_closed = ap (λ m. m ++ ids_of u.listeners) s.none_closed ∙ sym s.held;
  no_services = s.no_services;
  pool = s.new_pool;
})

pub conclude-Outcome :
    {o : ServerOptions} (r : Ending × Launch) → Part o (IsServing o) r → Outcome o (conclude r)
conclude-Outcome (goes_on, u) p = serves p
conclude-Outcome (is_cancelled, u) p = cancels (roll_back-IsRolledBack u p)
conclude-Outcome (fails e, u) p = gives_up e (roll_back-IsRolledBack u p)
conclude-Outcome (start_panics, u) p = absurd p

started_lem : (p : Pool) → p.state ≡ new → (start p).state ≡ started
unfolding start
started_lem p e = ap (λ (q : Pool). q.state) (if_true _ p (ap is_new e))

begun_lem :
    (s : Server)
    → s.stop_requested ≡ false
    → begin_serving false s ≡ record s {
      accepting_setups = true;
      state = state_running;
      startup_done = true;
      run_at = run_serving;
    }
unfolding begin_serving
begun_lem s e = if_false {b = s.stop_requested || false} _ _ (ground arith)

pub serve-IsServing :
    {o : ServerOptions} (world : World) (u : Launch)
    → HasBound o o.transports (not (same o.cert_file [])) u
    → Part o (IsServing o) (serve world u)
unfolding serve startup_canceled
serve-IsServing {o} world u h = seen (startup_canceled world u).0 refl
  where
    v : Launch
    v = (startup_canceled world u).1

    g : HasBound o o.transports (not (same o.cert_file [])) v
    g = canceled-HasBound world u h

    seen :
        (b : Bool)
        → (startup_canceled world u).0 ≡ b
        → Part o (IsServing o) (
            if b then (is_cancelled, v) else (
              goes_on,
              record v {
                worker_pool = start u.worker_pool;
                services = u.listeners;
                serve_gate_open = true;
                life = begin_serving false v.life;
              },
            ))
    seen true e = g.starting
    seen false e =
        let begun = begun_lem v.life (ground arith) in
        record {
          state = ap (λ (s : Server). s.state) begun;
          startup = ap (λ (s : Server). s.startup_done) begun;
          setups = ap (λ (s : Server). s.accepting_setups) begun;
          bound_keys = g.bound_keys;
          bound_flags = g.bound_flags;
          held = g.starting.held;
          none_closed = g.starting.none_closed;
          services = refl;
          gate = refl;
          pool = started_lem u.worker_pool h.starting.new_pool;
        }
