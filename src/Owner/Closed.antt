-- ===== src/Owner/Closed.antt =====
-- server.go: where shutdownOwner leaves the server and its connections.
use ramix.Manager
use ramix.Owner.Keeps.{
  IsClosed, IsClosing, IsClosed-Kept, IsClosing-Kept, HasClosed, HasClosed-Kept,
}
use ramix.Owner.Loops.{
  Others-Kept, each_connection-Kept, request_close-Forward, request_close-closing, up_to_waits-Kept,
  wait_all-Kept,
}
use ramix.Owner.{
  Fleet, with_conn, each_connection, force_close_all, finish_owner, OwnerWorld, shutdown_owner,
  Others, WaitEnd, waiting, after_wait_all, stopping_reason, waited, timed_out, wait_all,
  close_intake, up_to_waits,
}
use ramix.Prelude.{
  ℕ, Bool, ◌≡◌, List, false, ◌≢◌, true, arith, ◌⊎◌, some, inl, inr, ◌∷◌, ℕ_discrete, refl, ◌≤◌, sym,
  if_true, ==-eq, ==-ne, [], ◌||◌, not,
}
use ramix.Server.{finish_shutdown, close_shutdown_done, Server}
use ramix.Server.State.{state_stopped}
use ramix.Owner.Track.{Placed, Tracked, Tracked-Kept, HasLeft-Kept}
use ramix.Manager.Holds.{IsManager, has_key}
use ramix.Pool.{force_cancel}
use ramix.Owner.Waits.{Waited, context_ends, wait_all-back, wait_all-Waited}
use ramix.Connection.Requests.{request_close, CloseReason}
use ramix.Connection.{NetConnection}
use mathlib.Core.Path.{subst}

-- What the owner leaves of a connection that the manager had at its start.
pub record IsShutDown (id : ℕ) (late : Bool) (f : Fleet) : Type 0 where
  pub stopped : f.server.state ≡ state_stopped
  pub resources : HasClosed f
  pub reported : late ≡ true → f.server.timed_out ≡ true
  pub in_time : late ≡ false → IsClosed id f
  pub at_least : late ≡ true → IsClosing id f ⊎ (has_key id f.manager.finalizing ≡ true)

-- Every connection of the snapshot is asked to close.
each_connection-IsClosing :
    (id : ℕ) (others : ℕ → Others) (ids : List ℕ) (f : Fleet)
    → has_key id ids ≡ true
    → IsClosing id (each_connection others (request_close stopping_reason) ids f)
unfolding each_connection
each_connection-IsClosing id others [] f h = absurd (cc h)
each_connection-IsClosing id others (other ∷ ids) f h =
    let g = (others other f).0 in
    let c = request_close stopping_reason (g.conns other) in
    elim (ℕ_discrete other id) [
      | Dec.yes same ↦
          each_connection-Kept (IsClosing-Kept id) others (request_close stopping_reason) ids
            (with_conn other c g) (request_close-Forward stopping_reason)
            (subst (λ (d : NetConnection CloseReason). 2 ≤ d.state) (sym (if_true _ _ (==-eq same)))
              (request_close-closing stopping_reason (g.conns other)))
      | Dec.no ne ↦
          let ne' = ==-ne other id ne in
          each_connection-IsClosing id others ids (with_conn other c g) (ground arith)
    ]

-- The last forceCloseAll.
forced-place :
    (id : ℕ) (others : ℕ → Others) (f : Fleet)
    → Placed
        (has_key id (Manager.snapshot f.manager))
        (has_key id f.manager.finalizing)
        (f.conns id).state
    → IsClosing id (force_close_all others f)
      ⊎ (has_key id (force_close_all others f).manager.finalizing ≡ true)
unfolding force_close_all
forced-place id others f (inl held) =
    inl (each_connection-IsClosing id others (Manager.snapshot f.manager) f held)
forced-place id others f (inr left) =
    elim (each_connection-Kept (HasLeft-Kept id) others (request_close stopping_reason)
      (Manager.snapshot f.manager) f (request_close-Forward stopping_reason) (inr left)) [
        | inl e ↦ absurd (cc e)
        | inr (inl final) ↦ inr final
        | inr (inr closed) ↦ inl (omega arith)
      ]

stopped_lem : (late : Bool) (s : Server) → (finish_shutdown late s).state ≡ state_stopped
unfolding finish_shutdown close_shutdown_done
stopped_lem late s = ground arith

reported_lem : (late : Bool) (s : Server) → late ≡ true → (finish_shutdown late s).timed_out ≡ true
unfolding finish_shutdown close_shutdown_done
reported_lem late s e = ground arith

force_close_all-HasClosed :
    (others : ℕ → Others) (f : Fleet) → HasClosed f → HasClosed (force_close_all others f)
unfolding force_close_all
force_close_all-HasClosed others f =
    each_connection-Kept HasClosed-Kept others (request_close stopping_reason)
      (Manager.snapshot f.manager) f (request_close-Forward stopping_reason)

finish_owner-IsShutDown :
    (id : ℕ) (world : OwnerWorld) (late : Bool) (f : Fleet)
    → HasClosed f
    → (late ≡ false → IsClosed id f)
    → Placed
        (has_key id (Manager.snapshot f.manager))
        (has_key id f.manager.finalizing)
        (f.conns id).state
    → IsShutDown id late (finish_owner world late f)
unfolding finish_owner
finish_owner-IsShutDown id world true f shut closed place = record {
  stopped = stopped_lem true _;
  resources =
      force_close_all-HasClosed world.before_late (record f { pool = force_cancel f.pool }) shut;
  reported = reported_lem true _;
  in_time = λ e. absurd (cc e);
  at_least = λ e. forced-place id world.before_late (record f { pool = force_cancel f.pool }) place;
}
finish_owner-IsShutDown id world false f shut closed place = record {
  stopped = stopped_lem false _;
  resources = shut;
  reported = reported_lem false _;
  in_time = closed;
  at_least = λ e. absurd (cc e);
}

never : (a b : Bool) → (a || true || b) ≡ false → ⊥
never a b e = ground arith

-- What the owner has done where waitAll is back.
after_wait_all-IsShutDown :
    (id : ℕ) (world : OwnerWorld) (late : Bool) (r : WaitEnd × Fleet)
    → r.0 ≢ waiting
    → HasClosed r.1
    → Waited id r
    → (b : Bool) × (g : Fleet) × (after_wait_all world late r ≡ some (b, g)) × IsShutDown id b g
after_wait_all-IsShutDown id world late (waiting, f) back shut w = absurd (back refl)
after_wait_all-IsShutDown id world late (waited, f) back shut w =
    let shut = Others-Kept HasClosed-Kept world.before_services f shut in
    let closed = Others-Kept (IsClosed-Kept id) world.before_services f w in
    (
      _,
      _,
      refl,
      finish_owner-IsShutDown id world _ (world.before_services f).0 shut (λ e. closed)
          (inr (inr closed)),
    )
after_wait_all-IsShutDown id world late (timed_out, f) back shut w =
    let shut = Others-Kept HasClosed-Kept world.before_services f shut in
    let t = Others-Kept (Tracked-Kept id) world.before_services f w in
    (
      _,
      _,
      refl,
      finish_owner-IsShutDown id world _ (world.before_services f).0 shut
          (λ e. absurd (never late (not world.services_end) e)) t.place,
    )

-- A connection that the manager has when the shutdown begins, whatever other goroutines do at its
-- connections, its manager, its pool and its server, and whichever way the owner's waits end: once
-- the context of waitAll has ended in some round, the owner comes back, and the server is stopped
-- and its resources are closed.
-- Where it was in time, the connection is closed. Where it was late, that is reported, and the
-- connection is closing or closed, or its supervisor is finalizing it.
pub shutdown_owner-IsShutDown :
    (id : ℕ) (world : OwnerWorld) (f : Fleet)
    → IsManager f.manager
    → has_key id (Manager.snapshot f.manager) ≡ true
    → context_ends world.wait_rounds ≡ true
    → (late : Bool) × (g : Fleet) × (shutdown_owner world f ≡ some (late, g)) × IsShutDown id late g
unfolding shutdown_owner
shutdown_owner-IsShutDown id world f sound held ends =
    let stopped = close_intake f in
    let before = up_to_waits world stopped in
    let start : Tracked id stopped = record { sound = sound; place = inl held } in
    let t = up_to_waits-Kept (Tracked-Kept id) world stopped start in
    let closed = up_to_waits-Kept HasClosed-Kept world stopped refl in
    after_wait_all-IsShutDown id world before.0 (wait_all world.wait_rounds before.1)
      (wait_all-back world.wait_rounds before.1 ends)
      (wait_all-Kept HasClosed-Kept world.wait_rounds before.1 closed)
      (wait_all-Waited id world.wait_rounds before.1 t)
