-- ===== src/Launch/Outcome.antt =====
-- server.go: where Run leaves a server when its startup ends.
use ramix.Prelude.{
  ℕ, ◌≡◌, List, [], false, not, ap, ◌∙◌, sym, refl, arith, ok, Result, err, panic, stuck, inr, inl,
  >>=-eq-ok, Option,
}
use ramix.Launch.{
  Launch, serve, prepare_web_socket_server, apply_tls, Ending, conclude, World, take_snapshot,
  fresh_pool, refused_with, start_up, ◌and_then◌, look, bind_transports, ending_of, check_options,
  launch, Hooks, launch_of, build_server, apply_server_options,
}
use ramix.Options.{ServerOptions, same, has_transport, ServerOption, default_server_options}
use ramix.Pool.{new_worker_pool, new, Pool}
use ramix.Options.Valid.{AreTransports, IsValid}
use ramix.Server.{claim_run}
use ramix.Launch.Bind.{
  Part, HasBound, AreNew, and_then-Part, look-HasBound, bind_transports-HasBound,
}
use ramix.Transport.{Transport}
use ramix.Router.{Router}
use mathlib.Core.Path.{subst}
use ramix.Launch.Checks.{check_options-IsBack, IsBack, check_options-IsValid}
use ramix.Launch.Parts.{take_snapshot-HasBound, prepare-HasBound, apply_tls-HasBound}
use ramix.Launch.Ends.{
  IsServing, Outcome, conclude-Outcome, gives_up, roll_back-IsRolledBack, serve-IsServing,
}

AreNew-valid : (ts : List Transport) → AreTransports ts → AreNew [] ts
unfolding has_transport
AreNew-valid ts (inl e) = subst (AreNew []) (sym e) (inl refl, refl, tt)
AreNew-valid ts (inr (inl e)) = subst (AreNew []) (sym e) (inr refl, refl, tt)
AreNew-valid ts (inr (inr (inl e))) =
    subst (AreNew []) (sym e) (inl refl, refl, (inr refl, refl, tt))
AreNew-valid ts (inr (inr (inr e))) =
    subst (AreNew []) (sym e) (inr refl, refl, (inl refl, refl, tt))

-- The parts behind the checks, from a server that holds nothing.
abbrev parts : World → Launch → Ending × Launch
parts world u =
    take_snapshot u
    and_then prepare_web_socket_server world
    and_then look world
    and_then bind_transports world u.options.transports
    and_then apply_tls world
    and_then look world
    and_then serve world

parts-IsServing :
    {o : ServerOptions} (world : World) (u : Launch)
    → IsValid world.library o
    → HasBound o [] false u
    → Part o (IsServing o) (parts world u)
parts-IsServing {o} world u valid h =
    let ts = u.options.transports in
    let flag = not (same o.cert_file []) in
    let same_transports = ap (λ (x : ServerOptions). x.transports) h.starting.same_options in
    let known =
      subst (AreNew []) (sym same_transports) (AreNew-valid o.transports valid.transports_known) in
    let p = take_snapshot-HasBound u valid.limits h in
    let p = and_then-Part o (HasBound o [] false) _ _ p (λ v g. prepare-HasBound world v g) in
    let p = and_then-Part o (HasBound o [] false) _ _ p (λ v g. look-HasBound world v g) in
    let p =
      and_then-Part o (HasBound o ts false) _ _ p
        (λ v g. bind_transports-HasBound world ts v known g) in
    let p = and_then-Part o (HasBound o ts flag) _ _ p (λ v g. apply_tls-HasBound world v g) in
    let p = and_then-Part o (HasBound o ts flag) _ _ p (λ v g. look-HasBound world v g) in
    and_then-Part o (IsServing o) _ _ p
      (λ v g. serve-IsServing world v (subst (λ keys. HasBound o keys flag v) same_transports g))

start_up-Outcome :
    {o : ServerOptions} (world : World) (u : Launch)
    → HasBound o [] false u
    → Outcome o (start_up world u)
unfolding start_up
start_up-Outcome {o} world u h =
    checked (check_options world.library u.options) refl
      (check_options-IsBack world.library u.options)
  where
    checked :
        (m : Result (Unit {0}))
        → check_options world.library u.options ≡ m
        → IsBack m
        → Outcome o (
            conclude (
              (ending_of m, u)
              and_then take_snapshot
              and_then prepare_web_socket_server world
              and_then look world
              and_then bind_transports world u.options.transports
              and_then apply_tls world
              and_then look world
              and_then serve world))
    checked (ok _) e back =
        let valid =
          check_options-IsValid world.library o
            (ap (check_options world.library) (sym h.starting.same_options) ∙ e) in
        conclude-Outcome (parts world u) (parts-IsServing world u valid h)
    checked (err x) e back = gives_up (refused_with x) (roll_back-IsRolledBack u h.starting)
    checked panic e back = elim back [ inl q ↦ cc | inr q ↦ cc ]
    checked stuck e back = elim back [ inl q ↦ cc | inr q ↦ cc ]

-- What NewServer made, with the options, the routes and the hooks as they are when Run is called.
abbrev pub registered : ServerOptions → Router ℕ → Hooks → Launch → Launch
registered o router hooks built = record built { options = o; router = router; hooks = hooks }

claimed-HasBound :
    (world : World) (o given : ServerOptions) (pool : Pool) (router : Router ℕ) (hooks : Hooks)
    → pool.state ≡ new
    → Outcome o (launch world (registered o router hooks (launch_of given pool)))
unfolding launch claim_run
claimed-HasBound world o given pool router hooks e = start_up-Outcome world _ (record {
  starting = record {
    same_options = refl;
    claimed = refl;
    not_shut = refl;
    none_shut = refl;
    no_setups = refl;
    held = refl;
    none_closed = refl;
    no_services = refl;
    new_pool = e;
  };
  bound_keys = refl;
  bound_flags = tt;
})

new_worker_pool-new :
    (count capacity : ℕ) (pool : Pool) → new_worker_pool count capacity ≡ ok pool → pool.state ≡ new
unfolding new_worker_pool
new_worker_pool-new count capacity pool e = ground arith

ok_lem : (u v : Launch) → (ok u ≡ ok v) → u ≡ v
ok_lem u v e = cc

-- Run of a server that NewServer made, whatever its options, its routes and its hooks have become
-- since, and whatever the listeners, the certificate, the contexts and the calls of Shutdown do:
-- it does not panic in its startup. Either it serves: it listens for its transports, in order, over
-- TLS exactly where it has a certificate, with a service for each listener, a started pool and an
-- open gate; or it returns, and the server is stopped, its shutdown channel closed once, every
-- listener that was bound closed, once, and no worker, service or setup was let start.
pub launch-Outcome :
    (world : World) (processors : ℕ) (given : List (Option ServerOption)) (built : Launch)
    (o : ServerOptions) (router : Router ℕ) (hooks : Hooks)
    → build_server world.library processors given ≡ ok built
    → Outcome o (launch world (registered o router hooks built))
unfolding build_server
launch-Outcome world processors given built o router hooks e =
    let (first, _, checked) =
      >>=-eq-ok (apply_server_options given (default_server_options processors)) _ e in
    let (_, _, made) = >>=-eq-ok (check_options world.library first) _ checked in
    let (pool, fresh, is) = >>=-eq-ok (fresh_pool first) _ made in
    subst (λ u. Outcome o (launch world (registered o router hooks u)))
      (ok_lem (launch_of first pool) built is)
      (claimed-HasBound world o first pool router hooks (new_worker_pool-new _ _ pool fresh))
