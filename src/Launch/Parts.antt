-- ===== src/Launch/Parts.antt =====
-- server.go: the snapshot of Run, prepareWebSocketServer and applyTLS.
use ramix.Prelude.{
  ℕ, List, Bool, ◌≡◌, [], true, false, ok, if◌then◌else◌, not, ◌∙◌, ◌∷◌, if_false, Result, ap, sym,
  Option, refl, ◌==◌, some, arith, invalid_configuration, none, err, panic, stuck,
}
use ramix.Pool.{new_worker_pool, pool_of, Pool, PoolState, new}
use ramix.Options.{ServerOptions, same, has_transport}
use ramix.Launch.{
  prepare_web_socket_server, apply_tls, Launch, fresh_pool, Listener, World, ids_of, take_snapshot,
  over_tls, goes_on, fails, refused_with, key_error, fresh_manager, start_panics,
}
use ramix.Options.Valid.{HasLimits}
use ramix.Transport.{Transport, transport_web_socket}
use ramix.Launch.Bind.{HasBound, Part, keys_of, AllTls}
use ramix.Router.{freeze}
use mathlib.Core.Path.{subst}

fresh_pool_lem :
    (o : ServerOptions)
    → HasLimits o
    → fresh_pool o ≡ ok (pool_of o.worker_count o.worker_queue_capacity)
unfolding new_worker_pool
fresh_pool_lem o limits =
    let workers = limits.workers in
    let queue = limits.queue in
    if_false {b = o.worker_count == 0} _ _ (ground arith)
    ∙ if_false {b = o.worker_queue_capacity == 0} _ _ (ground arith)

pub take_snapshot-HasBound :
    {o : ServerOptions} (u : Launch)
    → HasLimits o
    → HasBound o [] false u
    → Part o (HasBound o [] false) (take_snapshot u)
take_snapshot-HasBound {o} u limits h =
    taken (fresh_pool u.options) (ap fresh_pool h.starting.same_options ∙ fresh_pool_lem o limits)
  where
    fresh : Pool
    fresh = pool_of o.worker_count o.worker_queue_capacity

    state_of : Result Pool → PoolState
    state_of (ok pool) = pool.state
    state_of _ = new

    taken :
        (r : Result Pool)
        → r ≡ ok fresh
        → Part o (HasBound o [] false) (elim r [
          | ok pool ↦ (
            goes_on,
            record u {
              runtime_routes = freeze u.router;
              runtime_hooks = u.hooks;
              connection_manager = fresh_manager u.options;
              worker_pool = pool;
            },
          )
          | _ ↦ (start_panics, u)
        ])
    taken (ok pool) e =
        let s = h.starting in
        record {
          starting = record {
            same_options = s.same_options;
            claimed = s.claimed;
            not_shut = s.not_shut;
            none_shut = s.none_shut;
            no_setups = s.no_setups;
            held = s.held;
            none_closed = s.none_closed;
            no_services = s.no_services;
            new_pool = ap state_of e;
          };
          bound_keys = h.bound_keys;
          bound_flags = h.bound_flags;
        }
    taken (err x) e = cc
    taken panic e = cc
    taken stuck e = cc

pub prepare-HasBound :
    {o : ServerOptions} {keys : List Transport} {flag : Bool} (world : World) (u : Launch)
    → HasBound o keys flag u
    → Part o (HasBound o keys flag) (prepare_web_socket_server world u)
unfolding prepare_web_socket_server
prepare-HasBound {o} {keys} {flag} world u h =
    prepared (not (has_transport u.options.transports transport_web_socket))
      (world.path_panics u.options.web_socket_path)
  where
    prepared :
        (without panics : Bool)
        → Part o (HasBound o keys flag) (
            if without
            then (goes_on, u)
            else if panics
            then (fails (refused_with invalid_configuration), u)
            else (goes_on, record u { has_web_socket_server = true }))
    prepared true panics = h
    prepared false true = h.starting
    prepared false false = h

over_tls-keys_of : (m : List (Transport × Listener)) → keys_of (over_tls m) ≡ keys_of m
over_tls-keys_of [] = refl
over_tls-keys_of ((k, v) ∷ m) = ap (λ r. k ∷ r) (over_tls-keys_of m)

over_tls-ids_of : (m : List (Transport × Listener)) → ids_of (over_tls m) ≡ ids_of m
over_tls-ids_of [] = refl
over_tls-ids_of ((k, v) ∷ m) = ap (λ r. v.id ∷ r) (over_tls-ids_of m)

over_tls-AllTls : (m : List (Transport × Listener)) → AllTls true (over_tls m)
over_tls-AllTls [] = tt
over_tls-AllTls ((k, v) ∷ m) = (refl, over_tls-AllTls m)

with_tls :
    {o : ServerOptions} {keys : List Transport} {flag : Bool} (u : Launch)
    → HasBound o keys flag u
    → HasBound o keys true (record u { listeners = over_tls u.listeners })
with_tls u h =
    let s = h.starting in
    record {
      starting = record {
        same_options = s.same_options;
        claimed = s.claimed;
        not_shut = s.not_shut;
        none_shut = s.none_shut;
        no_setups = s.no_setups;
        held = s.held ∙ sym (over_tls-ids_of u.listeners);
        none_closed = s.none_closed;
        no_services = s.no_services;
        new_pool = s.new_pool;
      };
      bound_keys = over_tls-keys_of u.listeners ∙ h.bound_keys;
      bound_flags = over_tls-AllTls u.listeners;
    }

pub apply_tls-HasBound :
    {o : ServerOptions} {keys : List Transport} (world : World) (u : Launch)
    → HasBound o keys false u
    → Part o (HasBound o keys (not (same o.cert_file []))) (apply_tls world u)
unfolding apply_tls
apply_tls-HasBound {o} {keys} world u h =
    subst
      (λ (x : ServerOptions).
        Part o (HasBound o keys (not (same x.cert_file []))) (apply_tls world u))
      h.starting.same_options
      (applied (same u.options.cert_file [])
        (world.load_key_pair u.options.cert_file u.options.private_key_file))
  where
    applied :
        (plain : Bool) (answer : Option ℕ)
        → Part o (HasBound o keys (not plain)) (
            if plain then (goes_on, u) else elim answer [
              | some e ↦ (fails (key_error e), u)
              | none ↦ (goes_on, record u { listeners = over_tls u.listeners })
            ])
    applied true answer = h
    applied false (some e) = h.starting
    applied false none = with_tls u h
