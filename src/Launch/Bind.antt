-- ===== src/Launch/Bind.antt =====
-- server.go: what each part of the startup keeps, and what it leaves where it ends the startup.
use ramix.Launch.{
  Launch, World, Listener, startup_canceled, Ending, look, fails, is_cancelled, goes_on, ids_of,
  start_panics, ◌and_then◌, Listening, bind_transport, bind_transports, put, keep_listener,
  not_listening, listening, listen_cancelled,
}
use ramix.Prelude.{
  List, Bool, ◌≡◌, if◌then◌else◌, ◌∷◌, [], false, true, ap, suc, sym, ◌++◌, refl, ◌⊎◌, append-nil,
  Bool-cases, ◌==◌, inl, arith, ◌∙◌, if_true, ==-eq, inr, if_false, append_assoc, ℕ,
}
use ramix.Options.{ServerOptions, has_transport}
use ramix.Server.{shutdown, Server, shutdown_in}
use ramix.Transport.{Transport, transport_tcp, transport_web_socket}
use ramix.Server.State.{state_starting, ServerState}
use ramix.Pool.{new, PoolState}
use mathlib.Core.Path.{subst}

-- A server between claimRun and the last section of Run: it is claimed, what was bound is held, in
-- order, and nothing was closed or started. It is told by the fields that this reads.
pub record StartsAt (o options : ServerOptions) (state : ServerState) (once : Bool) (closes : ℕ)
    (setups : Bool) (bound closed : List ℕ) (listeners services : List (Transport × Listener))
    (pool_state : PoolState) : Type 0 where
  pub same_options : options ≡ o
  pub claimed : state ≡ state_starting
  pub not_shut : once ≡ false
  pub none_shut : closes ≡ 0
  pub no_setups : setups ≡ false
  pub held : bound ≡ ids_of listeners
  pub none_closed : closed ≡ []
  pub no_services : services ≡ []
  pub new_pool : pool_state ≡ new

abbrev pub IsStarting : ServerOptions → Launch → Type 0
IsStarting o u =
    StartsAt o u.options u.life.state u.life.shutdown_once u.life.closes u.life.accepting_setups
      u.bound u.closed u.listeners u.services u.worker_pool.state

abbrev pub keys_of : {V : Type 0} → List (Transport × V) → List Transport
keys_of [] = []
keys_of ((k, v) ∷ rest) = k ∷ keys_of rest

abbrev pub AllTls : Bool → List (Transport × Listener) → Type 0
AllTls flag [] = Unit
AllTls flag ((k, listener) ∷ rest) = (listener.tls ≡ flag) × AllTls flag rest

-- Such a server that listens, in order, for the transports `keys`, over TLS or not.
pub record BoundAt (Starting : Type 0) (keys : List Transport) (flag : Bool)
    (listeners : List (Transport × Listener)) : Type 0 where
  pub starting : Starting
  pub bound_keys : keys_of listeners ≡ keys
  pub bound_flags : AllTls flag listeners

abbrev pub HasBound : ServerOptions → List Transport → Bool → Launch → Type 0
HasBound o keys flag u = BoundAt (IsStarting o u) keys flag u.listeners

-- A part that goes on has reached `P`; one that does not leaves a server that can roll back, and
-- none panics.
abbrev pub Part : (o : ServerOptions) (P : Launch → Type 0) → Ending × Launch → Type 0
Part o P (goes_on, u) = P u
Part o P (is_cancelled, u) = IsStarting o u
Part o P (fails e, u) = IsStarting o u
Part o P (start_panics, u) = ⊥

pub and_then-Part :
    (o : ServerOptions) {P : Launch → Type 0} (Q : Launch → Type 0) (r : Ending × Launch)
    (next : Launch → Ending × Launch)
    → Part o P r
    → ((u : Launch) → P u → Part o Q (next u))
    → Part o Q (r and_then next)
and_then-Part o Q (goes_on, u) next p f = f u p
and_then-Part o Q (is_cancelled, u) next p f = p
and_then-Part o Q (fails e, u) next p f = p
and_then-Part o Q (start_panics, u) next p f = absurd p

-- A claimed server that was asked to stop, or not.
abbrev asked_to_stop : Bool → Server → Server
asked_to_stop true s = record s { stop_requested = true }
asked_to_stop false s = s

asked_lem :
    (b : Bool) (s : Server)
    → s.state ≡ state_starting
    → (if b then (shutdown s).1 else s) ≡ asked_to_stop b s
unfolding shutdown
asked_lem true s e = ap (λ st. (shutdown_in st s).1) e
asked_lem false s e = refl

asked-HasBound :
    {o : ServerOptions} {keys : List Transport} {flag : Bool} (b : Bool) (u : Launch)
    → HasBound o keys flag u
    → HasBound o keys flag (record u { life = asked_to_stop b u.life; looks = suc u.looks })
asked-HasBound true u h = h
asked-HasBound false u h = h

pub canceled-HasBound :
    {o : ServerOptions} {keys : List Transport} {flag : Bool} (world : World) (u : Launch)
    → HasBound o keys flag u
    → HasBound o keys flag (startup_canceled world u).1
unfolding startup_canceled
canceled-HasBound {o} {keys} {flag} world u h =
    subst (λ life. HasBound o keys flag (record u { life = life; looks = suc u.looks }))
      (sym (asked_lem (world.stops u.looks) u.life h.starting.claimed))
      (asked-HasBound (world.stops u.looks) u h)

pub look-HasBound :
    {o : ServerOptions} {keys : List Transport} {flag : Bool} (world : World) (u : Launch)
    → HasBound o keys flag u
    → Part o (HasBound o keys flag) (look world u)
look-HasBound {o} {keys} {flag} world u h =
    seen (startup_canceled world u) (canceled-HasBound world u h)
  where
    seen :
        (r : Bool × Launch)
        → HasBound o keys flag r.1
        → Part o (HasBound o keys flag) (if r.0 then is_cancelled else goes_on, r.1)
    seen (true, v) k = k.starting
    seen (false, v) k = k

-- A new key goes to the end.
put-new :
    {V : Type 0} (t : Transport) (v : V) (m : List (Transport × V))
    → has_transport (keys_of m) t ≡ false
    → put t v m ≡ m ++ ((t, v) ∷ [])
unfolding has_transport
put-new t v [] h = refl
put-new t v ((k, w) ∷ m) h = elim (Bool-cases (k == t)) [
  | inl old ↦ ground arith
  | inr fresh ↦ rw (if_false _ _ fresh) (ap (λ r. (k, w) ∷ r) (put-new t v m (ground arith)))
]

keys_of-append :
    {V : Type 0} (m : List (Transport × V)) (t : Transport) (v : V)
    → keys_of (m ++ ((t, v) ∷ [])) ≡ keys_of m ++ (t ∷ [])
keys_of-append [] t v = refl
keys_of-append ((k, w) ∷ m) t v = ap (λ r. k ∷ r) (keys_of-append m t v)

ids_of-append :
    (m : List (Transport × Listener)) (t : Transport) (v : Listener)
    → ids_of (m ++ ((t, v) ∷ [])) ≡ ids_of m ++ (v.id ∷ [])
ids_of-append [] t v = refl
ids_of-append ((k, w) ∷ m) t v = ap (λ r. w.id ∷ r) (ids_of-append m t v)

AllTls-append :
    {flag : Bool} (m : List (Transport × Listener)) (t : Transport) (v : Listener)
    → AllTls flag m
    → v.tls ≡ flag
    → AllTls flag (m ++ ((t, v) ∷ []))
AllTls-append [] t v all e = (e, tt)
AllTls-append ((k, w) ∷ m) t v (f, all) e = (f, AllTls-append m t v all e)

keep_listener-HasBound :
    {o : ServerOptions} {keys : List Transport} (t : Transport) (answer : Listening) (u : Launch)
    → has_transport keys t ≡ false
    → HasBound o keys false u
    → Part o (HasBound o (keys ++ (t ∷ [])) false) (keep_listener t answer u)
keep_listener-HasBound t (not_listening e) u fresh h = h.starting
keep_listener-HasBound t listen_cancelled u fresh h = h.starting
keep_listener-HasBound {o} {keys} t (listening id) u fresh h =
    let s = h.starting in
    let v : Listener = record { id = id; tls = false } in
    let e = put-new t v u.listeners (ap (λ k. has_transport k t) h.bound_keys ∙ fresh) in
    record {
      starting = record {
        same_options = s.same_options;
        claimed = s.claimed;
        not_shut = s.not_shut;
        none_shut = s.none_shut;
        no_setups = s.no_setups;
        held = ap (λ m. m ++ (id ∷ [])) s.held ∙ sym (ap ids_of e ∙ ids_of-append u.listeners t v);
        none_closed = s.none_closed;
        no_services = s.no_services;
        new_pool = s.new_pool;
      };
      bound_keys =
          ap keys_of e ∙ keys_of-append u.listeners t v ∙ ap (λ m. m ++ (t ∷ [])) h.bound_keys;
      bound_flags = subst (AllTls false) (sym e) (AllTls-append u.listeners t v h.bound_flags refl);
    }

-- Transports that Run knows, and of which each is new where it comes.
abbrev pub AreNew : List Transport → List Transport → Type 0
AreNew keys [] = Unit
AreNew keys (t ∷ rest) =
    ((t ≡ transport_tcp) ⊎ (t ≡ transport_web_socket))
    × (has_transport keys t ≡ false)
    × AreNew (keys ++ (t ∷ [])) rest

bind_transport-HasBound :
    {o : ServerOptions} {keys : List Transport} (world : World) (t : Transport) (u : Launch)
    → (t ≡ transport_tcp) ⊎ (t ≡ transport_web_socket)
    → has_transport keys t ≡ false
    → HasBound o keys false u
    → Part o (HasBound o (keys ++ (t ∷ [])) false) (bind_transport world t u)
unfolding bind_transport
bind_transport-HasBound {o} {keys} world t u (inl tcp) fresh h =
    rw (if_true _ _ (==-eq tcp)) (keep_listener-HasBound t _ u fresh h)
bind_transport-HasBound {o} {keys} world t u (inr socket) fresh h =
    rw (if_false {b = t == transport_tcp} _ _ (ground arith))
      (rw (if_true _ _ (==-eq socket)) (keep_listener-HasBound t _ u fresh h))

-- The loop binds all of them, in order, or ends the startup.
pub bind_transports-HasBound :
    {o : ServerOptions} {keys : List Transport} (world : World) (rest : List Transport) (u : Launch)
    → AreNew keys rest
    → HasBound o keys false u
    → Part o (HasBound o (keys ++ rest) false) (bind_transports world rest u)
unfolding bind_transports
bind_transports-HasBound {o} {keys} world [] u fresh h =
    subst (λ k. HasBound o k false u) (sym (append-nil keys)) h
bind_transports-HasBound {o} {keys} world (t ∷ rest) u (known, fresh, later) h =
    let all = keys ++ (t ∷ rest) in
    subst (λ k. Part o (HasBound o k false) (bind_transports world (t ∷ rest) u))
      (append_assoc keys (t ∷ []) rest)
      (and_then-Part o (HasBound o ((keys ++ (t ∷ [])) ++ rest) false)
        (look world u and_then bind_transport world t) (bind_transports world rest)
        (and_then-Part o (HasBound o (keys ++ (t ∷ [])) false) (look world u)
          (bind_transport world t) (look-HasBound world u h)
          (λ v g. bind_transport-HasBound world t v known fresh g))
        (λ v g. bind_transports-HasBound world rest v later g))
