-- ===== src/Launch.antt =====
-- server.go: NewServer and the startup of Run, with what it binds. The answers of net.Listen, of
-- tls.LoadX509KeyPair, of http.ServeMux and of the contexts are a parameter, and so are the calls of
-- Shutdown that come between.
pub mod Bind
mod Checks
mod Parts
pub mod Ends
pub mod Outcome
mod Tests
use ramix.Prelude.{
  ◌>>◌, ◌>>=◌, ℕ, Error, Bool, Option, none, List, Result, if◌then◌else◌, ◌++◌, true, ok, ◌∷◌, ◌==◌,
  not, err, [], ◌||◌, false, some, suc, invalid_configuration, panic,
}
use ramix.Options.{
  PathLibrary, ServerOptions, ServerOption, same, default_server_options, has_transport, codes,
  validate_server_options,
}
use ramix.Transport.{Transport, transport_tcp, transport_web_socket}
use ramix.Server.{claim_run, Server, shutdown, rollback_startup, new_server, begin_serving}
use ramix.Prelude.Int.{ℤ, pos_part}
use ramix.Manager.{Manager, new_connection_manager}
use ramix.Pool.{Pool, start, new_worker_pool}
use ramix.Router.{freeze, Router, group, new_router}
use ramix.Frame.{new_frame_decoder, connection_options}

-- Why Run returns an error: a sentinel, or what a call of a library answers.
pub data LaunchError : Type 0 where
  refused_with : Error → LaunchError
  bind_error key_error : ℕ → LaunchError

-- What a call of listen answers: a listener, an error, or an error that wraps context.Canceled.
pub data Listening : Type 0 where
  listening : ℕ → Listening
  not_listening : ℕ → Listening
  listen_cancelled : Listening

-- `stops` and `ends`: by that look at the cancellation, a call of Shutdown has come, or the context
-- of Run has ended. `path_panics` is what HandleFunc does with the path.
pub record World : Type 0 where
  pub library : PathLibrary
  pub listen_tcp : List ℕ → List ℕ → ℤ → Listening
  pub listen_web_socket : List ℕ → List ℕ → ℤ → Listening
  pub load_key_pair : List ℕ → List ℕ → Option ℕ
  pub path_panics : List ℕ → Bool
  pub stops : ℕ → Bool
  pub ends : ℕ → Bool

pub record Listener : Type 0 where
  pub id : ℕ
  pub tls : Bool

pub record Hooks : Type 0 where
  pub connection_open : Option ℕ
  pub connection_close : Option ℕ
  pub connection_error : Option ℕ

-- The part of a Server that its startup reads and writes. `life` is what Server.antt models. A
-- listener that Close was called on is in `closed`, one that a listen call made in `bound`; the
-- goroutines that launchServices starts are in `services`, with the listener of each.
pub record Launch : Type 0 where
  pub options : ServerOptions
  pub life : Server
  pub router : Router ℕ
  pub hooks : Hooks
  pub runtime_routes : ℕ → Option (List ℕ)
  pub runtime_hooks : Hooks
  pub connection_manager : Manager
  pub worker_pool : Pool
  pub has_web_socket_server : Bool
  pub serve_gate_open : Bool
  pub listeners : List (Transport × Listener)
  pub addresses : List (Transport × ℕ)
  pub services : List (Transport × Listener)
  pub looks : ℕ
  pub bound : List ℕ
  pub closed : List ℕ

abbrev pub no_hooks : Hooks
no_hooks = record { connection_open = none; connection_close = none; connection_error = none }

-- The size that make takes for the groups; it is above zero in valid options.
abbrev pub fresh_manager : ServerOptions → Manager
fresh_manager o = new_connection_manager (pos_part o.connection_groups_count)

abbrev pub fresh_pool : ServerOptions → Result Pool
fresh_pool o = new_worker_pool o.worker_count o.worker_queue_capacity

-- validateServerOptions, and the frame decoder that a connection would get.
unfoldable pub check_options : PathLibrary → ServerOptions → Result (Unit {0})
check_options library o = do
  validate_server_options library o
  _ ← new_frame_decoder (connection_options o.max_frame_length)
  ok tt

abbrev pub launch_of : ServerOptions → Pool → Launch
launch_of o pool = record {
  options = o;
  life = new_server;
  router = new_router;
  hooks = no_hooks;
  runtime_routes = λ _. none;
  runtime_hooks = no_hooks;
  connection_manager = fresh_manager o;
  worker_pool = pool;
  has_web_socket_server = false;
  serve_gate_open = false;
  listeners = [];
  addresses = [];
  services = [];
  looks = 0;
  bound = [];
  closed = [];
}

-- The call of a nil option panics.
abbrev pub apply_server_options : List (Option ServerOption) → ServerOptions → Result ServerOptions
apply_server_options [] o = ok o
apply_server_options (none ∷ options) o = panic
apply_server_options (some option ∷ options) o = apply_server_options options (option o)

-- NewServer; `processors` is runtime.GOMAXPROCS(0).
unfoldable pub build_server : PathLibrary → ℕ → List (Option ServerOption) → Result Launch
build_server library processors options = do
  o ← apply_server_options options (default_server_options processors)
  check_options library o
  pool ← fresh_pool o
  ok (launch_of o pool)

-- How a part of the startup ends.
pub data Ending : Type 0 where
  goes_on is_cancelled start_panics : Ending
  fails : LaunchError → Ending

-- The next part, where this one goes on.
infixl 4 ◌and_then◌
abbrev pub ◌and_then◌ : Ending × Launch → (Launch → Ending × Launch) → Ending × Launch
(goes_on, u) and_then next = next u
(ending, u) and_then next = (ending, u)

abbrev pub ending_of : {V : Type 0} → Result V → Ending
ending_of (ok _) = goes_on
ending_of (err e) = fails (refused_with e)
ending_of _ = start_panics

-- startupCanceled, after the calls of Shutdown that came before it.
unfoldable pub startup_canceled : World → Launch → Bool × Launch
startup_canceled world u =
    let life = if world.stops u.looks then (shutdown u.life).1 else u.life in
    (life.stop_requested || world.ends u.looks, record u { life = life; looks = suc u.looks })

abbrev pub look : World → Launch → Ending × Launch
look world u =
    let seen = startup_canceled world u in (if seen.0 then is_cancelled else goes_on, seen.1)

-- `m[k] = v`
abbrev pub put : {V : Type 0} → Transport → V → List (Transport × V) → List (Transport × V)
put transport v [] = (transport, v) ∷ []
put transport v ((k, w) ∷ rest) =
    if k == transport then (transport, v) ∷ rest else (k, w) ∷ put transport v rest

-- The result of a listen call: the listener is kept, with its address.
abbrev pub keep_listener : Transport → Listening → Launch → Ending × Launch
keep_listener transport (not_listening e) u = (fails (bind_error e), u)
keep_listener transport listen_cancelled u = (is_cancelled, u)
keep_listener transport (listening id) u = (
  goes_on,
  record u {
    bound = u.bound ++ (id ∷ []);
    listeners = put transport (record { id = id; tls = false }) u.listeners;
    addresses = put transport id u.addresses;
  },
)

-- The body of the loop, behind its look; another transport leaves a nil listener.
unfoldable pub bind_transport : World → Transport → Launch → Ending × Launch
bind_transport world transport u =
    let o = u.options in
    if transport == transport_tcp
    then keep_listener transport (world.listen_tcp o.ip_version o.ip o.port) u
    else if transport == transport_web_socket
    then keep_listener transport (world.listen_web_socket (codes "tcp") o.ip o.web_socket_port) u
    else (start_panics, u)

unfoldable pub bind_transports : World → List Transport → Launch → Ending × Launch
unfolding bind_transport
bind_transports world [] u = (goes_on, u)
bind_transports world (transport ∷ rest) u =
    look world u and_then bind_transport world transport and_then bind_transports world rest

abbrev pub over_tls : List (Transport × Listener) → List (Transport × Listener)
over_tls [] = []
over_tls ((transport, listener) ∷ rest) =
    (transport, record { id = listener.id; tls = true }) ∷ over_tls rest

unfoldable pub apply_tls : World → Launch → Ending × Launch
apply_tls world u =
    if same u.options.cert_file []
    then (goes_on, u)
    else elim (world.load_key_pair u.options.cert_file u.options.private_key_file) [
      | some e ↦ (fails (key_error e), u)
      | none ↦ (goes_on, record u { listeners = over_tls u.listeners })
    ]

unfoldable pub prepare_web_socket_server : World → Launch → Ending × Launch
prepare_web_socket_server world u =
    if not (has_transport u.options.transports transport_web_socket)
    then (goes_on, u)
    else if world.path_panics u.options.web_socket_path
    then (fails (refused_with invalid_configuration), u)
    else (goes_on, record u { has_web_socket_server = true })

-- The snapshot of the registrations, and the manager and the pool of this run.
abbrev pub take_snapshot : Launch → Ending × Launch
take_snapshot u = elim (fresh_pool u.options) [
  | ok pool ↦ (
    goes_on,
    record u {
      runtime_routes = freeze u.router;
      runtime_hooks = u.hooks;
      connection_manager = fresh_manager u.options;
      worker_pool = pool;
    },
  )
  | _ ↦ (start_panics, u)
]

abbrev pub ids_of : List (Transport × Listener) → List ℕ
ids_of [] = []
ids_of ((transport, listener) ∷ rest) = listener.id ∷ ids_of rest

-- closeServingResources
unfoldable pub close_serving_resources : Launch → Launch
close_serving_resources u = record u { closed = u.closed ++ ids_of u.listeners }

-- rollbackStartup
unfoldable pub roll_back : Launch → Launch
unfolding close_serving_resources
roll_back u = record (close_serving_resources u) {
  serve_gate_open = true;
  life = rollback_startup u.life;
}

-- The section of Run under stateMu; a stop is seen there as by a look.
unfoldable pub serve : World → Launch → Ending × Launch
serve world u =
    let seen = startup_canceled world u in
    if seen.0 then (is_cancelled, seen.1) else (
      goes_on,
      record (seen.1) {
        worker_pool = start u.worker_pool;
        services = u.listeners;
        serve_gate_open = true;
        life = begin_serving false seen.1.life;
      },
    )

-- Run serves, or returns with an error or with nil, or panics.
pub data Launched : Type 0 where
  serving returned_nil launch_panics : Launched
  returned : LaunchError → Launched

-- Each early return of Run rolls back before it.
abbrev pub conclude : Ending × Launch → Launched × Launch
conclude (goes_on, u) = (serving, u)
conclude (is_cancelled, u) = (returned_nil, roll_back u)
conclude (fails e, u) = (returned e, roll_back u)
conclude (start_panics, u) = (launch_panics, u)

-- Run behind claimRun.
unfoldable pub start_up : World → Launch → Launched × Launch
unfolding bind_transports apply_tls prepare_web_socket_server serve
start_up world u = conclude (
    (ending_of (check_options world.library u.options), u)
    and_then take_snapshot
    and_then prepare_web_socket_server world
    and_then look world
    and_then bind_transports world u.options.transports
    and_then apply_tls world
    and_then look world
    and_then serve world)

unfoldable pub launch : World → Launch → Launched × Launch
launch world u =
    let claim = claim_run u.life in
    elim claim.0 [
      | ok _ ↦ start_up world (record u { life = claim.1 })
      | err e ↦ (returned (refused_with e), u)
      | _ ↦ (launch_panics, u)
    ]
