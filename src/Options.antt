-- ===== src/Options.antt =====
-- option.go: the options of a server and their validation. A Go string is its bytes, an `int` and a
-- time.Duration are integers. url.ParseRequestURI, path.Clean and runtime.GOMAXPROCS are parameters.
pub mod Valid
pub mod Transports
mod Tests
use ramix.Prelude.{
  ◌>>◌, List, ℕ, Bool, Result, [], false, fail_if, not, if◌then◌else◌, ◌||◌, true, ◌∷◌,
  invalid_configuration, ok, ◌&&◌, ◌==◌, ◌++◌, ◌*◌, ◌%◌, ◌^◌, length,
}
use Prim.Native.String.{String}
use ramix.Prelude.Int.{ℤ, ltb_ℤ, pos}
use ramix.Transport.{Transport, transport_tcp, transport_web_socket}
use Prim.Native.Char.{code}

-- What validateServerOptions asks of the standard library about a path.
pub record PathLibrary : Type 0 where
  -- url.ParseRequestURI succeeds, with an empty query and an empty fragment.
  pub is_plain_uri : List ℕ → Bool
  -- path.Clean
  pub clean : List ℕ → List ℕ

-- The bytes of an ASCII text.
abbrev pub codes : String → List ℕ
codes String.[] = []
codes (String.◌∷◌ c s) = code c ∷ codes s

abbrev pub same : List ℕ → List ℕ → Bool
same [] [] = true
same (x ∷ xs) (y ∷ ys) = x == y && same xs ys
same _ _ = false

abbrev pub has : ℕ → List ℕ → Bool
has a [] = false
has a (x ∷ xs) = x == a || has a xs

-- strings.HasSuffix(s, "/")
abbrev pub ends_with_slash : List ℕ → Bool
ends_with_slash [] = false
ends_with_slash (x ∷ []) = x == b'/'
ends_with_slash (x ∷ y ∷ s) = ends_with_slash (y ∷ s)

pub record ServerOptions : Type 0 where
  pub transports : List Transport
  pub name : List ℕ
  pub ip_version : List ℕ
  pub ip : List ℕ
  pub port : ℤ
  pub web_socket_port : ℤ
  pub web_socket_path : List ℕ
  pub cert_file : List ℕ
  pub private_key_file : List ℕ
  pub max_connections_count : ℤ
  pub connection_groups_count : ℤ
  pub connection_read_buffer_size : ℕ  -- uint32
  pub connection_write_buffer_size : ℕ  -- uint32
  pub shutdown_timeout : ℤ
  pub worker_count : ℕ  -- uint32
  pub worker_queue_capacity : ℕ  -- uint32
  pub max_frame_length : ℕ  -- uint64
  pub heartbeat_interval : ℤ
  pub heartbeat_timeout : ℤ

abbrev pub ServerOption : Type 0
ServerOption = ServerOptions → ServerOptions

abbrev pub second : ℕ
second = 1_000_000_000

-- The number of processors is the result of runtime.GOMAXPROCS(0).
unfoldable pub default_server_options : ℕ → ServerOptions
default_server_options processors = record {
  transports = transport_tcp ∷ transport_web_socket ∷ [];
  name = codes "ramix";
  ip_version = codes "tcp4";
  ip = codes "0.0.0.0";
  port = pos 8899;
  web_socket_port = pos 8900;
  web_socket_path = codes "/ws";
  cert_file = [];
  private_key_file = [];
  max_connections_count = pos 1024;
  connection_groups_count = pos 10;
  connection_read_buffer_size = 1024;
  connection_write_buffer_size = 1024;
  shutdown_timeout = pos (10 * second);
  worker_count = processors % 2 ^ 32;
  worker_queue_capacity = 1024;
  max_frame_length = 2 ^ 20;
  heartbeat_interval = pos (5 * second);
  heartbeat_timeout = pos (60 * second);
}

unfoldable pub has_transport : List Transport → Transport → Bool
has_transport [] transport = false
has_transport (enabled ∷ rest) transport = enabled == transport || has_transport rest transport

-- The loop of WithTransports: `seen` holds what `copied` does.
unfoldable pub copy_transports : List Transport → List Transport → List Transport
unfolding has_transport
copy_transports [] copied = copied
copy_transports (transport ∷ rest) copied =
    copy_transports rest
      (if has_transport copied transport then copied else copied ++ (transport ∷ []))

unfoldable pub with_transports : List Transport → ServerOption
unfolding copy_transports
with_transports transports o = record o { transports = copy_transports transports [] }

unfoldable pub with_shutdown_timeout : ℤ → ServerOption
with_shutdown_timeout v o = record o { shutdown_timeout = v }

unfoldable pub with_worker_count : ℕ → ServerOption
with_worker_count v o = record o { worker_count = v }

unfoldable pub with_worker_queue_capacity : ℕ → ServerOption
with_worker_queue_capacity v o = record o { worker_queue_capacity = v }

unfoldable pub with_server_max_frame_length : ℕ → ServerOption
with_server_max_frame_length v o = record o { max_frame_length = v }

unfoldable pub with_name : List ℕ → ServerOption
with_name v o = record o { name = v }

unfoldable pub with_ip_version : List ℕ → ServerOption
with_ip_version v o = record o { ip_version = v }

unfoldable pub with_ip : List ℕ → ServerOption
with_ip v o = record o { ip = v }

unfoldable pub with_port : ℤ → ServerOption
with_port v o = record o { port = v }

unfoldable pub with_web_socket_port : ℤ → ServerOption
with_web_socket_port v o = record o { web_socket_port = v }

unfoldable pub with_web_socket_path : List ℕ → ServerOption
with_web_socket_path v o = record o { web_socket_path = v }

unfoldable pub with_cert_file : List ℕ → ServerOption
with_cert_file v o = record o { cert_file = v }

unfoldable pub with_private_key_file : List ℕ → ServerOption
with_private_key_file v o = record o { private_key_file = v }

unfoldable pub with_max_connections_count : ℤ → ServerOption
with_max_connections_count v o = record o { max_connections_count = v }

unfoldable pub with_connection_groups_count : ℤ → ServerOption
with_connection_groups_count v o = record o { connection_groups_count = v }

unfoldable pub with_connection_read_buffer_size : ℕ → ServerOption
with_connection_read_buffer_size v o = record o { connection_read_buffer_size = v }

unfoldable pub with_connection_write_buffer_size : ℕ → ServerOption
with_connection_write_buffer_size v o = record o { connection_write_buffer_size = v }

unfoldable pub with_heartbeat_interval : ℤ → ServerOption
with_heartbeat_interval v o = record o { heartbeat_interval = v }

unfoldable pub with_heartbeat_timeout : ℤ → ServerOption
with_heartbeat_timeout v o = record o { heartbeat_timeout = v }

abbrev pub refuse_if : Bool → Result (Unit {0})
refuse_if test = fail_if test invalid_configuration

-- The loop over the transports, with those seen so far.
unfoldable pub validate_transports : List Transport → List Transport → Result (Unit {0})
unfolding has_transport
validate_transports [] seen = ok tt
validate_transports (transport ∷ rest) seen = do
  refuse_if (not (transport == transport_tcp || transport == transport_web_socket))
  refuse_if (has_transport seen transport)
  validate_transports rest (transport ∷ seen)

abbrev pub port_out_of_range : ℤ → Bool
port_out_of_range port = ltb_ℤ port (pos 0) || ltb_ℤ (pos 65535) port

abbrev pub not_positive : ℤ → Bool
not_positive x = not (ltb_ℤ (pos 0) x)

abbrev pub starts_with_slash : List ℕ → Bool
starts_with_slash [] = false
starts_with_slash (c ∷ _) = c == b'/'

-- The cleaned path, with the slash that path.Clean takes off put back.
abbrev pub expected_path : PathLibrary → List ℕ → List ℕ
expected_path library path =
    if ends_with_slash path && not (same path (codes "/"))
    then library.clean path ++ codes "/"
    else library.clean path

unfoldable pub validate_path : PathLibrary → List ℕ → Result (Unit {0})
validate_path library path = do
  refuse_if (same path [])
  refuse_if (not (starts_with_slash path))
  refuse_if (has b'{' path || has b'}' path)
  refuse_if (not (library.is_plain_uri path))
  refuse_if (not (same (expected_path library path) path))

unfoldable pub validate_web_socket : PathLibrary → ServerOptions → Result (Unit {0})
validate_web_socket library o = do
  refuse_if (port_out_of_range o.web_socket_port)
  validate_path library o.web_socket_path

unfoldable pub validate_limits : ServerOptions → Result (Unit {0})
validate_limits o = do
  refuse_if (not_positive o.max_connections_count)
  refuse_if (not_positive o.connection_groups_count)
  refuse_if (o.connection_read_buffer_size == 0)
  refuse_if (o.connection_write_buffer_size == 0)
  refuse_if (o.worker_count == 0)
  refuse_if (o.worker_queue_capacity == 0)
  refuse_if (o.max_frame_length == 0)
  refuse_if (not_positive o.shutdown_timeout)
  refuse_if (not_positive o.heartbeat_interval)
  refuse_if (not_positive o.heartbeat_timeout)
  refuse_if (ltb_ℤ o.heartbeat_timeout o.heartbeat_interval)

abbrev pub differ : Bool → Bool → Bool
differ true b = not b
differ false b = b

abbrev pub is_ip_version : List ℕ → Bool
is_ip_version version =
    same version (codes "tcp") || same version (codes "tcp4") || same version (codes "tcp6")

abbrev pub when : Bool → Result (Unit {0}) → Result (Unit {0})
when test check = if test then check else ok tt

unfoldable pub validate_server_options : PathLibrary → ServerOptions → Result (Unit {0})
validate_server_options library o = do
  refuse_if (length o.transports == 0)
  validate_transports o.transports []
  when (has_transport o.transports transport_tcp) (refuse_if (port_out_of_range o.port))
  when (has_transport o.transports transport_web_socket) (validate_web_socket library o)
  validate_limits o
  refuse_if (differ (same o.cert_file []) (same o.private_key_file []))
  when (has_transport o.transports transport_tcp) (refuse_if (not (is_ip_version o.ip_version)))
