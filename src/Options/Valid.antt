-- ===== src/Options/Valid.antt =====
-- What validateServerOptions accepts.
use ramix.Prelude.{
  List, ℕ, ◌<◌, ◌≡◌, ok, ◌∷◌, ◌≤◌, true, length, ◌↔◌, [], ◌==◌, arith, ◌⊎◌, false, ◌>>◌, Result,
  Bool, not, err, refl, panic, stuck,
}
use ramix.Prelude.Int.{ℤ, neg_part, pos_part, pos, negsuc}
use ramix.Options.{
  PathLibrary, ServerOptions, validate_transports, validate_path, validate_limits, has_transport,
  starts_with_slash, refuse_if, has, is_ip_version, same, expected_path, validate_server_options,
  validate_web_socket, port_out_of_range, when, differ,
}
use ramix.Transport.{Transport, transport_tcp, transport_web_socket}

-- The lists of transports without repetition.
abbrev pub AreTransports : List Transport → Type 0
AreTransports ts =
    (ts ≡ transport_tcp ∷ [])
    ⊎ (ts ≡ transport_web_socket ∷ [])
    ⊎ (ts ≡ transport_tcp ∷ transport_web_socket ∷ [])
    ⊎ (ts ≡ transport_web_socket ∷ transport_tcp ∷ [])

abbrev pub IsPort : ℤ → Type 0
IsPort port = (neg_part port ≡ 0) × (pos_part port ≤ 65535)

pub record IsWebSocketPath (library : PathLibrary) (path : List ℕ) : Type 0 where
  pub rooted : starts_with_slash path ≡ true
  pub no_open_brace : has b'{' path ≡ false
  pub no_close_brace : has b'}' path ≡ false
  pub plain : library.is_plain_uri path ≡ true
  pub cleaned : same (expected_path library path) path ≡ true

pub record HasLimits (o : ServerOptions) : Type 0 where
  pub connections : 0 < pos_part o.max_connections_count
  pub groups : 0 < pos_part o.connection_groups_count
  pub read_buffer : 0 < o.connection_read_buffer_size
  pub write_buffer : 0 < o.connection_write_buffer_size
  pub workers : 0 < o.worker_count
  pub queue : 0 < o.worker_queue_capacity
  pub frame : 0 < o.max_frame_length
  pub shutdown : 0 < pos_part o.shutdown_timeout
  pub interval : 0 < pos_part o.heartbeat_interval
  pub timeout : pos_part o.heartbeat_interval ≤ pos_part o.heartbeat_timeout

-- Options that a server can run with.
pub record IsValid (library : PathLibrary) (o : ServerOptions) : Type 0 where
  pub transports_known : AreTransports o.transports
  pub tcp_port : has_transport o.transports transport_tcp ≡ true → IsPort o.port
  pub tcp_version :
      has_transport o.transports transport_tcp ≡ true → is_ip_version o.ip_version ≡ true
  pub web_socket_port :
      has_transport o.transports transport_web_socket ≡ true → IsPort o.web_socket_port
  pub web_socket_path :
      has_transport o.transports transport_web_socket ≡ true
      → IsWebSocketPath library o.web_socket_path
  pub limits : HasLimits o
  pub certificate : same o.cert_file [] ≡ same o.private_key_file []

transports_iff :
    (ts : List Transport)
    → (((length ts == 0) ≡ false) × (validate_transports ts [] ≡ ok tt)) ↔ AreTransports ts
unfolding validate_transports
transports_iff [] = (λ h. ground arith, λ h. ground arith)
transports_iff (x ∷ []) = (λ h. ground arith, λ h. ground arith)
transports_iff (x ∷ y ∷ []) = (λ h. ground arith, λ h. ground arith)
transports_iff (x ∷ y ∷ z ∷ rest) = (λ h. ground arith, λ h. ground arith)

path_iff :
    (library : PathLibrary) (path : List ℕ)
    → (validate_path library path ≡ ok tt) ↔ IsWebSocketPath library path
unfolding validate_path
path_iff library [] = (λ h. ground arith, λ h. ground arith)
path_iff library (c ∷ path) = (λ h. ground arith, λ h. ground arith)

limits_iff : (o : ServerOptions) → (validate_limits o ≡ ok tt) ↔ HasLimits o
unfolding validate_limits
limits_iff o = (λ h. ground arith, λ h. ground arith)

seq_iff : (m k : Result (Unit {0})) → ((m >> k) ≡ ok tt) ↔ ((m ≡ ok tt) × (k ≡ ok tt))
seq_iff (ok u) k = (λ h. (refl, h), λ h. h.1)
seq_iff (err e) k = (λ h. cc, λ h. h.0)
seq_iff panic k = (λ h. cc, λ h. cc h.0)
seq_iff stuck k = (λ h. cc, λ h. cc h.0)

refuse_iff : (b : Bool) → (refuse_if b ≡ ok tt) ↔ (b ≡ false)
refuse_iff true = (λ h. cc, λ h. cc)
refuse_iff false = (λ h. refl, λ h. refl)

when_iff : (b : Bool) (m : Result (Unit {0})) → (when b m ≡ ok tt) ↔ (b ≡ true → m ≡ ok tt)
when_iff true m = (λ h _. h, λ h. h refl)
when_iff false m = (λ h e. cc, λ h. refl)

IsPort-iff : (port : ℤ) → (refuse_if (port_out_of_range port) ≡ ok tt) ↔ IsPort port
IsPort-iff (pos n) = (λ h. ground arith, λ h. ground arith)
IsPort-iff (negsuc n) = (λ h. ground arith, λ h. ground arith)

web_socket_iff :
    (library : PathLibrary) (o : ServerOptions)
    → (validate_web_socket library o ≡ ok tt)
      ↔ (IsPort o.web_socket_port × IsWebSocketPath library o.web_socket_path)
unfolding validate_web_socket
web_socket_iff library o =
    let both =
      seq_iff (refuse_if (port_out_of_range o.web_socket_port))
        (validate_path library o.web_socket_path) in
    (
      λ h. (
        (IsPort-iff o.web_socket_port).0 (both.0 h).0,
        (path_iff library o.web_socket_path).0 (both.0 h).1,
      ),
      λ h.
          both.1 ((IsPort-iff o.web_socket_port).1 h.0, (path_iff library o.web_socket_path).1 h.1),
    )

differ_iff : (a b : Bool) → (refuse_if (differ a b) ≡ ok tt) ↔ (a ≡ b)
differ_iff true true = (λ h. refl, λ h. refl)
differ_iff true false = (λ h. cc, λ h. cc)
differ_iff false true = (λ h. cc, λ h. cc)
differ_iff false false = (λ h. refl, λ h. refl)

not_iff : (b : Bool) → (refuse_if (not b) ≡ ok tt) ↔ (b ≡ true)
not_iff true = (λ h. refl, λ h. refl)
not_iff false = (λ h. cc, λ h. cc)

module _ (library : PathLibrary) (o : ServerOptions) where
  abbrev has_tcp : Bool
  has_tcp = has_transport o.transports transport_tcp

  abbrev has_web_socket : Bool
  has_web_socket = has_transport o.transports transport_web_socket

  accepted : validate_server_options library o ≡ ok tt → IsValid library o
  unfolding validate_server_options
  accepted h0 =
      let (nonempty, h1) = (seq_iff (refuse_if (length o.transports == 0)) _).0 h0 in
      let (known, h2) = (seq_iff (validate_transports o.transports []) _).0 h1 in
      let (tcp, h3) = (seq_iff (when has_tcp _) _).0 h2 in
      let (ws, h4) = (seq_iff (when has_web_socket _) _).0 h3 in
      let (limits, h5) = (seq_iff (validate_limits o) _).0 h4 in
      let (files, version) =
        (seq_iff (refuse_if (differ (same o.cert_file []) (same o.private_key_file []))) _).0 h5 in
      record {
        transports_known = (transports_iff o.transports).0 ((refuse_iff _).0 nonempty, known);
        tcp_port = λ e. (IsPort-iff o.port).0 ((when_iff has_tcp _).0 tcp e);
        tcp_version = λ e. (not_iff _).0 ((when_iff has_tcp _).0 version e);
        web_socket_port =
            λ e. ((web_socket_iff library o).0 ((when_iff has_web_socket _).0 ws e)).0;
        web_socket_path =
            λ e. ((web_socket_iff library o).0 ((when_iff has_web_socket _).0 ws e)).1;
        limits = (limits_iff o).0 limits;
        certificate = (differ_iff _ _).0 files;
      }

  accepts : IsValid library o → validate_server_options library o ≡ ok tt
  unfolding validate_server_options
  accepts v =
      let (nonempty, known) = (transports_iff o.transports).1 v.transports_known in
      (seq_iff _ _).1 (
        (refuse_iff _).1 nonempty,
        (seq_iff _ _).1 (
          known,
          (seq_iff _ _).1 (
            (when_iff has_tcp _).1 (λ e. (IsPort-iff o.port).1 (v.tcp_port e)),
            (seq_iff _ _).1 (
              (when_iff has_web_socket _).1
                  (λ e. (web_socket_iff library o).1 (v.web_socket_port e, v.web_socket_path e)),
              (seq_iff _ _).1 (
                (limits_iff o).1 v.limits,
                (seq_iff _ _).1 (
                  (differ_iff _ _).1 v.certificate,
                  (when_iff has_tcp _).1 (λ e. (not_iff _).1 (v.tcp_version e)),
                ),
              ),
            ),
          ),
        ),
      )

  -- validateServerOptions accepts a server's options exactly when they are valid.
  pub validate_server_options_iff : (validate_server_options library o ≡ ok tt) ↔ IsValid library o
  validate_server_options_iff = (accepted, accepts)
