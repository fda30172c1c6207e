-- ===== src/Launch/Tests.antt =====
-- server.go: startups of a server with both transports.
use ramix.Launch.{
  World, Launch, not_listening, launch_of, build_server, launch, listening, check_options, serving,
  no_hooks, start_up, bind_transports, bind_transport, apply_tls, prepare_web_socket_server, serve,
  startup_canceled, roll_back, close_serving_resources,
}
use ramix.Prelude.{true, ◌==◌, ◌≡◌, none, [], ◌∷◌, false, ok, refl}
use ramix.Launch.Outcome.{registered, launch-Outcome}
use ramix.Launch.Ends.{Outcome}
use ramix.Options.{
  default_server_options, validate_server_options, validate_transports, has_transport,
  validate_web_socket, validate_path, validate_limits,
}
use ramix.Pool.{pool_of, new_worker_pool, start}
use ramix.Router.{new_router}
use ramix.Frame.{
  new_frame_decoder, connection_options, default_frame_decoder_options, with_length_field_offset,
  with_length_field_length, with_max_frame_length, apply_options, validate_configuration, assemble,
}
use ramix.Server.{claim_run, shutdown, begin_serving, rollback_startup, close_shutdown_done}

abbrev calm : World
calm = record {
  library = record { is_plain_uri = λ _. true; clean = λ path. path };
  listen_tcp = λ _ _ _. listening 7;
  listen_web_socket = λ _ _ _. listening 8;
  load_key_pair = λ _ _. none;
  path_panics = λ _. false;
  stops = λ _. false;
  ends = λ _. false;
}

-- The port of WebSocket is in use.
abbrev occupied : World
occupied = record calm { listen_web_socket = λ _ _ _. not_listening 98 }

-- Shutdown is called between the two listeners.
abbrev interrupted : World
interrupted = record calm { stops = λ n. n == 2 }

abbrev built : Launch
built = launch_of (default_server_options 2) (pool_of 2 1024)

built_lem : build_server calm.library 2 [] ≡ ok built
unfolding build_server check_options default_server_options validate_server_options
    validate_transports has_transport validate_web_socket validate_path validate_limits
    new_frame_decoder connection_options default_frame_decoder_options with_length_field_offset
    with_length_field_length with_max_frame_length apply_options validate_configuration assemble
    new_worker_pool
built_lem = refl

both : (launch calm built).0 ≡ serving
unfolding build_server check_options default_server_options validate_server_options
    validate_transports has_transport validate_web_socket validate_path validate_limits
    new_frame_decoder connection_options default_frame_decoder_options with_length_field_offset
    with_length_field_length with_max_frame_length apply_options validate_configuration assemble
    new_worker_pool launch claim_run start_up bind_transports bind_transport apply_tls
    prepare_web_socket_server serve startup_canceled shutdown start begin_serving roll_back
    close_serving_resources rollback_startup close_shutdown_done
both = refl

one_closed : (launch occupied built).1.closed ≡ 7 ∷ []
unfolding build_server check_options default_server_options validate_server_options
    validate_transports has_transport validate_web_socket validate_path validate_limits
    new_frame_decoder connection_options default_frame_decoder_options with_length_field_offset
    with_length_field_length with_max_frame_length apply_options validate_configuration assemble
    new_worker_pool launch claim_run start_up bind_transports bind_transport apply_tls
    prepare_web_socket_server serve startup_canceled shutdown start begin_serving roll_back
    close_serving_resources rollback_startup close_shutdown_done
one_closed = refl

interrupted_lem : (launch interrupted built).1.closed ≡ 7 ∷ []
unfolding build_server check_options default_server_options validate_server_options
    validate_transports has_transport validate_web_socket validate_path validate_limits
    new_frame_decoder connection_options default_frame_decoder_options with_length_field_offset
    with_length_field_length with_max_frame_length apply_options validate_configuration assemble
    new_worker_pool launch claim_run start_up bind_transports bind_transport apply_tls
    prepare_web_socket_server serve startup_canceled shutdown start begin_serving roll_back
    close_serving_resources rollback_startup close_shutdown_done
interrupted_lem = refl

launch-Outcome_example :
    Outcome built.options (launch occupied (registered built.options new_router no_hooks built))
launch-Outcome_example =
    launch-Outcome occupied 2 [] built built.options new_router no_hooks built_lem
