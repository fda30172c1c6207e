-- ===== src/Options/Tests.antt =====
-- Runs of the options, and the theorems at concrete inputs.
use ramix.Options.{
  PathLibrary, validate_server_options, default_server_options, with_transports,
  with_web_socket_path, validate_transports, has_transport, validate_web_socket, validate_path,
  codes,
}
use ramix.Options.Valid.{IsValid, validate_server_options_iff}
use ramix.Options.Transports.{IsDistinct, default_server_options-IsValid, with_transports_lem}
use ramix.Prelude.{true, ◌≡◌, ◌∷◌, ok, arith, [], ◌↔◌, refl, err, invalid_configuration}

-- A library that finds every path a clean URI.
abbrev pub trusting : PathLibrary
trusting = record { is_plain_uri = λ _. true; clean = λ path. path }

default_valid : validate_server_options trusting (default_server_options 4) ≡ ok tt
default_valid =
    (validate_server_options_iff trusting (default_server_options 4)).1
      (default_server_options-IsValid trusting 4 refl refl (omega arith) (omega arith))

default_server_options-IsValid_example : IsValid trusting (default_server_options 4)
default_server_options-IsValid_example =
    default_server_options-IsValid trusting 4 refl refl (omega arith) (omega arith)

validate_server_options_iff_example :
    (validate_server_options trusting (default_server_options 4) ≡ ok tt)
    ↔ IsValid trusting (default_server_options 4)
validate_server_options_iff_example =
    validate_server_options_iff trusting (default_server_options 4)

with_transports_lem_example :
    IsDistinct (with_transports (2 ∷ 1 ∷ 2 ∷ []) (default_server_options 4)).transports
    × (has_transport (with_transports (2 ∷ 1 ∷ 2 ∷ []) (default_server_options 4)).transports 1
        ≡ has_transport (2 ∷ 1 ∷ 2 ∷ []) 1)
with_transports_lem_example = with_transports_lem (2 ∷ 1 ∷ 2 ∷ []) (default_server_options 4) 1

wildcard_refused :
    validate_server_options trusting
      (with_web_socket_path (codes "/{id}") (default_server_options 4))
    ≡ err invalid_configuration
unfolding validate_server_options default_server_options with_web_socket_path validate_transports
    has_transport validate_web_socket validate_path
wildcard_refused = refl
