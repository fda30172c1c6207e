-- ===== src/Launch/Checks.antt =====
-- server.go, option.go: the checks of the options come back with a result.
use ramix.Prelude.{
  ℕ, Result, Bool, ◌≡◌, ◌>>◌, List, ok, inr, inl, arith, ◌⊎◌, true, ◌∷◌, err, sym, false, [],
  invalid_configuration, refl, ◌>>=◌, >>=-eq-ok,
}
use ramix.Options.{
  validate_transports, validate_path, validate_limits, validate_server_options, refuse_if, when,
  PathLibrary, ServerOptions, validate_web_socket,
}
use ramix.Frame.{
  new_frame_decoder, connection_options, default_frame_decoder_options, with_length_field_offset,
  with_length_field_length, with_max_frame_length, apply_options, validate_configuration, assemble,
}
use ramix.Transport.{Transport}
use mathlib.Core.Path.{subst}
use ramix.Launch.{check_options}
use ramix.Options.Valid.{IsValid, validate_server_options_iff}

-- A check that came back, with success or the error for options.
abbrev pub IsBack : Result (Unit {0}) → Type 0
IsBack m = (m ≡ ok tt) ⊎ (m ≡ err invalid_configuration)

>>-IsBack : (m k : Result (Unit {0})) → IsBack m → IsBack k → IsBack (m >> k)
>>-IsBack m k (inl e) h = subst (λ x. IsBack (x >> k)) (sym e) h
>>-IsBack m k (inr e) h = subst (λ x. IsBack (x >> k)) (sym e) (inr refl)

refuse-IsBack : (b : Bool) → IsBack (refuse_if b)
refuse-IsBack true = inr refl
refuse-IsBack false = inl refl

when-IsBack : (b : Bool) (m : Result (Unit {0})) → IsBack m → IsBack (when b m)
when-IsBack true m h = h
when-IsBack false m h = inl refl

validate_transports-IsBack : (ts seen : List Transport) → IsBack (validate_transports ts seen)
unfolding validate_transports
validate_transports-IsBack [] seen = inl refl
validate_transports-IsBack (t ∷ ts) seen = ground (arith, validate_transports-IsBack ts (t ∷ seen))

validate_path-IsBack : (library : PathLibrary) (path : List ℕ) → IsBack (validate_path library path)
unfolding validate_path
validate_path-IsBack library path = ground arith

validate_limits-IsBack : (o : ServerOptions) → IsBack (validate_limits o)
unfolding validate_limits
validate_limits-IsBack o = ground arith

validate_web_socket-IsBack :
    (library : PathLibrary) (o : ServerOptions) → IsBack (validate_web_socket library o)
unfolding validate_web_socket
validate_web_socket-IsBack library o =
    ground (arith, validate_path-IsBack library o.web_socket_path)

validate_server_options-IsBack :
    (library : PathLibrary) (o : ServerOptions) → IsBack (validate_server_options library o)
unfolding validate_server_options
validate_server_options-IsBack library o = ground (
  arith,
  validate_transports-IsBack o.transports [],
  validate_web_socket-IsBack library o,
  validate_limits-IsBack o,
)

-- The decoder of a connection, and then nothing.
abbrev decoder_check : ℕ → Result (Unit {0})
decoder_check limit = new_frame_decoder (connection_options limit) >>= λ _. ok tt

decoder-IsBack : (limit : ℕ) → IsBack (decoder_check limit)
unfolding new_frame_decoder connection_options default_frame_decoder_options
    with_length_field_offset with_length_field_length with_max_frame_length apply_options
    validate_configuration assemble
decoder-IsBack limit = ground arith

pub check_options-IsBack :
    (library : PathLibrary) (o : ServerOptions) → IsBack (check_options library o)
unfolding check_options
check_options-IsBack library o =
    >>-IsBack (validate_server_options library o) (decoder_check o.max_frame_length)
      (validate_server_options-IsBack library o) (decoder-IsBack o.max_frame_length)

pub check_options-IsValid :
    (library : PathLibrary) (o : ServerOptions)
    → check_options library o ≡ ok tt
    → IsValid library o
unfolding check_options
check_options-IsValid library o e =
    let (u, valid, rest) =
      >>=-eq-ok (validate_server_options library o) (λ _. decoder_check o.max_frame_length) e in
    (validate_server_options_iff library o).0 valid
