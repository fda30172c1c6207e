-- ===== src/Options/Transports.antt =====
-- WithTransports, and the options of defaultServerOptions.
use ramix.Options.{
  has_transport, copy_transports, with_transports, ServerOptions, default_server_options,
  PathLibrary, codes,
}
use ramix.Prelude.{
  List, ◌++◌, ◌≡◌, ◌∷◌, [], false, ◌||◌, ◌==◌, arith, Bool-cases, refl, inl, inr, ℕ, true, ◌<◌, ◌^◌,
}
use ramix.Transport.{Transport}
use ramix.Options.Valid.{IsValid}

has_transport-append :
    (xs : List Transport) (y t : Transport)
    → has_transport (xs ++ (y ∷ [])) t ≡ (has_transport xs t || y == t)
unfolding has_transport
has_transport-append [] y t = ground arith
has_transport-append (x ∷ xs) y t = ground (arith, has_transport-append xs y t)

-- No transport stands twice.
abbrev pub IsDistinct : List Transport → Type 0
IsDistinct [] = Unit
IsDistinct (x ∷ xs) = (has_transport xs x ≡ false) × IsDistinct xs

IsDistinct-append :
    (xs : List Transport) (y : Transport)
    → IsDistinct xs
    → has_transport xs y ≡ false
    → IsDistinct (xs ++ (y ∷ []))
unfolding has_transport
IsDistinct-append [] y d h = (refl, tt)
IsDistinct-append (x ∷ xs) y (h, d) k =
    (ground (arith, has_transport-append xs y x), IsDistinct-append xs y d (ground arith))

copy_transports_lem :
    (ts copied : List Transport) (t : Transport)
    → IsDistinct copied
    → IsDistinct (copy_transports ts copied)
      × (has_transport (copy_transports ts copied) t
          ≡ (has_transport copied t || has_transport ts t))
unfolding copy_transports has_transport
copy_transports_lem [] copied t d = (d, ground arith)
copy_transports_lem (x ∷ ts) copied t d = elim (Bool-cases (has_transport copied x)) [
  | inl old ↦ rw old (ground (arith, copy_transports_lem ts copied t d))
  | inr new ↦ rw new (
      ground (
        arith,
        copy_transports_lem ts (copied ++ (x ∷ [])) t (IsDistinct-append copied x d new),
        has_transport-append copied x t,
      ))
]

-- WithTransports keeps each of its arguments once, and no other transport.
pub with_transports_lem :
    (ts : List Transport) (o : ServerOptions) (t : Transport)
    → IsDistinct (with_transports ts o).transports
      × (has_transport (with_transports ts o).transports t ≡ has_transport ts t)
unfolding with_transports has_transport
with_transports_lem ts o t = copy_transports_lem ts [] t tt

-- The default options are valid where the library finds "/ws" a clean URI and there is a processor.
pub default_server_options-IsValid :
    (library : PathLibrary) (processors : ℕ)
    → library.is_plain_uri (codes "/ws") ≡ true
    → library.clean (codes "/ws") ≡ codes "/ws"
    → 0 < processors
    → processors < 2 ^ 32
    → IsValid library (default_server_options processors)
unfolding default_server_options has_transport
default_server_options-IsValid library processors uri clean h k = record {
  transports_known = inr (inr (inl refl));
  tcp_port = λ _. omega arith;
  tcp_version = λ _. refl;
  web_socket_port = λ _. omega arith;
  web_socket_path = λ _. record {
    rooted = refl;
    no_open_brace = refl;
    no_close_brace = refl;
    plain = uri;
    cleaned = rw clean;
  };
  limits = omega arith;
  certificate = refl;
}
