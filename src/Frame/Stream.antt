-- ===== src/Frame/Stream.antt =====
-- Decode does not depend on how the bytes of a stream are cut into calls.
use ramix.Frame.Config.{Settings, IsSound, decoder_of}
use ramix.Prelude.{
  List, ℕ, length, ◌≡◌, Error, ◌++◌, ok, err, drop, arith, ap, append_assoc, ◌<◌, [], suc,
  append-nil, ◌∷◌, zero, sym, ◌∙◌,
}
use ramix.Frame.Reference.{next_frame}
use ramix.Bytes.{All, IsByte}
use ramix.Frame.{decode, FrameDecoder, incomplete}
use ramix.Bytes.Laws.{All-append}
use ramix.Frame.Loop.{
  split_loop, outcome, waits, split_waits, cuts, fails, split_cuts, split_fails,
  decode_loop-split_loop,
}
use ramix.Frame.Split.{
  fewer_fuel, prepend, split_loop-IsByte, split_loop-append, split_loop-append_err,
  split_loop-prepend,
}

-- Bytes that are no frame yet.
abbrev pub IsIdle : Settings → List ℕ → Type 0
IsIdle c kept = next_frame c kept ≡ ok incomplete

split_loop-IsIdle :
    (c : Settings) (s : IsSound c) (fuel : ℕ) (bytes rest : List ℕ) (frames out : List (List ℕ))
    → length bytes < fuel
    → split_loop fuel c bytes frames ≡ (rest, ok out)
    → IsIdle c rest
split_loop-IsIdle c s zero bytes rest frames out h e = absurd (omega arith)
split_loop-IsIdle c s (suc fuel) bytes rest frames out h e = elim (outcome c s bytes) [
  | waits w ↦
      let same : (bytes, ok frames) ≡ (rest, ok out) =
        sym (split_waits fuel c bytes frames w) ∙ e in
      rw (← ap (λ p. p.0) same) w
  | cuts frame consumed w ↦
      split_loop-IsIdle c s fuel (drop consumed bytes) rest (frames ++ (frame ∷ [])) out
        (fewer_fuel c s fuel bytes frame consumed w h)
        (sym (split_cuts fuel c bytes frames frame consumed w) ∙ e)
  | fails x w ↦ absurd (cc (split_fails fuel c bytes frames x w))
]

-- One call of Decode, over the reference loop.
pub decode_lem :
    (c : Settings) (kept input : List ℕ)
    → IsSound c
    → All IsByte kept
    → All IsByte input
    → let r = split_loop (suc (length (kept ++ input))) c (kept ++ input) [] in
      decode (decoder_of c kept) input ≡ (decoder_of c r.0, r.1)
unfolding decode
decode_lem c kept input s hk hi = rw (
    decode_loop-split_loop c s (suc (length (kept ++ input))) kept (kept ++ input) []
      (All-append IsByte kept input hk hi))

chunks_at :
    (c : Settings) (kept first second rest : List ℕ) (out : List (List ℕ))
    → IsSound c
    → All IsByte kept
    → All IsByte first
    → All IsByte second
    → All IsByte rest
    → split_loop (suc (length (kept ++ first))) c (kept ++ first) [] ≡ (rest, ok out)
    → decode (decoder_of c kept) (first ++ second)
      ≡ ((decode (decoder_of c rest) second).0, prepend out (decode (decoder_of c rest) second).1)
chunks_at c kept first second rest out s hk hf hs hr e = rw (
  decode_lem c kept (first ++ second) s hk (All-append IsByte first second hf hs),
  decode_lem c rest second s hr hs,
  ← append_assoc kept first second,
  split_loop-append c s (suc (length (kept ++ first))) (suc (length ((kept ++ first) ++ second)))
      (suc (length (rest ++ second))) (kept ++ first) second rest [] out (omega arith) e
      (omega arith) (omega arith),
  split_loop-prepend c s (suc (length (rest ++ second))) (rest ++ second) out (omega arith),
)

module _ (c : Settings) (kept first second : List ℕ) (s : IsSound c) where
  -- Frames that one call returns and those of the next are what one call on both inputs returns,
  -- and it leaves the same bytes.
  pub decode_chunks :
      All IsByte kept
      → All IsByte first
      → All IsByte second
      → {d : FrameDecoder} {out : List (List ℕ)} → decode (decoder_of c kept) first ≡ (d, ok out)
      → decode (decoder_of c kept) (first ++ second)
        ≡ ((decode d second).0, prepend out (decode d second).1)
  decode_chunks hk hf hs {d} {out} e =
      let bytes = kept ++ first in
      let fuel = suc (length bytes) in
      let same : (decoder_of c (split_loop fuel c bytes []).0, (split_loop fuel c bytes []).1)
          ≡ (d, ok out) =
        sym (decode_lem c kept first s hk hf) ∙ e in
      let rest = (split_loop fuel c bytes []).0 in
      rw (← ap (λ p. p.0) same) (
        chunks_at c kept first second rest out s hk hf hs
          (split_loop-IsByte c s fuel bytes [] (omega arith) (All-append IsByte kept first hk hf))
          (ap (λ r. (rest, r)) (ap (λ p. p.1) same)))

  -- Once a call fails, it fails with the same error on every longer input.
  pub decode_chunks_err :
      All IsByte kept
      → All IsByte first
      → All IsByte second
      → {d : FrameDecoder} {x : Error} → decode (decoder_of c kept) first ≡ (d, err x)
      → decode (decoder_of c kept) (first ++ second) ≡ (decoder_of c [], err x)
  decode_chunks_err hk hf hs {d} {x} e =
      let bytes = kept ++ first in
      let fuel = suc (length bytes) in
      let same : (decoder_of c (split_loop fuel c bytes []).0, (split_loop fuel c bytes []).1)
          ≡ (d, err x) =
        sym (decode_lem c kept first s hk hf) ∙ e in
      let rest = (split_loop fuel c bytes []).0 in
      let failed : split_loop fuel c bytes [] ≡ (rest, err x) =
        ap (λ r. (rest, r)) (ap (λ p. p.1) same) in
      let long = suc (length (bytes ++ second)) in
      let longer : split_loop long c (bytes ++ second) [] ≡ ([], err x) =
        split_loop-append_err c s fuel long bytes second rest [] x (omega arith) failed
          (omega arith) in
      rw (
        decode_lem c kept (first ++ second) s hk (All-append IsByte first second hf hs),
        ← append_assoc kept first second,
        longer,
      )

-- The decoder after a call that returns frames.
pub decode_ok_state :
    (c : Settings) (kept input : List ℕ) {d : FrameDecoder} {out : List (List ℕ)}
    → IsSound c
    → All IsByte kept
    → All IsByte input
    → decode (decoder_of c kept) input ≡ (d, ok out)
    → (rest : List ℕ) × (d ≡ decoder_of c rest) × IsIdle c rest × All IsByte rest
decode_ok_state c kept input {d} {out} s hk hi e =
    let bytes = kept ++ input in
    let r = split_loop (suc (length bytes)) c bytes [] in
    let same : (decoder_of c r.0, r.1) ≡ (d, ok out) = sym (decode_lem c kept input s hk hi) ∙ e in
    let split : r ≡ (r.0, ok out) = ap (λ x. (r.0, x)) (ap (λ p. p.1) same) in
    (
      r.0,
      sym (ap (λ p. p.0) same),
      split_loop-IsIdle c s (suc (length bytes)) bytes r.0 [] out (omega arith) split,
      split_loop-IsByte c s (suc (length bytes)) bytes [] (omega arith)
          (All-append IsByte kept input hk hi),
    )

-- The decoder after a call on no bytes.
pub decode_nothing :
    (c : Settings) (kept : List ℕ)
    → IsSound c
    → All IsByte kept
    → IsIdle c kept
    → decode (decoder_of c kept) [] ≡ (decoder_of c kept, ok [])
decode_nothing c kept s hk idle =
    rw (decode_lem c kept [] s hk tt, append-nil kept, split_waits (length kept) c kept [] idle)

pub decode_err_state :
    (c : Settings) (kept input : List ℕ) {d : FrameDecoder} {x : Error}
    → IsSound c
    → All IsByte kept
    → All IsByte input
    → decode (decoder_of c kept) input ≡ (d, err x)
    → d ≡ decoder_of c []
decode_err_state c kept input {d} {x} s hk hi e =
    let again = decode_chunks_err c kept input [] s hk hi tt e in
    let whole : decode (decoder_of c kept) input ≡ (decoder_of c [], err x) =
      rw (append-nil input) at again in
    ap (λ p. p.0) (sym e ∙ whole)
