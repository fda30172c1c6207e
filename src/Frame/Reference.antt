-- ===== src/Frame/Reference.antt =====
-- decodeOne against a reference in plain numbers.
use ramix.Frame.Config.{Settings, IsSound, decoder_of}
use ramix.Prelude.{
  ℕ, List, ◌+◌, Result, if◌then◌else◌, ◌≡◌, ltb, err, length, arith, frame_too_large, ok,
  invalid_frame, take, ◌-◌, drop, Bool-cases, inl, inr, ◌≤◌, ◌>>=◌, ◌<◌, Returned,
}
use ramix.Frame.{cut_frame, decode_one, Decoded, incomplete, complete, or_err, adjust_frame_length}
use ramix.Prelude.Int.{max_int}
use ramix.Bytes.{All, value, IsByte}
use ramix.Frame.Length.{length_field, read_length_field_lem, slice-pos, adjust_frame_length_lem}
use ramix.Prelude.Int.{pos_part, neg_part}

abbrev pub header : Settings → ℕ
header c = c.offset + c.len

-- The reference: a frame of `n + header + adjustment` bytes, for `n` in the length field.
abbrev pub frame_of_length : Settings → List ℕ → ℕ → Result Decoded
frame_of_length c input total =
    if ltb c.limit total
    then err frame_too_large
    else if ltb max_int total
    then err invalid_frame
    else if ltb (length input) total
    then ok incomplete
    else if ltb total c.strip
    then err invalid_frame
    else ok (complete (take (total - c.strip) (drop c.strip input)) total)

unfoldable pub next_frame : Settings → List ℕ → Result Decoded
next_frame c input =
    let n = value c.order (length_field c input) in
    if ltb (length input) (header c)
    then ok incomplete
    else if ltb max_int n
    then err invalid_frame
    else if ltb (n + pos_part c.adjustment) (neg_part c.adjustment)
    then err invalid_frame
    else frame_of_length c input (n + header c + pos_part c.adjustment - neg_part c.adjustment)

module _ (c : Settings) (s : IsSound c) (bytes : List ℕ) where
  cut_frame_lem :
      (input : List ℕ) (total : ℕ)
      → cut_frame (decoder_of c bytes) input total
        ≡ (if ltb total (header c) then err invalid_frame else frame_of_length c input total)
  unfolding cut_frame
  cut_frame_lem input total = ground (arith, slice-pos input c.strip total)

  sum_of_length :
      (n : ℕ) → n + c.offset + c.len + pos_part c.adjustment ≡ n + header c + pos_part c.adjustment
  sum_of_length n = omega arith

  after_length :
      (input : List ℕ) (n : ℕ)
      → n ≤ max_int
      → (or_err (adjust_frame_length (decoder_of c bytes) n)
          >>= cut_frame (decoder_of c bytes) input)
        ≡ (if ltb (n + pos_part c.adjustment) (neg_part c.adjustment)
            then err invalid_frame
            else frame_of_length c input
                (n + header c + pos_part c.adjustment - neg_part c.adjustment))
  after_length input n h =
      let total : ℕ = n + header c + pos_part c.adjustment - neg_part c.adjustment in
      ground
        (arith, adjust_frame_length_lem c s bytes n, sum_of_length n, cut_frame_lem input total)

  -- decodeOne agrees with the reference on every slice of bytes.
  pub decode_one-next_frame :
      (input : List ℕ)
      → All IsByte input
      → decode_one (decoder_of c bytes) input ≡ next_frame c input
  unfolding decode_one next_frame
  decode_one-next_frame input hb = elim (Bool-cases (ltb (length input) (header c))) [
    | inl short ↦ rw short
    | inr long ↦
        rw (long, read_length_field_lem c s bytes input hb (ground arith))
          (ground (arith, after_length input (value c.order (length_field c input))))
  ]

module _ (c : Settings) (s : IsSound c) (input : List ℕ) where
  -- A frame holds its header at least, is in the input and within the limit.
  pub next_frame_complete :
      (frame : List ℕ) (consumed : ℕ)
      → next_frame c input ≡ ok (complete frame consumed)
      → (0 < consumed)
        × (consumed ≤ length input)
        × (consumed ≤ c.limit)
        × (c.strip ≤ consumed)
        × (frame ≡ take (consumed - c.strip) (drop c.strip input))
  unfolding next_frame
  next_frame_complete frame consumed e = ground arith

  -- Bytes that are no frame yet are fewer than the limit.
  pub next_frame_incomplete : next_frame c input ≡ ok incomplete → length input < c.limit
  unfolding next_frame
  next_frame_incomplete e = ground arith

  pub next_frame-Returned : Returned (next_frame c input)
  unfolding next_frame
  next_frame-Returned = ground arith
