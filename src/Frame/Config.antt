-- ===== src/Frame/Config.antt =====
-- What validateConfiguration accepts, in plain arithmetic.
use ramix.Prelude.{
  ◌∙◌, >>=-eq-ok, ℕ, ◌+◌, ◌-◌, ◌^◌, ◌≤◌, ◌<◌, ◌≡◌, ◌⊎◌, refl, Option, some, ok, arith,
  if◌then◌else◌, ◌==◌, inl, List, [], inr, ap, ◌∷◌,
}
use mathlib.Core.Path.{subst}
use ramix.Prelude.Int.{ℤ, pos, negsuc, pos_part, neg_part}
use ramix.Bytes.{ByteOrder}
use ramix.Frame.{
  FrameDecoderOptions, assemble, validate_configuration, new_frame_decoder, FrameDecoder,
  FrameDecoderOption, apply_options, default_frame_decoder_options, with_byte_order,
  with_max_frame_length, with_length_field_offset, with_length_field_length, with_length_adjustment,
  with_initial_bytes_to_strip,
}
use ramix.Prelude.Int.{max_int}

ℤ-cases : (x : ℤ) → ((n : ℕ) × (x ≡ pos n)) ⊎ ((n : ℕ) × (x ≡ negsuc n))
ℤ-cases (pos n) = inl (n, refl)
ℤ-cases (negsuc n) = inr (n, refl)

-- The values of a Go `int`.
abbrev pub IsInt : ℤ → Type 0
IsInt x = (pos_part x ≤ max_int) × (neg_part x ≤ 2 ^ 63)

-- The fields of the options are Go ints and a uint64.
pub record HasGoTypes (o : FrameDecoderOptions) : Type 0 where
  pub frame_length : o.max_frame_length < 2 ^ 64
  pub offset : IsInt o.length_field_offset
  pub length : IsInt o.length_field_length
  pub adjustment : IsInt o.length_adjustment
  pub strip : IsInt o.initial_bytes_to_strip

-- The largest number of a length field; a field of 8 bytes is read as a signed one.
abbrev pub max_unadjusted : ℕ → ℕ
max_unadjusted len = if len == 8 then 2 ^ 63 - 1 else 256 ^ len - 1

abbrev pub IsLen : ℕ → Type 0
IsLen len = (len ≡ 1) ⊎ (len ≡ 2) ⊎ (len ≡ 3) ⊎ (len ≡ 4) ⊎ (len ≡ 8)

-- The settings of a decoder, in numbers that are not negative where they may not be.
pub record Settings : Type 0 where
  pub order : ByteOrder
  pub limit : ℕ
  pub offset : ℕ
  pub len : ℕ
  pub adjustment : ℤ
  pub strip : ℕ

abbrev pub options_of : Settings → FrameDecoderOptions
options_of c = record {
  byte_order = some c.order;
  max_frame_length = c.limit;
  length_field_offset = pos c.offset;
  length_field_length = pos c.len;
  length_adjustment = c.adjustment;
  initial_bytes_to_strip = pos c.strip;
}

-- The decoder with these settings that holds `bytes`.
abbrev pub decoder_of : Settings → List ℕ → FrameDecoder
decoder_of c bytes = record {
  options = options_of c;
  length_field_end_offset = pos (c.offset + c.len);
  bytes = bytes;
}

-- A header of `offset + len` bytes that fits the frame and an int, and an adjustment that leaves
-- some frame length possible.
pub record IsSound (c : Settings) : Type 0 where
  pub limit_in_uint64 : c.limit < 2 ^ 64
  pub len_supported : IsLen c.len
  pub header_in_frame : c.offset + c.len ≤ c.limit
  pub shrink_in_field : neg_part c.adjustment ≤ max_unadjusted c.len
  pub shrink_in_int : neg_part c.adjustment ≤ max_int
  pub grow_in_frame : c.offset + c.len + pos_part c.adjustment ≤ c.limit
  pub grow_in_int : c.offset + c.len + pos_part c.adjustment ≤ max_int

-- The powers at the lengths that are supported.
power_at : (len : ℕ) → (n : ℕ) → len ≡ n → 256 ^ len ≡ 256 ^ n
power_at len n e = rw e

module _ (c : Settings) (s : IsSound c) where
  -- The end of the length field is computed without a wrap.
  pub assemble-options_of : assemble (options_of c) ≡ decoder_of c []
  unfolding assemble
  assemble-options_of = ground arith

  accepts_shrink :
      (a : ℕ) → c.adjustment ≡ negsuc a → validate_configuration (assemble (options_of c)) ≡ ok tt
  unfolding validate_configuration assemble
  accepts_shrink a e =
      ground (arith, power_at c.len 1, power_at c.len 2, power_at c.len 3, power_at c.len 4)

  accepts_grow :
      (a : ℕ) → c.adjustment ≡ pos a → validate_configuration (assemble (options_of c)) ≡ ok tt
  unfolding validate_configuration assemble
  accepts_grow a e = ground arith

  validate-IsSound : validate_configuration (decoder_of c []) ≡ ok tt
  validate-IsSound = rw (← assemble-options_of) (elim (ℤ-cases c.adjustment) [
    | inl (a, e) ↦ accepts_grow a e
    | inr (a, e) ↦ accepts_shrink a e
  ])

-- The options that set each field.
abbrev pub option_list : Settings → List (Option FrameDecoderOption)
option_list c =
    some (with_byte_order (some c.order))
    ∷ some (with_max_frame_length c.limit)
    ∷ some (with_length_field_offset (pos c.offset))
    ∷ some (with_length_field_length (pos c.len))
    ∷ some (with_length_adjustment c.adjustment)
    ∷ some (with_initial_bytes_to_strip (pos c.strip))
    ∷ []

apply_options-option_list :
    (c : Settings) → apply_options (option_list c) default_frame_decoder_options ≡ ok (options_of c)
unfolding apply_options with_byte_order with_max_frame_length with_length_field_offset
    with_length_field_length with_length_adjustment with_initial_bytes_to_strip
apply_options-option_list c = refl

-- NewFrameDecoder accepts sound settings, each set by its option, and gives the decoder with exactly
-- these settings and no bytes.
pub IsSound-new_frame_decoder :
    (c : Settings) → IsSound c → new_frame_decoder (option_list c) ≡ ok (decoder_of c [])
unfolding new_frame_decoder
IsSound-new_frame_decoder c s =
    rw (apply_options-option_list c, assemble-options_of c s, validate-IsSound c s) refl

accepted :
    (order : Option ByteOrder) (limit : ℕ) (offset len adjustment strip : ℤ)
    → let o : FrameDecoderOptions = record {
      byte_order = order;
      max_frame_length = limit;
      length_field_offset = offset;
      length_field_length = len;
      length_adjustment = adjustment;
      initial_bytes_to_strip = strip;
    } in
      HasGoTypes o
      → validate_configuration (assemble o) ≡ ok tt
      → (c : Settings) × IsSound c × (o ≡ options_of c)
unfolding validate_configuration assemble
accepted (some order) limit (pos offset) (pos len) (pos a) (pos strip) t h = (
  record {
    order = order;
    limit = limit;
    offset = offset;
    len = len;
    adjustment = pos a;
    strip = strip;
  },
  ground arith,
  refl,
)
accepted (some order) limit (pos offset) (pos len) (negsuc a) (pos strip) t h = (
  record {
    order = order;
    limit = limit;
    offset = offset;
    len = len;
    adjustment = negsuc a;
    strip = strip;
  },
  ground (arith, power_at len 1, power_at len 2, power_at len 3, power_at len 4),
  refl,
)
accepted _ limit _ _ _ _ t h = absurd (ground arith)

assembled :
    (o : FrameDecoderOptions) (d : FrameDecoder)
    → validate_configuration (assemble o) ≡ ok tt
    → assemble o ≡ d
    → (validate_configuration (assemble d.options) ≡ ok tt) × (d ≡ assemble d.options)
unfolding assemble
assembled o d h e =
    subst (λ x. (validate_configuration (assemble x.options) ≡ ok tt) × (x ≡ assemble x.options)) e
      (h, refl)

new_frame_decoder_ok :
    (options : List (Option FrameDecoderOption)) (d : FrameDecoder)
    → new_frame_decoder options ≡ ok d
    → (validate_configuration (assemble d.options) ≡ ok tt) × (d ≡ assemble d.options)
unfolding new_frame_decoder
new_frame_decoder_ok options d h =
    let (o, e, h') = >>=-eq-ok (apply_options options default_frame_decoder_options) _ h in
    let (u, e', h'') = >>=-eq-ok (validate_configuration (assemble o)) _ h' in
    assembled o d e' (cc h'')

-- Every decoder that NewFrameDecoder returns has sound settings and holds no bytes.
pub new_frame_decoder-IsSound :
    (options : List (Option FrameDecoderOption)) (d : FrameDecoder)
    → new_frame_decoder options ≡ ok d
    → HasGoTypes d.options
    → (c : Settings) × IsSound c × (d ≡ decoder_of c [])
new_frame_decoder-IsSound options d h t =
    let (v, e) = new_frame_decoder_ok options d h in
    let o = d.options in
    let (c, s, eo) =
      accepted o.byte_order o.max_frame_length o.length_field_offset o.length_field_length
        o.length_adjustment o.initial_bytes_to_strip t v in
    (c, s, e ∙ ap assemble eo ∙ assemble-options_of c s)
