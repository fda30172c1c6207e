-- ===== src/Frame/Length.antt =====
-- readLengthField and adjustFrameLength in plain numbers.
use ramix.Frame.Config.{Settings, IsSound, IsLen, decoder_of}
use ramix.Bytes.{All, IsByte, value, uint, little_endian, big_endian, ByteOrder, slice}
use ramix.Prelude.Bits.{bit_or_disjoint}
use ramix.Bytes.Laws.{All-take, All-drop, take-all, value-lt}
use ramix.Prelude.{
  ℕ, List, ◌+◌, ◌≤◌, ◌∷◌, length, [], take, ◌≡◌, drop, ok, arith, ◌-◌, ap, length-take, length-drop,
  Result, ◌^◌, ◌*◌, some, if◌then◌else◌, inl, ltb, ◌∙◌, err, inr, invalid_frame, none,
}
use ramix.Frame.{uint24, read_byte, read_field, read_length_field, adjust_frame_length}
use ramix.Prelude.Int.{max_int}
use ramix.Prelude.Int.{pos, pos_part, neg_part}
use Prim.Native.Nat.{bit_or}

pub length-slice :
    {A : Type 0} (off len : ℕ) (xs : List A)
    → off + len ≤ length xs
    → length (take len (drop off xs)) ≡ len
length-slice off len xs h = omega (arith, length-take {0} len (drop off xs), length-drop {0} off xs)

pub slice-pos :
    (bs : List ℕ) (lo hi : ℕ)
    → lo ≤ hi
    → hi ≤ length bs
    → slice bs (pos lo) (pos hi) ≡ ok (take (hi - lo) (drop lo bs))
unfolding slice
slice-pos bs lo hi h k = ground arith

-- The three bytes of a 24-bit field are or-ed at disjoint places.
uint24-value :
    (order : ByteOrder) (a b c : ℕ)
    → IsByte a
    → IsByte b
    → IsByte c
    → uint24 order (a ∷ b ∷ c ∷ []) ≡ ok (value order (a ∷ b ∷ c ∷ []))
unfolding uint24 value
uint24-value little_endian a b c ha hb hc = ap ok (
    omega (
      arith,
      ap (λ (t : ℕ). bit_or t (c * 2 ^ 16)) (bit_or_disjoint 8 a b ha),
      bit_or_disjoint 16 (a + b * 2 ^ 8) c (omega arith),
    ))
uint24-value big_endian a b c ha hb hc = ap ok (
    omega (
      arith,
      ap (λ (t : ℕ). bit_or t (a * 2 ^ 16)) (bit_or_disjoint 8 c b hc),
      bit_or_disjoint 16 (c + b * 2 ^ 8) a (omega arith),
    ))

pub uint-value :
    (order : ByteOrder) (k : ℕ) (field : List ℕ)
    → length field ≡ k
    → uint order k field ≡ ok (value order field)
unfolding uint
uint-value order k field e = rw (← e, take-all) (ground arith)

-- A field of 8 bytes must be a signed number; the shorter ones always are.
abbrev pub signed_field : ByteOrder → List ℕ → Result ℕ
signed_field order field =
    if ltb max_int (value order field) then err invalid_frame else ok (value order field)

read_byte_field :
    (order : ByteOrder) (field : List ℕ)
    → length field ≡ 1
    → All IsByte field
    → read_byte field ≡ ok (value order field)
unfolding value
read_byte_field little_endian (a ∷ []) e h = ap ok (omega arith)
read_byte_field big_endian (a ∷ []) e h = ap ok (omega arith)
read_byte_field order [] e h = absurd (omega arith)
read_byte_field order (a ∷ b ∷ field) e h = absurd (omega arith)

read_three :
    (order : ByteOrder) (field : List ℕ)
    → length field ≡ 3
    → All IsByte field
    → uint24 order field ≡ ok (value order field)
read_three order (a ∷ b ∷ c ∷ []) e h = uint24-value order a b c h.0 h.1.0 h.1.1.0
read_three order [] e h = absurd (omega arith)
read_three order (a ∷ []) e h = absurd (omega arith)
read_three order (a ∷ b ∷ []) e h = absurd (omega arith)
read_three order (a ∷ b ∷ c ∷ d ∷ field) e h = absurd (omega arith)

small_field :
    (order : ByteOrder) (field : List ℕ) (k : ℕ)
    → All IsByte field
    → length field ≡ k
    → 256 ^ k ≤ max_int
    → signed_field order field ≡ ok (value order field)
small_field order field k h e small =
    ground (arith, value-lt order field h, ap (λ (t : ℕ). 256 ^ t) e)

read_field_lem :
    (order : ByteOrder) (len : ℕ) (field : List ℕ)
    → IsLen len
    → length field ≡ len
    → All IsByte field
    → read_field (some order) (pos len) field ≡ signed_field order field
unfolding read_field
read_field_lem order len field (inl e) l h =
    rw (e, small_field order field 1 h (l ∙ e) (omega arith))
      (read_byte_field order field (l ∙ e) h)
read_field_lem order len field (inr (inl e)) l h =
    rw (e, small_field order field 2 h (l ∙ e) (omega arith)) (uint-value order 2 field (l ∙ e))
read_field_lem order len field (inr (inr (inl e))) l h =
    rw (e, small_field order field 3 h (l ∙ e) (omega arith)) (read_three order field (l ∙ e) h)
read_field_lem order len field (inr (inr (inr (inl e)))) l h =
    rw (e, small_field order field 4 h (l ∙ e) (omega arith)) (uint-value order 4 field (l ∙ e))
read_field_lem order len field (inr (inr (inr (inr e)))) l h =
    rw e (rw (uint-value order 8 field (l ∙ e)) (ground arith))

-- The bytes of the length field.
abbrev pub length_field : Settings → List ℕ → List ℕ
length_field c input = take c.len (drop c.offset input)

module _ (c : Settings) (s : IsSound c) where
  -- On a whole header the field is read as the unsigned number of its bytes in the byte order.
  pub read_length_field_lem :
      (bytes input : List ℕ)
      → All IsByte input
      → c.offset + c.len ≤ length input
      → read_length_field (decoder_of c bytes) input ≡ signed_field c.order (length_field c input)
  unfolding read_length_field
  read_length_field_lem bytes input hb hl =
      rw (slice-pos input c.offset (c.offset + c.len) (omega arith) hl, same)
        (read_field_lem c.order c.len (length_field c input) s.len_supported
          (length-slice c.offset c.len input hl)
          (All-take IsByte c.len _ (All-drop IsByte c.offset input hb)))
    where
      same : c.offset + c.len - c.offset ≡ c.len
      same = omega arith

  -- adjustFrameLength is the sum in integers: it fails exactly when that is below 0, and never wraps.
  pub adjust_frame_length_lem :
      (bytes : List ℕ) (n : ℕ)
      → n ≤ max_int
      → adjust_frame_length (decoder_of c bytes) n ≡ (
          if ltb (n + c.offset + c.len + pos_part c.adjustment) (neg_part c.adjustment)
          then none
          else some (n + c.offset + c.len + pos_part c.adjustment - neg_part c.adjustment))
  unfolding adjust_frame_length
  adjust_frame_length_lem bytes n h = ground arith
