-- ===== src/Frame.antt =====
-- frame_decoder.go: the options of a length-field frame decoder, their validation, and the decoding
-- of a byte stream into frames. `int` has 64 bits. The decoder's lock is not modelled: a call
-- of `Decode` holds it from its first line to its last.
pub mod Length
pub mod Config
pub mod Reference
pub mod Loop
pub mod Split
pub mod Stream
pub mod Feed
pub mod Wire
mod Tests
use ramix.Prelude.{
  ℕ, zero, suc, ◌+◌, ◌-◌, ◌*◌, ◌/◌, ◌%◌, ◌^◌, Bool, true, false, ◌&&◌, ◌||◌, not, Option, none,
  some, List, [], ◌∷◌, ◌++◌, Result, ok, err, panic, stuck, ◌>>=◌, ◌>>◌, fail_if,
  invalid_configuration, invalid_frame, frame_too_large, ltb, leb, ◌==◌, if◌then◌else◌, length,
  take, drop,
}
use ramix.Prelude.Int.{
  ℤ, pos, negsuc, ◌+ℤ◌, ltb_ℤ, pos_part, neg_part, uint64, int64, max_int, max_uint64,
}
use ramix.Bytes.{ByteOrder, little_endian, big_endian, uint, slice}
use Prim.Native.Nat.{bit_or}

-- math.MinInt.
abbrev pub is_min_int : ℤ → Bool
is_min_int (pos n) = false
is_min_int (negsuc n) = n == max_int

-- `-x` on an `int` below 0 that is not math.MinInt.
abbrev pub magnitude : ℤ → ℕ
magnitude x = neg_part x

abbrev pub is_negative : ℤ → Bool
is_negative (pos n) = false
is_negative (negsuc n) = true

-- `ByteOrder` is nil where it is `none`.
pub record FrameDecoderOptions : Type 0 where
  pub byte_order : Option ByteOrder
  pub max_frame_length : ℕ  -- uint64
  pub length_field_offset : ℤ
  pub length_field_length : ℤ
  pub length_adjustment : ℤ
  pub initial_bytes_to_strip : ℤ

unfoldable pub default_frame_decoder_options : FrameDecoderOptions
default_frame_decoder_options = record {
  byte_order = some little_endian;
  max_frame_length = 2 ^ 20;
  length_field_offset = pos 0;
  length_field_length = pos 0;
  length_adjustment = pos 0;
  initial_bytes_to_strip = pos 0;
}

abbrev pub FrameDecoderOption : Type 0
FrameDecoderOption = FrameDecoderOptions → FrameDecoderOptions

unfoldable pub with_byte_order : Option ByteOrder → FrameDecoderOption
with_byte_order byte_order o = record o { byte_order = byte_order }

unfoldable pub with_max_frame_length : ℕ → FrameDecoderOption
with_max_frame_length max_frame_length o = record o { max_frame_length = max_frame_length }

unfoldable pub with_length_field_offset : ℤ → FrameDecoderOption
with_length_field_offset offset o = record o { length_field_offset = offset }

unfoldable pub with_length_field_length : ℤ → FrameDecoderOption
with_length_field_length len o = record o { length_field_length = len }

unfoldable pub with_length_adjustment : ℤ → FrameDecoderOption
with_length_adjustment adjustment o = record o { length_adjustment = adjustment }

unfoldable pub with_initial_bytes_to_strip : ℤ → FrameDecoderOption
with_initial_bytes_to_strip count o = record o { initial_bytes_to_strip = count }

pub record FrameDecoder : Type 0 where
  pub options : FrameDecoderOptions
  pub open options use *
  pub length_field_end_offset : ℤ
  pub bytes : List ℕ

unfoldable pub max_representable_unadjusted_length : ℤ → Result ℕ
max_representable_unadjusted_length (pos n) =
    if n == 1
    then ok (2 ^ 8 - 1)
    else if n == 2
    then ok (2 ^ 16 - 1)
    else if n == 3
    then ok (2 ^ 24 - 1)
    else if n == 4
    then ok (2 ^ 32 - 1)
    else if n == 8
    then ok (2 ^ 63 - 1)
    else err invalid_configuration
max_representable_unadjusted_length (negsuc n) = err invalid_configuration

abbrev pub is_nil : Option ByteOrder → Bool
is_nil none = true
is_nil (some _) = false

-- The `switch` on the length of the length field.
abbrev pub is_supported : ℤ → Bool
is_supported (pos n) = n == 1 || n == 2 || n == 3 || n == 4 || n == 8
is_supported (negsuc n) = false

-- min(MaxFrameLength, the largest int).
unfoldable pub effective_max : ℕ → ℕ
effective_max max_frame_length = if ltb max_int max_frame_length then max_int else max_frame_length

unfoldable pub validate_configuration : FrameDecoder → Result (Unit {0})
unfolding effective_max max_representable_unadjusted_length uint64
validate_configuration d = do
  fail_if (is_nil d.byte_order) invalid_configuration
  fail_if (not (is_supported d.length_field_length)) invalid_configuration
  fail_if (is_negative d.length_field_offset) invalid_configuration
  fail_if (is_negative d.initial_bytes_to_strip) invalid_configuration
  fail_if (d.max_frame_length == 0) invalid_configuration
  fail_if (is_negative d.length_field_end_offset) invalid_configuration
  let limit = effective_max d.max_frame_length
  let header = uint64 d.length_field_end_offset
  fail_if (ltb limit header) invalid_configuration
  fail_if (is_min_int d.length_adjustment) invalid_configuration
  max_unadjusted ← max_representable_unadjusted_length d.length_field_length
  if is_negative d.length_adjustment
      then fail_if (ltb max_unadjusted (magnitude d.length_adjustment)) invalid_configuration
      else fail_if (ltb (limit - header) (uint64 d.length_adjustment)) invalid_configuration

-- A nil option is `none`.
unfoldable pub apply_options :
    List (Option FrameDecoderOption) → FrameDecoderOptions → Result FrameDecoderOptions
apply_options [] o = ok o
apply_options (none ∷ options) o = err invalid_configuration
apply_options (some option ∷ options) o = apply_options options (option o)

unfoldable pub assemble : FrameDecoderOptions → FrameDecoder
unfolding int64 uint64 ◌+ℤ◌
assemble o = record {
  options = o;
  length_field_end_offset = int64 (uint64 (o.length_field_offset +ℤ o.length_field_length));
  bytes = [];
}

unfoldable pub new_frame_decoder : List (Option FrameDecoderOption) → Result FrameDecoder
new_frame_decoder options = do
  o ← apply_options options default_frame_decoder_options
  validate_configuration (assemble o)
  ok (assemble o)

-- The 3-byte case, which encoding/binary does not have.
unfoldable pub uint24 : ByteOrder → List ℕ → Result ℕ
uint24 little_endian (a ∷ b ∷ c ∷ _) = ok (bit_or (bit_or a (b * 2 ^ 8)) (c * 2 ^ 16))
uint24 big_endian (a ∷ b ∷ c ∷ _) = ok (bit_or (bit_or c (b * 2 ^ 8)) (a * 2 ^ 16))
uint24 _ _ = panic

abbrev pub read_byte : List ℕ → Result ℕ
read_byte [] = panic
read_byte (b ∷ _) = ok b

-- The `switch` of readLengthField past its first case.
unfoldable pub read_ordered : ByteOrder → ℕ → List ℕ → Result ℕ
unfolding uint24
read_ordered order n field =
    if n == 2
    then uint order 2 field
    else if n == 3
    then uint24 order field
    else if n == 4
    then uint order 4 field
    else if n == 8
    then (do value ← uint order 8 field; fail_if (ltb max_int value) invalid_frame; ok value)
    else err invalid_configuration

-- With a nil byte order the calls of its methods panic, and the 3-byte case takes its second branch.
unfoldable pub read_field : Option ByteOrder → ℤ → List ℕ → Result ℕ
unfolding read_ordered uint24
read_field order (negsuc n) field = err invalid_configuration
read_field none (pos n) field =
    if n == 1
    then read_byte field
    else if n == 3
    then uint24 big_endian field
    else if is_supported (pos n)
    then panic
    else err invalid_configuration
read_field (some order) (pos n) field =
    if n == 1 then read_byte field else read_ordered order n field

unfoldable pub read_length_field : FrameDecoder → List ℕ → Result ℕ
read_length_field d input = do
  field ← slice input d.length_field_offset d.length_field_end_offset
  read_field d.byte_order d.length_field_length field

-- `none` is Go's `0, false`.
unfoldable pub add_adjustment : ℕ → ℤ → Option ℕ
add_adjustment adjusted (pos positive) =
    if ltb (max_uint64 - positive) adjusted then none else some (adjusted + positive)
add_adjustment adjusted (negsuc n) =
    if n == max_int then none else if ltb adjusted (suc n) then none else some (adjusted - suc n)

unfoldable pub adjust_frame_length : FrameDecoder → ℕ → Option ℕ
unfolding uint64 add_adjustment
adjust_frame_length d unadjusted =
    let header = uint64 d.length_field_end_offset in
    if ltb (max_uint64 - header) unadjusted
    then none
    else add_adjustment (unadjusted + header) d.length_adjustment

-- What decodeOne returns besides an error: `complete = false`, or a frame and the bytes consumed.
pub data Decoded : Type 0 where
  incomplete : Decoded
  complete : List ℕ → ℕ → Decoded

-- The rest of decodeOne once the length of the frame is known.
unfoldable pub cut_frame : FrameDecoder → List ℕ → ℕ → Result Decoded
unfolding uint64
cut_frame d input frame_length = do
  fail_if (ltb frame_length (uint64 d.length_field_end_offset)) invalid_frame
  fail_if (ltb d.max_frame_length frame_length) frame_too_large
  fail_if (ltb max_int frame_length) invalid_frame
  if ltb (length input) frame_length then ok incomplete else (do
    fail_if (ltb_ℤ (pos frame_length) d.initial_bytes_to_strip) invalid_frame
    frame ← slice input d.initial_bytes_to_strip (pos frame_length)
    ok (complete frame frame_length))

abbrev pub or_err {ℓ} : {A : Type ℓ} → Option A → Result A
or_err none = err invalid_frame
or_err (some a) = ok a

unfoldable pub decode_one : FrameDecoder → List ℕ → Result Decoded
decode_one d input =
    if ltb_ℤ (pos (length input)) d.length_field_end_offset then ok incomplete else (do
      unadjusted ← read_length_field d input
      frame_length ← or_err (adjust_frame_length d unadjusted)
      cut_frame d input frame_length)

-- The `for` of Decode over `d.bytes`, with the frames so far. The result is what is left of
-- `d.bytes` (nil after an error) and Decode's.
unfoldable pub decode_loop :
    ℕ → FrameDecoder → List ℕ → List (List ℕ) → List ℕ × Result (List (List ℕ))
decode_loop zero d bytes frames = (bytes, stuck)
decode_loop (suc fuel) d bytes frames = elim (decode_one d bytes) [
  | ok incomplete ↦ (bytes, ok frames)
  | ok (complete frame consumed) ↦ decode_loop fuel d (drop consumed bytes) (frames ++ (frame ∷ []))
  | err e ↦ ([], err e)
  | panic ↦ (bytes, panic)
  | stuck ↦ (bytes, stuck)
]

-- Each round consumes a byte at least, so one round more than there are bytes is enough fuel.
unfoldable pub decode : FrameDecoder → List ℕ → FrameDecoder × Result (List (List ℕ))
decode d input =
    let bytes = d.bytes ++ input in
    let (rest, result) = decode_loop (suc (length bytes)) d bytes [] in
    (record d { bytes = rest }, result)

-- The settings with which server.go and connection.go build a decoder.
unfoldable pub connection_options : ℕ → List (Option FrameDecoderOption)
connection_options max_frame_length =
    some (with_length_field_offset (pos 4))
    ∷ some (with_length_field_length (pos 4))
    ∷ some (with_max_frame_length max_frame_length)
    ∷ []
