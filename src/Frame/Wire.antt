-- ===== src/Frame/Wire.antt =====
-- The decoder of a connection reads back the messages that `encode` writes, however the stream of
-- their bytes is cut into reads.
use ramix.Prelude.{
  ℕ, List, ◌≤◌, ◌∷◌, ◌<◌, ◌++◌, [], ◌^◌, length, ◌+◌, inr, ◌≡◌, inl, ok, arith, refl, if◌then◌else◌,
  ltb, err, invalid_configuration, take, suc, length-append, ◌∙◌, ◌-◌, drop, append-nil,
  append_assoc, zero,
}
use ramix.Frame.{
  decode, new_frame_decoder, connection_options, default_frame_decoder_options,
  with_length_field_offset, with_length_field_length, with_max_frame_length, apply_options,
  validate_configuration, complete, assemble, incomplete,
}
use ramix.Codec.{Message, max_uint32}
use ramix.Frame.Reference.{next_frame}
use ramix.Frame.Config.{Settings, IsSound, decoder_of}
use ramix.Codec.RoundTrip.{IsUint32}
use ramix.Bytes.{put_uint32, little_endian, All, value, IsByte, le_value}
use ramix.Prelude.Int.{pos}
use ramix.Bytes.Laws.{
  le_value-put_uint32, take-append_le, take-all, All-append, drop-append_le, drop-all,
}
use ramix.Frame.Feed.{concat, feed, feed-concat, IsIdle-nil}
use ramix.Frame.Loop.{split_loop, split_waits, split_cuts}
use ramix.Frame.Stream.{decode_lem}

-- The settings of a connection's decoder.
abbrev pub wire_settings : ℕ → Settings
wire_settings limit = record {
  order = little_endian;
  limit = limit;
  offset = 4;
  len = 4;
  adjustment = pos 0;
  strip = 0;
}

pub wire_settings-IsSound : (limit : ℕ) → 8 ≤ limit → limit < 2 ^ 64 → IsSound (wire_settings limit)
wire_settings-IsSound limit h k = record {
  limit_in_uint64 = k;
  len_supported = inr (inr (inr (inl refl)));
  header_in_frame = h;
  shrink_in_field = omega arith;
  shrink_in_int = omega arith;
  grow_in_frame = omega arith;
  grow_in_int = omega arith;
}

-- The constructor accepts a connection's options exactly from a frame of 8 bytes on.
pub connection_decoder :
    (limit : ℕ)
    → limit < 2 ^ 64
    → new_frame_decoder (connection_options limit) ≡ (
        if ltb limit 8 then err invalid_configuration else ok (decoder_of (wire_settings limit) []))
unfolding new_frame_decoder connection_options default_frame_decoder_options
    with_length_field_offset with_length_field_length with_max_frame_length apply_options
    validate_configuration assemble
connection_decoder limit h = ground arith

-- A message that fits a frame of `limit` bytes.
pub record FitsWire (limit : ℕ) (m : Message) : Type 0 where
  pub event_fits : IsUint32 m.event
  pub body_bytes : All IsByte m.body
  pub body_fits : length m.body ≤ max_uint32
  pub frame_fits : 8 + length m.body ≤ limit

-- What `encode` writes for each message, one after the other.
abbrev pub bytes_of : Message → List ℕ
bytes_of m = put_uint32 m.event ++ (put_uint32 (length m.body) ++ m.body)

abbrev pub frames_of : List Message → List (List ℕ)
frames_of [] = []
frames_of (m ∷ ms) = bytes_of m ∷ frames_of ms

take_body : (body rest : List ℕ) → take (length body) (body ++ rest) ≡ body
take_body body rest = take-append_le (length body) body rest (omega arith) ∙ take-all body

-- Eight bytes of header and the body.
take_frame :
    (a b c d e f g h t : ℕ) (body rest : List ℕ)
    → t ≡ 8 + length body
    → take t (a ∷ b ∷ c ∷ d ∷ e ∷ f ∷ g ∷ h ∷ (body ++ rest)) ≡ a ∷ b ∷ c ∷ d ∷ e ∷ f ∷ g ∷ h ∷ body
take_frame a b c d e f g h t body rest p =
    let q : t ≡ suc (suc (suc (suc (suc (suc (suc (suc (length body)))))))) = omega arith in
    rw (q, take_body body rest)

next_frame_header :
    (limit a b c d e f g h : ℕ) (body rest : List ℕ)
    → le_value (e ∷ f ∷ g ∷ h ∷ []) ≡ length body
    → length body ≤ max_uint32
    → 8 + length body ≤ limit
    → next_frame (wire_settings limit) (a ∷ b ∷ c ∷ d ∷ e ∷ f ∷ g ∷ h ∷ (body ++ rest))
      ≡ ok (complete (a ∷ b ∷ c ∷ d ∷ e ∷ f ∷ g ∷ h ∷ body) (8 + length body))
unfolding next_frame value
next_frame_header limit a b c d e f g h body rest p q r =
    let n : ℕ = le_value (e ∷ f ∷ g ∷ h ∷ []) in
    ground
      (arith, length-append {0} body rest, take_frame a b c d e f g h (n + 8 + 0 - 0 - 0) body rest)

next_frame-bytes_of :
    (limit : ℕ) (m : Message) (rest : List ℕ)
    → FitsWire limit m
    → next_frame (wire_settings limit) (bytes_of m ++ rest)
      ≡ ok (complete (bytes_of m) (8 + length m.body))
unfolding put_uint32
next_frame-bytes_of limit m rest f =
    next_frame_header limit _ _ _ _ _ _ _ _ m.body rest
      (unfold put_uint32 in le_value-put_uint32 (length m.body) (omega arith)) f.body_fits
      f.frame_fits

put_uint32-IsByte : (v : ℕ) → All IsByte (put_uint32 v)
unfolding put_uint32
put_uint32-IsByte v = omega arith

bytes_of-IsByte : (limit : ℕ) (m : Message) → FitsWire limit m → All IsByte (bytes_of m)
bytes_of-IsByte limit m f =
    All-append IsByte (put_uint32 m.event) (put_uint32 (length m.body) ++ m.body)
      (put_uint32-IsByte m.event)
      (All-append IsByte (put_uint32 (length m.body)) m.body (put_uint32-IsByte (length m.body))
        f.body_bytes)

frames_of-IsByte :
    (limit : ℕ) (ms : List Message) → All (FitsWire limit) ms → All IsByte (concat (frames_of ms))
frames_of-IsByte limit [] h = tt
frames_of-IsByte limit (m ∷ ms) (f, fs) =
    All-append IsByte (bytes_of m) (concat (frames_of ms)) (bytes_of-IsByte limit m f)
      (frames_of-IsByte limit ms fs)

length-bytes_of : (m : Message) → length (bytes_of m) ≡ 8 + length m.body
unfolding put_uint32
length-bytes_of m = omega arith

drop-bytes_of : (m : Message) (rest : List ℕ) → drop (8 + length m.body) (bytes_of m ++ rest) ≡ rest
drop-bytes_of m rest = rw (
  ← length-bytes_of m,
  drop-append_le (length (bytes_of m)) (bytes_of m) rest (omega arith),
  drop-all (bytes_of m),
)

waits_nil : (limit : ℕ) → 8 ≤ limit → next_frame (wire_settings limit) [] ≡ ok incomplete
unfolding next_frame
waits_nil limit h = refl

split_loop-frames_of :
    (limit fuel : ℕ) (ms : List Message) (frames : List (List ℕ))
    → 8 ≤ limit
    → All (FitsWire limit) ms
    → length (concat (frames_of ms)) < fuel
    → split_loop fuel (wire_settings limit) (concat (frames_of ms)) frames
      ≡ ([], ok (frames ++ frames_of ms))
split_loop-frames_of limit zero ms frames hl fs h = absurd (omega arith)
split_loop-frames_of limit (suc fuel) [] frames hl fs h =
    rw (split_waits fuel (wire_settings limit) [] frames (waits_nil limit hl), append-nil frames)
split_loop-frames_of limit (suc fuel) (m ∷ ms) frames hl (f, fs) h =
    let rest = concat (frames_of ms) in
    rw (
      split_cuts fuel (wire_settings limit) (bytes_of m ++ rest) frames (bytes_of m)
          (8 + length m.body) (next_frame-bytes_of limit m rest f),
      drop-bytes_of m rest,
      split_loop-frames_of limit fuel ms (frames ++ (bytes_of m ∷ [])) hl fs
          (omega (arith, length-append {0} (bytes_of m) rest, length-bytes_of m)),
      append_assoc frames (bytes_of m ∷ []) (frames_of ms),
    )

-- One call on the bytes of all the messages.
pub decode-frames_of :
    (limit : ℕ) (ms : List Message)
    → 8 ≤ limit
    → limit < 2 ^ 64
    → All (FitsWire limit) ms
    → decode (decoder_of (wire_settings limit) []) (concat (frames_of ms))
      ≡ (decoder_of (wire_settings limit) [], ok (frames_of ms))
decode-frames_of limit ms hl hu fs =
    let c = wire_settings limit in
    rw (
      decode_lem c [] (concat (frames_of ms)) (wire_settings-IsSound limit hl hu) tt
          (frames_of-IsByte limit ms fs),
      split_loop-frames_of limit (suc (length (concat (frames_of ms)))) ms [] hl fs (omega arith),
    )

-- A connection reads back the frames of the messages that were encoded, whatever the sizes of its
-- reads, and keeps nothing.
pub feed-frames_of :
    (limit : ℕ) (ms : List Message) (chunks : List (List ℕ))
    → 8 ≤ limit
    → limit < 2 ^ 64
    → All (FitsWire limit) ms
    → concat chunks ≡ concat (frames_of ms)
    → feed chunks (decoder_of (wire_settings limit) [])
      ≡ (decoder_of (wire_settings limit) [], ok (frames_of ms))
feed-frames_of limit ms chunks hl hu fs e =
    let c = wire_settings limit in
    let s = wire_settings-IsSound limit hl hu in
    let b = frames_of-IsByte limit ms fs in
    rw (
      feed-concat c s chunks [] (IsIdle-nil c s) tt (rw e b),
      e,
      decode-frames_of limit ms hl hu fs,
    )
