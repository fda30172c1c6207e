-- ===== src/Frame/Tests.antt =====
-- Runs of the frame decoder, and the theorems at concrete inputs.
use ramix.Frame.Config.{
  Settings, IsSound, decoder_of, new_frame_decoder-IsSound, IsSound-new_frame_decoder, option_list,
}
use ramix.Codec.{Message}
use ramix.Bytes.{put_uint32, big_endian, slice, uint, value}
use ramix.Frame.Wire.{
  FitsWire, wire_settings, wire_settings-IsSound, bytes_of, connection_decoder, feed-frames_of,
}
use ramix.Prelude.{
  List, Returned, ◌∷◌, arith, ℕ, [], ◌≡◌, err, ok, length, refl, invalid_configuration, ◌<◌,
  invalid_frame,
}
use ramix.Frame.{
  new_frame_decoder, decode_one, decode, connection_options, decode_loop, read_length_field,
  read_field, adjust_frame_length, cut_frame,
}
use ramix.Frame.Feed.{feed}
use ramix.Prelude.Int.{negsuc}
use ramix.Frame.Reference.{next_frame, decode_one-next_frame}
use ramix.Frame.Loop.{decode_ends}

abbrev pub wire : Settings
wire = wire_settings 1024

wire-IsSound : IsSound wire
wire-IsSound = wire_settings-IsSound 1024 (omega arith) (omega arith)

abbrev ping : Message
ping = record { event = 7; body = 1 ∷ 2 ∷ []; body_size = 0 }

ping_bytes : bytes_of ping ≡ 7 ∷ 0 ∷ 0 ∷ 0 ∷ 2 ∷ 0 ∷ 0 ∷ 0 ∷ 1 ∷ 2 ∷ []
unfolding put_uint32
ping_bytes = refl

ping-FitsWire : FitsWire 1024 ping
ping-FitsWire = omega arith

-- The header and one byte of the body, then the rest and the first byte of another message.
abbrev cut : List (List ℕ)
cut = (7 ∷ 0 ∷ 0 ∷ 0 ∷ 2 ∷ 0 ∷ 0 ∷ 0 ∷ 1 ∷ []) ∷ (2 ∷ []) ∷ []

connection_decoder_example : new_frame_decoder (connection_options 7) ≡ err invalid_configuration
connection_decoder_example = connection_decoder 7 (omega arith)

IsSound-new_frame_decoder_example : new_frame_decoder (option_list wire) ≡ ok (decoder_of wire [])
IsSound-new_frame_decoder_example = IsSound-new_frame_decoder wire wire-IsSound

new_frame_decoder-IsSound_example :
    (c : Settings) × IsSound c × (decoder_of wire [] ≡ decoder_of c [])
new_frame_decoder-IsSound_example =
    new_frame_decoder-IsSound (connection_options 1024) (decoder_of wire [])
      (connection_decoder 1024 (omega arith)) (omega arith)

decode_one-next_frame_example : decode_one (decoder_of wire []) (9 ∷ []) ≡ next_frame wire (9 ∷ [])
decode_one-next_frame_example = decode_one-next_frame wire wire-IsSound [] (9 ∷ []) (omega arith)

decode_ends_example :
    Returned (decode (decoder_of wire (7 ∷ [])) (0 ∷ [])).1
    × (length (decode (decoder_of wire (7 ∷ [])) (0 ∷ [])).0.bytes < 1024)
decode_ends_example = decode_ends wire (7 ∷ []) (0 ∷ []) wire-IsSound (omega arith) (omega arith)

feed-frames_of_example :
    feed cut (decoder_of wire []) ≡ (decoder_of wire [], ok (bytes_of ping ∷ []))
unfolding put_uint32
feed-frames_of_example =
    feed-frames_of 1024 (ping ∷ []) cut (omega arith) (omega arith) (ping-FitsWire, tt) refl

-- A length field of eight bytes above the largest int64 is refused.
abbrev wide : Settings
wide = record {
  order = big_endian;
  limit = 1024;
  offset = 0;
  len = 8;
  adjustment = negsuc 1;
  strip = 8;
}

wide_refused :
    (decode (decoder_of wide []) (255 ∷ 0 ∷ 0 ∷ 0 ∷ 0 ∷ 0 ∷ 0 ∷ 0 ∷ [])).1 ≡ err invalid_frame
unfolding decode decode_loop decode_one read_length_field slice read_field uint value
wide_refused = refl

-- A stripped frame: ten bytes are consumed, the last two are returned.
wide_frame :
    (decode (decoder_of wide []) (0 ∷ 0 ∷ 0 ∷ 0 ∷ 0 ∷ 0 ∷ 0 ∷ 4 ∷ 5 ∷ 6 ∷ 7 ∷ [])).1
    ≡ ok ((5 ∷ 6 ∷ []) ∷ [])
unfolding decode decode_loop decode_one read_length_field slice read_field uint value
    adjust_frame_length cut_frame
wide_frame = refl
