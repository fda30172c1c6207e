-- ===== src/Codec/Tests.antt =====
-- Runs of the codec, and the theorems at concrete inputs.
use ramix.Codec.{Message, encode, decode}
use ramix.Prelude.{List, ◌∷◌, ℕ, ◌≡◌, [], ok, err, refl, invalid_frame, arith}
use ramix.Bytes.{put_uint32, slice, uint, value}
use ramix.Codec.RoundTrip.{decode-encode, encode-decode}

abbrev pong : Message
pong = record { event = 300; body = 1 ∷ 2 ∷ []; body_size = 0 }

abbrev pong_bytes : List ℕ
pong_bytes = 44 ∷ 1 ∷ 0 ∷ 0 ∷ 2 ∷ 0 ∷ 0 ∷ 0 ∷ 1 ∷ 2 ∷ []

pong_encoded : encode pong ≡ ok pong_bytes
unfolding encode put_uint32
pong_encoded = refl

pong_decoded : decode pong_bytes ≡ ok (record pong { body_size = 2 })
unfolding decode slice uint value
pong_decoded = refl

decode_short : decode (1 ∷ 2 ∷ []) ≡ err invalid_frame
unfolding decode
decode_short = refl

decode-encode_example : decode pong_bytes ≡ ok (record pong { body_size = 2 })
decode-encode_example = decode-encode pong pong_bytes (omega arith) pong_encoded

encode-decode_example : encode (record pong { body_size = 2 }) ≡ ok pong_bytes
encode-decode_example =
    encode-decode pong_bytes (record pong { body_size = 2 }) (omega arith) pong_decoded
