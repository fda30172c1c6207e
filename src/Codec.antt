-- ===== src/Codec.antt =====
-- message.go, request.go, encoder.go and decoder.go: a message and its bytes.
-- `int` has 64 bits, so `int(^uint(0) >> 1)` is 2^63 - 1.
pub mod RoundTrip
mod Tests
use ramix.Prelude.{
  ℕ, zero, suc, ◌+◌, ◌-◌, ◌*◌, ◌%◌, ◌^◌, List, [], ◌∷◌, ◌++◌, Result, ok, err, ◌>>=◌, ◌>>◌, fail_if,
  invalid_frame, ltb, ◌==◌, not, length, take, drop, if◌then◌else◌,
}
use ramix.Prelude.Int.{ℤ, pos, negsuc, max_int}
use ramix.Bytes.{uint, slice, little_endian, put_uint32}

pub record Message : Type 0 where
  pub event : ℕ  -- uint32
  pub body : List ℕ
  pub body_size : ℕ  -- uint32

-- `Request` holds its message and no more.
pub record Request : Type 0 where
  pub message : Message

unfoldable pub new_request : Message → Request
new_request message = record { message = message }

abbrev pub max_uint32 : ℕ
max_uint32 = 2 ^ 32 - 1

unfoldable pub max_encoded_body_length : ℕ
max_encoded_body_length =
    if ltb max_int 8
    then 0
    else let allocation_limit : ℕ = max_int - 8 in
      if ltb max_uint32 allocation_limit then max_uint32 else allocation_limit

unfoldable pub validate_encoded_body_length : ℕ → ℕ → Result (Unit {0})
validate_encoded_body_length body_length max_body_length =
    fail_if (ltb max_body_length body_length) invalid_frame

unfoldable pub encode : Message → Result (List ℕ)
unfolding validate_encoded_body_length max_encoded_body_length
encode message = do
  let body_length = length message.body
  validate_encoded_body_length body_length max_encoded_body_length
  ok (put_uint32 message.event ++ (put_uint32 (body_length % 2 ^ 32) ++ message.body))

abbrev pub header_size : ℕ
header_size = 8

unfoldable pub validate_decoded_body_size : ℕ → ℕ → Result (Unit {0})
validate_decoded_body_size declared actual = do
  fail_if (ltb max_uint32 actual) invalid_frame
  fail_if (not (declared == actual)) invalid_frame

unfoldable pub decode : List ℕ → Result Message
unfolding validate_decoded_body_size
decode bytes = do
  fail_if (ltb (length bytes) header_size) invalid_frame
  event_field ← slice bytes (pos 0) (pos 4)
  event ← uint little_endian 4 event_field
  size_field ← slice bytes (pos 4) (pos 8)
  body_size ← uint little_endian 4 size_field
  validate_decoded_body_size body_size (length bytes - header_size)
  ok (record { event = event; body = drop header_size bytes; body_size = body_size })
