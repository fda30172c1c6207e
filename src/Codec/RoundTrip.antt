-- ===== src/Codec/RoundTrip.antt =====
-- `encode` and `decode` are inverse to one another.
use ramix.Prelude.{ℕ, ◌%◌, ◌^◌, ◌≤◌, ◌<◌, ◌≡◌, List, [], ◌∷◌, ◌++◌, length, arith, ok}
use ramix.Bytes.{IsByte, All, uint, value, slice, le_value, put_uint32}
use ramix.Bytes.Laws.{le_value-put_uint32, put_uint32-le_value}
use ramix.Codec.{Message, encode, decode, max_uint32}

abbrev pub IsUint32 : ℕ → Type 0
IsUint32 n = n < 2 ^ 32

-- A successful `encode` writes the event, the length and the body, and fits a uint32.
pub encode_lem :
    (m : Message)
    → length m.body ≤ max_uint32
    → encode m ≡ ok (put_uint32 m.event ++ (put_uint32 (length m.body) ++ m.body))
unfolding encode
encode_lem m h = let e : length m.body % 2 ^ 32 ≡ length m.body = omega arith in rw e (ground arith)

decode_fields :
    (e0 e1 e2 e3 s0 s1 s2 s3 : ℕ) (body : List ℕ)
    → le_value (s0 ∷ s1 ∷ s2 ∷ s3 ∷ []) ≡ length body
    → length body ≤ max_uint32
    → decode (e0 ∷ e1 ∷ e2 ∷ e3 ∷ s0 ∷ s1 ∷ s2 ∷ s3 ∷ body)
      ≡ ok (record {
        event = le_value (e0 ∷ e1 ∷ e2 ∷ e3 ∷ []);
        body = body;
        body_size = length body;
      })
unfolding decode uint slice value
decode_fields e0 e1 e2 e3 s0 s1 s2 s3 body e h = ground arith

encode_ok :
    (m : Message) (bytes : List ℕ)
    → encode m ≡ ok bytes
    → (length m.body ≤ max_uint32)
      × (put_uint32 m.event ++ (put_uint32 (length m.body % 2 ^ 32) ++ m.body) ≡ bytes)
unfolding encode
encode_ok m bytes h = ground arith

pub decode-written :
    (m : Message)
    → IsUint32 m.event
    → length m.body ≤ max_uint32
    → decode (put_uint32 m.event ++ (put_uint32 (length m.body) ++ m.body))
      ≡ ok (record m { body_size = length m.body })
unfolding put_uint32
decode-written m he hl = rw (decode_fields _ _ _ _ _ _ _ _ m.body (size) hl) (rw event_value)
  where
    size : le_value (put_uint32 (length m.body)) ≡ length m.body
    size = le_value-put_uint32 (length m.body) (omega arith)

    event_value : le_value (put_uint32 m.event) ≡ m.event
    event_value = le_value-put_uint32 m.event he

-- `decode` reads back what `encode` wrote, with the length of the body as its size.
pub decode-encode :
    (m : Message) (bytes : List ℕ)
    → IsUint32 m.event
    → encode m ≡ ok bytes
    → decode bytes ≡ ok (record m { body_size = length m.body })
decode-encode m bytes he h =
    let (hl, e) = encode_ok m bytes h in
    let small : length m.body % 2 ^ 32 ≡ length m.body = omega arith in
    rw (← e, small) (decode-written m he hl)

-- What `decode` accepts are the slices that `encode` writes.
pub encode-decode :
    (bytes : List ℕ) (m : Message) → All IsByte bytes → decode bytes ≡ ok m → encode m ≡ ok bytes
unfolding decode uint slice value encode
encode-decode (a ∷ b ∷ c ∷ d ∷ e ∷ f ∷ g ∷ k ∷ body) m hb h =
    ground (arith, put_uint32-le_value a b c d, put_uint32-le_value e f g k)
encode-decode _ m hb h = ground arith
