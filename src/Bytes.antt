-- ===== src/Bytes.antt =====
-- Byte slices, and what frame_decoder.go, encoder.go and decoder.go use of encoding/binary.
-- A byte is a number; a slice is its list of bytes.
pub mod Laws
use ramix.Prelude.{
  ℕ, zero, suc, ◌+◌, ◌-◌, ◌*◌, ◌/◌, ◌%◌, ◌^◌, ◌<◌, List, [], ◌∷◌, ◌++◌, Result, ok, panic, ltb, leb,
  ◌&&◌, if◌then◌else◌, length, take, drop, Bool,
}
use ramix.Prelude.Int.{ℤ, pos, negsuc}
use mathlib.Core.List.{reverse}

abbrev pub IsByte : ℕ → Type 0
IsByte b = b < 256

abbrev pub All {ℓ κ} : {A : Type ℓ} → (A → Type κ) → List A → Type κ
All P [] = Unit
All P (x ∷ xs) = P x × All P xs

-- The number that bytes stand for, lowest byte first.
abbrev pub le_value : List ℕ → ℕ
le_value [] = 0
le_value (b ∷ bs) = b + 256 * le_value bs

-- binary.LittleEndian and binary.BigEndian.
pub data ByteOrder : Type 0 where
  little_endian big_endian : ByteOrder

unfoldable pub value : ByteOrder → List ℕ → ℕ
value little_endian bs = le_value bs
value big_endian bs = le_value (reverse bs)

-- Uint16, Uint32 and Uint64 read the first `k` bytes, and panic on a shorter slice.
unfoldable pub uint : ByteOrder → ℕ → List ℕ → Result ℕ
uint order k bs = if ltb (length bs) k then panic else ok (value order (take k bs))

-- binary.LittleEndian.PutUint32 on a uint32.
unfoldable pub put_uint32 : ℕ → List ℕ
put_uint32 v = v % 256 ∷ v / 256 % 256 ∷ v / 256 / 256 % 256 ∷ v / 256 / 256 / 256 % 256 ∷ []

-- The expression `bs[lo:hi]`, which panics unless `0 ≤ lo ≤ hi ≤ len(bs)`.
unfoldable pub slice : List ℕ → ℤ → ℤ → Result (List ℕ)
slice bs (pos lo) (pos hi) =
    if leb lo hi && leb hi (length bs) then ok (take (hi - lo) (drop lo bs)) else panic
slice bs (pos lo) (negsuc hi) = panic
slice bs (negsuc lo) hi = panic
