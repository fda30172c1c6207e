-- ===== src/Slices.antt =====
-- Go's slices: a slice shows the first cells of an array, which other slices may share. A slice
-- here starts at its array's first cell, as those of router.go do. An array is the list of the cells
-- that were written so far, and its number is its address.
pub mod Append
use ramix.Prelude.{ℕ, List, take, [], ◌∷◌, update, suc, ◌+◌, length, leb, if◌then◌else◌, ◌++◌, drop}

-- `arrays` is read below `size`, the number of arrays made so far.
pub record Memory (A : Type 0) : Type 0 where
  pub size : ℕ
  pub arrays : ℕ → List A

pub record Slice : Type 0 where
  pub array : ℕ
  pub len : ℕ
  pub capacity : ℕ

module _ {A : Type 0} where
  -- What a reader of the slice sees.
  abbrev pub contents : Memory A → Slice → List A
  contents m s = take s.len (m.arrays s.array)

  -- A nil slice: it has an array of its own with no room.
  unfoldable pub nil_slice : Memory A → Slice × Memory A
  nil_slice m = (
    record { array = m.size; len = 0; capacity = 0 },
    record { size = suc m.size; arrays = update m.arrays m.size [] },
  )

  -- The builtin `append`: it writes into the array where there is room, over what stands there, and
  -- else makes a new array, in which it leaves the room that the runtime chooses for that array.
  unfoldable pub append_slice : (ℕ → ℕ) → Slice → List A → Memory A → Slice × Memory A
  append_slice room s [] m = (s, m)
  append_slice room s (x ∷ xs) m =
      let total = s.len + length (x ∷ xs) in
      let old = m.arrays s.array in
      if leb total s.capacity
      then (
        record s { len = total },
        record m {
          arrays = update m.arrays s.array (take s.len old ++ ((x ∷ xs) ++ drop total old));
        },
      )
      else (
        record { array = m.size; len = total; capacity = total + room m.size },
        record { size = suc m.size; arrays = update m.arrays m.size (take s.len old ++ (x ∷ xs)) },
      )

  -- `append([]T(nil), s...)`.
  unfoldable pub copy_slice : (ℕ → ℕ) → Slice → Memory A → Slice × Memory A
  unfolding nil_slice append_slice
  copy_slice room s m = let (fresh, n) = nil_slice m in append_slice room fresh (contents m s) n
