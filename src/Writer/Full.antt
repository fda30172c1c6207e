-- ===== src/Writer/Full.antt =====
-- tcp_connection.go: what writeFull writes.
use ramix.Writer.{
  Answer, WriteResult, written_all, short_write, no_progress, waiting, write_failed, write_full,
  after_write, out_of_range,
}
use ramix.Prelude.{
  ℕ, List, Option, ◌≡◌, ◌≢◌, drop, length, none, ◌∷◌, ◌++◌, [], take, ◌<◌, ◌≤◌, ◌+◌, arith, map,
  some, refl, sym, Bool-cases, false, take-append-drop, if_false, inl, ◌==◌, ◌∙◌, if_true, ==-ne,
  ap, inr, length-drop, append_assoc,
}
use ramix.Prelude.Int.{pos, pos_part}
use ramix.Connection.Requests.{Cause}
use ramix.Bytes.{All}
use mathlib.Core.Path.{subst}

-- What a call leaves behind: either all bytes were taken and it returns no error, or a first part of
-- them was and it returns an error.
pub data Delivered (bytes : List ℕ) : List ℕ × WriteResult → Type 0 where
  complete : (out : List ℕ) → out ≡ bytes → Delivered bytes (out, written_all)
  partial :
      (out rest : List ℕ) (r : WriteResult)
      → bytes ≡ out ++ rest
      → r ≢ written_all
      → r ≢ waiting
      → Delivered bytes (out, r)

-- Where nothing was taken.
refused :
    (bytes : List ℕ) (r : WriteResult) → r ≢ written_all → r ≢ waiting → Delivered bytes ([], r)
refused bytes r not_all not_waiting = partial [] bytes r refl not_all not_waiting

extend :
    (bytes : List ℕ) (n : ℕ) (later : List ℕ × WriteResult)
    → Delivered (drop n bytes) later
    → Delivered bytes (take n bytes ++ later.0, later.1)
extend bytes n _ (complete out e) =
    complete (take n bytes ++ out) (ap (λ t. take n bytes ++ t) e ∙ take-append-drop n bytes)
extend bytes n _ (partial out rest r e not_all not_waiting) =
    partial (take n bytes ++ out) rest r
      (sym (take-append-drop n bytes)
        ∙ ap (λ t. take n bytes ++ t) e
        ∙ sym (append_assoc (take n bytes) out rest))
      not_all not_waiting

after_write-Delivered :
    (failed : Option Cause) (n : ℕ) (bytes : List ℕ) (later : List ℕ × WriteResult)
    → (0 < n → Delivered (drop n bytes) later)
    → Delivered bytes (after_write failed n bytes later)
after_write-Delivered (some cause) n bytes later go =
    partial (take n bytes) (drop n bytes) (write_failed cause) (sym (take-append-drop n bytes))
      (λ e. cc) (λ e. cc)
after_write-Delivered none n bytes later go = elim (Bool-cases (n == 0)) [
  | inl e ↦
      subst (Delivered bytes) (sym (if_true _ _ e)) (refused bytes no_progress (λ e. cc) (λ e. cc))
  | inr e ↦
      subst (Delivered bytes) (sym (if_false _ _ e)) (extend bytes n later (go (positive n e)))
]
  where
    positive : (n : ℕ) → (n == 0) ≡ false → 0 < n
    positive n e = ground arith

-- Whatever the writer answers, as often as there are bytes or more: writeFull comes back, what the
-- writer took is a first part of the bytes in order, and where it returns no error it is all of them.
pub write_full-Delivered :
    (answers : List Answer) (bytes : List ℕ)
    → length bytes ≤ length answers
    → Delivered bytes (write_full answers bytes)
unfolding write_full
write_full-Delivered answers [] h = complete [] refl
write_full-Delivered [] (byte ∷ rest) h = absurd (omega arith)
write_full-Delivered (answer ∷ answers) (byte ∷ rest) h =
    elim (Bool-cases (out_of_range answer.written (length (byte ∷ rest)))) [
      | inl e ↦
          subst (Delivered (byte ∷ rest)) (sym (if_true _ _ e))
            (refused (byte ∷ rest) short_write (λ e. cc) (λ e. cc))
      | inr e ↦ subst (Delivered (byte ∷ rest)) (sym (if_false _ _ e)) (
          after_write-Delivered answer.failed (pos_part answer.written) (byte ∷ rest) _
            (λ some_written.
              write_full-Delivered answers (drop (pos_part answer.written) (byte ∷ rest))
                (omega (arith, length-drop {0} (pos_part answer.written) (byte ∷ rest)))))
    ]

-- The sum of the counts.
abbrev pub total : List ℕ → ℕ
total [] = 0
total (n ∷ ns) = n + total ns

abbrev pub took : ℕ → Answer
took n = record { written = pos n; failed = none }

-- A writer that takes one or more bytes at each call, and all of them in the end, is given all bytes.
pub write_full_complete :
    (counts : List ℕ) (bytes : List ℕ)
    → All (λ n. 0 < n) counts
    → total counts ≡ length bytes
    → write_full (map took counts) bytes ≡ (bytes, written_all)
unfolding write_full
write_full_complete [] [] h e = refl
write_full_complete (n ∷ counts) [] (h, hs) e = refl
write_full_complete [] (byte ∷ rest) h e = absurd (omega arith)
write_full_complete (n ∷ counts) (byte ∷ rest) (h, hs) e =
    let bytes = byte ∷ rest in
    if_false _ _ (in_range n (length bytes) (omega arith))
    ∙ if_false _ _ (==-ne n 0 (λ z. absurd (omega arith)))
    ∙ ap (λ (x : List ℕ × WriteResult). (take n bytes ++ x.0, x.1))
        (write_full_complete counts (drop n bytes) hs (omega (arith, length-drop {0} n bytes)))
    ∙ ap (λ t. (t, written_all)) (take-append-drop n bytes)
  where
    in_range : (n len : ℕ) → n ≤ len → out_of_range (pos n) len ≡ false
    in_range n len h = ground arith
