-- ===== src/Export/Decimal.antt =====
-- stats_export.go: the decimal text of a counter is read back.
use ramix.Export.{digits, format_uint}
use ramix.Prelude.{
  ℕ, Bool, List, ◌<◌, ◌≡◌, leb, Option, some, ◌&&◌, none, ◌++◌, arith, ◌∷◌, ◌+◌, suc, [], true, ◌*◌,
  Bool-cases, ◌-◌, ltb, inl, false, inr, zero, ◌/◌, length, ◌%◌, length-append, sym, ap, refl, ◌∙◌,
  ltb→lt,
}
use mathlib.Core.Path.{subst}
use ramix.Options.{has}

abbrev pub is_digit : ℕ → Bool
is_digit c = leb b'0' c && leb c b'9'

-- A reader of decimal digits, for the specification.
unfoldable pub scan : ℕ → List ℕ → Option ℕ
scan n [] = some n
scan n (c ∷ cs) = elim (is_digit c) [ true ↦ scan (n * 10 + (c - b'0')) cs | false ↦ none ]

unfoldable pub read_uint : List ℕ → Option ℕ
unfolding scan
read_uint [] = none
read_uint (c ∷ cs) = scan 0 (c ∷ cs)

scan-append :
    (xs : List ℕ) (n v d : ℕ)
    → d < 10
    → scan n xs ≡ some v
    → scan n (xs ++ ((b'0' + d) ∷ [])) ≡ some (v * 10 + d)
unfolding scan
scan-append [] n v d h e = ground arith
scan-append (c ∷ cs) n v d h e = let ih = scan-append cs (n * 10 + (c - b'0')) v d h in ground arith

-- One round of `digits`, by its test.
abbrev digits_by : Bool → ℕ → ℕ → List ℕ
digits_by true fuel n = (b'0' + n) ∷ []
digits_by false fuel n = digits fuel (n / 10) ++ ((b'0' + n % 10) ∷ [])

digits_step : (fuel n : ℕ) → digits (suc fuel) n ≡ digits_by (ltb n 10) fuel n
unfolding digits
digits_step fuel n =
    elim (ltb n 10)
      as (λ b.
        elim b [ true ↦ (b'0' + n) ∷ [] | false ↦ digits fuel (n / 10) ++ ((b'0' + n % 10) ∷ []) ]
        ≡ digits_by b fuel n) [ true ↦ refl | false ↦ refl ]

scan_small : (n : ℕ) → n < 10 → scan 0 ((b'0' + n) ∷ []) ≡ some n
unfolding scan
scan_small n h = ground arith

scan-digits : (fuel n : ℕ) → n < fuel → scan 0 (digits fuel n) ≡ some n
scan-digits zero n h = absurd (omega arith)
scan-digits (suc fuel) n h = ap (scan 0) (digits_step fuel n) ∙ elim (Bool-cases (ltb n 10)) [
  | inl e ↦ ap (λ b. scan 0 (digits_by b fuel n)) e ∙ scan_small n (ltb→lt n 10 e)
  | inr e ↦
      ap (λ b. scan 0 (digits_by b fuel n)) e
      ∙ scan-append (digits fuel (n / 10)) 0 (n / 10) (n % 10) (omega arith)
          (scan-digits fuel (n / 10) (fewer n fuel e h))
      ∙ ap some (parts n)
]
  where
    fewer : (n fuel : ℕ) → ltb n 10 ≡ false → n < suc fuel → n / 10 < fuel
    fewer n fuel e h = ground arith

    parts : (n : ℕ) → n / 10 * 10 + n % 10 ≡ n
    parts n = omega arith

digits_by-length : (b : Bool) (fuel n : ℕ) → 0 < length (digits_by b fuel n)
digits_by-length true fuel n = omega arith
digits_by-length false fuel n =
    omega (arith, length-append {0} (digits fuel (n / 10)) ((b'0' + n % 10) ∷ []))

read_uint-scan : (text : List ℕ) → 0 < length text → read_uint text ≡ scan 0 text
unfolding read_uint
read_uint-scan [] h = absurd (omega arith)
read_uint-scan (c ∷ cs) h = refl

-- Every counter is read back from its decimal text.
pub read_uint-format_uint : (n : ℕ) → read_uint (format_uint n) ≡ some n
unfolding format_uint
read_uint-format_uint n =
    read_uint-scan (digits (suc n) n)
      (subst (λ t. 0 < length t) (sym (digits_step n n)) (digits_by-length (ltb n 10) n n))
    ∙ scan-digits (suc n) n (omega arith)

pub has-append :
    (c : ℕ) (xs ys : List ℕ) → has c xs ≡ false → has c ys ≡ false → has c (xs ++ ys) ≡ false
has-append c [] ys hx hy = hy
has-append c (x ∷ xs) ys hx hy = let ih = has-append c xs ys in ground arith

-- A decimal text holds digits only.
digits-clean : (c fuel n : ℕ) → c < b'0' → has c (digits fuel n) ≡ false
unfolding digits
digits-clean c zero n h = refl
digits-clean c (suc fuel) n h =
    ap (has c) (digits_step fuel n) ∙ by_case (ltb n 10) (digits-clean c fuel (n / 10) h)
  where
    by_case : (b : Bool) → has c (digits fuel (n / 10)) ≡ false → has c (digits_by b fuel n) ≡ false
    by_case true ih = ground arith
    by_case false ih = has-append c (digits fuel (n / 10)) _ ih (ground arith)

pub format_uint-clean : (c n : ℕ) → c < b'0' → has c (format_uint n) ≡ false
unfolding format_uint
format_uint-clean c n h = digits-clean c (suc n) n h
