-- ===== src/Export/Lines.antt =====
-- stats_export.go: lines are read back.
use ramix.Export.{print_lines}
use ramix.Options.{has}
use ramix.Prelude.{
  ℕ, List, ◌≡◌, [], ◌∷◌, ◌==◌, false, ◌∙◌, ◌++◌, ap, true, sym, refl, append-nil, Bool,
  append_assoc, ◌||◌,
}

-- The lines of a text, each up to its newline, with what was read of the line so far.
unfoldable pub read_lines : List ℕ → List ℕ → List (List ℕ)
read_lines line [] = []
read_lines line (c ∷ cs) = elim (c == 10) [
  | true ↦ line ∷ read_lines [] cs
  | false ↦ read_lines (line ++ (c ∷ [])) cs
]

-- No line holds a newline.
abbrev pub AreLines : List (List ℕ) → Type 0
AreLines [] = Unit
AreLines (line ∷ lines) = (has 10 line ≡ false) × AreLines lines

or_false : (a b : Bool) → (a || b) ≡ false → (a ≡ false) × (b ≡ false)
or_false true b h = cc
or_false false b h = (refl, h)

read_line :
    (start line rest : List ℕ)
    → has 10 line ≡ false
    → read_lines start (line ++ (10 ∷ rest)) ≡ (start ++ line) ∷ read_lines [] rest
unfolding read_lines
read_line start [] rest h = ap (λ l. l ∷ read_lines [] rest) (sym (append-nil start))
read_line start (c ∷ line) rest h =
    let (here, there) = or_false (c == 10) (has 10 line) h in
    ap
      (λ b. elim b [
        | true ↦ start ∷ read_lines [] (line ++ (10 ∷ rest))
        | false ↦ read_lines (start ++ (c ∷ [])) (line ++ (10 ∷ rest))
      ])
      here
    ∙ read_line (start ++ (c ∷ [])) line rest there
    ∙ ap (λ l. l ∷ read_lines [] rest) (append_assoc start (c ∷ []) line)

pub read_lines-print_lines :
    (lines : List (List ℕ)) → AreLines lines → read_lines [] (print_lines lines) ≡ lines
unfolding read_lines
read_lines-print_lines [] h = refl
read_lines-print_lines (line ∷ lines) (h, hs) =
    read_line [] line (print_lines lines) h ∙ ap (λ ls. line ∷ ls) (read_lines-print_lines lines hs)

pub AreLines-append : (xs ys : List (List ℕ)) → AreLines xs → AreLines ys → AreLines (xs ++ ys)
AreLines-append [] ys hx hy = hy
AreLines-append (x ∷ xs) ys (h, hs) hy = (h, AreLines-append xs ys hs hy)
