-- ===== src/Slices/Append.antt =====
-- What `append` and a copy do to the slices and to the other arrays.
use ramix.Slices.{Memory, Slice, contents, nil_slice, append_slice, copy_slice}
use ramix.Prelude.{
  ℕ, List, take, [], ◌∷◌, update, suc, ◌+◌, length, leb, ◌++◌, drop, ◌≡◌, ◌≤◌, ◌<◌, ◌≢◌, ◌⊎◌, arith,
  ap, length-append, ==-self, inr, length-take, append_assoc, if_false, zero, inl, ==-ne, refl, sym,
  append-nil, ◌∙◌, Bool-cases, if_true,
}
use mathlib.Core.Path.{subst}

module _ {A : Type 0} where
  -- The slice's array exists and has its cells.
  abbrev pub Fits : Memory A → Slice → Type 0
  Fits m s = (s.array < m.size) × (s.len ≤ length (m.arrays s.array))

  -- The slice shows its old cells and the new ones, in its old array or a new one, and no other
  -- array has changed.
  pub record Appended (s : Slice) (added : List A) (m : Memory A) (t : Slice) (n : Memory A)
      : Type 0 where
    pub own : contents n t ≡ contents m s ++ added
    pub fits : Fits n t
    pub place : (t.array ≡ s.array) ⊎ (m.size ≤ t.array)
    pub grows : m.size ≤ n.size
    pub frame : (x : ℕ) → x < m.size → x ≢ s.array → n.arrays x ≡ m.arrays x

  -- A slice with these cells in a new array; no old array has changed.
  pub record Copied (cells : List A) (m : Memory A) (t : Slice) (n : Memory A) : Type 0 where
    pub own : contents n t ≡ cells
    pub fits : Fits n t
    pub fresh : m.size ≤ t.array
    pub grows : m.size ≤ n.size
    pub frame : (x : ℕ) → x < m.size → n.arrays x ≡ m.arrays x

  take-prefix : (k : ℕ) (xs ys : List A) → k ≡ length xs → take k (xs ++ ys) ≡ xs
  take-prefix zero [] ys e = refl
  take-prefix zero (x ∷ xs) ys e = absurd (omega arith)
  take-prefix (suc k) [] ys e = absurd (omega arith)
  take-prefix (suc k) (x ∷ xs) ys e = ap (λ l. x ∷ l) (take-prefix k xs ys (omega arith))

  length-joined :
      (s : Slice) (added : List A) (m : Memory A)
      → Fits m s
      → s.len + length added ≡ length (contents m s ++ added)
  length-joined s added m (home, le) =
      omega (arith, length-append (contents m s) added, length-take s.len (m.arrays s.array), le)

  in_place :
      (s : Slice) (added : List A) (m : Memory A)
      → Fits m s
      → let total = s.len + length added in
        Appended s added m
          (record s { len = total })
          (record m {
            arrays =
                update m.arrays s.array (contents m s ++ (added ++ drop total (m.arrays s.array)));
          })
  in_place s added m fit = record {
    own =
        rw
          (
            ==-self s.array,
            ← append_assoc (contents m s) added (drop (s.len + length added) (m.arrays s.array)),
          )
          (take-prefix (s.len + length added) (contents m s ++ added) _
            (length-joined s added m fit));
    fits = (
      fit.0,
      rw (==-self s.array) (
          omega (
            arith,
            length-append (contents m s) (added ++ drop (s.len + length added) (m.arrays s.array)),
            length-append added (drop (s.len + length added) (m.arrays s.array)),
            length-joined s added m fit,
            length-append (contents m s) added,
          )),
    );
    place = inl refl;
    grows = omega arith;
    frame = λ x lt ne. if_false _ _ (==-ne s.array x (λ e. ne (sym e)));
  }

  moved :
      (room : ℕ) (s : Slice) (added : List A) (m : Memory A)
      → Fits m s
      → let total = s.len + length added in
        Appended s added m
          (record { array = m.size; len = total; capacity = total + room })
          (record { size = suc m.size; arrays = update m.arrays m.size (contents m s ++ added) })
  moved room s added m fit = record {
    own = rw (==-self m.size) (
        ap (take (s.len + length added)) (sym (append-nil (contents m s ++ added)))
        ∙ take-prefix (s.len + length added) (contents m s ++ added) []
            (length-joined s added m fit));
    fits = (omega arith, rw (==-self m.size) (omega (arith, length-joined s added m fit)));
    place = inr (omega arith);
    grows = omega arith;
    frame = λ x lt ne. if_false _ _ (==-ne m.size x (λ e. absurd (omega arith)));
  }

  pub append_slice-Appended :
      (room : ℕ → ℕ) (s : Slice) (added : List A) (m : Memory A)
      → Fits m s
      → Appended s added m (append_slice room s added m).0 (append_slice room s added m).1
  unfolding append_slice
  append_slice-Appended room s [] m fit = record {
    own = sym (append-nil (contents m s));
    fits = fit;
    place = inl refl;
    grows = omega arith;
    frame = λ x lt ne. refl;
  }
  append_slice-Appended room s (x ∷ xs) m fit =
      elim (Bool-cases (leb (s.len + length (x ∷ xs)) s.capacity)) [
        | inl fits ↦
            subst (λ (r : Slice × Memory A). Appended s (x ∷ xs) m r.0 r.1) (sym (if_true _ _ fits))
              (in_place s (x ∷ xs) m fit)
        | inr full ↦
            subst (λ (r : Slice × Memory A). Appended s (x ∷ xs) m r.0 r.1)
              (sym (if_false _ _ full)) (moved (room m.size) s (x ∷ xs) m fit)
      ]

  pub nil_slice-Copied : (m : Memory A) → Copied [] m (nil_slice m).0 (nil_slice m).1
  unfolding nil_slice
  nil_slice-Copied m = record {
    own = refl;
    fits = (omega arith, omega arith);
    fresh = omega arith;
    grows = omega arith;
    frame = λ x lt. if_false _ _ (==-ne m.size x (λ e. absurd (omega arith)));
  }

  -- An append to a copy.
  pub Copied-Appended :
      (cells added : List A) (m n k : Memory A) (s t : Slice)
      → Copied cells m s n
      → Appended s added n t k
      → Copied (cells ++ added) m t k
  Copied-Appended cells added m n k s t c a = record {
    own = a.own ∙ ap (λ l. l ++ added) c.own;
    fits = a.fits;
    fresh = elim a.place [ inl same ↦ omega (arith, c.fresh) | inr new ↦ omega (arith, c.grows) ];
    grows = omega (arith, c.grows, a.grows);
    frame = λ x lt.
        a.frame x (omega (arith, c.grows)) (λ e. absurd (omega (arith, c.fresh))) ∙ c.frame x lt;
  }

  pub copy_slice-Copied :
      (room : ℕ → ℕ) (s : Slice) (m : Memory A)
      → Copied (contents m s) m (copy_slice room s m).0 (copy_slice room s m).1
  unfolding copy_slice
  copy_slice-Copied room s m =
      let (fresh, n) = nil_slice m in
      let first = nil_slice-Copied m in
      Copied-Appended [] (contents m s) m n _ fresh _ first
        (append_slice-Appended room fresh (contents m s) n first.fits)

  -- What a change of other arrays leaves of a slice.
  pub kept-Fits :
      (m n : Memory A) (s : Slice)
      → m.size ≤ n.size
      → n.arrays s.array ≡ m.arrays s.array
      → Fits m s
      → Fits n s
  kept-Fits m n s grows same (home, le) = (omega arith, omega (arith, ap length same))

  pub kept-contents :
      (m n : Memory A) (s : Slice)
      → n.arrays s.array ≡ m.arrays s.array
      → contents n s ≡ contents m s
  kept-contents m n s same = ap (take s.len) same
