-- ===== src/Frame/Split.antt =====
-- The loop that splits a stream into frames, on a stream that is cut in two.
use mathlib.Core.Path.{◌≡⟨◌⟩◌, ◌∎}
use ramix.Frame.Config.{Settings, IsSound}
use ramix.Prelude.{
  List, ℕ, ◌≤◌, length, ◌≡◌, Error, ◌++◌, take, ◌+◌, ok, err, drop, ◌-◌, arith, length-append, ap,
  length-drop, Result, append_assoc, ◌<◌, panic, stuck, [], suc, refl, append-nil, ◌∷◌, zero, sym,
  ◌∙◌,
}
use ramix.Frame.Reference.{header, next_frame, next_frame_complete}
use ramix.Bytes.{value, All, IsByte}
use ramix.Frame.Length.{length_field}
use ramix.Prelude.Int.{pos_part, neg_part}
use ramix.Frame.{complete}
use ramix.Bytes.Laws.{drop-append_le, take-append_le, All-drop}
use ramix.Frame.Loop.{
  split_loop, outcome, waits, split_waits, cuts, drop_shrinks, fails, split_cuts, split_fails,
  split_loop_fuel,
}

module _ (c : Settings) (input more : List ℕ) where
  length_field-append :
      header c ≤ length input → length_field c (input ++ more) ≡ length_field c input
  length_field-append h =
      take c.len (drop c.offset (input ++ more))
      ≡⟨ ap (take c.len) (drop-append_le c.offset input more (omega arith)) ⟩
        take c.len (drop c.offset input ++ more)
      ≡⟨ take-append_le c.len (drop c.offset input) more
          (omega (arith, length-drop {0} c.offset input)) ⟩
        take c.len (drop c.offset input) ∎

  frame-append :
      (total : ℕ)
      → c.strip ≤ total
      → total ≤ length input
      → take (total - c.strip) (drop c.strip (input ++ more))
        ≡ take (total - c.strip) (drop c.strip input)
  frame-append total h k =
      take (total - c.strip) (drop c.strip (input ++ more))
      ≡⟨ ap (take (total - c.strip)) (drop-append_le c.strip input more (omega arith)) ⟩
        take (total - c.strip) (drop c.strip input ++ more)
      ≡⟨ take-append_le (total - c.strip) (drop c.strip input) more
          (omega (arith, length-drop {0} c.strip input)) ⟩
        take (total - c.strip) (drop c.strip input) ∎

  abbrev total_of : ℕ
  total_of =
      value c.order (length_field c input)
      + header c
      + pos_part c.adjustment
      - neg_part c.adjustment

  -- A frame that is complete stays the first frame when bytes come behind it.
  next_frame-append_complete :
      (frame : List ℕ) (consumed : ℕ)
      → next_frame c input ≡ ok (complete frame consumed)
      → next_frame c (input ++ more) ≡ ok (complete frame consumed)
  unfolding next_frame
  next_frame-append_complete frame consumed e = ground (
    arith,
    length-append {0} input more,
    ap (value c.order) (length_field-append (ground arith)),
    frame-append total_of,
  )

  -- So does an error.
  next_frame-append_err :
      (x : Error) → next_frame c input ≡ err x → next_frame c (input ++ more) ≡ err x
  unfolding next_frame
  next_frame-append_err x e = ground (
    arith,
    length-append {0} input more,
    ap (value c.order) (length_field-append (ground arith)),
    frame-append total_of,
  )

-- A result with frames put in front of its own.
abbrev pub prepend : List (List ℕ) → Result (List (List ℕ)) → Result (List (List ℕ))
prepend frames (ok out) = ok (frames ++ out)
prepend frames (err e) = err e
prepend frames panic = panic
prepend frames stuck = stuck

prepend-append :
    (xs ys : List (List ℕ)) (r : Result (List (List ℕ)))
    → prepend (xs ++ ys) r ≡ prepend xs (prepend ys r)
prepend-append xs ys (ok out) = ap ok (append_assoc xs ys out)
prepend-append xs ys (err e) = refl
prepend-append xs ys panic = refl
prepend-append xs ys stuck = refl

module _ (c : Settings) (s : IsSound c) where
  -- The frames so far come first.
  pub split_loop-prepend :
      (fuel : ℕ) (bytes : List ℕ) (frames : List (List ℕ))
      → length bytes < fuel
      → split_loop fuel c bytes frames
        ≡ ((split_loop fuel c bytes []).0, prepend frames (split_loop fuel c bytes []).1)
  split_loop-prepend zero bytes frames h = absurd (omega arith)
  split_loop-prepend (suc fuel) bytes frames h = elim (outcome c s bytes) [
    | waits e ↦
        rw (split_waits fuel c bytes frames e, split_waits fuel c bytes [] e, append-nil frames)
    | cuts frame consumed e ↦
        let rest = drop consumed bytes in
        let fewer = drop_shrinks c s bytes frame consumed e in
        rw
          (
            split_cuts fuel c bytes frames frame consumed e,
            split_cuts fuel c bytes [] frame consumed e,
            split_loop-prepend fuel rest (frames ++ (frame ∷ [])) (omega arith),
            split_loop-prepend fuel rest (frame ∷ []) (omega arith),
          )
          (ap (λ r. ((split_loop fuel c rest []).0, r))
            (prepend-append frames (frame ∷ []) (split_loop fuel c rest []).1))
    | fails x e ↦ rw (split_fails fuel c bytes frames x e, split_fails fuel c bytes [] x e)
  ]

  split_loop_shorter :
      (fuel : ℕ) (bytes : List ℕ) (frames : List (List ℕ))
      → length bytes < fuel
      → length (split_loop fuel c bytes frames).0 ≤ length bytes
  split_loop_shorter zero bytes frames h = absurd (omega arith)
  split_loop_shorter (suc fuel) bytes frames h = elim (outcome c s bytes) [
    | waits e ↦ rw (split_waits fuel c bytes frames e) (omega arith)
    | cuts frame consumed e ↦
        let fewer = drop_shrinks c s bytes frame consumed e in
        rw (split_cuts fuel c bytes frames frame consumed e)
          (omega (arith, split_loop_shorter fuel (drop consumed bytes) (frames ++ (frame ∷ []))))
    | fails x e ↦ rw (split_fails fuel c bytes frames x e) (omega arith)
  ]

  consumed_le :
      (bytes frame : List ℕ) (consumed : ℕ)
      → next_frame c bytes ≡ ok (complete frame consumed)
      → consumed ≤ length bytes
  consumed_le bytes frame consumed w = (next_frame_complete c s bytes frame consumed w).1

  pub fewer_fuel :
      (fuel : ℕ) (bytes frame : List ℕ) (consumed : ℕ)
      → next_frame c bytes ≡ ok (complete frame consumed)
      → length bytes < suc fuel
      → length (drop consumed bytes) < fuel
  fewer_fuel fuel bytes frame consumed w h = omega (arith, drop_shrinks c s bytes frame consumed w)

  fewer_long :
      (long : ℕ) (bytes more frame : List ℕ) (consumed : ℕ)
      → next_frame c bytes ≡ ok (complete frame consumed)
      → length (bytes ++ more) < suc long
      → length (drop consumed bytes ++ more) < long
  fewer_long long bytes more frame consumed w h = omega (
    arith,
    drop_shrinks c s bytes frame consumed w,
    length-append {0} bytes more,
    length-append {0} (drop consumed bytes) more,
  )

  -- Bytes behind the input are read on from where the loop stopped.
  pub split_loop-append :
      (fuel long after : ℕ) (bytes more rest : List ℕ) (frames out : List (List ℕ))
      → length bytes < fuel
      → split_loop fuel c bytes frames ≡ (rest, ok out)
      → length (bytes ++ more) < long
      → length (rest ++ more) < after
      → split_loop long c (bytes ++ more) frames ≡ split_loop after c (rest ++ more) out
  split_loop-append zero long after bytes more rest frames out h e k l = absurd (omega arith)
  split_loop-append (suc fuel) zero after bytes more rest frames out h e k l = absurd (omega arith)
  split_loop-append (suc fuel) (suc long) after bytes more rest frames out h e k l =
      elim (outcome c s bytes) [
        | waits w ↦
            let same = sym (split_waits fuel c bytes frames w) ∙ e in
            let e0 : rest ≡ bytes = cc same in
            let e1 : out ≡ frames = cc same in
            rw (e0, e1) (split_loop_fuel c s (suc long) after (bytes ++ more) frames k (rw e0 at l))
        | cuts frame consumed w ↦
            rw
              (
                split_cuts long c (bytes ++ more) frames frame consumed
                    (next_frame-append_complete c bytes more frame consumed w),
                drop-append_le consumed bytes more (consumed_le bytes frame consumed w),
              )
              (split_loop-append fuel long after (drop consumed bytes) more rest
                (frames ++ (frame ∷ [])) out (fewer_fuel fuel bytes frame consumed w h)
                (sym (split_cuts fuel c bytes frames frame consumed w) ∙ e)
                (fewer_long long bytes more frame consumed w k) l)
        | fails x w ↦ absurd (cc (split_fails fuel c bytes frames x w))
      ]

  -- An error stays the first error.
  pub split_loop-append_err :
      (fuel long : ℕ) (bytes more rest : List ℕ) (frames : List (List ℕ)) (x : Error)
      → length bytes < fuel
      → split_loop fuel c bytes frames ≡ (rest, err x)
      → length (bytes ++ more) < long
      → split_loop long c (bytes ++ more) frames ≡ ([], err x)
  split_loop-append_err zero long bytes more rest frames x h e k = absurd (omega arith)
  split_loop-append_err (suc fuel) zero bytes more rest frames x h e k = absurd (omega arith)
  split_loop-append_err (suc fuel) (suc long) bytes more rest frames x h e k =
      elim (outcome c s bytes) [
        | waits w ↦ absurd (cc (split_waits fuel c bytes frames w))
        | cuts frame consumed w ↦
            rw
              (
                split_cuts long c (bytes ++ more) frames frame consumed
                    (next_frame-append_complete c bytes more frame consumed w),
                drop-append_le consumed bytes more (consumed_le bytes frame consumed w),
              )
              (split_loop-append_err fuel long (drop consumed bytes) more rest
                (frames ++ (frame ∷ [])) x (fewer_fuel fuel bytes frame consumed w h)
                (sym (split_cuts fuel c bytes frames frame consumed w) ∙ e)
                (fewer_long long bytes more frame consumed w k))
        | fails y w ↦
            rw
              (split_fails long c (bytes ++ more) frames y (next_frame-append_err c bytes more y w))
              (cc (split_fails fuel c bytes frames y w))
      ]

  pub split_loop-IsByte :
      (fuel : ℕ) (bytes : List ℕ) (frames : List (List ℕ))
      → length bytes < fuel
      → All IsByte bytes
      → All IsByte (split_loop fuel c bytes frames).0
  split_loop-IsByte zero bytes frames h b = absurd (omega arith)
  split_loop-IsByte (suc fuel) bytes frames h b = elim (outcome c s bytes) [
    | waits e ↦ rw (split_waits fuel c bytes frames e) b
    | cuts frame consumed e ↦ rw (split_cuts fuel c bytes frames frame consumed e) (
        split_loop-IsByte fuel (drop consumed bytes) (frames ++ (frame ∷ []))
          (fewer_fuel fuel bytes frame consumed e h) (All-drop IsByte consumed bytes b))
    | fails x e ↦ rw (split_fails fuel c bytes frames x e) tt
  ]
