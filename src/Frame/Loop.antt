-- ===== src/Frame/Loop.antt =====
-- The loop of Decode over the reference: it ends within its fuel and never panics, and what it
-- keeps of the bytes is shorter than a frame may be.
use ramix.Prelude.{
  ℕ, List, Result, length, stuck, ◌≡◌, ◌<◌, ok, Returned, arith, suc, drop, ◌++◌, ◌∷◌, Error, [],
  err, length-drop, zero, panic, refl,
}
use ramix.Frame.Config.{Settings, IsSound, decoder_of}
use ramix.Frame.{decode, decode_loop, Decoded, incomplete, complete}
use ramix.Frame.Reference.{
  next_frame, next_frame-Returned, decode_one-next_frame, next_frame_incomplete,
  next_frame_complete,
}
use ramix.Bytes.{All, IsByte}
use ramix.Bytes.Laws.{All-drop, All-append}

-- The loop of Decode with the reference in place of decodeOne.
unfoldable pub split_loop : ℕ → Settings → List ℕ → List (List ℕ) → List ℕ × Result (List (List ℕ))
split_loop zero c bytes frames = (bytes, stuck)
split_loop (suc fuel) c bytes frames = elim (next_frame c bytes) [
  | ok incomplete ↦ (bytes, ok frames)
  | ok (complete frame consumed) ↦ split_loop fuel c (drop consumed bytes) (frames ++ (frame ∷ []))
  | err e ↦ ([], err e)
  | panic ↦ (bytes, panic)
  | stuck ↦ (bytes, stuck)
]

module _ (fuel : ℕ) (c : Settings) (bytes : List ℕ) (frames : List (List ℕ)) where
  pub split_waits :
      next_frame c bytes ≡ ok incomplete → split_loop (suc fuel) c bytes frames ≡ (bytes, ok frames)
  unfolding split_loop
  split_waits e = rw (e, split_loop)

  pub split_cuts :
      (frame : List ℕ) (consumed : ℕ)
      → next_frame c bytes ≡ ok (complete frame consumed)
      → split_loop (suc fuel) c bytes frames
        ≡ split_loop fuel c (drop consumed bytes) (frames ++ (frame ∷ []))
  unfolding split_loop
  split_cuts frame consumed e = rw (e, split_loop)

  pub split_fails :
      (x : Error) → next_frame c bytes ≡ err x → split_loop (suc fuel) c bytes frames ≡ ([], err x)
  unfolding split_loop
  split_fails x e = rw (e, split_loop)

-- How a call of `next_frame` may come out.
pub data Outcome (c : Settings) (bytes : List ℕ) : Type 0 where
  waits : next_frame c bytes ≡ ok incomplete → Outcome c bytes
  cuts :
      (frame : List ℕ) (consumed : ℕ)
      → next_frame c bytes ≡ ok (complete frame consumed)
      → Outcome c bytes
  fails : (e : Error) → next_frame c bytes ≡ err e → Outcome c bytes

Outcome-of :
    (c : Settings) (bytes : List ℕ) (r : Result Decoded)
    → next_frame c bytes ≡ r
    → Returned r
    → Outcome c bytes
Outcome-of c bytes (ok incomplete) e h = waits e
Outcome-of c bytes (ok (complete frame consumed)) e h = cuts frame consumed e
Outcome-of c bytes (err x) e h = fails x e
Outcome-of c bytes panic e h = absurd h
Outcome-of c bytes stuck e h = absurd h

module _ (c : Settings) (s : IsSound c) where
  pub outcome : (bytes : List ℕ) → Outcome c bytes
  outcome bytes = Outcome-of c bytes (next_frame c bytes) refl (next_frame-Returned c s bytes)

  -- Dropping a frame leaves fewer bytes.
  pub drop_shrinks :
      (bytes frame : List ℕ) (consumed : ℕ)
      → next_frame c bytes ≡ ok (complete frame consumed)
      → length (drop consumed bytes) < length bytes
  drop_shrinks bytes frame consumed e =
      omega (arith, next_frame_complete c s bytes frame consumed e, length-drop {0} consumed bytes)

  -- The loop of Decode is the loop over the reference.
  pub decode_loop-split_loop :
      (fuel : ℕ) (kept bytes : List ℕ) (frames : List (List ℕ))
      → All IsByte bytes
      → decode_loop fuel (decoder_of c kept) bytes frames ≡ split_loop fuel c bytes frames
  unfolding decode_loop split_loop
  decode_loop-split_loop zero kept bytes frames h = refl
  decode_loop-split_loop (suc fuel) kept bytes frames h =
      let same = decode_one-next_frame c s kept bytes h in
      elim (outcome bytes) [
        | waits e ↦ rw (same, e, decode_loop, split_loop)
        | cuts frame consumed e ↦
            rw (same, e, decode_loop, split_loop)
              (decode_loop-split_loop fuel kept (drop consumed bytes) (frames ++ (frame ∷ []))
                (All-drop IsByte consumed bytes h))
        | fails x e ↦ rw (same, e, decode_loop, split_loop)
      ]

  -- With fuel for each byte the loop ends, and keeps fewer bytes than a frame may have.
  pub split_loop_ends :
      (fuel : ℕ) (bytes : List ℕ) (frames : List (List ℕ))
      → length bytes < fuel
      → Returned (split_loop fuel c bytes frames).1
        × (length (split_loop fuel c bytes frames).0 < c.limit)
  split_loop_ends zero bytes frames h = absurd (omega arith)
  split_loop_ends (suc fuel) bytes frames h = elim (outcome bytes) [
    | waits e ↦ rw (split_waits fuel c bytes frames e) (tt, next_frame_incomplete c s bytes e)
    | cuts frame consumed e ↦ rw (split_cuts fuel c bytes frames frame consumed e) (
        split_loop_ends fuel (drop consumed bytes) (frames ++ (frame ∷ []))
          (omega (arith, drop_shrinks bytes frame consumed e)))
    | fails x e ↦ rw (split_fails fuel c bytes frames x e) (tt, limit_pos)
  ]
    where
      limit_pos : 0 < c.limit
      limit_pos = ground arith

  -- More fuel than that changes nothing.
  pub split_loop_fuel :
      (fuel more : ℕ) (bytes : List ℕ) (frames : List (List ℕ))
      → length bytes < fuel
      → length bytes < more
      → split_loop fuel c bytes frames ≡ split_loop more c bytes frames
  split_loop_fuel zero more bytes frames h k = absurd (omega arith)
  split_loop_fuel (suc fuel) zero bytes frames h k = absurd (omega arith)
  split_loop_fuel (suc fuel) (suc more) bytes frames h k = elim (outcome bytes) [
    | waits e ↦ rw (split_waits fuel c bytes frames e, split_waits more c bytes frames e)
    | cuts frame consumed e ↦
        let fewer = drop_shrinks bytes frame consumed e in
        rw
          (
            split_cuts fuel c bytes frames frame consumed e,
            split_cuts more c bytes frames frame consumed e,
          )
          (split_loop_fuel fuel more (drop consumed bytes) (frames ++ (frame ∷ [])) (omega arith)
            (omega arith))
    | fails x e ↦ rw (split_fails fuel c bytes frames x e, split_fails more c bytes frames x e)
  ]

-- Decode returns frames or an error on every input: it neither panics nor loops for ever, and
-- what it keeps for the next call is shorter than the largest frame.
pub decode_ends :
    (c : Settings) (kept input : List ℕ)
    → IsSound c
    → All IsByte kept
    → All IsByte input
    → Returned (decode (decoder_of c kept) input).1
      × (length (decode (decoder_of c kept) input).0.bytes < c.limit)
unfolding decode
decode_ends c kept input s hk hi =
    let bytes = kept ++ input in
    rw
      (decode_loop-split_loop c s (suc (length bytes)) kept bytes []
        (All-append IsByte kept input hk hi))
      (split_loop_ends c s (suc (length bytes)) bytes [] (omega arith))
