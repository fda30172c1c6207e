-- ===== src/Stats/Cas.antt =====
-- A compare-and-swap loop is one atomic change of the counter.
use ramix.Prelude.{
  List, ℕ, Option, suc, ◌≤◌, ◌∷◌, none, length, some, zero, ◌≡◌, [], arith, Bool-cases, ◌==◌, inl,
  inr, refl, false, ==_iff, ◌∙◌, sym, ap, if◌then◌else◌, drop, take,
}
use ramix.Stats.{
  cas_loop, saturating_add_among, decrement_gauge_among, update_maximum_among, saturating_add,
  decrement_gauge, update_maximum, next_sum, next_decrement, next_maximum, writes,
}

-- The change in one step.
abbrev pub atomic : (ℕ → Option ℕ) → ℕ → ℕ
atomic next current = elim (next current) [ none ↦ current | some value ↦ value ]

-- The counter got the own change at some place among all the writes of the others.
abbrev pub IsOneChange : (ℕ → ℕ) → List (ℕ → ℕ) → ℕ → ℕ → Type 0
IsOneChange own others current result =
    (k : ℕ) × (k ≤ length others)
    × (result ≡ writes (drop k others) (own (writes (take k others) current)))

cas_round :
    (next : ℕ → Option ℕ) (other : ℕ → ℕ) (others : List (ℕ → ℕ)) (current : ℕ) (o : Option ℕ)
    → next current ≡ o
    → IsOneChange (atomic next) others (other current) (cas_loop next others (other current))
    → IsOneChange (atomic next) (other ∷ others) current (cas_loop next (other ∷ others) current)
unfolding cas_loop
cas_round next other others current none e later = (0, omega arith, rw (e, cas_loop, atomic))
cas_round next other others current (some value) e (k, le, p) =
    elim (Bool-cases (other current == current)) [
      | inl same ↦ (
        1,
        omega arith,
        rw (e, cas_loop, same, (==_iff (other current) current).0 same, e, atomic),
      )
      | inr moved ↦ (suc k, omega arith, rw (e, cas_loop, moved) p)
    ]

cas_loop-IsOneChange :
    (next : ℕ → Option ℕ) (others : List (ℕ → ℕ)) (current : ℕ)
    → IsOneChange (atomic next) others current (cas_loop next others current)
unfolding cas_loop
cas_loop-IsOneChange next [] current = (0, omega arith, refl)
cas_loop-IsOneChange next (other ∷ others) current =
    cas_round next other others current (next current) refl
      (cas_loop-IsOneChange next others (other current))

saturating_add-atomic :
    (n delta limit : ℕ)
    → (delta == 0) ≡ false
    → saturating_add n delta limit ≡ atomic (next_sum delta limit) n
unfolding saturating_add saturating_add_among cas_loop
saturating_add-atomic n delta limit positive =
    ap (λ b. if b then n else cas_loop (next_sum delta limit) [] n) positive

saturating_add_among-cas_loop :
    (others : List (ℕ → ℕ)) (counter delta limit : ℕ)
    → (delta == 0) ≡ false
    → saturating_add_among others counter delta limit
      ≡ cas_loop (next_sum delta limit) others counter
unfolding saturating_add_among
saturating_add_among-cas_loop others counter delta limit positive = rw positive refl

add_zero :
    (others : List (ℕ → ℕ)) (counter limit : ℕ)
    → IsOneChange
        (λ n. saturating_add n 0 limit)
        others
        counter
        (saturating_add_among others counter 0 limit)
unfolding saturating_add_among saturating_add cas_loop
add_zero others counter limit = (0, omega arith, refl)

add_atomic :
    (others : List (ℕ → ℕ)) (counter delta limit : ℕ)
    → IsOneChange
        (λ n. saturating_add n delta limit)
        others
        counter
        (saturating_add_among others counter delta limit)
add_atomic others counter zero limit = add_zero others counter limit
add_atomic others counter (suc delta) limit =
    let positive : (suc delta == 0) ≡ false = ground arith in
    let (k, le, p) = cas_loop-IsOneChange (next_sum (suc delta) limit) others counter in
    rw (saturating_add_among-cas_loop others counter (suc delta) limit positive) (
      k,
      le,
      p
          ∙ ap (writes (drop k others)) (
              sym (
                saturating_add-atomic (writes (take k others) counter) (suc delta) limit positive)),
    )

decrement_atomic :
    (others : List (ℕ → ℕ)) (counter : ℕ)
    → IsOneChange decrement_gauge others counter (decrement_gauge_among others counter)
unfolding decrement_gauge_among decrement_gauge cas_loop
decrement_atomic others counter = cas_loop-IsOneChange next_decrement others counter

maximum_atomic :
    (others : List (ℕ → ℕ)) (counter candidate : ℕ)
    → IsOneChange
        (λ n. update_maximum n candidate)
        others
        counter
        (update_maximum_among others counter candidate)
unfolding update_maximum_among update_maximum cas_loop
maximum_atomic others counter candidate =
    cas_loop-IsOneChange (next_maximum candidate) others counter

-- Whatever other goroutines write between the rounds of each of the three calls: when the call has
-- ended and all those writes are made, the counter is what it is when the call is made undisturbed
-- at some place among the writes, each of which has had its effect. No update is lost, neither the
-- call's nor another one.
pub counters_atomic :
    (others : List (ℕ → ℕ)) (counter delta limit candidate : ℕ)
    → IsOneChange
        (λ n. saturating_add n delta limit)
        others
        counter
        (saturating_add_among others counter delta limit)
      × IsOneChange decrement_gauge others counter (decrement_gauge_among others counter)
      × IsOneChange
          (λ n. update_maximum n candidate)
          others
          counter
          (update_maximum_among others counter candidate)
counters_atomic others counter delta limit candidate = (
  add_atomic others counter delta limit,
  decrement_atomic others counter,
  maximum_atomic others counter candidate,
)
