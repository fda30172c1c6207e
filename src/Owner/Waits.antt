-- ===== src/Owner/Waits.antt =====
-- manager.go, connection.go: what waitAll has seen when it comes back.
use ramix.Manager
use ramix.Owner.Keeps.{IsClosed, IsClosed-Kept}
use ramix.Owner.Loops.{Others-Kept, wait_each-Kept}
use ramix.Owner.{
  Fleet, wait_each, Others, WaitEnd, waited, timed_out, waiting, WaitRound, wait_all, after_waits,
}
use ramix.Prelude.{
  ℕ, Bool, if◌then◌else◌, List, false, ◌≡◌, ◌∷◌, arith, ◌&&◌, true, [], ◌==◌, ℕ_discrete, ==-ne,
  length, refl, inr, ◌++◌, ◌⊎◌, inl, ◌∙◌, ◌||◌, ap, not, ◌≢◌,
}
use ramix.Owner.Track.{Tracked, HasLeft-Kept, Tracked-Kept}
use ramix.Manager.Holds.{has_key, IsManager, has_key-append}
use mathlib.Core.Path.{subst}
use ramix.Manager.{finalization_snapshot}
-- Who was waited for in time is closed.
use ramix.Owner.Loops.{wait_each-Kept, Others-Kept}

wait_each-IsClosed :
    (id : ℕ) (others : ℕ → Others) (chosen : ℕ → Bool) (ids : List ℕ) (f : Fleet)
    → (wait_each others chosen ids f).0 ≡ true
    → has_key id ids ≡ true
    → IsClosed id (wait_each others chosen ids f).1
unfolding wait_each
wait_each-IsClosed id others chosen [] f e here = cc
wait_each-IsClosed id others chosen (other ∷ ids) f e here =
    in_time (chosen other && (((others other f).0).conns other).state == 3) refl
      (wait_each-IsClosed id others chosen ids (others other f).0) e
  where
    g : Fleet
    g = (others other f).0

    rest : Bool × Fleet
    rest = wait_each others chosen ids g

    in_time :
        (b : Bool)
        → (chosen other && (g.conns other).state == 3) ≡ b
        → (rest.0 ≡ true → has_key id ids ≡ true → IsClosed id rest.1)
        → (if b then rest else (false, g)).0 ≡ true
        → IsClosed id (if b then rest else (false, g)).1
    in_time false test later e = cc
    in_time true test later e = elim (ℕ_discrete other id) [
      | Dec.yes same ↦
          wait_each-Kept (IsClosed-Kept id) others chosen ids g
            (subst (λ i. IsClosed i g) same (ground arith))
      | Dec.no ne ↦ let ne' = ==-ne other id ne in later e (ground arith)
    ]

-- What waitAll leaves of a connection that the manager had: nothing of it is lost, and where the
-- waits were in time it is closed.
abbrev pub Waited : ℕ → WaitEnd × Fleet → Type 0
Waited id (waited, g) = IsClosed id g
Waited id (timed_out, g) = Tracked id g
Waited id (waiting, g) = Tracked id g

closed_place : {id : ℕ} {f : Fleet} → IsManager f.manager → IsClosed id f → Tracked id f
closed_place sound e = record { sound = sound; place = inr (inr e) }

has_key-none : (id : ℕ) (ids : List ℕ) → (length ids == 0) ≡ true → has_key id ids ≡ true → ⊥
has_key-none id [] e h = cc
has_key-none id (x ∷ ids) e h = ground arith

or_right : (a : Bool) {b : Bool} → b ≡ true → (a || b) ≡ true
or_right true e = refl
or_right false e = e

-- Between its two reads of the manager no connection is missed.
seen :
    (id : ℕ) (between : Others) (f : Fleet)
    → Tracked id f
    → (has_key id (Manager.snapshot f.manager ++ finalization_snapshot (between f).0.manager)
        ≡ true)
      ⊎ IsClosed id (between f).0
unfolding finalization_snapshot
seen id between f t = elim t.place [
  | inl held ↦ inl (split ∙ ap (λ b. b || has_key id (between f).0.manager.finalizing) held)
  | inr left ↦ elim (Others-Kept (HasLeft-Kept id) between f (inr left)) [
    | inl e ↦ absurd (cc e)
    | inr (inl final) ↦ inl (split ∙ or_right (has_key id (Manager.snapshot f.manager)) final)
    | inr (inr closed) ↦ inr closed
  ]
]
  where
    split :
        has_key id (Manager.snapshot f.manager ++ (between f).0.manager.finalizing)
        ≡ (has_key id (Manager.snapshot f.manager) || has_key id (between f).0.manager.finalizing)
    split = has_key-append id (Manager.snapshot f.manager) (between f).0.manager.finalizing

-- A round behind its waits.
after_waits-Waited :
    (id : ℕ) (round : WaitRound) (r : Bool × Fleet) (next : Fleet → WaitEnd × Fleet)
    → Tracked id r.1
    → (r.0 ≡ true → IsClosed id r.1)
    → ((f : Fleet) → Tracked id f → Waited id (next f))
    → Waited id (after_waits round r next)
after_waits-Waited id round (false, f) next t closed later = t
after_waits-Waited id round (true, f) next t closed later =
    behind (length (finalization_snapshot (round.before_look f).0.manager) == 0) round.changed
  where
    g : Fleet
    g = (round.before_look f).0

    tracked : Tracked id g
    tracked = Others-Kept (Tracked-Kept id) round.before_look f t

    behind :
        (empty changed : Bool)
        → Waited id (
            if empty
            then (waited, g)
            else if changed
            then next (round.before_next g).0
            else (timed_out, g))
    behind true changed = Others-Kept (IsClosed-Kept id) round.before_look f (closed refl)
    behind false false = tracked
    behind false true =
        later (round.before_next g).0 (Others-Kept (Tracked-Kept id) round.before_next g tracked)

pub wait_all-Waited :
    (id : ℕ) (rounds : List WaitRound) (f : Fleet) → Tracked id f → Waited id (wait_all rounds f)
unfolding wait_all
wait_all-Waited id [] f t = t
wait_all-Waited id (round ∷ rounds) f t =
    looked (length ids == 0) refl (λ h later. wait_all-Waited id rounds h later)
  where
    g : Fleet
    g = (round.between_reads f).0

    ids : List ℕ
    ids = Manager.snapshot f.manager ++ finalization_snapshot g.manager

    here : (has_key id ids ≡ true) ⊎ IsClosed id g
    here = seen id round.between_reads f t

    tracked : Tracked id g
    tracked = Others-Kept (Tracked-Kept id) round.between_reads f t

    waits : Bool × Fleet
    waits = wait_each round.before_wait round.chosen ids g

    in_time : waits.0 ≡ true → IsClosed id waits.1
    in_time e = elim here [
      | inl listed ↦ wait_each-IsClosed id round.before_wait round.chosen ids g e listed
      | inr closed ↦ wait_each-Kept (IsClosed-Kept id) round.before_wait round.chosen ids g closed
    ]

    looked :
        (empty : Bool)
        → (length ids == 0) ≡ empty
        → ((h : Fleet) → Tracked id h → Waited id (wait_all rounds h))
        → Waited id (if empty then (waited, g) else after_waits round waits (wait_all rounds))
    looked true e later = elim here [
      | inl listed ↦ absurd (has_key-none id ids e listed)
      | inr closed ↦ closed
    ]
    looked false e later =
        after_waits-Waited id round waits (wait_all rounds)
          (wait_each-Kept (Tracked-Kept id) round.before_wait round.chosen ids g tracked) in_time
          later

-- Some round in which the context has ended.
abbrev pub context_ends : List WaitRound → Bool
context_ends [] = false
context_ends (round ∷ rounds) = not round.changed || context_ends rounds

after_waits-back :
    (round : WaitRound) (r : Bool × Fleet) (next : Fleet → WaitEnd × Fleet)
    → (not round.changed ≡ true) ⊎ ((f : Fleet) → (next f).0 ≢ waiting)
    → (after_waits round r next).0 ≢ waiting
after_waits-back round (false, f) next later = λ e. cc
after_waits-back round (true, f) next later =
    behind (length (finalization_snapshot (round.before_look f).0.manager) == 0) round.changed later
  where
    g : Fleet
    g = (round.before_look f).0

    behind :
        (empty changed : Bool)
        → (not changed ≡ true) ⊎ ((f : Fleet) → (next f).0 ≢ waiting)
        → (if empty
            then (waited, g)
            else if changed
            then next (round.before_next g).0
            else (timed_out, g)).0
          ≢ waiting
    behind true changed last = λ e. cc
    behind false false last = λ e. cc
    behind false true (inl e) = absurd (cc e)
    behind false true (inr go) = go (round.before_next g).0

-- waitAll comes back once its context has ended.
pub wait_all-back :
    (rounds : List WaitRound) (f : Fleet)
    → context_ends rounds ≡ true
    → (wait_all rounds f).0 ≢ waiting
unfolding wait_all
wait_all-back [] f e = absurd (cc e)
wait_all-back (round ∷ rounds) f e =
    looked (length ids == 0) (last (not round.changed) e (λ rest h. wait_all-back rounds h rest))
  where
    g : Fleet
    g = (round.between_reads f).0

    ids : List ℕ
    ids = Manager.snapshot f.manager ++ finalization_snapshot g.manager

    last :
        (b : Bool)
        → (b || context_ends rounds) ≡ true
        → (context_ends rounds ≡ true → (h : Fleet) → (wait_all rounds h).0 ≢ waiting)
        → (b ≡ true) ⊎ ((h : Fleet) → (wait_all rounds h).0 ≢ waiting)
    last true e later = inl refl
    last false e later = inr (later e)

    looked :
        (empty : Bool)
        → (not round.changed ≡ true) ⊎ ((h : Fleet) → (wait_all rounds h).0 ≢ waiting)
        → (if empty
            then (waited, g)
            else after_waits round
                (wait_each round.before_wait round.chosen ids g)
                (wait_all rounds)).0
          ≢ waiting
    looked true later = λ e. cc
    looked false later =
        after_waits-back round (wait_each round.before_wait round.chosen ids g) (wait_all rounds)
          later
