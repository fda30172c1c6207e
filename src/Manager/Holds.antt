-- ===== src/Manager/Holds.antt =====
-- manager.go: which connections a manager holds.
use native.Mathlib.Nat.{mod-lt}
use ramix.Manager.{
  Manager, insert, delete, select_group, add_connection, leave_group, join_groups, snapshot,
}
use ramix.Prelude.{
  ℕ, List, Bool, ◌≡◌, ◌++◌, false, ◌==◌, not, ◌||◌, ◌&&◌, ◌∷◌, [], refl, arith, true, ltb, ◌%◌, suc,
  zero, ◌≢◌, ℕ_discrete, ◌∙◌, ◌<◌, ◌⊎◌, ap, update, if_true, ==-eq, inl, sym, inr, if_false, ==-ne,
  Bool-cases, lt→ltb, ==_iff,
}
use mathlib.Core.Path.{subst}

-- Membership, as the code's look-ups see it.
abbrev pub has_key : ℕ → List ℕ → Bool
has_key id [] = false
has_key id (key ∷ keys) = key == id || has_key id keys

pub has_key-insert :
    (id other : ℕ) (keys : List ℕ)
    → has_key other (insert id keys) ≡ (id == other || has_key other keys)
unfolding insert
has_key-insert id other [] = refl
has_key-insert id other (key ∷ keys) = let rest = has_key-insert id other keys in ground arith

pub has_key-delete :
    (id other : ℕ) (keys : List ℕ)
    → has_key other (delete id keys) ≡ (not (id == other) && has_key other keys)
unfolding delete
has_key-delete id other [] = ground arith
has_key-delete id other (key ∷ keys) = let rest = has_key-delete id other keys in ground arith

pub has_key-append :
    (id : ℕ) (xs ys : List ℕ) → has_key id (xs ++ ys) ≡ (has_key id xs || has_key id ys)
has_key-append id [] ys = refl
has_key-append id (x ∷ xs) ys = let rest = has_key-append id xs ys in ground arith

absent : (b : Bool) → b ≢ true → b ≡ false
absent true ne = absurd (ne refl)
absent false ne = refl

-- Every key stands in the group of its id.
abbrev pub IsSorted : ℕ → (ℕ → List ℕ) → Type 0
IsSorted count groups = (g key : ℕ) → has_key key (groups g) ≡ true → key % count ≡ g

-- One group more: the key is in it only if it is the key's own.
one_more :
    (groups : ℕ → List ℕ) (id own n : ℕ)
    → (has_key id (groups n) ≡ true → own ≡ n)
    → ((ltb own n && has_key id (groups own)) || has_key id (groups n))
      ≡ (ltb own (suc n) && has_key id (groups own))
one_more groups id own n is_own = elim (ℕ_discrete own n) [
  | Dec.yes e ↦ let same = ap (λ g. has_key id (groups g)) e in ground arith
  | Dec.no ne ↦ let none_there = absent (has_key id (groups n)) (λ e. ne (is_own e)) in ground arith
]

-- What the groups below `n` hold is what the key's own group holds, if it is one of them.
has_key-join_groups :
    (count : ℕ) (groups : ℕ → List ℕ) (id n : ℕ)
    → IsSorted count groups
    → has_key id (join_groups groups n) ≡ (ltb (id % count) n && has_key id (groups (id % count)))
has_key-join_groups count groups id zero sorted = ground arith
has_key-join_groups count groups id (suc n) sorted =
    has_key-append id (join_groups groups n) (groups n)
    ∙ ap (λ b. b || has_key id (groups n)) (has_key-join_groups count groups id n sorted)
    ∙ one_more groups id (id % count) n (sorted n id)

or_cases : (id other : ℕ) {b : Bool} → (id == other || b) ≡ true → (id ≡ other) ⊎ (b ≡ true)
or_cases id other {b = b} h = elim (Bool-cases (id == other)) [
  | inl e ↦ inl ((==_iff id other).0 e)
  | inr e ↦ inr (ap (λ t. t || b) (sym e) ∙ h)
]

and_right : (a : Bool) {b : Bool} → (a && b) ≡ true → b ≡ true
and_right true h = h
and_right false h = cc

-- The manager has a group, and every connection is in the group of its id.
pub record IsManager (m : Manager) : Type 0 where
  pub some_group : 0 < m.count
  pub sorted : IsSorted m.count m.groups

-- A snapshot shows a connection exactly where its group has it.
pub has_key-snapshot :
    (m : Manager) (id : ℕ)
    → IsManager m
    → has_key id (snapshot m) ≡ has_key id (m.groups (id % m.count))
unfolding snapshot
has_key-snapshot m id ok_m =
    has_key-join_groups m.count m.groups id m.count ok_m.sorted
    ∙ ap (λ b. b && has_key id (m.groups (id % m.count))) (lt→ltb _ _ (mod-lt id ok_m.some_group))

-- One group is changed, in a way that concerns one key of that group.
changed-IsSorted :
    (m : Manager) (id : ℕ) (keys : List ℕ)
    → ((other : ℕ)
        → has_key other keys ≡ true
        → (id ≡ other) ⊎ (has_key other (m.groups (id % m.count)) ≡ true))
    → IsManager m
    → IsSorted m.count (update m.groups (id % m.count) keys)
changed-IsSorted m id keys only ok_m g key has = elim (ℕ_discrete (id % m.count) g) [
  | Dec.yes e ↦ elim (only key (subst (λ k. has_key key k ≡ true) (if_true _ _ (==-eq e)) has)) [
    | inl same ↦ ap (λ k. k % m.count) (sym same) ∙ e
    | inr old ↦ ok_m.sorted (id % m.count) key old ∙ e
  ]
  | Dec.no ne ↦
      ok_m.sorted g key (subst (λ k. has_key key k ≡ true) (if_false _ _ (==-ne _ _ ne)) has)
]

-- A change of the group of `id` is a change of the look-ups of a snapshot.
pub snapshot-changed :
    (m : Manager) (id : ℕ) (keys : List ℕ) (change : Bool → Bool → Bool)
    → ((b : Bool) → change false b ≡ b)
    → ((other : ℕ)
        → has_key other keys ≡ change (id == other) (has_key other (m.groups (id % m.count))))
    → IsManager m
    → IsManager (record m { groups = update m.groups (id % m.count) keys })
    → (other : ℕ)
    → has_key other (snapshot (record m { groups = update m.groups (id % m.count) keys }))
      ≡ change (id == other) (has_key other (snapshot m))
snapshot-changed m id keys change idle effect ok_m ok_next other =
    has_key-snapshot (record m { groups = update m.groups (id % m.count) keys }) other ok_next
    ∙ elim (ℕ_discrete (id % m.count) (other % m.count)) [
      | Dec.yes e ↦
          ap (has_key other) (if_true _ _ (==-eq e))
          ∙ effect other
          ∙ ap (λ g. change (id == other) (has_key other (m.groups g))) e
      | Dec.no ne ↦
          ap (has_key other) (if_false _ _ (==-ne _ _ ne))
          ∙ sym (idle (has_key other (m.groups (other % m.count))))
          ∙ ap (λ b. change b (has_key other (m.groups (other % m.count))))
              (sym (==-ne _ _ (λ e. ne (ap (λ k. k % m.count) e))))
    ]
    ∙ ap (change (id == other)) (sym (has_key-snapshot m other ok_m))

pub add_connection-IsManager :
    (id : ℕ) (m : Manager) → IsManager m → IsManager (add_connection id m)
unfolding add_connection select_group
add_connection-IsManager id m ok_m = record {
  some_group = ok_m.some_group;
  sorted =
      changed-IsSorted m id _
        (λ other has. or_cases id other (sym (has_key-insert id other _) ∙ has)) ok_m;
}

pub leave_group-IsManager : (id : ℕ) (m : Manager) → IsManager m → IsManager (leave_group id m)
unfolding leave_group select_group
leave_group-IsManager id m ok_m = record {
  some_group = ok_m.some_group;
  sorted =
      changed-IsSorted m id _
        (λ other has. inr (and_right _ (sym (has_key-delete id other _) ∙ has))) ok_m;
}

-- A connection that is added is held, and one that leaves its group is not.
pub snapshot-add :
    (id other : ℕ) (m : Manager)
    → IsManager m
    → has_key other (snapshot (add_connection id m)) ≡ (id == other || has_key other (snapshot m))
unfolding add_connection select_group
snapshot-add id other m ok_m =
    snapshot-changed m id _ (λ same held. same || held) (λ b. refl) (λ o. has_key-insert id o _)
      ok_m (add_connection-IsManager id m ok_m) other

pub snapshot-leave :
    (id other : ℕ) (m : Manager)
    → IsManager m
    → has_key other (snapshot (leave_group id m))
      ≡ (not (id == other) && has_key other (snapshot m))
unfolding leave_group select_group
snapshot-leave id other m ok_m =
    snapshot-changed m id _ (λ same held. not same && held) (λ b. refl) (λ o. has_key-delete id o _)
      ok_m (leave_group-IsManager id m ok_m) other
