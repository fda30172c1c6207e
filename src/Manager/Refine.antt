-- ===== src/Manager/Refine.antt =====
-- manager.go: a manager is two sets of connections, whatever the calls.
use ramix.Manager.{
  Manager, new_connection_manager, select_group, add_connection, begin_finalizing, leave_group,
  remove_connection, mark_finalized, count_groups, join_groups, connections_count, snapshot,
  finalization_snapshot,
}
use ramix.Manager.Holds.{
  has_key, has_key-insert, has_key-delete, IsManager, add_connection-IsManager,
  leave_group-IsManager, snapshot-add, snapshot-leave,
}
use ramix.Prelude.{
  ℕ, List, Bool, ◌<◌, [], ◌≡◌, ◌∷◌, false, ◌||◌, ◌∙◌, length, suc, ◌==◌, append-nil, ap, arith, not,
  length-append, zero, ◌&&◌, refl,
}

pub data ManagerCall : Type 0 where
  add_call remove_call finalize_call : ℕ → ManagerCall

unfoldable pub apply : ManagerCall → Manager → Manager
apply (add_call id) m = add_connection id m
apply (remove_call id) m = remove_connection id m
apply (finalize_call id) m = mark_finalized id m

-- The calls, the last one first.
unfoldable pub managed : ℕ → List ManagerCall → Manager
managed count [] = new_connection_manager count
managed count (c ∷ earlier) = apply c (managed count earlier)

-- The connections that were added and not removed since.
abbrev pub is_held : List ManagerCall → ℕ → Bool
is_held [] other = false
is_held (add_call id ∷ earlier) other = id == other || is_held earlier other
is_held (remove_call id ∷ earlier) other = not (id == other) && is_held earlier other
is_held (finalize_call id ∷ earlier) other = is_held earlier other

-- The connections that were removed and not marked as finalized since.
abbrev pub is_finalizing : List ManagerCall → ℕ → Bool
is_finalizing [] other = false
is_finalizing (add_call id ∷ earlier) other = is_finalizing earlier other
is_finalizing (remove_call id ∷ earlier) other = id == other || is_finalizing earlier other
is_finalizing (finalize_call id ∷ earlier) other = not (id == other) && is_finalizing earlier other

apply-IsManager : (c : ManagerCall) (m : Manager) → IsManager m → IsManager (apply c m)
unfolding apply remove_connection begin_finalizing mark_finalized
apply-IsManager (add_call id) m ok_m = add_connection-IsManager id m ok_m
apply-IsManager (remove_call id) m ok_m =
    leave_group-IsManager id (begin_finalizing id m)
      (record { some_group = ok_m.some_group; sorted = ok_m.sorted })
apply-IsManager (finalize_call id) m ok_m = record {
  some_group = ok_m.some_group;
  sorted = ok_m.sorted;
}

managed-IsManager :
    (count : ℕ) (calls : List ManagerCall) → 0 < count → IsManager (managed count calls)
unfolding managed new_connection_manager
managed-IsManager count [] some_group = record { some_group = some_group; sorted = λ g key has. cc }
managed-IsManager count (c ∷ earlier) some_group =
    apply-IsManager c (managed count earlier) (managed-IsManager count earlier some_group)

join_empty : (n : ℕ) → join_groups (λ _. []) n ≡ []
join_empty zero = refl
join_empty (suc n) = append-nil _ ∙ join_empty n

held_lem :
    (count : ℕ) (calls : List ManagerCall) (other : ℕ)
    → 0 < count
    → has_key other (snapshot (managed count calls)) ≡ is_held calls other
unfolding managed new_connection_manager apply add_connection select_group remove_connection
    leave_group begin_finalizing mark_finalized snapshot
held_lem count [] other some_group = ap (has_key other) (join_empty count)
held_lem count (add_call id ∷ earlier) other some_group =
    let m = managed count earlier in
    let ok_m = managed-IsManager count earlier some_group in
    snapshot-add id other m ok_m
    ∙ ap (λ b. id == other || b) (held_lem count earlier other some_group)
held_lem count (remove_call id ∷ earlier) other some_group =
    let m = managed count earlier in
    let ok_m = managed-IsManager count earlier some_group in
    let ok_f : IsManager (begin_finalizing id m) = record {
      some_group = ok_m.some_group;
      sorted = ok_m.sorted;
    } in
    snapshot-leave id other (begin_finalizing id m) ok_f
    ∙ ap (λ b. not (id == other) && b) (held_lem count earlier other some_group)
held_lem count (finalize_call id ∷ earlier) other some_group =
    held_lem count earlier other some_group

finalizing_lem :
    (count : ℕ) (calls : List ManagerCall) (other : ℕ)
    → has_key other (finalization_snapshot (managed count calls)) ≡ is_finalizing calls other
unfolding managed new_connection_manager apply add_connection remove_connection leave_group
    begin_finalizing mark_finalized finalization_snapshot
finalizing_lem count [] other = refl
finalizing_lem count (add_call id ∷ earlier) other = finalizing_lem count earlier other
finalizing_lem count (remove_call id ∷ earlier) other =
    has_key-insert id other _ ∙ ap (λ b. id == other || b) (finalizing_lem count earlier other)
finalizing_lem count (finalize_call id ∷ earlier) other =
    has_key-delete id other _
    ∙ ap (λ b. not (id == other) && b) (finalizing_lem count earlier other)

count_lem : (groups : ℕ → List ℕ) (n : ℕ) → count_groups groups n ≡ length (join_groups groups n)
count_lem groups zero = refl
count_lem groups (suc n) =
    omega (arith, count_lem groups n, length-append (join_groups groups n) (groups n))

-- For any number of groups above zero and any calls, a manager is two sets: a snapshot shows the
-- connections that were added and not removed since, the finalization snapshot those that were
-- removed and not finalized since, and connectionsCount is the length of the snapshot. The groups
-- do not show.
pub managed-sets :
    (count : ℕ) (calls : List ManagerCall) (other : ℕ)
    → 0 < count
    → (has_key other (snapshot (managed count calls)) ≡ is_held calls other)
      × (has_key other (finalization_snapshot (managed count calls)) ≡ is_finalizing calls other)
      × (connections_count (managed count calls) ≡ length (snapshot (managed count calls)))
unfolding connections_count snapshot
managed-sets count calls other some_group = (
  held_lem count calls other some_group,
  finalizing_lem count calls other,
  count_lem (managed count calls).groups (managed count calls).count,
)
