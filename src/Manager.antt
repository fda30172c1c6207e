-- ===== src/Manager.antt =====
-- manager.go: the connections of a server, in groups by the remainder of their ids, and those that
-- are being finalized. A connection is its id. A map is a list of its keys without repetition,
-- which a range over it reads in the order of the list. Each step is one critical section, so that
-- removeConnection is two steps.
pub mod Holds
pub mod Refine
mod Tests
use ramix.Prelude.{ℕ, List, ◌∷◌, [], ◌%◌, update, suc, if◌then◌else◌, ◌+◌, ◌++◌, ◌==◌, length, zero}

-- `groups` is read below `count`, the number of groups. `changes` counts the closed channels
-- `finalizingChange`.
pub record Manager : Type 0 where
  pub count : ℕ
  pub groups : ℕ → List ℕ
  pub finalizing : List ℕ
  pub changes : ℕ

-- The keys of a map, with one more or one less.
unfoldable pub insert : ℕ → List ℕ → List ℕ
insert id [] = id ∷ []
insert id (key ∷ keys) = if key == id then key ∷ keys else key ∷ insert id keys

unfoldable pub delete : ℕ → List ℕ → List ℕ
delete id [] = []
delete id (key ∷ keys) = let rest = delete id keys in if key == id then rest else key ∷ rest

unfoldable pub new_connection_manager : ℕ → Manager
new_connection_manager count = record {
  count = count;
  groups = λ _. [];
  finalizing = [];
  changes = 0;
}

unfoldable pub select_group : Manager → ℕ → ℕ
select_group m id = id % m.count

unfoldable pub add_connection : ℕ → Manager → Manager
add_connection id m =
    let g = select_group m id in record m { groups = update m.groups g (insert id (m.groups g)) }

-- The two sections of removeConnection.
unfoldable pub begin_finalizing : ℕ → Manager → Manager
begin_finalizing id m = record m { finalizing = insert id m.finalizing }

unfoldable pub leave_group : ℕ → Manager → Manager
leave_group id m =
    let g = select_group m id in record m { groups = update m.groups g (delete id (m.groups g)) }

unfoldable pub remove_connection : ℕ → Manager → Manager
remove_connection id m = leave_group id (begin_finalizing id m)

unfoldable pub mark_finalized : ℕ → Manager → Manager
mark_finalized id m = record m { finalizing = delete id m.finalizing; changes = suc m.changes }

-- The loops over the groups.
abbrev pub count_groups : (ℕ → List ℕ) → ℕ → ℕ
count_groups groups zero = 0
count_groups groups (suc n) = count_groups groups n + length (groups n)

abbrev pub join_groups : (ℕ → List ℕ) → ℕ → List ℕ
join_groups groups zero = []
join_groups groups (suc n) = join_groups groups n ++ groups n

unfoldable pub connections_count : Manager → ℕ
connections_count m = count_groups m.groups m.count

unfoldable pub snapshot : Manager → List ℕ
snapshot m = join_groups m.groups m.count

unfoldable pub finalization_snapshot : Manager → List ℕ
finalization_snapshot m = m.finalizing
