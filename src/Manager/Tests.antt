-- ===== src/Manager/Tests.antt =====
-- Managers on concrete connections.
use ramix.Manager.{snapshot, finalization_snapshot, connections_count}
use ramix.Manager.Holds.{has_key}
use ramix.Manager.Refine.{
  ManagerCall, add_call, remove_call, managed, managed-sets, is_held, is_finalizing,
}
use ramix.Prelude.{List, ◌≡◌, ◌∷◌, length, [], arith}

-- Connections 1, 4 and 5 in three groups; 4 is being finalized.
abbrev three_calls : List ManagerCall
three_calls = remove_call 4 ∷ add_call 5 ∷ add_call 4 ∷ add_call 1 ∷ []

managed-sets_example :
    (has_key 4 (snapshot (managed 3 three_calls)) ≡ is_held three_calls 4)
    × (has_key 4 (finalization_snapshot (managed 3 three_calls)) ≡ is_finalizing three_calls 4)
    × (connections_count (managed 3 three_calls) ≡ length (snapshot (managed 3 three_calls)))
managed-sets_example = managed-sets 3 three_calls 4 (omega arith)
