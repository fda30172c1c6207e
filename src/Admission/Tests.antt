-- ===== src/Admission/Tests.antt =====
-- tcp_server.go, websocket_server.go: a limit of two connections and three upgrade handlers.
use ramix.Admission.Excess.{connections-bound}
use ramix.Admission.{Admission, Steps, no_connections}
use ramix.Prelude.{◌≤◌, ◌≡◌, arith}

connections-bound_example :
    ((a : Admission) → Steps 3 (no_connections 2) a → a.connections ≤ 5)
    × ((a : Admission) × (Steps 3 (no_connections 2) a × (a.connections ≡ 5)))
connections-bound_example = connections-bound 2 3 (omega arith)
