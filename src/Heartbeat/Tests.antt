-- ===== src/Heartbeat/Tests.antt =====
-- Heartbeats on concrete times.
use ramix.Heartbeat.{check_heartbeat, refresh, new_activity_clock}
use ramix.Heartbeat.Expiry.{check_heartbeat_lem, expired}
use ramix.Connection.Requests.{CloseReason, closed_by}
use ramix.Connection.{NetConnection, new_net_connection}
use ramix.Prelude.Int.{pos}
use ramix.Prelude.{◌≡◌, arith, refl}

abbrev open_connection : NetConnection CloseReason
open_connection = new_net_connection 4

-- Thirty seconds after the last activity, with a timeout of thirty.
check_heartbeat_lem_example :
    check_heartbeat (pos 30) (pos 130) (refresh (pos 100) new_activity_clock) open_connection
    ≡ closed_by expired open_connection
unfolding new_net_connection
check_heartbeat_lem_example =
    check_heartbeat_lem 100 30 130 new_activity_clock open_connection (omega arith) refl
