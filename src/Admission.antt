-- ===== src/Admission.antt =====
-- tcp_server.go, websocket_server.go, server.go (nextConnectionID): how connections are let in. The
-- accept loop of TCP is one goroutine; the upgrade handlers of WebSocket are any number of them. A
-- call on the manager or on the gate is a step, and others come between.
mod Limit
pub mod Excess
mod Tests
use ramix.Prelude.{ℕ, Bool, true, ◌+◌, if◌then◌else◌, ◌-◌, ◌≡◌, ◌%◌, leb, suc, ◌<◌, ◌^◌, false}

-- Where the accept loop stands: at Accept, behind its look at the count, or behind the gate.
pub data TcpPoint : Type 0 where
  at_accept at_gate at_open : TcpPoint

-- `connections` is the manager's count and `last_id` currentConnectionID. Of the upgrade handlers
-- `upgrades_begun` are behind the gate and `upgrades_counted` behind their look at the count.
pub record Admission : Type 0 where
  pub limit : ℕ
  pub connections : ℕ
  pub last_id : ℕ
  pub accepting_setups : Bool
  pub setups : ℕ
  pub tcp_at : TcpPoint
  pub upgrades_begun : ℕ
  pub upgrades_counted : ℕ

abbrev pub no_connections : ℕ → Admission
no_connections limit = record {
  limit = limit;
  connections = 0;
  last_id = 0;
  accepting_setups = true;
  setups = 0;
  tcp_at = at_accept;
  upgrades_begun = 0;
  upgrades_counted = 0;
}

-- atomic.AddUint64
unfoldable pub next_connection_id : ℕ → ℕ
next_connection_id last = (last + 1) % 2 ^ 64

-- Accept has returned a socket, which is closed where the limit is reached.
unfoldable pub tcp_count : Admission → Admission
tcp_count a = if leb a.limit a.connections then a else record a { tcp_at = at_gate }

-- beginConnectionSetup; where it refuses, the socket is closed.
unfoldable pub tcp_begin : Admission → Admission
tcp_begin a =
    if a.accepting_setups
    then record a { tcp_at = at_open; setups = suc a.setups }
    else record a { tcp_at = at_accept }

-- openTCPConnection and finishConnectionSetup: the connection is made and added, or not made.
unfoldable pub tcp_open : Bool → Admission → Admission
unfolding next_connection_id
tcp_open made a =
    let tried = record a {
      tcp_at = at_accept;
      setups = a.setups - 1;
      last_id = next_connection_id a.last_id;
    } in
    if made then record tried { connections = suc a.connections } else tried

unfoldable pub upgrade_begin : Admission → Admission
upgrade_begin a =
    if a.accepting_setups
    then record a { upgrades_begun = suc a.upgrades_begun; setups = suc a.setups }
    else a

-- The handler answers with "connection limit reached", or goes on to upgrade.
unfoldable pub upgrade_count : Admission → Admission
upgrade_count a =
    let left = record a { upgrades_begun = a.upgrades_begun - 1 } in
    if leb a.limit a.connections
    then record left { setups = a.setups - 1 }
    else record left { upgrades_counted = suc a.upgrades_counted }

-- Upgrade fails, or openWebSocketConnection makes and adds the connection, or does not make it.
pub data UpgradeEnd : Type 0 where
  not_upgraded not_made opened : UpgradeEnd

unfoldable pub upgrade_open : UpgradeEnd → Admission → Admission
unfolding next_connection_id
upgrade_open end a =
    let left = record a { upgrades_counted = a.upgrades_counted - 1; setups = a.setups - 1 } in
    let named = record left { last_id = next_connection_id a.last_id } in
    elim end [
      | not_upgraded ↦ left
      | not_made ↦ named
      | opened ↦ record named { connections = suc a.connections }
    ]

-- stopConnectionSetups, at a shutdown.
unfoldable pub stop_setups : Admission → Admission
stop_setups a = record a { accepting_setups = false }

-- removeConnection.
unfoldable pub leave : Admission → Admission
leave a = record a { connections = a.connections - 1 }

-- The steps where at most `handlers` upgrade handlers run at a time.
pub data Step (handlers : ℕ) : Admission → Admission → Type 0 where
  step_tcp_count : (a : Admission) → a.tcp_at ≡ at_accept → Step handlers a (tcp_count a)
  step_tcp_begin : (a : Admission) → a.tcp_at ≡ at_gate → Step handlers a (tcp_begin a)
  step_tcp_open :
      (a : Admission) (made : Bool) → a.tcp_at ≡ at_open → Step handlers a (tcp_open made a)
  step_begin :
      (a : Admission)
      → a.upgrades_begun + a.upgrades_counted < handlers
      → Step handlers a (upgrade_begin a)
  step_count : (a : Admission) → 0 < a.upgrades_begun → Step handlers a (upgrade_count a)
  step_open :
      (a : Admission) (end : UpgradeEnd)
      → 0 < a.upgrades_counted
      → Step handlers a (upgrade_open end a)
  step_leave : (a : Admission) → Step handlers a (leave a)
  step_stop : (a : Admission) → Step handlers a (stop_setups a)

pub data Steps (handlers : ℕ) : Admission → Admission → Type 0 where
  done : (a : Admission) → Steps handlers a a
  more : {a b c : Admission} → Steps handlers a b → Step handlers b c → Steps handlers a c
