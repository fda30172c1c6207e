-- ===== src/Heartbeat.antt =====
-- heartbeat.go: the activity of a connection and its expiry. A time is its nanoseconds, which
-- time.Unix(0, n) gives back from UnixNano; the ticker is the caller's choice of the moment.
pub mod Expiry
mod Tests
use ramix.Prelude.{ℕ, Bool, if◌then◌else◌, ◌||◌, false, true, ◌&&◌, not}
use ramix.Prelude.Int.{ℤ, pos, ltb_ℤ, ◌+ℤ◌}
use ramix.Connection.{NetConnection}
use ramix.Connection.Requests.{
  CloseReason, request_close_if_open, operation_heartbeat, deadline_exceeded,
}

-- `last_active` is an int64 that holds UnixNano.
pub record ActivityClock : Type 0 where
  pub last_active : ℤ

unfoldable pub refresh : ℤ → ActivityClock → ActivityClock
refresh now c = record c { last_active = now }

-- A clock that no activity was seen on.
abbrev pub new_activity_clock : ActivityClock
new_activity_clock = record { last_active = pos 0 }

-- time.Unix(0, last).Add(timeout).After(now)
unfoldable pub alive : ℤ → ℤ → ActivityClock → Bool
alive timeout now c = ltb_ℤ now (c.last_active +ℤ timeout)

-- checkHeartbeat: only an open connection is closed.
unfoldable pub check_heartbeat :
    ℤ → ℤ → ActivityClock → NetConnection CloseReason → NetConnection CloseReason
check_heartbeat timeout now clock c =
    if alive timeout now clock
    then c
    else request_close_if_open
        (record { operation = operation_heartbeat; cause = deadline_exceeded }) c

-- A round of runHeartbeat: whether it goes on. `tick` says that select takes the ticker where a
-- context has ended too.
unfoldable pub heartbeat_round :
    Bool → ℤ → ℤ → ActivityClock → NetConnection CloseReason → Bool × NetConnection CloseReason
heartbeat_round tick timeout now clock c =
    if (c.read_cancelled || c.force_cancelled) && not tick
    then (false, c)
    else (true, check_heartbeat timeout now clock c)
