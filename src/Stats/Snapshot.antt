-- ===== src/Stats/Snapshot.antt =====
-- The total of a snapshot.
use ramix.Stats.{
  TransportMetrics, snapshot, TransportStats, ServerMetrics, counter_duration, max_duration,
  saturated_sum,
}
use ramix.Prelude.{◌≤◌, ◌≡◌, ◌+◌, ℕ, arith}
use ramix.Prelude.Int.{max_uint64, max_int, pos, int64, uint64}
use Prim.Native.Nat.{min, max}
use ramix.Stats.Sums.{saturated_sum-min}

-- What the duration counters of a transport hold: they are limited to an int64.
pub record InRange (m : TransportMetrics) : Type 0 where
  pub duration : m.total_request_duration ≤ max_int
  pub longest : m.maximum_request_duration ≤ max_int

-- The sum of two transports in exact numbers, cut at the limits.
pub record IsTotal (a b : TransportMetrics) (s : TransportStats) : Type 0 where
  pub active : s.active_connections ≡ min (a.active_connections + b.active_connections) max_uint64
  pub waiting : s.queued_tasks ≡ min (a.queued_tasks + b.queued_tasks) max_uint64
  pub receipts : s.received_messages ≡ min (a.received_messages + b.received_messages) max_uint64
  pub bytes_in : s.received_bytes ≡ min (a.received_bytes + b.received_bytes) max_uint64
  pub sends : s.sent_messages ≡ min (a.sent_messages + b.sent_messages) max_uint64
  pub bytes_out : s.sent_bytes ≡ min (a.sent_bytes + b.sent_bytes) max_uint64
  pub rejects : s.rejected_tasks ≡ min (a.rejected_tasks + b.rejected_tasks) max_uint64
  pub errors : s.connection_errors ≡ min (a.connection_errors + b.connection_errors) max_uint64
  pub completions :
      s.completed_requests ≡ min (a.completed_requests + b.completed_requests) max_uint64
  pub duration :
      s.total_request_duration
      ≡ pos (min (a.total_request_duration + b.total_request_duration) max_int)
  pub longest :
      s.maximum_request_duration ≡ pos (max a.maximum_request_duration b.maximum_request_duration)

total_duration :
    (a b : ℕ)
    → a ≤ max_int
    → b ≤ max_int
    → int64 (saturated_sum (uint64 (counter_duration a)) (uint64 (counter_duration b)) max_int)
      ≡ pos (min (a + b) max_int)
unfolding counter_duration int64 uint64 saturated_sum
total_duration a b h k = ground arith

longest_duration :
    (a b : ℕ)
    → a ≤ max_int
    → b ≤ max_int
    → max_duration (counter_duration a) (counter_duration b) ≡ pos (max a b)
unfolding max_duration counter_duration
longest_duration a b h k = ground arith

-- The total of a snapshot adds up the two transports field by field, cut at the limits of the
-- types; no sum and no duration wraps around.
pub snapshot-IsTotal :
    (m : ServerMetrics)
    → InRange m.tcp
    → InRange m.web_socket
    → IsTotal m.tcp m.web_socket (snapshot m).total
unfolding snapshot
snapshot-IsTotal m h k = record {
  active = saturated_sum-min m.tcp.active_connections m.web_socket.active_connections max_uint64;
  waiting = saturated_sum-min m.tcp.queued_tasks m.web_socket.queued_tasks max_uint64;
  receipts = saturated_sum-min m.tcp.received_messages m.web_socket.received_messages max_uint64;
  bytes_in = saturated_sum-min m.tcp.received_bytes m.web_socket.received_bytes max_uint64;
  sends = saturated_sum-min m.tcp.sent_messages m.web_socket.sent_messages max_uint64;
  bytes_out = saturated_sum-min m.tcp.sent_bytes m.web_socket.sent_bytes max_uint64;
  rejects = saturated_sum-min m.tcp.rejected_tasks m.web_socket.rejected_tasks max_uint64;
  errors = saturated_sum-min m.tcp.connection_errors m.web_socket.connection_errors max_uint64;
  completions =
      saturated_sum-min m.tcp.completed_requests m.web_socket.completed_requests max_uint64;
  duration =
      total_duration m.tcp.total_request_duration m.web_socket.total_request_duration h.duration
        k.duration;
  longest =
      longest_duration m.tcp.maximum_request_duration m.web_socket.maximum_request_duration
        h.longest k.longest;
}
