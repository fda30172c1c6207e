-- ===== src/Stats/History.antt =====
-- The metrics after a history of calls, against an exact tally of that history.
use ramix.Prelude.{
  ℕ, List, ◌+◌, ◌≤◌, ◌≡◌, arith, ◌∷◌, [], if◌then◌else◌, ◌==◌, refl, Bool-cases, inl, inr, ◌-◌,
}
use ramix.Stats.{
  connection_closed, connection_opened, ServerMetrics, TransportMetrics, saturating_add,
  new_metrics, decrement_gauge, complete_request, for_transport, task_queued, task_dequeued,
  task_rejected, connection_error, message_received, message_sent, request_completed, no_activity,
}
use ramix.Transport.{Transport, transport_tcp, transport_web_socket}
use ramix.Prelude.Int.{pos_part, ℤ, max_uint64, max_int, pos, negsuc}
use Prim.Native.Nat.{max, min}

-- A call of one of the methods of serverMetrics.
pub data Activity : Type 0 where
  opened closed queued dequeued rejected failed : Activity
  received : ℕ → Activity
  sent : ℕ → Activity
  completed : ℤ → Activity

unfoldable pub perform : Transport → Activity → ServerMetrics → ServerMetrics
unfolding connection_opened connection_closed task_queued task_dequeued task_rejected
    connection_error message_received message_sent request_completed
perform t opened = connection_opened t
perform t closed = connection_closed t
perform t queued = task_queued t
perform t dequeued = task_dequeued t
perform t rejected = task_rejected t
perform t failed = connection_error t
perform t (received n) = message_received t n
perform t (sent n) = message_sent t n
perform t (completed d) = request_completed t d

-- A history has its last call first.
abbrev pub History : Type 0
History = List (Transport × Activity)

unfoldable pub metrics_after : History → ServerMetrics
metrics_after [] = new_metrics
metrics_after ((t, a) ∷ past) = perform t a (metrics_after past)

-- Exact numbers, with no limit, but for the two gauges, which stop at 0 and at the largest uint64.
pub record Tally : Type 0 where
  pub active : ℕ
  pub waiting : ℕ
  pub rejects : ℕ
  pub errors : ℕ
  pub receipts : ℕ
  pub bytes_in : ℕ
  pub sends : ℕ
  pub bytes_out : ℕ
  pub completions : ℕ
  pub duration : ℕ
  pub longest : ℕ

abbrev pub no_tally : Tally
no_tally = record {
  active = 0;
  waiting = 0;
  rejects = 0;
  errors = 0;
  receipts = 0;
  bytes_in = 0;
  sends = 0;
  bytes_out = 0;
  completions = 0;
  duration = 0;
  longest = 0;
}

abbrev pub add_activity : Activity → Tally → Tally
add_activity opened y = record y { active = min (y.active + 1) max_uint64 }
add_activity closed y = record y { active = y.active - 1 }
add_activity queued y = record y { waiting = min (y.waiting + 1) max_uint64 }
add_activity dequeued y = record y { waiting = y.waiting - 1 }
add_activity rejected y = record y { rejects = y.rejects + 1 }
add_activity failed y = record y { errors = y.errors + 1 }
add_activity (received n) y = record y { receipts = y.receipts + 1; bytes_in = y.bytes_in + n }
add_activity (sent n) y = record y { sends = y.sends + 1; bytes_out = y.bytes_out + n }
add_activity (completed d) y = record y {
  completions = y.completions + 1;
  duration = y.duration + pos_part d;
  longest = max y.longest (pos_part d);
}

-- The calls for one transport.
unfoldable pub tally : Transport → History → Tally
tally t [] = no_tally
tally t ((u, a) ∷ past) = if u == t then add_activity a (tally t past) else tally t past

abbrev pub FitsDuration : Activity → Type 0
FitsDuration (completed d) = pos_part d ≤ max_int
FitsDuration _ = Unit {0}

-- Each duration is an int64.
abbrev pub HasDurations : History → Type 0
HasDurations [] = Unit
HasDurations ((u, a) ∷ past) = FitsDuration a × HasDurations past

-- The metrics of a transport, as an exact tally accounts for them: counters are cut at their
-- limits.
pub record Accounts (y : Tally) (m : TransportMetrics) : Type 0 where
  pub active : m.active_connections ≡ y.active
  pub waiting : m.queued_tasks ≡ y.waiting
  pub rejects : m.rejected_tasks ≡ min y.rejects max_uint64
  pub errors : m.connection_errors ≡ min y.errors max_uint64
  pub receipts : m.received_messages ≡ min y.receipts max_uint64
  pub bytes_in : m.received_bytes ≡ min y.bytes_in max_uint64
  pub sends : m.sent_messages ≡ min y.sends max_uint64
  pub bytes_out : m.sent_bytes ≡ min y.bytes_out max_uint64
  pub completions : m.completed_requests ≡ min y.completions max_uint64
  pub duration : m.total_request_duration ≡ min y.duration max_int
  pub longest : m.maximum_request_duration ≡ y.longest
  pub active_fits : m.active_connections ≤ max_uint64
  pub waiting_fits : m.queued_tasks ≤ max_uint64
  pub longest_le : m.maximum_request_duration ≤ m.total_request_duration

-- The change to one transport's metrics.
abbrev change : Activity → TransportMetrics → TransportMetrics
change opened m = record m { active_connections = saturating_add m.active_connections 1 max_uint64 }
change closed m = record m { active_connections = decrement_gauge m.active_connections }
change queued m = record m { queued_tasks = saturating_add m.queued_tasks 1 max_uint64 }
change dequeued m = record m { queued_tasks = decrement_gauge m.queued_tasks }
change rejected m = record m { rejected_tasks = saturating_add m.rejected_tasks 1 max_uint64 }
change failed m = record m { connection_errors = saturating_add m.connection_errors 1 max_uint64 }
change (received n) m = record m {
  received_messages = saturating_add m.received_messages 1 max_uint64;
  received_bytes = saturating_add m.received_bytes n max_uint64;
}
change (sent n) m = record m {
  sent_messages = saturating_add m.sent_messages 1 max_uint64;
  sent_bytes = saturating_add m.sent_bytes n max_uint64;
}
change (completed d) m = complete_request d m

perform-change :
    (t : Transport) (a : Activity) (m : ServerMetrics)
    → perform t a m ≡ for_transport t (change a) m
unfolding perform
perform-change t opened m = refl
perform-change t closed m = refl
perform-change t queued m = refl
perform-change t dequeued m = refl
perform-change t rejected m = refl
perform-change t failed m = refl
perform-change t (received n) m = refl
perform-change t (sent n) m = refl
perform-change t (completed d) m = refl

change-Accounts :
    (a : Activity) (y : Tally) (m : TransportMetrics)
    → Accounts y m
    → FitsDuration a
    → Accounts (add_activity a y) (change a m)
unfolding saturating_add decrement_gauge complete_request
change-Accounts opened y m h f = ground arith
change-Accounts closed y m h f = ground arith
change-Accounts queued y m h f = ground arith
change-Accounts dequeued y m h f = ground arith
change-Accounts rejected y m h f = ground arith
change-Accounts failed y m h f = ground arith
change-Accounts (received n) y m h f = ground arith
change-Accounts (sent n) y m h f = ground arith
change-Accounts (completed (pos d)) y m h f = ground arith
change-Accounts (completed (negsuc d)) y m h f = ground arith

no_activity-Accounts : Accounts no_tally no_activity
no_activity-Accounts = omega arith

tcp-for_transport :
    (u : Transport) (f : TransportMetrics → TransportMetrics) (m : ServerMetrics)
    → (for_transport u f m).tcp ≡ (if u == transport_tcp then f m.tcp else m.tcp)
unfolding for_transport
tcp-for_transport u f m = ground arith

tcp-Accounts :
    (past : History)
    → HasDurations past
    → Accounts (tally transport_tcp past) (metrics_after past).tcp
unfolding metrics_after tally
tcp-Accounts [] h = no_activity-Accounts
tcp-Accounts ((u, a) ∷ past) (f, h) =
    let before = tcp-Accounts past h in
    rw
      (perform-change u a (metrics_after past), tcp-for_transport u (change a) (metrics_after past))
      (elim (Bool-cases (u == transport_tcp)) [
        | inl same ↦
            rw same (change-Accounts a (tally transport_tcp past) (metrics_after past).tcp before f)
        | inr other ↦ rw other before
      ])

web_socket-for_transport :
    (u : Transport) (f : TransportMetrics → TransportMetrics) (m : ServerMetrics)
    → (for_transport u f m).web_socket
      ≡ (if u == transport_web_socket then f m.web_socket else m.web_socket)
unfolding for_transport
web_socket-for_transport u f m = ground arith

web_socket-Accounts :
    (past : History)
    → HasDurations past
    → Accounts (tally transport_web_socket past) (metrics_after past).web_socket
unfolding metrics_after tally
web_socket-Accounts [] h = no_activity-Accounts
web_socket-Accounts ((u, a) ∷ past) (f, h) =
    let before = web_socket-Accounts past h in
    rw
      (
        perform-change u a (metrics_after past),
        web_socket-for_transport u (change a) (metrics_after past),
      )
      (elim (Bool-cases (u == transport_web_socket)) [
        | inl same ↦ rw same (
            change-Accounts a (tally transport_web_socket past) (metrics_after past).web_socket
              before f)
        | inr other ↦ rw other before
      ])

-- After every history of calls, in any order, whose durations are int64 values: the metrics of each
-- transport are the tally of the calls for that transport. A gauge goes up and down with its calls
-- and stops at 0 and at the largest uint64, counters are exact sums cut at their limits, and the
-- longest duration is exact and at most the total.
pub metrics_after-Accounts :
    (past : History)
    → HasDurations past
    → Accounts (tally transport_tcp past) (metrics_after past).tcp
      × Accounts (tally transport_web_socket past) (metrics_after past).web_socket
metrics_after-Accounts past h = (tcp-Accounts past h, web_socket-Accounts past h)
