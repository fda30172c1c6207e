-- ===== src/Stats.antt =====
-- stats.go: counters and gauges for each transport, and their snapshot.
-- An atomic counter is its number; a time.Duration is an integer.
pub mod Cas
pub mod Sums
pub mod History
pub mod Snapshot
mod Tests
use ramix.Prelude.{
  ℕ, List, Option, if◌then◌else◌, [], leb, ◌==◌, ltb, ◌||◌, none, ◌-◌, some, ◌+◌, ◌∷◌, true, false,
  suc, ◌^◌, ◌%◌,
}
use ramix.Transport.{Transport, transport_tcp, transport_web_socket}
use ramix.Prelude.Int.{ℤ, uint64, max_uint64, int64, ltb_ℤ, max_int, pos}

-- Writes to a counter, one after the other.
abbrev pub writes : List (ℕ → ℕ) → ℕ → ℕ
writes [] current = current
writes (other ∷ others) current = writes others (other current)

-- A loop `for { load; …; if CompareAndSwap { return } }` on a counter, among the writes `others` of
-- other goroutines. `next` is what a round would store, or `none` where it returns with no store.
-- Between the load and the swap of each round one other write is made; a swap that nobody
-- disturbs succeeds. The result is the counter when the loop has ended and all of those writes are
-- made.
unfoldable pub cas_loop : (ℕ → Option ℕ) → List (ℕ → ℕ) → ℕ → ℕ
cas_loop next [] current = elim (next current) [ none ↦ current | some value ↦ value ]
cas_loop next (other ∷ others) current =
    let retried = cas_loop next others (other current) in
    elim (next current) [
      | none ↦ writes (other ∷ others) current
      | some value ↦ elim (other current == current) [
        | true ↦ writes others value
        | false ↦ retried
      ]
    ]

unfoldable pub saturated_sum : ℕ → ℕ → ℕ → ℕ
saturated_sum first second limit =
    if leb limit first || ltb (limit - first) second then limit else first + second

unfoldable pub next_sum : ℕ → ℕ → ℕ → Option ℕ
unfolding saturated_sum
next_sum delta limit current =
    if leb limit current then none else some (saturated_sum current delta limit)

-- saturatingAdd among the writes of others.
unfoldable pub saturating_add_among : List (ℕ → ℕ) → ℕ → ℕ → ℕ → ℕ
saturating_add_among others counter delta limit =
    if delta == 0 then writes others counter else cas_loop (next_sum delta limit) others counter

unfoldable pub next_decrement : ℕ → Option ℕ
next_decrement current = if current == 0 then none else some ((current + (2 ^ 64 - 1)) % 2 ^ 64)

unfoldable pub decrement_gauge_among : List (ℕ → ℕ) → ℕ → ℕ
decrement_gauge_among others counter = cas_loop next_decrement others counter

unfoldable pub next_maximum : ℕ → ℕ → Option ℕ
next_maximum candidate current = if leb candidate current then none else some candidate

unfoldable pub update_maximum_among : List (ℕ → ℕ) → ℕ → ℕ → ℕ
update_maximum_among others counter candidate = cas_loop (next_maximum candidate) others counter

-- The three with nobody in between.
unfoldable pub saturating_add : ℕ → ℕ → ℕ → ℕ
unfolding saturating_add_among cas_loop next_sum
saturating_add counter delta limit = saturating_add_among [] counter delta limit

unfoldable pub decrement_gauge : ℕ → ℕ
unfolding decrement_gauge_among cas_loop next_decrement
decrement_gauge counter = decrement_gauge_among [] counter

unfoldable pub update_maximum : ℕ → ℕ → ℕ
unfolding update_maximum_among cas_loop next_maximum
update_maximum counter candidate = update_maximum_among [] counter candidate

pub record TransportMetrics : Type 0 where
  pub active_connections : ℕ
  pub queued_tasks : ℕ
  pub received_messages : ℕ
  pub received_bytes : ℕ
  pub sent_messages : ℕ
  pub sent_bytes : ℕ
  pub rejected_tasks : ℕ
  pub connection_errors : ℕ
  pub completed_requests : ℕ
  pub total_request_duration : ℕ
  pub maximum_request_duration : ℕ

pub record ServerMetrics : Type 0 where
  pub tcp : TransportMetrics
  pub web_socket : TransportMetrics

abbrev pub no_activity : TransportMetrics
no_activity = record {
  active_connections = 0;
  queued_tasks = 0;
  received_messages = 0;
  received_bytes = 0;
  sent_messages = 0;
  sent_bytes = 0;
  rejected_tasks = 0;
  connection_errors = 0;
  completed_requests = 0;
  total_request_duration = 0;
  maximum_request_duration = 0;
}

abbrev pub new_metrics : ServerMetrics
new_metrics = record { tcp = no_activity; web_socket = no_activity }

-- forTransport, and the change that its caller makes through the pointer; nil changes nothing.
unfoldable pub for_transport :
    Transport → (TransportMetrics → TransportMetrics) → ServerMetrics → ServerMetrics
for_transport transport change m =
    if transport == transport_tcp
    then record m { tcp = change m.tcp }
    else if transport == transport_web_socket
    then record m { web_socket = change m.web_socket }
    else m

-- What requestCompleted does to one transport; a duration that is not positive is only counted.
unfoldable pub complete_request : ℤ → TransportMetrics → TransportMetrics
unfolding saturating_add update_maximum uint64
complete_request duration m =
    let counted = record m {
      completed_requests = saturating_add m.completed_requests 1 max_uint64;
    } in
    if ltb_ℤ (pos 0) duration
    then record counted {
      total_request_duration = saturating_add m.total_request_duration (uint64 duration) max_int;
      maximum_request_duration = update_maximum m.maximum_request_duration (uint64 duration);
    }
    else counted

module _ (transport : Transport) where
  unfoldable pub connection_opened : ServerMetrics → ServerMetrics
  unfolding for_transport saturating_add
  connection_opened =
      for_transport transport
        λ m. record m { active_connections = saturating_add m.active_connections 1 max_uint64 }

  unfoldable pub connection_closed : ServerMetrics → ServerMetrics
  unfolding for_transport decrement_gauge
  connection_closed =
      for_transport transport
        λ m. record m { active_connections = decrement_gauge m.active_connections }

  unfoldable pub message_received : ℕ → ServerMetrics → ServerMetrics
  unfolding for_transport saturating_add
  message_received bytes = for_transport transport λ m. record m {
    received_messages = saturating_add m.received_messages 1 max_uint64;
    received_bytes = saturating_add m.received_bytes bytes max_uint64;
  }

  unfoldable pub message_sent : ℕ → ServerMetrics → ServerMetrics
  unfolding for_transport saturating_add
  message_sent bytes = for_transport transport λ m. record m {
    sent_messages = saturating_add m.sent_messages 1 max_uint64;
    sent_bytes = saturating_add m.sent_bytes bytes max_uint64;
  }

  unfoldable pub task_queued : ServerMetrics → ServerMetrics
  unfolding for_transport saturating_add
  task_queued =
      for_transport transport
        λ m. record m { queued_tasks = saturating_add m.queued_tasks 1 max_uint64 }

  unfoldable pub task_dequeued : ServerMetrics → ServerMetrics
  unfolding for_transport decrement_gauge
  task_dequeued =
      for_transport transport λ m. record m { queued_tasks = decrement_gauge m.queued_tasks }

  unfoldable pub task_rejected : ServerMetrics → ServerMetrics
  unfolding for_transport saturating_add
  task_rejected =
      for_transport transport
        λ m. record m { rejected_tasks = saturating_add m.rejected_tasks 1 max_uint64 }

  unfoldable pub connection_error : ServerMetrics → ServerMetrics
  unfolding for_transport saturating_add
  connection_error =
      for_transport transport
        λ m. record m { connection_errors = saturating_add m.connection_errors 1 max_uint64 }

  unfoldable pub request_completed : ℤ → ServerMetrics → ServerMetrics
  unfolding for_transport complete_request
  request_completed duration = for_transport transport (complete_request duration)

pub record TransportStats : Type 0 where
  pub active_connections : ℕ
  pub queued_tasks : ℕ
  pub received_messages : ℕ
  pub received_bytes : ℕ
  pub sent_messages : ℕ
  pub sent_bytes : ℕ
  pub rejected_tasks : ℕ
  pub connection_errors : ℕ
  pub completed_requests : ℕ
  pub total_request_duration : ℤ
  pub maximum_request_duration : ℤ

pub record ServerStats : Type 0 where
  pub total : TransportStats
  pub tcp : TransportStats
  pub web_socket : TransportStats

unfoldable pub counter_duration : ℕ → ℤ
counter_duration value = if ltb max_int value then pos max_int else pos value

unfoldable pub max_duration : ℤ → ℤ → ℤ
max_duration first second = if ltb_ℤ first second then second else first

unfoldable pub snapshot_transport : TransportMetrics → TransportStats
unfolding counter_duration
snapshot_transport m = record {
  active_connections = m.active_connections;
  queued_tasks = m.queued_tasks;
  received_messages = m.received_messages;
  received_bytes = m.received_bytes;
  sent_messages = m.sent_messages;
  sent_bytes = m.sent_bytes;
  rejected_tasks = m.rejected_tasks;
  connection_errors = m.connection_errors;
  completed_requests = m.completed_requests;
  total_request_duration = counter_duration m.total_request_duration;
  maximum_request_duration = counter_duration m.maximum_request_duration;
}

unfoldable pub combine_transport_stats : TransportStats → TransportStats → TransportStats
unfolding saturated_sum max_duration uint64 int64
combine_transport_stats a b = record {
  active_connections = saturated_sum a.active_connections b.active_connections max_uint64;
  queued_tasks = saturated_sum a.queued_tasks b.queued_tasks max_uint64;
  received_messages = saturated_sum a.received_messages b.received_messages max_uint64;
  received_bytes = saturated_sum a.received_bytes b.received_bytes max_uint64;
  sent_messages = saturated_sum a.sent_messages b.sent_messages max_uint64;
  sent_bytes = saturated_sum a.sent_bytes b.sent_bytes max_uint64;
  rejected_tasks = saturated_sum a.rejected_tasks b.rejected_tasks max_uint64;
  connection_errors = saturated_sum a.connection_errors b.connection_errors max_uint64;
  completed_requests = saturated_sum a.completed_requests b.completed_requests max_uint64;
  total_request_duration =
      int64
        (saturated_sum (uint64 a.total_request_duration) (uint64 b.total_request_duration) max_int);
  maximum_request_duration = max_duration a.maximum_request_duration b.maximum_request_duration;
}

unfoldable pub snapshot : ServerMetrics → ServerStats
unfolding snapshot_transport combine_transport_stats
snapshot m =
    let tcp = snapshot_transport m.tcp in
    let web_socket = snapshot_transport m.web_socket in
    record { total = combine_transport_stats tcp web_socket; tcp = tcp; web_socket = web_socket }
