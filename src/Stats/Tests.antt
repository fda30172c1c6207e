-- ===== src/Stats/Tests.antt =====
-- Runs of the statistics, and the theorems at concrete inputs.
use ramix.Stats.History.{
  History, metrics_after, tally, Accounts, perform, HasDurations, closed, completed,
  metrics_after-Accounts, received, opened,
}
use ramix.Stats.{
  ServerMetrics, snapshot, saturating_add_among, no_activity, cas_loop, saturating_add, next_sum,
  saturated_sum, decrement_gauge_among, decrement_gauge, update_maximum_among, update_maximum,
}
use ramix.Stats.Snapshot.{IsTotal, snapshot-IsTotal}
use ramix.Prelude.{List, ℕ, ◌≡◌, ◌+◌, arith, ◌∷◌, refl, []}
use ramix.Transport.{transport_tcp, transport_web_socket}
use ramix.Prelude.Int.{max_uint64, max_int, pos}
use ramix.Stats.Cas.{counters_atomic, IsOneChange}

abbrev past : History
past =
    (transport_tcp, closed)
    ∷ (transport_tcp, closed)
    ∷ (transport_tcp, completed (pos 7))
    ∷ (transport_web_socket, received 12)
    ∷ (transport_tcp, received 5)
    ∷ (transport_tcp, opened)
    ∷ []

past_tcp : (metrics_after past).tcp.received_bytes ≡ 5
unfolding metrics_after perform
past_tcp = refl

past-HasDurations : HasDurations past
past-HasDurations = omega arith

metrics_after-Accounts_example :
    Accounts (tally transport_tcp past) (metrics_after past).tcp
    × Accounts (tally transport_web_socket past) (metrics_after past).web_socket
metrics_after-Accounts_example = metrics_after-Accounts past past-HasDurations

abbrev full : ServerMetrics
full = record {
  tcp = record no_activity { received_bytes = max_uint64; total_request_duration = max_int };
  web_socket = record no_activity { received_bytes = 9; total_request_duration = 9 };
}

snapshot-IsTotal_example : IsTotal full.tcp full.web_socket (snapshot full).total
snapshot-IsTotal_example = snapshot-IsTotal full (omega arith) (omega arith)

snapshot-full : (snapshot full).total.received_bytes ≡ max_uint64
unfolding snapshot
snapshot-full = refl

abbrev busy : List (ℕ → ℕ)
busy = (λ n. n + 1) ∷ (λ n. n + 2) ∷ (λ n. n) ∷ []

counters_atomic_example :
    IsOneChange (λ n. saturating_add n 2 8) busy 4 (saturating_add_among busy 4 2 8)
    × IsOneChange decrement_gauge busy 4 (decrement_gauge_among busy 4)
    × IsOneChange (λ n. update_maximum n 9) busy 4 (update_maximum_among busy 4 9)
counters_atomic_example = counters_atomic busy 4 2 8 9

busy_sum : saturating_add_among busy 4 2 8 ≡ 8
unfolding saturating_add_among cas_loop next_sum saturated_sum
busy_sum = refl
