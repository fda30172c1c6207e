-- ===== src/Export/Tests.antt =====
-- Exports of concrete statistics.
use ramix.Export.{stats_prometheus_handler, method_get, format_uint}
use ramix.Export.Decimal.{format_uint-clean}
use ramix.Export.Samples.{read_samples, expected_samples, read_samples-handler}
use ramix.Prelude.{ℕ, some, List, ◌≡◌, ◌/◌, arith}
use ramix.Stats
use ramix.Prelude.Int.{ℤ, pos_part}
use ramix.Stats.{ServerMetrics, message_received, new_metrics}
use ramix.Transport.{transport_tcp}

-- Whole seconds.
abbrev whole_seconds : ℤ → List ℕ
whole_seconds d = format_uint (pos_part d / 1000000000)

abbrev some_activity : ServerMetrics
some_activity = message_received transport_tcp 12 (message_received transport_tcp 30 new_metrics)

read_samples-handler_example :
    read_samples (stats_prometheus_handler whole_seconds (some some_activity) method_get).body
    ≡ expected_samples whole_seconds (Stats.snapshot some_activity)
read_samples-handler_example =
    read_samples-handler whole_seconds
      (λ d. format_uint-clean 10 (pos_part d / 1000000000) (omega arith)) some_activity
