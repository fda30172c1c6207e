-- ===== src/Export/Samples.antt =====
-- stats_export.go: the text of the Prometheus handler is read back as the statistics.
use ramix.Export.{
  PrometheusMetric, stats_prometheus_metrics, metric_lines, all_lines, sample_line,
  write_prometheus_stats, stats_prometheus_handler, method_get, prometheus_uint64,
  allow_stats_export_request, require_stats_export_server,
}
use ramix.Export.Decimal.{read_uint, read_uint-format_uint, format_uint-clean, has-append}
use ramix.Export.Lines.{read_lines, AreLines, read_lines-print_lines, AreLines-append}
use ramix.Options.{codes, has}
use ramix.Prelude.{
  ℕ, List, ◌≡◌, Option, [], ◌++◌, false, ◌∷◌, ◌==◌, some, refl, none, true, arith, ap, ◌∙◌,
}
use ramix.Stats
use ramix.Prelude.Int.{ℤ}
use ramix.Stats.{TransportStats, ServerStats, ServerMetrics}

-- What a reader of the format makes of a value: a counter, or a text to read as a fraction.
pub data Reading : Type 0 where
  counter : ℕ → Reading
  fraction : List ℕ → Reading

abbrev pub reading_by : List ℕ → Option ℕ → Reading
reading_by text (some n) = counter n
reading_by text none = fraction text

abbrev pub reading_of : List ℕ → Reading
reading_of text = reading_by text (read_uint text)

-- A sample is its name with its label, and its value.
abbrev pub Sample : Type 0
Sample = List ℕ × Reading

-- The key of a line is what stands before its first space.
unfoldable pub read_sample : List ℕ → List ℕ → Sample
read_sample key [] = (key, reading_of [])
read_sample key (c ∷ cs) = elim (c == b' ') [
  | true ↦ (key, reading_of cs)
  | false ↦ read_sample (key ++ (c ∷ [])) cs
]

-- A line that starts with `#` is a comment.
unfoldable pub line_samples : List ℕ → List Sample
line_samples [] = []
line_samples (c ∷ cs) = elim (c == b'#') [ true ↦ [] | false ↦ read_sample [] (c ∷ cs) ∷ [] ]

abbrev pub lines_samples : List (List ℕ) → List Sample
lines_samples [] = []
lines_samples (line ∷ lines) = line_samples line ++ lines_samples lines

unfoldable pub read_samples : List ℕ → List Sample
read_samples text = lines_samples (read_lines [] text)

-- The two samples of a metric.
abbrev pub both : List ℕ → (TransportStats → Reading) → ServerStats → List Sample
both name value stats =
    (name ++ codes "{transport=\"tcp\"}", value stats.tcp)
    ∷ (name ++ codes "{transport=\"websocket\"}", value stats.web_socket)
    ∷ []

-- What the text is to hold: the nine counters as numbers and the two durations as their texts.
unfoldable pub expected_samples : (ℤ → List ℕ) → ServerStats → List Sample
expected_samples seconds_text stats =
    both (codes "ramix_active_connections") (λ s. counter s.active_connections) stats
    ++ (both (codes "ramix_queued_tasks") (λ s. counter s.queued_tasks) stats
        ++ (both (codes "ramix_received_messages_total") (λ s. counter s.received_messages) stats
            ++ (both (codes "ramix_received_bytes_total") (λ s. counter s.received_bytes) stats
                ++ (both (codes "ramix_sent_messages_total") (λ s. counter s.sent_messages) stats
                    ++ (both (codes "ramix_sent_bytes_total") (λ s. counter s.sent_bytes) stats
                        ++ (both (codes "ramix_rejected_tasks_total")
                              (λ s. counter s.rejected_tasks) stats
                            ++ (both (codes "ramix_connection_errors_total")
                                  (λ s. counter s.connection_errors) stats
                                ++ (both (codes "ramix_completed_requests_total")
                                      (λ s. counter s.completed_requests) stats
                                    ++ (both (codes "ramix_request_duration_seconds_total")
                                          (λ s. reading_of (seconds_text s.total_request_duration))
                                          stats
                                        ++ (both (codes "ramix_request_duration_seconds_max")
                                              (λ s.
                                                reading_of
                                                  (seconds_text s.maximum_request_duration))
                                              stats
                                            ++ []))))))))))

-- The texts of a metric, which are constants, hold no newline.
abbrev CleanName : PrometheusMetric → Type 0
CleanName m = (has 10 m.name ≡ false) × (has 10 m.help ≡ false) × (has 10 m.typ ≡ false)

abbrev CleanValue : PrometheusMetric → Type 0
CleanValue m = (s : TransportStats) → has 10 (m.value s) ≡ false

sample_line-clean :
    (m : PrometheusMetric) (transport : List ℕ) (s : TransportStats)
    → has 10 m.name ≡ false
    → has 10 transport ≡ false
    → CleanValue m
    → has 10 (sample_line m transport s) ≡ false
sample_line-clean m transport s h k v = has-append 10 m.name _ h (has-append 10 transport _ k (v s))

metric_lines-AreLines :
    (m : PrometheusMetric) (stats : ServerStats)
    → CleanName m
    → CleanValue m
    → AreLines (metric_lines m stats)
unfolding metric_lines
metric_lines-AreLines m stats (h, k, t) v = (
  has-append 10 m.name _ h k,
  (
    has-append 10 m.name _ h t,
    (
      sample_line-clean m (codes "tcp") stats.tcp h refl v,
      (sample_line-clean m (codes "websocket") stats.web_socket h refl v, tt),
    ),
  ),
)

abbrev CleanAll : List PrometheusMetric → Type 0
CleanAll [] = Unit
CleanAll (m ∷ ms) = (CleanName m × CleanValue m) × CleanAll ms

all_lines-AreLines :
    (ms : List PrometheusMetric) (stats : ServerStats) → CleanAll ms → AreLines (all_lines ms stats)
all_lines-AreLines [] stats h = tt
all_lines-AreLines (m ∷ ms) stats ((n, v), hs) =
    AreLines-append (metric_lines m stats) (all_lines ms stats) (metric_lines-AreLines m stats n v)
      (all_lines-AreLines ms stats hs)

abbrev NoNewline : Type 0
NoNewline = (false ≡ false) × (false ≡ false) × (false ≡ false)

counter_entry :
    (get : TransportStats → ℕ)
    → NoNewline × ((s : TransportStats) → has 10 (prometheus_uint64 get s) ≡ false)
counter_entry get = ((refl, refl, refl), λ s. format_uint-clean 10 (get s) (omega arith))

-- The text of a duration is assumed to hold no newline, as FormatFloat's has none.
module _ (seconds_text : ℤ → List ℕ) (plain : (d : ℤ) → has 10 (seconds_text d) ≡ false) where
  duration_entry :
      (get : TransportStats → ℤ)
      → NoNewline × ((s : TransportStats) → has 10 (seconds_text (get s)) ≡ false)
  duration_entry get = ((refl, refl, refl), λ s. plain (get s))

  table-CleanAll : CleanAll (stats_prometheus_metrics seconds_text)
  unfolding stats_prometheus_metrics
  table-CleanAll = (
    counter_entry (λ s. s.active_connections),
    (
      counter_entry (λ s. s.queued_tasks),
      (
        counter_entry (λ s. s.received_messages),
        (
          counter_entry (λ s. s.received_bytes),
          (
            counter_entry (λ s. s.sent_messages),
            (
              counter_entry (λ s. s.sent_bytes),
              (
                counter_entry (λ s. s.rejected_tasks),
                (
                  counter_entry (λ s. s.connection_errors),
                  (
                    counter_entry (λ s. s.completed_requests),
                    (
                      duration_entry (λ s. s.total_request_duration),
                      (duration_entry (λ s. s.maximum_request_duration), tt),
                    ),
                  ),
                ),
              ),
            ),
          ),
        ),
      ),
    ),
  )

  table-samples :
      (stats : ServerStats)
      → lines_samples (all_lines (stats_prometheus_metrics seconds_text) stats)
        ≡ expected_samples seconds_text stats
  unfolding stats_prometheus_metrics metric_lines line_samples read_sample expected_samples
  table-samples stats = simp (read_uint-format_uint)

  -- A GET of the Prometheus handler answers with a text that, read by the format, holds exactly the
  -- samples of a snapshot: for each transport the nine counters as numbers and the two durations as
  -- FormatFloat prints them, where these texts hold no newline.
  pub read_samples-handler :
      (metrics : ServerMetrics)
      → read_samples (stats_prometheus_handler seconds_text (some metrics) method_get).body
        ≡ expected_samples seconds_text (Stats.snapshot metrics)
  unfolding read_samples stats_prometheus_handler write_prometheus_stats allow_stats_export_request
      require_stats_export_server
  read_samples-handler metrics =
      let stats = Stats.snapshot metrics in
      ap lines_samples (
        read_lines-print_lines (all_lines (stats_prometheus_metrics seconds_text) stats)
          (all_lines-AreLines (stats_prometheus_metrics seconds_text) stats table-CleanAll))
      ∙ table-samples stats
