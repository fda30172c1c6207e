-- ===== src/Export.antt =====
-- stats_export.go: the statistics as the Prometheus text and as JSON, over HTTP. The text is its
-- bytes. strconv.FormatFloat and the JSON encoder are parameters.
pub mod Decimal
pub mod Lines
pub mod Samples
mod Tests
use ramix.Options.{codes}
use ramix.Prelude.{
  ℕ, List, Bool, Option, [], suc, ◌∷◌, ◌++◌, none, false, some, ltb, true, ◌+◌, ◌/◌, ◌%◌, zero,
}
use ramix.Stats
use ramix.Stats.{TransportStats, ServerStats, ServerMetrics, new_metrics}
use ramix.Prelude.Int.{ℤ}

-- `seconds_text` is FormatFloat of a duration in seconds, with 'f' and -1; `json` is what the JSON
-- encoder writes.
pub record PrometheusMetric : Type 0 where
  pub name : List ℕ
  pub help : List ℕ
  pub typ : List ℕ
  pub value : TransportStats → List ℕ

-- strconv.FormatUint in base ten; more fuel than the number is enough.
unfoldable pub digits : ℕ → ℕ → List ℕ
digits zero n = []
digits (suc fuel) n = elim (ltb n 10) [
  | true ↦ (b'0' + n) ∷ []
  | false ↦ digits fuel (n / 10) ++ ((b'0' + n % 10) ∷ [])
]

unfoldable pub format_uint : ℕ → List ℕ
unfolding digits
format_uint n = digits (suc n) n

abbrev pub prometheus_uint64 : (TransportStats → ℕ) → TransportStats → List ℕ
prometheus_uint64 get stats = format_uint (get stats)

module _ (seconds_text : ℤ → List ℕ) where
  abbrev pub prometheus_duration_seconds : (TransportStats → ℤ) → TransportStats → List ℕ
  prometheus_duration_seconds get stats = seconds_text (get stats)

  unfoldable pub stats_prometheus_metrics : List PrometheusMetric
  stats_prometheus_metrics =
      record {
        name = codes "ramix_active_connections";
        help = codes "Approximate number of currently open Ramix connections.";
        typ = codes "gauge";
        value = prometheus_uint64 (λ stats. stats.active_connections);
      }
      ∷ record {
        name = codes "ramix_queued_tasks";
        help = codes "Approximate number of Ramix request tasks currently waiting to run.";
        typ = codes "gauge";
        value = prometheus_uint64 (λ stats. stats.queued_tasks);
      }
      ∷ record {
        name = codes "ramix_received_messages_total";
        help = codes "Lifetime-cumulative number of received Ramix messages.";
        typ = codes "counter";
        value = prometheus_uint64 (λ stats. stats.received_messages);
      }
      ∷ record {
        name = codes "ramix_received_bytes_total";
        help =
            codes
              "Lifetime-cumulative number of received Ramix message body bytes, excluding protocol headers and transport overhead.";
        typ = codes "counter";
        value = prometheus_uint64 (λ stats. stats.received_bytes);
      }
      ∷ record {
        name = codes "ramix_sent_messages_total";
        help = codes "Lifetime-cumulative number of sent Ramix messages.";
        typ = codes "counter";
        value = prometheus_uint64 (λ stats. stats.sent_messages);
      }
      ∷ record {
        name = codes "ramix_sent_bytes_total";
        help =
            codes
              "Lifetime-cumulative number of sent Ramix message body bytes, excluding protocol headers and transport overhead.";
        typ = codes "counter";
        value = prometheus_uint64 (λ stats. stats.sent_bytes);
      }
      ∷ record {
        name = codes "ramix_rejected_tasks_total";
        help =
            codes
              "Lifetime-cumulative number of Ramix request tasks rejected because worker queues were full.";
        typ = codes "counter";
        value = prometheus_uint64 (λ stats. stats.rejected_tasks);
      }
      ∷ record {
        name = codes "ramix_connection_errors_total";
        help = codes "Lifetime-cumulative number of reported Ramix connection errors.";
        typ = codes "counter";
        value = prometheus_uint64 (λ stats. stats.connection_errors);
      }
      ∷ record {
        name = codes "ramix_completed_requests_total";
        help = codes "Lifetime-cumulative number of completed Ramix request handlers.";
        typ = codes "counter";
        value = prometheus_uint64 (λ stats. stats.completed_requests);
      }
      ∷ record {
        name = codes "ramix_request_duration_seconds_total";
        help = codes "Saturated lifetime-cumulative Ramix request handler duration in seconds.";
        typ = codes "counter";
        value = prometheus_duration_seconds (λ stats. stats.total_request_duration);
      }
      ∷ record {
        name = codes "ramix_request_duration_seconds_max";
        help = codes "Maximum observed Ramix request handler duration in seconds.";
        typ = codes "gauge";
        value = prometheus_duration_seconds (λ stats. stats.maximum_request_duration);
      }
      ∷ []

-- Lines, each ended by a newline.
abbrev pub print_lines : List (List ℕ) → List ℕ
print_lines [] = []
print_lines (line ∷ lines) = line ++ (10 ∷ print_lines lines)

abbrev pub sample_line : PrometheusMetric → List ℕ → TransportStats → List ℕ
sample_line m transport stats =
    m.name ++ (codes "{transport=" ++ (34 ∷ (transport ++ (34 ∷ (codes "} " ++ m.value stats)))))

-- The four lines of a metric.
unfoldable pub metric_lines : PrometheusMetric → ServerStats → List (List ℕ)
metric_lines m stats =
    (codes "# HELP " ++ (m.name ++ (codes " " ++ m.help)))
    ∷ (codes "# TYPE " ++ (m.name ++ (codes " " ++ m.typ)))
    ∷ sample_line m (codes "tcp") stats.tcp
    ∷ sample_line m (codes "websocket") stats.web_socket
    ∷ []

abbrev pub all_lines : List PrometheusMetric → ServerStats → List (List ℕ)
all_lines [] stats = []
all_lines (m ∷ ms) stats = metric_lines m stats ++ all_lines ms stats

unfoldable pub write_prometheus_stats : (ℤ → List ℕ) → ServerStats → List ℕ
write_prometheus_stats seconds_text stats =
    print_lines (all_lines (stats_prometheus_metrics seconds_text) stats)

pub record StatsJsonTransport : Type 0 where
  pub active_connections : ℕ
  pub queued_tasks : ℕ
  pub received_messages : ℕ
  pub received_bytes : ℕ
  pub sent_messages : ℕ
  pub sent_bytes : ℕ
  pub rejected_tasks : ℕ
  pub connection_errors : ℕ
  pub completed_requests : ℕ
  pub total_request_duration_ns : ℤ
  pub maximum_request_duration_ns : ℤ

pub record StatsJsonSnapshot : Type 0 where
  pub total : StatsJsonTransport
  pub tcp : StatsJsonTransport
  pub web_socket : StatsJsonTransport

unfoldable pub stats_json_transport_from : TransportStats → StatsJsonTransport
stats_json_transport_from stats = record {
  active_connections = stats.active_connections;
  queued_tasks = stats.queued_tasks;
  received_messages = stats.received_messages;
  received_bytes = stats.received_bytes;
  sent_messages = stats.sent_messages;
  sent_bytes = stats.sent_bytes;
  rejected_tasks = stats.rejected_tasks;
  connection_errors = stats.connection_errors;
  completed_requests = stats.completed_requests;
  total_request_duration_ns = stats.total_request_duration;
  maximum_request_duration_ns = stats.maximum_request_duration;
}

unfoldable pub stats_json_snapshot_from : ServerStats → StatsJsonSnapshot
unfolding stats_json_transport_from
stats_json_snapshot_from stats = record {
  total = stats_json_transport_from stats.total;
  tcp = stats_json_transport_from stats.tcp;
  web_socket = stats_json_transport_from stats.web_socket;
}

pub data Method : Type 0 where
  method_get method_head method_other : Method

-- What the handler answers: `allow` is the header that lists the methods.
pub record Response : Type 0 where
  pub status : ℕ
  pub allow : Bool
  pub content_type : List ℕ
  pub body : List ℕ

abbrev pub text_type : List ℕ
text_type = codes "text/plain; charset=utf-8"

unfoldable pub allow_stats_export_request : Method → Option Response
allow_stats_export_request method_get = none
allow_stats_export_request method_head = none
allow_stats_export_request method_other = some (record {
  status = 405;
  allow = true;
  content_type = text_type;
  body = codes "method not allowed" ++ (10 ∷ []);
})

unfoldable pub require_stats_export_server : Option ServerMetrics → Option Response
require_stats_export_server (some server) = none
require_stats_export_server none = some (record {
  status = 500;
  allow = false;
  content_type = text_type;
  body = codes "ramix stats server is nil" ++ (10 ∷ []);
})

abbrev pub answer_with : List ℕ → Method → List ℕ → Response
answer_with content_type method_head body = record {
  status = 200;
  allow = false;
  content_type = content_type;
  body = [];
}
answer_with content_type method_get body = record {
  status = 200;
  allow = false;
  content_type = content_type;
  body = body;
}
answer_with content_type method_other body = record {
  status = 200;
  allow = false;
  content_type = content_type;
  body = body;
}

-- The first refusal of the two guards, or the answer.
abbrev pub first_refusal : Option Response → Option Response → Response → Response
first_refusal (some refusal) other answer = refusal
first_refusal none (some refusal) answer = refusal
first_refusal none none answer = answer

-- The statistics of a server, which is not nil behind the guards.
abbrev pub stats_of : Option ServerMetrics → ServerStats
stats_of (some metrics) = Stats.snapshot metrics
stats_of none = Stats.snapshot new_metrics

abbrev pub guarded : Method → Option ServerMetrics → (ServerStats → Response) → Response
guarded method server answer =
    first_refusal (allow_stats_export_request method) (require_stats_export_server server)
      (answer (stats_of server))

unfoldable pub stats_prometheus_handler : (ℤ → List ℕ) → Option ServerMetrics → Method → Response
stats_prometheus_handler seconds_text server method = guarded method server λ stats.
    answer_with (codes "text/plain; version=0.0.4; charset=utf-8") method
      (write_prometheus_stats seconds_text stats)

unfoldable pub stats_json_handler :
    (StatsJsonSnapshot → List ℕ) → Option ServerMetrics → Method → Response
stats_json_handler json server method = guarded method server λ stats.
    answer_with (codes "application/json; charset=utf-8") method
      (json (stats_json_snapshot_from stats))
