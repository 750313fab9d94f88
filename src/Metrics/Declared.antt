-- ===== src/Metrics/Declared.antt =====
-- The metrics that app/common/metrics/metrics.py declares. A call of a metric by an undeclared name,
-- or with another number of labels, would raise in prometheus_client.
use chatting.Common.{
  ℕ, ◌≡◌, refl, String, Bool, true, false, ◌&&◌, ◌||◌, List, [], ◌∷◌, ◌==◌, nat_eq, length, pos,
}
use chatting.Metrics.{
  Prometheus, enter, leave, stream_connection_opened, stream_connection_closed,
  observe_stream_request, observe_stream_disconnect, observe_stream_error, observe_readiness_probe,
  observe_chat_request, observe_provider_latency, observe_auth_result, observe_rate_limit,
}

pub record Metric : Type 0 where
  pub name : String
  pub label_names : List String
  -- whether it is a histogram, and no counter or gauge
  pub is_histogram : Bool

abbrev pub counter : String → List String → Metric
counter name label_names = record { name = name; label_names = label_names; is_histogram = false }

abbrev pub histogram : String → List String → Metric
histogram name label_names = record { name = name; label_names = label_names; is_histogram = true }

unfoldable pub declared : List Metric
declared =
    counter "app_request_total" ("method" ∷ "path" ∷ "status" ∷ [])
    ∷ histogram "app_request_latency_seconds" ("method" ∷ "path" ∷ [])
    ∷ counter "app_request_in_progress" []
    ∷ counter "chat_request_total" ("response_mode" ∷ "result" ∷ [])
    ∷ histogram "chat_request_latency_seconds" ("response_mode" ∷ "result" ∷ [])
    ∷ histogram "provider_latency_seconds" ("provider" ∷ "operation" ∷ "result" ∷ [])
    ∷ histogram "readiness_probe_latency_seconds" ("dependency" ∷ "result" ∷ [])
    ∷ counter "chat_stream_active_connections" []
    ∷ counter "chat_stream_request_total" ("result" ∷ [])
    ∷ histogram "chat_stream_duration_seconds" ("result" ∷ [])
    ∷ counter "chat_stream_disconnect_total" ("reason" ∷ [])
    ∷ counter "chat_stream_error_total" ("error_code" ∷ [])
    ∷ counter "auth_request_total" ("result" ∷ [])
    ∷ counter "rate_limit_total" ("tenant" ∷ "result" ∷ [])
    ∷ []

-- A call: the metric's name, the number of the labels' values, and whether it observes.
pub record Call : Type 0 where
  pub name : String
  pub label_count : ℕ
  pub observes : Bool

abbrev matches : Call → Metric → Bool
matches call metric =
    call.name == metric.name
    && nat_eq call.label_count (length metric.label_names)
    && same call.observes metric.is_histogram
  where
    same : Bool → Bool → Bool
    same true b = b
    same false true = false
    same false false = true

abbrev is_declared : Call → List Metric → Bool
is_declared call [] = false
is_declared call (metric ∷ metrics) = matches call metric || is_declared call metrics

abbrev pub are_declared : List Call → Bool
are_declared [] = true
are_declared (call ∷ calls) = is_declared call declared && are_declared calls

-- The registry that keeps the calls.
abbrev pub recorder : Prometheus (List Call)
recorder = record {
  value = λ calls name labels. pos 0;
  add = λ name labels n calls.
      (record { name = name; label_count = length labels; observes = false }) ∷ calls;
  observe = λ name labels calls.
      (record { name = name; label_count = length labels; observes = true }) ∷ calls;
}

-- Every metric that the functions of the module use is declared, as the kind that it is used as and
-- with as many labels as it is given.
pub calls_declared :
    (a b c : String) (status : ℕ)
    → (are_declared (enter recorder []) ≡ true)
      × (are_declared (leave recorder a b status []) ≡ true)
      × (are_declared (observe_chat_request recorder a b []) ≡ true)
      × (are_declared (observe_provider_latency recorder a b c []) ≡ true)
      × (are_declared (observe_readiness_probe recorder a b []) ≡ true)
      × (are_declared (stream_connection_opened recorder []) ≡ true)
      × (are_declared (stream_connection_closed recorder []) ≡ true)
      × (are_declared (observe_stream_request recorder a []) ≡ true)
      × (are_declared (observe_stream_disconnect recorder a []) ≡ true)
      × (are_declared (observe_stream_error recorder a []) ≡ true)
      × (are_declared (observe_auth_result recorder a []) ≡ true)
      × (are_declared (observe_rate_limit recorder a b []) ≡ true)
unfolding enter leave observe_chat_request observe_provider_latency observe_readiness_probe
    stream_connection_opened stream_connection_closed observe_stream_request
    observe_stream_disconnect observe_stream_error observe_auth_result observe_rate_limit declared
calls_declared a b c status =
    (refl, refl, refl, refl, refl, refl, refl, refl, refl, refl, refl, refl)
