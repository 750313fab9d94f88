-- ===== src/Logging.antt =====
-- app/common/logging/logger.py: which fields of an event are written to the log, and the root logger's
-- handlers (Configured). Values are of any
-- type `V`; `json.dumps` of a payload, the clock's text and the text of an exception are the
-- library's, so a payload is the dict that is dumped, with `none` for None.
pub mod Configured
pub mod Sensitive
use chatting.Common.{
  String, Bool, true, false, ◌||◌, Option, none, some, List, [], ◌∷◌, ◌++◌, map, ◌==◌,
  if◌then◌else◌,
}
use chatting.Common.Dict.{Dict, lookup, insert}

unfoldable pub sensitive_keys : List String
sensitive_keys =
    "user_text" ∷ "message" ∷ "prompt" ∷ "token" ∷ "audio" ∷ "audio_base64" ∷ "authorization"
    ∷ "auth_header" ∷ []

abbrev pub is_in : String → List String → Bool
is_in k [] = false
is_in k (j ∷ keys) = (k == j) || is_in k keys

-- The fields that `format` takes from the event.
unfoldable pub event_keys : List String
event_keys =
    "tenant_id" ∷ "session_id" ∷ "provider" ∷ "path" ∷ "latency_ms" ∷ "result" ∷ "status"
    ∷ "retry_attempt" ∷ "retry_delay_ms" ∷ "retry_reason" ∷ "stream_status" ∷ "disconnect_reason"
    ∷ "error_code" ∷ "error_type" ∷ "error_message" ∷ "status_code" ∷ []

-- What `logger.log` is given: a LogRecord. `exception` is the formatted `exc_info`, where there is one.
pub record LogRecord (V : Type 0) : Type 0 where
  pub levelname : V
  pub name : V
  pub message : V
  pub exception : Option V
  pub event_fields : Dict V

-- The clock and the two context variables that `format` reads.
pub record LogContext (V : Type 0) : Type 0 where
  pub timestamp : V
  pub request_id : V
  pub trace_id : V

module _ {V : Type 0} where
  -- The loop over `fields.items()`.
  unfoldable pub sanitize_from : Dict V → Dict V → Dict V
  sanitize_from sanitized [] = sanitized
  sanitize_from sanitized ((key, value) ∷ fields) =
      sanitize_from (if is_in key sensitive_keys then sanitized else insert key value sanitized)
        fields

  unfoldable pub sanitize_fields : Dict V → Dict V
  sanitize_fields fields = sanitize_from [] fields

  -- The keyword `exc_info` is taken out of the fields by `pop`.
  unfoldable pub log_event : V → V → V → Option V → Dict V → LogRecord V
  log_event logger level message exc_info fields = record {
    levelname = level;
    name = logger;
    message = message;
    exception = exc_info;
    event_fields = sanitize_fields fields;
  }

  -- `extra_fields.get(...)` of each key
  abbrev pub extracted : List String → Dict V → Dict (Option V)
  extracted keys fields = map (λ key. (key, lookup key fields)) keys

  abbrev pub exception_of : Option V → Dict (Option V)
  exception_of none = []
  exception_of (some text) = ("exception", some text) ∷ []

  unfoldable pub format : LogContext V → LogRecord V → Dict (Option V)
  format context r =
      ("timestamp", some context.timestamp)
      ∷ ("level", some r.levelname)
      ∷ ("logger", some r.name)
      ∷ ("message", some r.message)
      ∷ ("request_id", some context.request_id)
      ∷ ("trace_id", some context.trace_id)
      ∷ (extracted event_keys r.event_fields ++ exception_of r.exception)
