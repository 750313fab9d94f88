-- ===== src/Retry/Taxonomy.antt =====
-- The decision table of `should_retry_by_taxonomy` (app/common/utils/retry.py), read by idempotency.
use chatting.Common.{
  eq_iff, String, Bool-cases, inl, inr, ℕ, ◌≤◌, ◌<◌, ◌≡◌, ◌≢◌, ◌↔◌, ◌⊎◌, true, false,
}
use chatting.Common.{Option, none, some, arith}
use chatting.Signal.{RetrySignal, connect_timeout}
use chatting.Errors.{Exn}
use chatting.Retry.{
  attach_retry_signal, is_transient, is_malformed, is_timeout_code, classify, classify_kind,
  should_retry_by_taxonomy,
}

-- An exception that carries no signal is never retried.
pub should_retry-unsigned : (e : Exn) → e.retry_signal ≡ none → should_retry_by_taxonomy e ≡ false
unfolding should_retry_by_taxonomy
should_retry-unsigned e h = ground arith

abbrev pub IsServerStatus : Option ℕ → Type 0
IsServerStatus none = ⊥
IsServerStatus (some n) = (n ≡ 500) ⊎ (n ≡ 502) ⊎ (n ≡ 503) ⊎ (n ≡ 504)

abbrev pub IsClientStatus : Option ℕ → Type 0
IsClientStatus none = ⊥
IsClientStatus (some n) = (400 ≤ n) × (n < 500)

-- The provider said 429, or the connection was never made and no status of the table came back.
abbrev pub IsSafeToRepeat : RetrySignal → Type 0
IsSafeToRepeat signal =
    (signal.http_status ≡ some 429)
    ⊎ ((signal.timeout_type ≡ some connect_timeout)
        × ¬ IsServerStatus signal.http_status
        × ¬ IsClientStatus signal.http_status)

classify_kind-not_idempotent :
    (signal : RetrySignal)
    → signal.idempotent ≡ false
    → (classify_kind signal ≡ true) ↔ (signal.timeout_type ≡ some connect_timeout)
unfolding classify_kind
classify_kind-not_idempotent signal h = ground arith

classify-not_idempotent :
    (signal : RetrySignal)
    → signal.idempotent ≡ false
    → (classify signal ≡ true) ↔ IsSafeToRepeat signal
unfolding classify
classify-not_idempotent signal h = ground (arith, classify_kind-not_idempotent signal h)

should_retry-classify :
    (e : Exn) (signal : RetrySignal)
    → signal.retryable_override ≡ none
    → should_retry_by_taxonomy (attach_retry_signal e signal) ≡ classify signal
unfolding should_retry_by_taxonomy
should_retry-classify e signal o = rw o

-- A call that is not idempotent, and whose signal has no override, is retried exactly when the
-- provider answered 429, or the connection timed out and no other 4xx, 500, 502, 503 or 504 came.
pub should_retry-not_idempotent :
    (e : Exn) (signal : RetrySignal)
    → signal.idempotent ≡ false
    → signal.retryable_override ≡ none
    → (should_retry_by_taxonomy (attach_retry_signal e signal) ≡ true) ↔ IsSafeToRepeat signal
should_retry-not_idempotent e signal h o =
    rw (should_retry-classify e signal o) (classify-not_idempotent signal h)

-- The kinds of a network that fails for a moment.
abbrev pub IsTransientKind : String → Type 0
IsTransientKind kind =
    (kind ≡ "connect_error") ⊎ (kind ≡ "network_error") ⊎ (kind ≡ "connection_reset")

abbrev pub IsMalformedKind : String → Type 0
IsMalformedKind kind = (kind ≡ "invalid_json") ⊎ (kind ≡ "invalid_body") ⊎ (kind ≡ "semantic_error")

abbrev pub IsTimeoutCode : String → Type 0
IsTimeoutCode code = (code ≡ "LLM_TIMEOUT") ⊎ (code ≡ "TTS_TIMEOUT")

is_transient-IsTransientKind : (k : String) → (is_transient k ≡ true) ↔ IsTransientKind k
is_transient-IsTransientKind k =
    ground (arith, eq_iff k "connect_error", eq_iff k "network_error", eq_iff k "connection_reset")

is_malformed-IsMalformedKind : (k : String) → (is_malformed k ≡ true) ↔ IsMalformedKind k
is_malformed-IsMalformedKind k =
    ground (arith, eq_iff k "invalid_json", eq_iff k "invalid_body", eq_iff k "semantic_error")

is_timeout_code-IsTimeoutCode : (c : String) → (is_timeout_code c ≡ true) ↔ IsTimeoutCode c
is_timeout_code-IsTimeoutCode c = ground (arith, eq_iff c "LLM_TIMEOUT", eq_iff c "TTS_TIMEOUT")

-- The tests of the kind and the code, over whatever they amount to.
classify_kind-sets :
    {T M C : Type 0} (signal : RetrySignal)
    → signal.idempotent ≡ true
    → (is_transient signal.exception_type ≡ true) ↔ T
    → (is_malformed signal.exception_type ≡ true) ↔ M
    → (is_timeout_code signal.error_code ≡ true) ↔ C
    → (classify_kind signal ≡ true) ↔ ((signal.timeout_type ≢ none) ⊎ T ⊎ (¬ M × C))
unfolding classify_kind
classify_kind-sets signal h t m c = ground arith

-- What an idempotent call may be retried after, besides 429 and the server statuses.
abbrev pub IsTransient : RetrySignal → Type 0
IsTransient signal =
    (signal.timeout_type ≢ none)
    ⊎ IsTransientKind signal.exception_type
    ⊎ (¬ IsMalformedKind signal.exception_type × IsTimeoutCode signal.error_code)

classify_kind-idempotent :
    (signal : RetrySignal)
    → signal.idempotent ≡ true
    → (classify_kind signal ≡ true) ↔ IsTransient signal
classify_kind-idempotent signal h =
    classify_kind-sets signal h (is_transient-IsTransientKind signal.exception_type)
      (is_malformed-IsMalformedKind signal.exception_type)
      (is_timeout_code-IsTimeoutCode signal.error_code)

-- The tests of the status, over whatever the later tests amount to.
classify-status :
    {T : Type 0} (signal : RetrySignal)
    → signal.idempotent ≡ true
    → (classify_kind signal ≡ true) ↔ T
    → (classify signal ≡ true) ↔ (
        (signal.http_status ≡ some 429)
        ⊎ IsServerStatus signal.http_status
        ⊎ (¬ IsClientStatus signal.http_status × T))
unfolding classify
classify-status signal h k = ground arith

-- An idempotent call, whose signal has no override, is retried exactly when the provider answered
-- 429, 500, 502, 503 or 504, or when it answered no other 4xx and the failure is a timeout, a
-- transient network error, or carries a timeout code and is no malformed body.
pub should_retry-idempotent :
    (e : Exn) (signal : RetrySignal)
    → signal.idempotent ≡ true
    → signal.retryable_override ≡ none
    → (should_retry_by_taxonomy (attach_retry_signal e signal) ≡ true) ↔ (
        (signal.http_status ≡ some 429)
        ⊎ IsServerStatus signal.http_status
        ⊎ (¬ IsClientStatus signal.http_status × IsTransient signal))
should_retry-idempotent e signal h o =
    rw (should_retry-classify e signal o)
      (classify-status signal h (classify_kind-idempotent signal h))

-- The signal's call may be repeated: where nothing was begun, or where it is idempotent and the
-- failure passes.
abbrev pub IsRepeatable : RetrySignal → Type 0
IsRepeatable signal =
    IsSafeToRepeat signal
    ⊎ ((signal.idempotent ≡ true)
        × (IsServerStatus signal.http_status
            ⊎ (¬ IsClientStatus signal.http_status × IsTransient signal)))

-- A failure whose signal has no override is retried exactly when the provider answered 429, or the
-- connection timed out and no other 4xx, 500, 502, 503 or 504 came; and for an idempotent call also
-- when it answered 500, 502, 503 or 504, or when it answered no other 4xx and the failure is a
-- timeout, a transient network error, or carries a timeout code and is no malformed body.
pub should_retry-IsRepeatable :
    (e : Exn) (signal : RetrySignal)
    → signal.retryable_override ≡ none
    → (should_retry_by_taxonomy (attach_retry_signal e signal) ≡ true) ↔ IsRepeatable signal
should_retry-IsRepeatable e signal o = elim (Bool-cases signal.idempotent) [
  | inl h ↦ ground (arith, should_retry-idempotent e signal h o)
  | inr h ↦ ground (arith, should_retry-not_idempotent e signal h o)
]
