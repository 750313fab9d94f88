-- ===== src/Retry.antt =====
-- app/common/utils/retry.py: which failures are retried, and the retry loop with its backoff and
-- its time budget. Seconds are Python floats, an argument of the model (`Float`); the clock, the
-- random numbers and the sleep are the runtime's (`Runtime`). Proofs: the modules below.
pub mod Taxonomy
pub mod Calls
pub mod First
pub mod Backoff
use chatting.Common.{ℕ, zero, suc, ◌+◌, ◌-◌, ◌^◌, String, Bool, true, false, not, ◌&&◌, ◌||◌}
use chatting.Common.{Option, none, some, ◌==◌, nat_eq, leb, ltb, if◌then◌else◌, ℤ, pos, max_ℤ}
use chatting.Common.{pos_part}
use chatting.Signal.{RetrySignal, TimeoutType}
use chatting.Errors.{Exn}
use chatting.Exec.{Result, ok, raised, Exec}

abbrev pub attach_retry_signal : Exn → RetrySignal → Exn
attach_retry_signal e signal = record e { retry_signal = some signal }

abbrev pub extract_retry_signal : Exn → Option RetrySignal
extract_retry_signal e = e.retry_signal

-- `status == k`, where the status may be `None`
abbrev pub status_is : Option ℕ → ℕ → Bool
status_is none k = false
status_is (some status) k = nat_eq status k

abbrev pub is_server_status : Option ℕ → Bool
is_server_status status =
    status_is status 500 || status_is status 502 || status_is status 503 || status_is status 504

abbrev pub is_client_status : Option ℕ → Bool
is_client_status none = false
is_client_status (some status) = leb 400 status && ltb status 500

abbrev pub is_connect_timeout : Option TimeoutType → Bool
is_connect_timeout (some TimeoutType.connect_timeout) = true
is_connect_timeout _ = false

abbrev pub is_later_timeout : Option TimeoutType → Bool
is_later_timeout (some TimeoutType.read_timeout) = true
is_later_timeout (some TimeoutType.write_timeout) = true
is_later_timeout (some TimeoutType.pool_timeout) = true
is_later_timeout (some TimeoutType.total_timeout) = true
is_later_timeout _ = false

abbrev pub is_transient : String → Bool
is_transient kind = kind == "connect_error" || kind == "network_error" || kind == "connection_reset"

abbrev pub is_malformed : String → Bool
is_malformed kind = kind == "invalid_json" || kind == "invalid_body" || kind == "semantic_error"

abbrev pub is_timeout_code : String → Bool
is_timeout_code code = code == "LLM_TIMEOUT" || code == "TTS_TIMEOUT"

-- `should_retry_by_taxonomy`, from the tests of `signal.timeout_type` on.
classify_kind : RetrySignal → Bool
classify_kind signal =
    if is_connect_timeout signal.timeout_type
    then true
    else if is_later_timeout signal.timeout_type
    then signal.idempotent
    else if is_transient signal.exception_type
    then signal.idempotent
    else if is_malformed signal.exception_type
    then false
    else if is_timeout_code signal.error_code
    then signal.idempotent
    else false

-- The same from `signal.http_status == 429` on.
classify : RetrySignal → Bool
classify signal =
    if status_is signal.http_status 429
    then true
    else if is_server_status signal.http_status
    then signal.idempotent
    else if is_client_status signal.http_status
    then false
    else classify_kind signal

by_signal : Option RetrySignal → Bool
by_signal none = false
by_signal (some signal) = elim signal.retryable_override [
  | some override ↦ override
  | none ↦ classify signal
]

unfoldable pub should_retry_by_taxonomy : Exn → Bool
unfolding by_signal classify classify_kind
should_retry_by_taxonomy e = by_signal (extract_retry_signal e)

-- Python's float: what the loop computes with.
pub record Float : Type 1 where
  pub Seconds : Type 0
  pub zero_sec : Seconds
  pub of_nat : ℕ → Seconds
  pub add : Seconds → Seconds → Seconds
  pub sub : Seconds → Seconds → Seconds
  pub mul : Seconds → Seconds → Seconds
  pub lt : Seconds → Seconds → Bool

module _ (F : Float) where
  open F use {Seconds, zero_sec, of_nat, add, sub, mul, lt}

  pub record RetryPolicy : Type 0 where
    pub max_attempts : ℤ
    pub base_delay_sec : Seconds
    pub max_delay_sec : Seconds
    pub jitter_enabled : Bool
    pub jitter_ratio : Seconds
    pub total_timeout_sec : Seconds

  -- The runtime over a state: `time.monotonic()`, `random.uniform(a, b)`, `asyncio.sleep(d)`, and
  -- the callback `on_retry`.
  pub record Runtime (S : Type 0) : Type 0 where
    pub monotonic : S → Seconds
    pub uniform : Seconds → Seconds → S → Seconds × S
    pub sleep : Seconds → S → S
    pub on_retry : ℕ → Exn → Seconds → S → S

  -- min(a, b) and max(a, b)
  abbrev pub min_sec : Seconds → Seconds → Seconds
  min_sec a b = if lt b a then b else a

  abbrev pub max_sec : Seconds → Seconds → Seconds
  max_sec a b = if lt a b then b else a

  -- The delay before the jitter. `attempt - 1` is at least 0, as `attempt` counts from 1.
  abbrev pub capped_delay : RetryPolicy → ℕ → Seconds
  capped_delay policy attempt =
      min_sec policy.max_delay_sec (mul policy.base_delay_sec (of_nat (2 ^ (attempt - 1))))

  abbrev pub jitter_upper : RetryPolicy → Seconds → Seconds
  jitter_upper policy delay = max_sec zero_sec (mul delay (max_sec zero_sec policy.jitter_ratio))

module _ (F : Float) {S : Type 0} where
  open F use {Seconds, zero_sec, add, sub, lt}

  unfoldable pub next_delay : RetryPolicy F → Runtime F S → ℕ → S → Seconds × S
  next_delay policy rt attempt s =
      let delay = capped_delay F policy attempt in
      let (draw, s') = rt.uniform zero_sec (jitter_upper F policy delay) s in
      if policy.jitter_enabled then (add delay draw, s') else (delay, s)

-- `attempt >= max_attempts or not should_retry(exc)`
abbrev pub gives_up : ℕ → (Exn → Bool) → ℕ → Exn → Bool
gives_up max_attempts should_retry attempt e = leb max_attempts attempt || not (should_retry e)

-- `max(1, policy.max_attempts)`
abbrev pub round_limit : ℤ → ℕ
round_limit max_attempts = pos_part (max_ℤ (pos 1) max_attempts)

module _ (F : Float) {S A : Type 0} (policy : RetryPolicy F) (rt : Runtime F S) where
  open F use {Seconds, add, sub, lt}

  -- The `except` block, with what the next rounds of the loop do.
  unfoldable pub after_failure :
      (ℕ → S → Result (Option A) × S)
      → (Exn → Bool)
      → (max_attempts : ℕ) (started : Seconds) (attempt : ℕ) → Exn
      → S
      → Result (Option A) × S
  after_failure again should_retry max_attempts started attempt e s =
      let (delay, s₁) = next_delay F policy rt attempt s in
      let elapsed = sub (rt.monotonic s₁) started in
      if gives_up max_attempts should_retry attempt e
      then (raised e, s)
      else if lt policy.total_timeout_sec (add elapsed delay)
      then (raised e, s₁)
      else again (attempt + 1) (rt.sleep delay (rt.on_retry attempt e delay s₁))

  -- The rounds of the `for` that are left, and the number of the next one. A loop that runs out of
  -- rounds would return `None`, which is `ok none`.
  unfoldable pub attempts :
      Exec S A → (Exn → Bool) → ℕ → Seconds → ℕ → ℕ → S → Result (Option A) × S
  attempts operation should_retry max_attempts started zero attempt s = (ok none, s)
  attempts operation should_retry max_attempts started (suc rounds) attempt s =
      let (r, s') = operation s in
      elim r [
        | ok a ↦ (ok (some a), s')
        | raised e ↦
            after_failure (attempts operation should_retry max_attempts started rounds) should_retry
              max_attempts started attempt e s'
      ]

  unfoldable pub run_with_retry : Exec S A → (Exn → Bool) → S → Result (Option A) × S
  run_with_retry operation should_retry s =
      attempts operation should_retry (round_limit policy.max_attempts) (rt.monotonic s)
        (round_limit policy.max_attempts) 1 s
