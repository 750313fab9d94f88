-- ===== src/Tests/Retries.antt =====
-- A retry loop that fails once and then succeeds, and the theorems of the loop there.
use chatting.Common.{
  ℕ, ◌+◌, ◌-◌, ◌*◌, ◌≤◌, ◌≡◌, ◌≢◌, ◌↔◌, refl, String, true, false, none, some, ltb,
}
use chatting.Common.{if◌then◌else◌, nat_eq, pos}
use chatting.Signal.{RetrySignal, connect_timeout}
use chatting.Errors.{Exn, new, llm_timeout_error}
use chatting.Exec.{Exec, ok, raised}
use chatting.Retry.{
  Float, RetryPolicy, Runtime, attach_retry_signal, should_retry_by_taxonomy, next_delay,
  after_failure, attempts, run_with_retry,
}
use chatting.Retry.Taxonomy.{should_retry-IsRepeatable, IsRepeatable}
use chatting.Retry.Calls.{run_with_retry-ne-none, run_with_retry-calls}

-- Milliseconds.
abbrev pub millis : Float
millis = record {
  Seconds = ℕ;
  zero_sec = 0;
  of_nat = λ n. n;
  add = ◌+◌;
  sub = ◌-◌;
  mul = ◌*◌;
  lt = ltb;
}

record World : Type 0 where
  calls : ℕ
  clock : ℕ

abbrev fresh : World
fresh = record { calls = 0; clock = 100 }

abbrev runtime : Runtime millis World
runtime = record {
  monotonic = λ w. w.clock;
  uniform = λ a b w. (b, w);
  sleep = λ d w. record w { clock = w.clock + d };
  on_retry = λ k e d w. w;
}

abbrev policy : RetryPolicy millis
policy = record {
  max_attempts = pos 3;
  base_delay_sec = 200;
  max_delay_sec = 2000;
  jitter_enabled = true;
  jitter_ratio = 1;
  total_timeout_sec = 8000;
}

abbrev signal : RetrySignal
signal = record {
  provider = "tts";
  operation = "synthesize";
  idempotent = false;
  error_code = "TTS_TIMEOUT";
  exception_type = "timeout";
  http_status = none;
  timeout_type = some connect_timeout;
  retryable_override = none;
}

abbrev timed_out : Exn
timed_out = attach_retry_signal (new llm_timeout_error "connect") signal

-- The first call fails.
abbrev flaky : Exec World String
flaky w =
    (if nat_eq w.calls 0 then raised timed_out else ok "done", record w { calls = w.calls + 1 })

flaky_runs :
    run_with_retry millis policy runtime flaky should_retry_by_taxonomy fresh
    ≡ (ok (some "done"), record { calls = 2; clock = 500 })
unfolding run_with_retry attempts after_failure next_delay should_retry_by_taxonomy
flaky_runs = refl

run_with_retry-ne-none_example :
    (run_with_retry millis policy runtime flaky should_retry_by_taxonomy fresh).0 ≢ ok none
run_with_retry-ne-none_example =
    run_with_retry-ne-none millis policy runtime flaky should_retry_by_taxonomy fresh

run_with_retry-calls_example :
    let n = (run_with_retry millis policy runtime flaky should_retry_by_taxonomy fresh).1.calls in
    (1 ≤ n) × (n ≤ 3)
run_with_retry-calls_example =
    run_with_retry-calls millis policy runtime flaky should_retry_by_taxonomy (λ w. w.calls)
      (λ t. refl) (λ a b t. refl) (λ d t. refl) (λ k e d t. refl) fresh

abbrev query_signal : RetrySignal
query_signal = record signal { idempotent = true; http_status = some 503; timeout_type = none }

should_retry-IsRepeatable_example :
    (should_retry_by_taxonomy (attach_retry_signal timed_out query_signal) ≡ true)
    ↔ IsRepeatable query_signal
should_retry-IsRepeatable_example = should_retry-IsRepeatable timed_out query_signal refl
