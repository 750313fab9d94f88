-- ===== src/Signal.antt =====
-- `RetrySignal` of app/common/utils/retry.py: what an adapter says about a failed call, which
-- `attach_retry_signal` hangs on the exception and `should_retry_by_taxonomy` reads.
use chatting.Common.{ℕ, String, Bool, Option}

-- The `Literal` of the timeout types.
pub data TimeoutType : Type 0 where
  connect_timeout read_timeout write_timeout pool_timeout total_timeout : TimeoutType

pub record RetrySignal : Type 0 where
  pub provider : String
  pub operation : String
  pub idempotent : Bool
  pub error_code : String
  pub exception_type : String
  pub http_status : Option ℕ
  pub timeout_type : Option TimeoutType
  pub retryable_override : Option Bool
