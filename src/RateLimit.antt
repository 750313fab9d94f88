-- ===== src/RateLimit.antt =====
-- app/ports/outbound/rate_limiter.py: the port of the rate limiter. The adapters are the modules
-- below. A negative or zero limit is allowed, as the settings do not exclude it; a window is a
-- number of seconds that is not negative.
pub mod Memory
pub mod Redis
use chatting.Common.{ℕ, String, Bool, ℤ}
use chatting.Exec.{Exec}

pub record RateLimitDecision : Type 0 where
  pub allowed : Bool
  pub limit : ℤ
  pub remaining : ℤ
  pub reset_at_epoch_sec : ℕ

pub record RateLimiter (S : Type 0) : Type 0 where
  pub consume : String → String → ℤ → ℕ → Exec S RateLimitDecision
  pub ping : Exec S Bool
  pub close : Exec S (Unit {0})
