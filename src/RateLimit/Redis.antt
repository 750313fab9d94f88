-- ===== src/RateLimit/Redis.antt =====
-- app/adapters/outbound/redis_rate_limiter.py: counters of fixed windows in a Redis server. The
-- state holds the wall clock, `int(time.time())`, beside the server's.
pub mod Agrees
use chatting.Common.{ℕ, ◌+◌, String, Bool, false, if◌then◌else◌, nat_eq, ℤ, pos}
use chatting.Common.Text.{◌<>◌}
use chatting.Errors.{new_other}
use chatting.Exec.{Exec, Result, ok, raised}
use chatting.RateLimit.{RateLimitDecision, RateLimiter}
use chatting.RateLimit.Memory.{window_start, key, decide}
use chatting.Redis.{RedisServer}

pub record RedisClock (S : Type 0) : Type 0 where
  pub now : ℕ
  pub server_state : S

-- `f"{self._key_prefix}:{tenant_id}:{route}:{window_start}"`
unfoldable pub prefixed_key : String → String → String → ℕ → String
prefixed_key key_prefix tenant_id route start = (key_prefix <> ":") <> key tenant_id route start

-- `bool(await self._client.ping())`, where an exception is no answer
abbrev pub is_answer : Result Bool → Bool
is_answer (ok up) = up
is_answer (raised e) = false

module _ {S : Type 0} (server : RedisServer S) where
  -- The text of `_CONSUME_SCRIPT`.
  unfoldable pub consume_script : String → ℕ → S → ℕ × S
  consume_script k window_sec s =
      let (value, s') = server.incr k s in
      (value, if nat_eq value 1 then server.expire k (pos window_sec) s' else s')

  abbrev pub on_server : {A : Type 0} → Exec S A → Exec (RedisClock S) A
  on_server m c = let (r, s) = m c.server_state in (r, record c { server_state = s })

  -- What the value of the script is made to.
  abbrev pub decided : ℤ → ℕ → Result ℕ → Result RateLimitDecision
  decided limit reset_at (ok value) = ok (decide value limit reset_at)
  decided limit reset_at (raised e) = raised e

  unfoldable pub redis_consume :
      String → String → String → ℤ → ℕ → Exec (RedisClock S) RateLimitDecision
  redis_consume key_prefix tenant_id route limit window_sec c =
      let start = window_start c.now window_sec in
      let (r, c') =
        on_server
          (server.submit
            (consume_script (prefixed_key key_prefix tenant_id route start) window_sec))
          c in
      if nat_eq window_sec 0
      then (raised (new_other "ZeroDivisionError" "integer modulo by zero"), c)
      else (decided limit (start + window_sec) r, c')

  unfoldable pub limiter_ping : Exec (RedisClock S) Bool
  limiter_ping c = let (r, c') = on_server server.ping c in (ok (is_answer r), c')

  -- `key_prefix` is "rate-limit" where none is given.
  unfoldable pub redis_rate_limiter : String → RateLimiter (RedisClock S)
  redis_rate_limiter key_prefix = record {
    consume = redis_consume key_prefix;
    ping = limiter_ping;
    close = on_server server.aclose;
  }
