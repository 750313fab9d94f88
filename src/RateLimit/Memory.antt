-- ===== src/RateLimit/Memory.antt =====
-- app/adapters/outbound/inmemory_rate_limiter.py: counters of fixed windows. Nothing inside the
-- lock awaits. The state holds the wall clock, `int(time.time())`, beside the counters.
pub mod Quota
use chatting.Common.{ℕ, zero, suc, ◌+◌, ◌-◌, ◌%◌, String, Bool, true, Option, none, some, [], ltb}
use chatting.Common.{nat_eq, if◌then◌else◌, ℤ, pos, leb_ℤ, max_ℤ, ◌-ℤ◌}
use chatting.Common.Text.{str, ◌<>◌}
use chatting.Common.Dict.{Dict, lookup, insert}
use chatting.Errors.{new_other}
use chatting.Exec.{Exec, Result, ok, raised, pure}
use chatting.RateLimit.{RateLimitDecision, RateLimiter}

pub record Counters : Type 0 where
  pub now : ℕ
  -- the count and the end of the window of each key
  pub counters : Dict (ℕ × ℕ)

abbrev pub window_start : ℕ → ℕ → ℕ
window_start now window_sec = now - (now % window_sec)

unfoldable pub key : String → String → ℕ → String
key tenant_id route start = tenant_id <> ":" <> route <> ":" <> str start

-- `self._counters.get(key, (0, reset_at))`, of which only the count is used
unfoldable pub count_of : String → Dict (ℕ × ℕ) → ℕ
unfolding lookup
count_of k counters = elim (lookup k counters) [ none ↦ 0 | some (count, _) ↦ count ]

abbrev pub decide : ℕ → ℤ → ℕ → RateLimitDecision
decide count limit reset_at = record {
  allowed = leb_ℤ (pos count) limit;
  limit = limit;
  remaining = max_ℤ (pos 0) (limit -ℤ pos count);
  reset_at_epoch_sec = reset_at;
}

-- A window of no seconds is a division by zero.
unfoldable pub consume : String → String → ℤ → ℕ → Exec Counters RateLimitDecision
consume tenant_id route limit window_sec s =
    let start = window_start s.now window_sec in
    let reset_at = start + window_sec in
    let k = key tenant_id route start in
    let count = count_of k s.counters + 1 in
    if nat_eq window_sec 0
    then (raised (new_other "ZeroDivisionError" "integer modulo by zero"), s)
    else (
      ok (decide count limit reset_at),
      record s { counters = insert k (count, reset_at) s.counters },
    )

unfoldable pub memory_rate_limiter : RateLimiter Counters
memory_rate_limiter = record {
  consume = consume;
  ping = pure true;
  close = λ s. (ok tt, record s { counters = [] });
}
