-- ===== src/RateLimit/Redis/Agrees.antt =====
-- The two rate limiters decide alike, over a Redis server that keeps its documented laws.
use chatting.Common.{
  ℕ, zero, suc, ◌+◌, ◌≡◌, inl, inr, sym, ap, ◌∙◌, String, false, ◌==◌, eq_iff, nat_eq,
  if◌then◌else◌, if_intro, ℤ, arith,
}
use text.Mathlib.TextLemmas.{append_cancel_left}
use chatting.Common.Text.{◌<>◌}
use chatting.Common.Dict.{Dict}
use chatting.Exec.{Result, ok, Result-cases}
use chatting.RateLimit.{RateLimitDecision}
use chatting.RateLimit.Memory.{Counters, window_start, key, count_of, consume}
use chatting.RateLimit.Memory.Quota.{count_of-insert}
use chatting.Redis.{RedisServer, CounterLaws}
use chatting.RateLimit.Redis.{RedisClock, prefixed_key, consume_script, redis_consume}

module _ {S : Type 0} (server : RedisServer S) (count_at : S → String → ℕ)
    (laws : CounterLaws server count_at) (key_prefix : String) where
  -- The server counts under each prefixed key what the counters say of the key.
  abbrev pub Agree : S → Dict (ℕ × ℕ) → Type 0
  Agree s counters = (k : String) → count_at s ((key_prefix <> ":") <> k) ≡ count_of k counters

  prefixed-eq :
      (k j : String) → (((key_prefix <> ":") <> k) == ((key_prefix <> ":") <> j)) ≡ (k == j)
  prefixed-eq k j = ground (
    arith,
    eq_iff k j,
    eq_iff ((key_prefix <> ":") <> k) ((key_prefix <> ":") <> j),
    append_cancel_left (key_prefix <> ":") k j,
  )

  script_counts :
      (k other : String) (window : ℕ) (s : S)
      → ((consume_script server k (suc window) s).0 ≡ count_at s k + 1)
        × (count_at (consume_script server k (suc window) s).1 other
            ≡ (if k == other then count_at s k + 1 else count_at s other))
  unfolding consume_script
  script_counts k other window s = (
    laws.counted k s,
    if_intro (λ t. count_at t other ≡ (if k == other then count_at s k + 1 else count_at s other))
        (nat_eq (server.incr k s).0 1) _ _
        (λ h. laws.count_at-expire k other window _ ∙ laws.count_at-incr k other s)
        (λ h. laws.count_at-incr k other s),
  )

  not_zero : (window : ℕ) → nat_eq (suc window) 0 ≡ false
  not_zero window = ground arith

  -- The clock and the two states that a call is made in.
  abbrev pub on_redis : String → String → ℤ → ℕ → ℕ → S → Result RateLimitDecision × RedisClock S
  on_redis tenant_id route limit window_sec now s =
      redis_consume server key_prefix tenant_id route limit window_sec
        (record { now = now; server_state = s })

  abbrev pub in_memory :
      String → String → ℤ → ℕ → ℕ → Dict (ℕ × ℕ) → Result RateLimitDecision × Counters
  in_memory tenant_id route limit window_sec now counters =
      consume tenant_id route limit window_sec (record { now = now; counters = counters })

  -- Where the two agree on the counts and Redis answers, they decide alike and agree afterwards.
  pub consume-agrees :
      (tenant_id route : String) (limit : ℤ) (window_sec now : ℕ) (s : S) (counters : Dict (ℕ × ℕ))
      (decision : RateLimitDecision)
      → Agree s counters
      → (on_redis tenant_id route limit window_sec now s).0 ≡ ok decision
      → ((in_memory tenant_id route limit window_sec now counters).0 ≡ ok decision)
        × Agree
            (on_redis tenant_id route limit window_sec now s).1.server_state
            (in_memory tenant_id route limit window_sec now counters).1.counters
  unfolding redis_consume consume prefixed_key
  consume-agrees tenant_id route limit zero now s counters decision h e = cc
  consume-agrees tenant_id route limit (suc window) now s counters decision h e =
      let k : String = key tenant_id route (window_start now (suc window)) in
      let script : S → ℕ × S = consume_script server ((key_prefix <> ":") <> k) (suc window) in
      elim (Result-cases (server.submit script s).0) [
        | inl (value, r) ↦
            let done = laws.submits.submit_done script s value r in
            let one_more : value ≡ count_of k counters + 1 =
              sym done.0
              ∙ (script_counts ((key_prefix <> ":") <> k) k window s).0
              ∙ ap (λ n. n + 1) (h k) in
            (
              rw (not_zero window) (rw (not_zero window, r, one_more) at e),
              λ other. rw (not_zero window) (
                  ap (λ t. count_at t ((key_prefix <> ":") <> other)) done.1
                  ∙ (script_counts ((key_prefix <> ":") <> k) ((key_prefix <> ":") <> other) window
                      s).1
                  ∙ rw (prefixed-eq k other, h k, h other)
                      (sym (count_of-insert k other _ _ counters))),
            )
        | inr (x, r) ↦ cc (rw (not_zero window, r) at e)
      ]
