-- ===== src/RateLimit/Memory/Quota.antt =====
-- What the in-memory rate limiter lets through in a window, whatever the order of requests.
use Prim.Native.Nat.{min}
use chatting.Common.{ℕ, suc, ◌+◌, ◌≡◌, refl, ◌∙◌, String, Bool, true, false, List, [], ◌∷◌}
use chatting.Common.{
  ◌&&◌, nat_eq, arith, ◌==◌, eq_iff, if◌then◌else◌, Bool-cases, inl, inr, ℤ, pos, pos_part, leb_ℤ,
}
use chatting.Common.Dict.{Dict, insert, lookup-insert}
use chatting.Exec.{Result, ok, raised}
use chatting.RateLimit.{RateLimitDecision}
use chatting.RateLimit.Memory.{Counters, window_start, key, count_of, consume}

-- One call of `consume`, and the clock when it is made.
pub record Request : Type 0 where
  pub tenant_id : String
  pub route : String
  pub limit : ℤ
  pub at : ℕ

-- A read of a count after a write.
pub count_of-insert :
    (k j : String) (count end : ℕ) (counters : Dict (ℕ × ℕ))
    → count_of j (insert k (count, end) counters) ≡ (if k == j then count else count_of j counters)
unfolding count_of
count_of-insert k j count end counters = ground (arith, lookup-insert k j (count, end) counters)

-- One more request on the key, with `n` to come, of which `a` are let through.
count_step :
    (c n a : ℕ) (limit : ℤ) (allowed : Bool)
    → allowed ≡ leb_ℤ (pos (c + 1)) limit
    → a + min (c + 1) (pos_part limit) ≡ min (c + 1 + n) (pos_part limit)
    → (if allowed then suc a else a) + min c (pos_part limit) ≡ min (c + suc n) (pos_part limit)
count_step c n a limit allowed h k = ground arith

module _ (window : ℕ) where
  -- The counter that a request counts on. The window lasts `window + 1` seconds.
  abbrev pub key_of : Request → String
  key_of r = key r.tenant_id r.route (window_start r.at (suc window))

  abbrev at_time : ℕ → Counters → Counters
  at_time t s = record s { now = t }

  pub outcome : Request → Counters → Result RateLimitDecision × Counters
  outcome r s = consume r.tenant_id r.route r.limit (suc window) (at_time r.at s)

  abbrev pub was_allowed : Result RateLimitDecision → Bool
  was_allowed (ok d) = d.allowed
  was_allowed (raised e) = false

  not_zero : nat_eq (suc window) 0 ≡ false
  not_zero = ground arith

  -- The decision goes by the counter of the request's key, which alone goes up.
  outcome-counts :
      (r : Request) (s : Counters)
      → (was_allowed (outcome r s).0 ≡ leb_ℤ (pos (count_of (key_of r) s.counters + 1)) r.limit)
        × ((k : String)
            → count_of k (outcome r s).1.counters
              ≡ (if key_of r == k then count_of k s.counters + 1 else count_of k s.counters))
  unfolding outcome consume
  outcome-counts r s =
      rw not_zero (refl, λ k. rw count_of-insert (ground (arith, eq_iff (key_of r) k)))

  -- How many of the requests on the key `k` are let through, when they come in this order.
  pub allowed_on : String → List Request → Counters → ℕ
  allowed_on k [] s = 0
  allowed_on k (r ∷ requests) s =
      let (result, s') = outcome r s in
      let rest = allowed_on k requests s' in
      if (key_of r == k) && was_allowed result then suc rest else rest

  unfoldable pub requests_on : String → List Request → ℕ
  requests_on k [] = 0
  requests_on k (r ∷ requests) =
      let rest = requests_on k requests in if key_of r == k then suc rest else rest

  -- All requests on the key have one limit.
  abbrev pub HaveLimit : String → ℤ → List Request → Type 0
  HaveLimit k limit [] = Unit
  HaveLimit k limit (r ∷ requests) =
      ((key_of r == k) ≡ true → r.limit ≡ limit) × HaveLimit k limit requests

  allowed_on-count :
      (k : String) (limit : ℤ) (requests : List Request) (s : Counters)
      → HaveLimit k limit requests
      → allowed_on k requests s + min (count_of k s.counters) (pos_part limit)
        ≡ min (count_of k s.counters + requests_on k requests) (pos_part limit)
  unfolding allowed_on requests_on
  allowed_on-count k limit [] s h = omega arith
  allowed_on-count k limit (r ∷ requests) s h = elim (Bool-cases (key_of r == k)) [
    | inl same ↦
        let o = outcome-counts r s in
        let e : key_of r ≡ k = (eq_iff (key_of r) k).0 same in
        let now : count_of k (outcome r s).1.counters ≡ count_of k s.counters + 1 =
          o.1 k ∙ rw same in
        rw same (
          count_step (count_of k s.counters) (requests_on k requests) _ limit
            (was_allowed (outcome r s).0) (o.0 ∙ rw (e, h.0 same))
            (rw now at (allowed_on-count k limit requests (outcome r s).1 h.1)))
    | inr differ ↦
        let now : count_of k (outcome r s).1.counters ≡ count_of k s.counters =
          (outcome-counts r s).1 k ∙ rw differ in
        rw differ (rw now at (allowed_on-count k limit requests (outcome r s).1 h.1))
  ]

  -- In whatever order requests of any tenants and routes arrive, those on one key that have one
  -- limit, and whose counter is fresh, are let through as often as the limit says: the number of
  -- them is the smaller of the number of those requests and the limit.
  pub allowed_on-min :
      (k : String) (limit : ℤ) (requests : List Request) (s : Counters)
      → HaveLimit k limit requests
      → count_of k s.counters ≡ 0
      → allowed_on k requests s ≡ min (requests_on k requests) (pos_part limit)
  allowed_on-min k limit requests s h fresh = omega (arith, allowed_on-count k limit requests s h)
