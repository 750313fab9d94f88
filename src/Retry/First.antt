-- ===== src/Retry/First.antt =====
-- The retry loop of app/common/utils/retry.py where the first call succeeds.
use chatting.Common.{ℕ, zero, suc, ◌≤◌, ◌≡◌, refl, Bool, some, arith}
use chatting.Errors.{Exn}
use chatting.Exec.{ok, Exec}
use chatting.Retry.{Float, RetryPolicy, Runtime, attempts, run_with_retry}
use chatting.Retry.Calls.{round_limit-pos}

module _ (F : Float) {S A : Type 0} (policy : RetryPolicy F) (rt : Runtime F S) where
  open F use {Seconds}

  attempts-first :
      (operation : Exec S A) (should_retry : Exn → Bool) (max_attempts : ℕ) (started : Seconds)
      (rounds k : ℕ) (s : S) (a : A)
      → 1 ≤ rounds
      → (operation s).0 ≡ ok a
      → attempts F policy rt operation should_retry max_attempts started rounds k s
        ≡ (ok (some a), (operation s).1)
  unfolding attempts
  attempts-first operation should_retry max_attempts started zero k s a h e = absurd (omega arith)
  attempts-first operation should_retry max_attempts started (suc n) k s a h e =
      rw (e, attempts) refl

  -- Where the first call succeeds, the loop gives what it gave.
  pub run_with_retry-first :
      (operation : Exec S A) (should_retry : Exn → Bool) (s : S) (a : A)
      → (operation s).0 ≡ ok a
      → run_with_retry F policy rt operation should_retry s ≡ (ok (some a), (operation s).1)
  unfolding run_with_retry
  run_with_retry-first operation should_retry s a e =
      attempts-first operation should_retry _ _ _ 1 s a (round_limit-pos policy.max_attempts) e
