-- ===== src/Retry/Calls.antt =====
-- The retry loop of app/common/utils/retry.py: a rule for what holds when it ends, and what it
-- gives: the loop never falls through, and calls the operation a bounded number of times.
use chatting.Common.{ℕ, zero, suc, ◌+◌, ◌≤◌, ◌<◌, ◌≡◌, ◌≢◌, ◌⊎◌, inl, inr, refl, true, false}
use chatting.Common.{Bool, Option, none, some, arith, if_intro, ℤ}
use chatting.Errors.{Exn}
use chatting.Exec.{Result, ok, raised, Exec, Result-cases}
use chatting.Retry.{
  Float, RetryPolicy, Runtime, gives_up, round_limit, next_delay, after_failure, attempts,
  run_with_retry,
}

pub round_limit-pos : (n : ℤ) → 1 ≤ round_limit n
round_limit-pos n = ground arith

module _ (F : Float) {S : Type 0} (policy : RetryPolicy F) (rt : Runtime F S) where
  open F use {Seconds, add, sub, lt}

  -- The time budget is passed by sleeping `delay` in the state `s`.
  abbrev pub OverBudget : Seconds → S → Seconds → Type 0
  OverBudget started s delay =
      lt policy.total_timeout_sec (add (sub (rt.monotonic s) started) delay) ≡ true

  abbrev pub WithinBudget : Seconds → S → Seconds → Type 0
  WithinBudget started s delay =
      lt policy.total_timeout_sec (add (sub (rt.monotonic s) started) delay) ≡ false

module _ (F : Float) {S : Type 0} (rt : Runtime F S) where
  open F use {Seconds}

  abbrev pub slept : ℕ → Exn → Seconds × S → S
  slept attempt e (delay, s) = rt.sleep delay (rt.on_retry attempt e delay s)

module _ (F : Float) {S : Type 0} (policy : RetryPolicy F) (rt : Runtime F S) where
  open F use {Seconds}

  next_delay-calls :
      (calls : S → ℕ)
      → ((a b : Seconds) (t : S) → calls (rt.uniform a b t).1 ≡ calls t)
      → (k : ℕ) (t : S) → calls (next_delay F policy rt k t).1 ≡ calls t
  unfolding next_delay
  next_delay-calls calls draws k t =
      if_intro (λ (r : Seconds × S). calls r.1 ≡ calls t) policy.jitter_enabled _ _
        (λ _. draws _ _ t) (λ _. refl)

module _ (F : Float) {S A : Type 0} (policy : RetryPolicy F) (rt : Runtime F S) where
  open F use {Seconds}

  -- The state before the k-th call of the operation by a loop that began in `w`: each call before
  -- it failed in a way that is retried, and was slept off.
  pub data IsReached (operation : Exec S A) (should_retry : Exn → Bool) (w : S)
      : ℕ → S → Type 0 where
    first : IsReached operation should_retry w 1 w
    later :
        (k : ℕ) (s : S) (e : Exn)
        → IsReached operation should_retry w k s
        → (operation s).0 ≡ raised e
        → should_retry e ≡ true
        → IsReached operation should_retry w
            (k + 1)
            (slept F rt k e (next_delay F policy rt k (operation s).1))

  -- `I k` holds before the k-th call of the operation, and `Q` of what the loop ends with.
  pub record IsLoopRule (operation : Exec S A) (should_retry : Exn → Bool) (max_attempts : ℕ)
      (started : Seconds) (I : ℕ → S → Type 0) (Q : Result (Option A) × S → Type 0) : Type 0 where
    pub returned :
        (k : ℕ) (s : S) (a : A) → I k s → (operation s).0 ≡ ok a → Q (ok (some a), (operation s).1)
    pub gave_up :
        (k : ℕ) (s : S) (e : Exn)
        → I k s
        → (operation s).0 ≡ raised e
        → (max_attempts ≤ k) ⊎ (should_retry e ≡ false)
        → Q (raised e, (operation s).1)
    pub out_of_time :
        (k : ℕ) (s : S) (e : Exn)
        → I k s
        → (operation s).0 ≡ raised e
        → k < max_attempts
        → should_retry e ≡ true
        → OverBudget F policy rt started
            (next_delay F policy rt k (operation s).1).1
            (next_delay F policy rt k (operation s).1).0
        → Q (raised e, (next_delay F policy rt k (operation s).1).1)
    pub again :
        (k : ℕ) (s : S) (e : Exn)
        → I k s
        → (operation s).0 ≡ raised e
        → k < max_attempts
        → should_retry e ≡ true
        → WithinBudget F policy rt started
            (next_delay F policy rt k (operation s).1).1
            (next_delay F policy rt k (operation s).1).0
        → I (k + 1) (slept F rt k e (next_delay F policy rt k (operation s).1))

  module _ (operation : Exec S A) (should_retry : Exn → Bool) (max_attempts : ℕ) (started : Seconds)
      (I : ℕ → S → Type 0) (Q : Result (Option A) × S → Type 0)
      (rule : IsLoopRule operation should_retry max_attempts started I Q) where
    after_failure_rule :
        (next : ℕ → S → Result (Option A) × S) (k : ℕ) (e : Exn) (s : S)
        → I k s
        → (operation s).0 ≡ raised e
        → (k < max_attempts → (t : S) → I (k + 1) t → Q (next (k + 1) t))
        → Q (after_failure F policy rt next should_retry max_attempts started k e (operation s).1)
    unfolding after_failure
    after_failure_rule next k e s i failed go =
        if_intro Q (gives_up max_attempts should_retry k e) _ _
          (λ stop. rule.gave_up k s e i failed (ground arith))
          λ more.
            if_intro Q _ _ _
              (λ over. rule.out_of_time k s e i failed (ground arith) (ground arith) over)
              λ fits.
                go (ground arith) _ (rule.again k s e i failed (ground arith) (ground arith) fits)

    attempts_rule :
        (rounds k : ℕ) (s : S)
        → rounds + k ≡ max_attempts + 1
        → 1 ≤ rounds
        → I k s
        → Q (attempts F policy rt operation should_retry max_attempts started rounds k s)
    unfolding attempts
    attempts_rule zero k s e r i = absurd (omega arith)
    attempts_rule (suc n) k s e r i = elim (Result-cases (operation s).0) [
      | inl (a, h) ↦ rw (h, attempts) (rule.returned k s a i h)
      | inr (x, h) ↦
          rw (h, attempts)
            (after_failure_rule _ k x s i h
              λ below t j. attempts_rule n (k + 1) t (omega arith) (omega arith) j)
    ]

  -- Whatever holds before the first call and is handed on by each round that the loop may take,
  -- gives what each way to end the loop gives. No case is left where it ends with `None`.
  pub run_with_retry_rule :
      (operation : Exec S A) (should_retry : Exn → Bool) (I : ℕ → S → Type 0)
      (Q : Result (Option A) × S → Type 0) (s : S)
      → IsLoopRule operation should_retry (round_limit policy.max_attempts) (rt.monotonic s) I Q
      → I 1 s
      → Q (run_with_retry F policy rt operation should_retry s)
  unfolding run_with_retry
  run_with_retry_rule operation should_retry I Q s rule i =
      attempts_rule operation should_retry _ _ I Q rule _ 1 s (omega arith)
        (round_limit-pos policy.max_attempts) i

  -- The loop never falls through: it returns a result of the operation, or raises.
  pub run_with_retry-ne-none :
      (operation : Exec S A) (should_retry : Exn → Bool) (s : S)
      → (run_with_retry F policy rt operation should_retry s).0 ≢ ok none
  run_with_retry-ne-none operation should_retry s =
      run_with_retry_rule operation should_retry (λ k t. Unit) (λ r. r.0 ≢ ok none) s
        (record {
          returned = λ k t a i h. ground arith;
          gave_up = λ k t e i h w. ground arith;
          out_of_time = λ k t e i h b r o. ground arith;
          again = λ k t e i h b r o. tt;
        })
        tt

  calls_rule :
      (operation : Exec S A) (should_retry : Exn → Bool) (calls : S → ℕ)
      → ((t : S) → calls (operation t).1 ≡ calls t + 1)
      → ((a b : Seconds) (t : S) → calls (rt.uniform a b t).1 ≡ calls t)
      → ((d : Seconds) (t : S) → calls (rt.sleep d t) ≡ calls t)
      → ((k : ℕ) (e : Exn) (d : Seconds) (t : S) → calls (rt.on_retry k e d t) ≡ calls t)
      → (s : S) (m : ℕ) (started : Seconds)
      → IsLoopRule operation should_retry m started
          (λ k t. (calls t + 1 ≡ calls s + k) × (1 ≤ k) × (k ≤ m))
          (λ r. (calls s + 1 ≤ calls r.1) × (calls r.1 ≤ calls s + m))
  calls_rule operation should_retry calls counts draws sleeps logs s m started = record {
    returned = λ k t a i h. omega (arith, counts t);
    gave_up = λ k t e i h w. omega (arith, counts t);
    out_of_time = λ k t e i h b r o.
        omega (arith, counts t, next_delay-calls F policy rt calls draws k (operation t).1);
    again = λ k t e i h b r o. omega (
      arith,
      counts t,
      next_delay-calls F policy rt calls draws k (operation t).1,
      sleeps (next_delay F policy rt k (operation t).1).0 (
          rt.on_retry k e (next_delay F policy rt k (operation t).1).0
            (next_delay F policy rt k (operation t).1).1),
      logs k e (next_delay F policy rt k (operation t).1).0
          (next_delay F policy rt k (operation t).1).1,
    );
  }

  -- Where each call of the operation counts one, and nothing else of the runtime does, the
  -- operation is called at least once and at most `max(1, max_attempts)` times.
  pub run_with_retry-calls :
      (operation : Exec S A) (should_retry : Exn → Bool) (calls : S → ℕ)
      → ((t : S) → calls (operation t).1 ≡ calls t + 1)
      → ((a b : Seconds) (t : S) → calls (rt.uniform a b t).1 ≡ calls t)
      → ((d : Seconds) (t : S) → calls (rt.sleep d t) ≡ calls t)
      → ((k : ℕ) (e : Exn) (d : Seconds) (t : S) → calls (rt.on_retry k e d t) ≡ calls t)
      → (s : S)
      → let n = calls (run_with_retry F policy rt operation should_retry s).1 in
        (calls s + 1 ≤ n) × (n ≤ calls s + round_limit policy.max_attempts)
  run_with_retry-calls operation should_retry calls counts draws sleeps logs s =
      run_with_retry_rule operation should_retry _ _ s
        (calls_rule operation should_retry calls counts draws sleeps logs s _ _)
        (refl, omega arith, round_limit-pos policy.max_attempts)
