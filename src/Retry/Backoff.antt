-- ===== src/Retry/Backoff.antt =====
-- The delays of the retry loop of app/common/utils/retry.py.
use chatting.Common.{ℕ, ◌≡◌, false, true, Bool-cases, inl, inr, if_intro}
use chatting.Retry.{Float, RetryPolicy, capped_delay}

module _ (F : Float) (policy : RetryPolicy F) where
  open F use {Seconds, lt}

  not-lt_self : ((a b : Seconds) → lt a b ≡ true → lt b a ≡ false) → (a : Seconds) → lt a a ≡ false
  not-lt_self asym a = elim (Bool-cases (lt a a)) [ inl h ↦ asym a a h | inr h ↦ h ]

  -- The delay before the jitter never passes the configured maximum, where `<` is asymmetric.
  pub capped_delay-le-max :
      ((a b : Seconds) → lt a b ≡ true → lt b a ≡ false)
      → (attempt : ℕ) → lt policy.max_delay_sec (capped_delay F policy attempt) ≡ false
  capped_delay-le-max asym attempt =
      if_intro (λ d. lt policy.max_delay_sec d ≡ false) _ _ _ (asym _ _) (λ _. not-lt_self asym _)
