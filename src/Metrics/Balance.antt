-- ===== src/Metrics/Balance.antt =====
-- The gauges come back to what they were, however a request ends.
use chatting.Common.{
  ℕ, ◌≡◌, refl, ap, ◌∙◌, String, true, List, [], ◌∷◌, eq_refl, ℤ, pos, negsuc, ◌+ℤ◌, arith,
}
use chatting.Common.Text.{str}
use chatting.Exec.{Exec}
use chatting.Metrics.{
  Prometheus, PrometheusLaws, same_labels, counted_status, enter, leave, dispatch,
}

pub up_and_down : (n : ℤ) → (n +ℤ pos 1) +ℤ negsuc 0 ≡ n
up_and_down (pos n) = ground arith
up_and_down (negsuc n) = ground arith

same_labels_self : (labels : List String) → same_labels labels labels ≡ true
same_labels_self [] = refl
same_labels_self (a ∷ labels) = rw (eq_refl a, same_labels_self labels)

module _ {S : Type 0} (registry : Prometheus S) (laws : PrometheusLaws registry) where
  open registry use {value}

  abbrev pub in_progress : S → ℤ
  in_progress s = value s "app_request_in_progress" []

  abbrev pub request_total : String → String → ℕ → S → ℤ
  request_total method path status s = value s "app_request_total" (method ∷ path ∷ str status ∷ [])

  in_progress-leave :
      (method path : String) (status : ℕ) (s : S)
      → in_progress (leave registry method path status s) ≡ in_progress s +ℤ negsuc 0
  unfolding leave
  in_progress-leave method path status s =
      laws.value-add _ _ _ _ _ _
      ∙ ap (λ n. n +ℤ negsuc 0) (laws.value-observe _ _ _ _ _ ∙ laws.value-add _ _ _ _ _ _)

  request_total-leave :
      (method path : String) (status : ℕ) (s : S)
      → request_total method path status (leave registry method path status s)
        ≡ request_total method path status s +ℤ pos 1
  unfolding leave
  request_total-leave method path status s =
      laws.value-add _ _ _ _ _ _
      ∙ laws.value-observe _ _ _ _ _
      ∙ laws.value-add _ _ _ _ _ _
      ∙ rw (eq_refl method, eq_refl path, eq_refl (str status))

  -- Where the handler leaves the gauge as it found it: a request that is served in any way, also by
  -- an exception, which goes on, is counted once, under its status or 500, and is in progress no
  -- more.
  pub dispatch-balanced :
      {A : Type 0} (status : A → ℕ) (method path : String) (call_next : Exec S A) (s : S)
      → in_progress (call_next (enter registry s)).1 ≡ in_progress (enter registry s)
      → let (r, s') = call_next (enter registry s) in
        ((dispatch registry status method path call_next s).0 ≡ r)
        × (in_progress (dispatch registry status method path call_next s).1 ≡ in_progress s)
        × (request_total method path
              (counted_status status r)
              (dispatch registry status method path call_next s).1
            ≡ request_total method path (counted_status status r) s' +ℤ pos 1)
  unfolding dispatch enter
  dispatch-balanced status method path call_next s balanced = (
    refl,
    in_progress-leave method path _ _
        ∙ ap (λ n. n +ℤ negsuc 0) (balanced ∙ laws.value-add _ _ _ _ _ _)
        ∙ up_and_down (in_progress s),
    request_total-leave method path _ _,
  )
