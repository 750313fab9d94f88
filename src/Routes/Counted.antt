-- ===== src/Routes/Counted.antt =====
-- app/api/routes/chat.py: the stream route round the loop of `event_generator`, with the metrics it
-- counts and the close of the service's stream.
use chatting.Common.{
  ℕ, ◌≡◌, refl, ap, ◌∙◌, String, Bool, true, false, Option, List, [], ◌∷◌, if◌then◌else◌, ℤ, pos,
  negsuc, ◌+ℤ◌, inl, inr,
}
use chatting.Exec.{Exec, Result, ok, raised, Result-cases}
use chatting.RateLimit.{RateLimitDecision}
use chatting.Chat.{StreamEvent}
use chatting.Metrics.{
  Prometheus, PrometheusLaws, stream_connection_opened, stream_connection_closed,
  observe_stream_request, observe_stream_disconnect, observe_stream_error,
}
use chatting.Metrics.Balance.{up_and_down}
use chatting.Routes.{Moment, Outcome, event_generator, rate_limit_headers}

unfoldable pub stream_headers : Option RateLimitDecision → List (String × String)
stream_headers limit =
    ("Cache-Control", "no-cache")
    ∷ ("Connection", "keep-alive")
    ∷ ("X-Accel-Buffering", "no")
    ∷ rate_limit_headers limit

abbrev observe_each {ℓ} : {S : Type ℓ} → (String → S → S) → List String → S → S
observe_each count [] s = s
observe_each count (label ∷ labels) s = observe_each count labels (count label s)

module _ {S : Type 0} (registry : Prometheus S) where
  abbrev observed : Outcome → S → S
  observed o s =
      observe_each (observe_stream_disconnect registry) o.stream_disconnects
        (observe_each (observe_stream_error registry) o.stream_errors s)

  -- The `finally` after `stream.aclose()`.
  abbrev closing : Outcome → Result (Unit {0}) → S → Result (List StreamEvent) × S
  closing o (raised e) s = (raised e, s)
  closing o (ok _) s =
      (ok o.sent, stream_connection_closed registry (observe_stream_request registry o.result s))

  -- What is sent until the loop ends, where `aclose` is that of the service's stream.
  unfoldable pub chat_stream :
      (ℕ → Moment) → List StreamEvent → Exec S (Unit {0}) → Exec S (List StreamEvent)
  chat_stream moments events aclose s =
      let o = event_generator moments events in
      let (r, s') = aclose (observed o (stream_connection_opened registry s)) in closing o r s'

  module _ (laws : PrometheusLaws registry) where
    open registry use {value}

    abbrev pub active : S → ℤ
    active s = value s "chat_stream_active_connections" []

    active-observe_each_disconnect :
        (labels : List String) (s : S)
        → active (observe_each (observe_stream_disconnect registry) labels s) ≡ active s
    unfolding observe_stream_disconnect
    active-observe_each_disconnect [] s = refl
    active-observe_each_disconnect (label ∷ labels) s =
        active-observe_each_disconnect labels _ ∙ laws.value-add _ _ _ _ _ _

    active-observe_each_error :
        (labels : List String) (s : S)
        → active (observe_each (observe_stream_error registry) labels s) ≡ active s
    unfolding observe_stream_error
    active-observe_each_error [] s = refl
    active-observe_each_error (label ∷ labels) s =
        active-observe_each_error labels _ ∙ laws.value-add _ _ _ _ _ _

    active-opened : (s : S) → active (stream_connection_opened registry s) ≡ active s +ℤ pos 1
    unfolding stream_connection_opened
    active-opened s = laws.value-add _ _ _ _ _ _

    active-closed :
        (result : String) (s : S)
        → active (stream_connection_closed registry (observe_stream_request registry result s))
          ≡ active s +ℤ negsuc 0
    unfolding stream_connection_closed observe_stream_request
    active-closed result s =
        laws.value-add _ _ _ _ _ _
        ∙ ap (λ n. n +ℤ negsuc 0) (laws.value-observe _ _ _ _ _ ∙ laws.value-add _ _ _ _ _ _)

    abbrev pub is_returned : Result (List StreamEvent) → Bool
    is_returned (ok _) = true
    is_returned (raised e) = false

    -- However a stream ends, its connection is active no more afterwards, unless the close of the
    -- service's stream raises: then the connection still counts as active. The close itself leaves
    -- the gauge as it is.
    pub chat_stream-active :
        (moments : ℕ → Moment) (events : List StreamEvent) (aclose : Exec S (Unit {0})) (s : S)
        → ((t : S) → active (aclose t).1 ≡ active t)
        → active (chat_stream moments events aclose s).1 ≡ (
            if is_returned (chat_stream moments events aclose s).0
            then active s
            else active s +ℤ pos 1)
    unfolding chat_stream
    chat_stream-active moments events aclose s quiet =
        let o = event_generator moments events in
        let t = observed o (stream_connection_opened registry s) in
        let open_now : active (aclose t).1 ≡ active s +ℤ pos 1 =
          quiet t
          ∙ active-observe_each_disconnect o.stream_disconnects _
          ∙ active-observe_each_error o.stream_errors _
          ∙ active-opened s in
        elim (Result-cases (aclose t).0) [
          | inl (u, e) ↦
              rw e (
                active-closed o.result _
                ∙ ap (λ n. n +ℤ negsuc 0) open_now
                ∙ up_and_down (active s))
          | inr (x, e) ↦ rw e open_now
        ]
