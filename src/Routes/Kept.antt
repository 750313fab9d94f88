-- ===== src/Routes/Kept.antt =====
-- The streaming route over the chat service: what the label "success" says of the stored session.
use chatting.Common.{
  apart, ℕ, ◌+◌, ◌≡◌, ◌≢◌, refl, sym, ap, ◌∙◌, ◌⊎◌, inl, inr, String, true, false, List, [], ◌∷◌,
  ◌++◌,
}
use mathlib.Core.Bool.{true≢false}
use chatting.Common.Text.{◌<>◌}
use chatting.Chat.{
  ChatOrchestrationService, StreamEvent, start, token, done, error, Yields, stream_chat,
}
use chatting.Chat.Stream.{IsNumbered, deltas, IsStored, stream_chat-IsTail}
use chatting.Routes.{Moment, closed_at_yield, Outcome, event_generator}
use chatting.Routes.Sent.{IsRun, until_end, has_error, event_generator-IsRun}

-- The text that the client has been sent.
abbrev pub text_sent : List StreamEvent → String
text_sent [] = ""
text_sent (token delta n ∷ events) = delta <> text_sent events
text_sent (start r t s ∷ events) = text_sent events
text_sent (done ∷ events) = text_sent events
text_sent (error code message ∷ events) = text_sent events

-- Where the generator is not closed at a yield, the label is not "success" for any other reason than
-- a whole stream without an error.
success-IsRun :
    (moments : ℕ → Moment) (all : List StreamEvent) (o : Outcome)
    → ((k : ℕ) → moments k ≢ closed_at_yield)
    → IsRun moments all o
    → o.result ≡ "success"
    → (o.sent ≡ all) × (has_error all ≡ false)
success-IsRun moments all o lasts (inl (r, s, e)) h = (s, e)
success-IsRun moments all o lasts (inr (inl (r, _, _))) h =
    absurd (apart "error" "success" refl (sym r ∙ h))
success-IsRun moments all o lasts (inr (inr (inl (r, _, _, _, _)))) h =
    absurd (apart "timeout" "success" refl (sym r ∙ h))
success-IsRun moments all o lasts (inr (inr (inr (inl (r, _, _))))) h =
    absurd (apart "disconnect" "success" refl (sym r ∙ h))
success-IsRun moments all o lasts (inr (inr (inr (inr (_, k, closed, _, _, _))))) h =
    absurd (lasts k closed)

module _ {S : Type 0} where
  abbrev pub events_of : Yields S → List StreamEvent
  events_of [] = []
  events_of ((event, s) ∷ events) = event ∷ events_of events

  -- A reply that ends well is sent whole, and its tokens are its text.
  whole_reply :
      (n : ℕ) (sent : Yields S) (s : S)
      → IsNumbered n sent
      → (until_end (events_of (sent ++ ((done, s) ∷ []))) ≡ events_of (sent ++ ((done, s) ∷ [])))
        × (text_sent (events_of (sent ++ ((done, s) ∷ []))) ≡ deltas sent)
  whole_reply n [] s h = (refl, refl)
  whole_reply n ((token delta k, t) ∷ sent) s h =
      let rest = whole_reply (n + 1) sent s h.2 in
      (ap (λ x. token delta k ∷ x) rest.0, ap (λ (x : String). delta <> x) rest.1)
  whole_reply n ((start a b c, t) ∷ sent) s h = absurd h
  whole_reply n ((done, t) ∷ sent) s h = absurd h
  whole_reply n ((error a b, t) ∷ sent) s h = absurd h

  failed_reply :
      (n : ℕ) (sent : Yields S) (code message : String) (s : S)
      → IsNumbered n sent
      → has_error (until_end (events_of (sent ++ ((error code message, s) ∷ [])))) ≡ true
  failed_reply n [] code message s h = refl
  failed_reply n ((token delta k, t) ∷ sent) code message s h =
      failed_reply (n + 1) sent code message s h.2
  failed_reply n ((start a b c, t) ∷ sent) code message s h = absurd h
  failed_reply n ((done, t) ∷ sent) code message s h = absurd h
  failed_reply n ((error a b, t) ∷ sent) code message s h = absurd h

  module _ (service : ChatOrchestrationService S) (session_id user_message : String) where
    tail_kept :
        (tail sent : Yields S) (event : StreamEvent) (s last : S)
        → tail ≡ sent ++ ((event, s) ∷ [])
        → IsNumbered 0 sent
        → ((event ≡ done) × IsStored service session_id user_message (deltas sent) last)
          ⊎ ((code : String) × (message : String) × (event ≡ error code message))
        → has_error (until_end (events_of tail)) ≡ false
        → IsStored service session_id user_message (text_sent (until_end (events_of tail))) last
    tail_kept tail sent event s last order numbered (inl (e, stored)) fine =
        let whole = whole_reply 0 sent s numbered in rw (order, e, whole.0, whole.1) stored
    tail_kept tail sent event s last order numbered (inr (code, message, e)) fine =
        absurd
          (true≢false (sym (failed_reply 0 sent code message s numbered) ∙ (rw (order, e) at fine)))

    -- Where a stream that is not closed at a yield ends with the label "success", the store took the turn, whose assistant's message is the text that this client
    -- was sent, stripped, and not empty.
    pub event_generator-IsStored :
        (request_id trace_id : String) (s : S) (moments : ℕ → Moment)
        → ((k : ℕ) → moments k ≢ closed_at_yield)
        → let r = stream_chat service session_id user_message request_id trace_id s in
          let o = event_generator moments (events_of r.events) in
          o.result ≡ "success" → IsStored service session_id user_message (text_sent o.sent) r.last
    event_generator-IsStored request_id trace_id s moments lasts h =
        let (tail, order, t) =
          stream_chat-IsTail service session_id user_message request_id trace_id s in
        let events =
          events_of (stream_chat service session_id user_message request_id trace_id s).events in
        let run =
          success-IsRun moments (until_end events) (event_generator moments events) lasts
            (event_generator-IsRun moments events) h in
        rw (run.0, order)
          (tail_kept tail t.sent t.final.0 t.final.1 _ t.order t.numbered t.ending
            (rw order at run.1))
