-- ===== src/Routes/Sent.antt =====
-- What a client of the streaming route is sent.
use chatting.Common.{
  ℕ, ◌+◌, ◌≡◌, refl, ap, ◌⊎◌, inl, inr, Bool, true, false, List, [], ◌∷◌, ◌++◌, String,
}
use chatting.Chat.{StreamEvent, start, token, done, error}
use chatting.Routes.{
  Moment, out_of_time, waited_out, cancelled, client_gone, closed_at_yield, arrives, Outcome,
  stream_timeout, ended, timed_out, disconnected, sending, deliver, round, pump, event_generator,
}

-- The events up to the first that ends a stream.
abbrev pub until_end : List StreamEvent → List StreamEvent
until_end [] = []
until_end (error code message ∷ events) = error code message ∷ []
until_end (done ∷ events) = done ∷ []
until_end (start r t s ∷ events) = start r t s ∷ until_end events
until_end (token delta n ∷ events) = token delta n ∷ until_end events

abbrev pub has_error : List StreamEvent → Bool
has_error [] = false
has_error (error code message ∷ events) = true
has_error (done ∷ events) = has_error events
has_error (start r t s ∷ events) = has_error events
has_error (token delta n ∷ events) = has_error events

-- What was sent and the label, for the events `all` of the stream.
abbrev pub IsRun : (ℕ → Moment) → List StreamEvent → Outcome → Type 0
IsRun moments all o =
    ((o.result ≡ "success") × (o.sent ≡ all) × (has_error all ≡ false))
    ⊎ ((o.result ≡ "error") × (o.sent ≡ all) × (has_error all ≡ true))
    ⊎ ((o.result ≡ "timeout")
        × (first : List StreamEvent) × (rest : List StreamEvent) × (all ≡ first ++ rest)
        × (o.sent ≡ first ++ (stream_timeout ∷ [])))
    ⊎ ((o.result ≡ "disconnect") × (rest : List StreamEvent) × (all ≡ o.sent ++ rest))
    ⊎ ((o.result ≡ "success")
        × (k : ℕ) × (moments k ≡ closed_at_yield)
        × (rest : List StreamEvent) × (all ≡ o.sent ++ rest)
        × (has_error o.sent ≡ false))

module _ (moments : ℕ → Moment) where
  -- A run after one more event that does not end the stream.
  sending-IsRun :
      (event : StreamEvent) (all : List StreamEvent) (o : Outcome)
      → ((events : List StreamEvent) → has_error (event ∷ events) ≡ has_error events)
      → IsRun moments all o
      → IsRun moments (event ∷ all) (sending event o)
  sending-IsRun event all o same (inl (r, s, e)) = inl (r, ap (λ x. event ∷ x) s, rw (same all) e)
  sending-IsRun event all o same (inr (inl (r, s, e))) =
      inr (inl (r, ap (λ x. event ∷ x) s, rw (same all) e))
  sending-IsRun event all o same (inr (inr (inl (r, first, rest, p, s)))) =
      inr (inr (inl (r, event ∷ first, rest, ap (λ x. event ∷ x) p, ap (λ x. event ∷ x) s)))
  sending-IsRun event all o same (inr (inr (inr (inl (r, rest, p))))) =
      inr (inr (inr (inl (r, rest, ap (λ x. event ∷ x) p))))
  sending-IsRun event all o same (inr (inr (inr (inr (r, k, closed, rest, p, e))))) =
      inr (inr (inr (inr (r, k, closed, rest, ap (λ x. event ∷ x) p, rw (same o.sent) e))))

  timed_out-IsRun : (all : List StreamEvent) → IsRun moments all timed_out
  timed_out-IsRun all = inr (inr (inl (refl, [], all, refl, refl)))

  disconnected-IsRun :
      (all : List StreamEvent) (reason : String) → IsRun moments all (disconnected reason)
  disconnected-IsRun all reason = inr (inr (inr (inl (refl, all, refl))))

  deliver-IsRun :
      (event : StreamEvent) (events : List StreamEvent) (rest : Outcome)
      → IsRun moments (until_end events) rest
      → IsRun moments (until_end (event ∷ events)) (deliver event rest)
  unfolding deliver
  deliver-IsRun (error code message) events rest h = inr (inl (refl, refl, refl))
  deliver-IsRun done events rest h = inl (refl, refl, refl)
  deliver-IsRun (start r t s) events rest h =
      sending-IsRun (start r t s) (until_end events) rest (λ l. refl) h
  deliver-IsRun (token delta n) events rest h =
      sending-IsRun (token delta n) (until_end events) rest (λ l. refl) h

  closed-IsRun :
      (k : ℕ) (events : List StreamEvent)
      → moments k ≡ closed_at_yield
      → IsRun moments (until_end events) (ended "success")
  closed-IsRun k events closed =
      inr (inr (inr (inr (refl, k, closed, until_end events, refl, refl))))

  round-IsRun :
      (all : List StreamEvent) (moment : Moment) (gone closed next : Outcome)
      → IsRun moments all gone
      → (moment ≡ closed_at_yield → IsRun moments all closed)
      → IsRun moments all next
      → IsRun moments all (round moment gone closed next)
  round-IsRun all out_of_time gone closed next g c n = timed_out-IsRun all
  round-IsRun all waited_out gone closed next g c n = timed_out-IsRun all
  round-IsRun all cancelled gone closed next g c n = disconnected-IsRun all "client_cancelled"
  round-IsRun all client_gone gone closed next g c n = g
  round-IsRun all closed_at_yield gone closed next g c n = c refl
  round-IsRun all arrives gone closed next g c n = n

  pump-IsRun :
      (k : ℕ) (events : List StreamEvent) → IsRun moments (until_end events) (pump moments k events)
  unfolding pump
  pump-IsRun k [] =
      round-IsRun [] (moments k) _ _ _ (inl (refl, refl, refl)) (λ e. inl (refl, refl, refl))
        (inl (refl, refl, refl))
  pump-IsRun k (event ∷ events) =
      round-IsRun (until_end (event ∷ events)) (moments k) _ _ _
        (disconnected-IsRun (until_end (event ∷ events)) "client_disconnected")
        (λ e. deliver-IsRun event events (ended "success") (closed-IsRun k events e))
        (deliver-IsRun event events (pump moments (k + 1) events) (pump-IsRun (k + 1) events))

pub event_generator-IsRun :
    (moments : ℕ → Moment) (events : List StreamEvent)
    → IsRun moments (until_end events) (event_generator moments events)
unfolding event_generator
event_generator-IsRun moments events = pump-IsRun moments 0 events
