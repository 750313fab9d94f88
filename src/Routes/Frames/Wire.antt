-- ===== src/Routes/Frames/Wire.antt =====
-- The streaming route from the service's events to what a client reads of the response's bytes.
use mathlib.Core.Option
use chatting.Common.{◌≢◌, ◌≡◌, refl, ap, String, true, false, Option, some, List, [], ◌∷◌, map, ℕ}
use chatting.Common.Text.{is_empty, ◌<>◌}
use chatting.Json.{Json}
use chatting.Chat.{ChatOrchestrationService, StreamEvent, start, token, done, error, stream_chat}
use chatting.Chat.Stream.{IsStored}
use chatting.Routes.{Moment, closed_at_yield, event_generator}
use chatting.Routes.Kept.{events_of, text_sent, event_generator-IsStored}
use chatting.Routes.Frames.{event_name, event_data, sse_body, read_events}
use chatting.Routes.Frames.Reading.{is_line, read_events-format_sse, read_events-nil}
use chatting.Routes.Frames.Schemas.{validate, event_of, validate-data_of, event_of-data_of}

-- What is asked of `json.dumps` and a client's `json.loads`: the data of an event is printed on one
-- line, and read back.
pub record JsonLaws (dumps : Json → String) (loads : String → Option Json) : Type 0 where
  pub one_line : (event : StreamEvent) → is_line (dumps (event_data event)) ≡ true
  pub loads-dumps :
      (event : StreamEvent) → loads (dumps (event_data event)) ≡ some (event_data event)

module _ (dumps : Json → String) (loads : String → Option Json) where
  -- What a client makes of an event's name and data: it parses the data and reads it by the schema.
  unfoldable pub received : String × String → Option StreamEvent
  received (name, value) =
      Option.bind (loads value) (λ json. Option.bind (validate name json) event_of)

  -- The text that a client shows: the deltas of the tokens.
  abbrev pub shown : List (Option StreamEvent) → String
  shown [] = ""
  shown (some (token delta sequence) ∷ events) = delta <> shown events
  shown (_ ∷ events) = shown events

  shown-some : (events : List StreamEvent) → shown (map some events) ≡ text_sent events
  shown-some [] = refl
  shown-some (start r t s ∷ events) = shown-some events
  shown-some (token delta n ∷ events) = ap (λ (x : String). delta <> x) (shown-some events)
  shown-some (done ∷ events) = shown-some events
  shown-some (error code message ∷ events) = shown-some events

  module _ (laws : JsonLaws dumps loads) where
    open laws use {one_line, loads-dumps}

    received-sent :
        (event : StreamEvent) → received (event_name event, dumps (event_data event)) ≡ some event
    unfolding received Option.bind
    received-sent event = rw (loads-dumps event, validate-data_of event) (event_of-data_of event)

    event_name-is_line :
        (event : StreamEvent)
        → (is_line (event_name event) ≡ true) × (is_empty (event_name event) ≡ false)
    event_name-is_line (start r t s) = (refl, refl)
    event_name-is_line (token delta n) = (refl, refl)
    event_name-is_line done = (refl, refl)
    event_name-is_line (error code message) = (refl, refl)

    -- A client that reads the bytes of the response as server-sent events, and their data as JSON of
    -- the declared schemas, gets the very events that were sent, in their order.
    pub read_events-sse_body :
        (events : List StreamEvent)
        → map received (read_events (sse_body dumps events)) ≡ map some events
    unfolding sse_body
    read_events-sse_body [] = rw read_events-nil refl
    read_events-sse_body (event ∷ events) =
        let (h, k) = event_name-is_line event in
        rw
          (
            read_events-format_sse dumps (event_name event) (event_data event)
                (sse_body dumps events) h k (one_line event),
            received-sent event,
            read_events-sse_body events,
          )
          refl

    module _ {S : Type 0} (service : ChatOrchestrationService S)
        (session_id user_message : String) where
      -- Whatever the clients, the store and the network do: where a stream that is not closed at a
      -- yield ends with the label "success", the store took the turn, whose assistant's message is
      -- the text that a client shows from the bytes of the response, stripped, and not empty. The
      -- printer of JSON keeps the data of an event on one line, and the client reads it back.
      pub sse_body-IsStored :
          (request_id trace_id : String) (s : S) (moments : ℕ → Moment)
          → ((k : ℕ) → moments k ≢ closed_at_yield)
          → let r = stream_chat service session_id user_message request_id trace_id s in
            let o = event_generator moments (events_of r.events) in
            o.result ≡ "success"
            → IsStored service session_id user_message
                (shown (map received (read_events (sse_body dumps o.sent))))
                r.last
      sse_body-IsStored request_id trace_id s moments lasts h =
          rw (read_events-sse_body _, shown-some _)
            (event_generator-IsStored service session_id user_message request_id trace_id s moments
              lasts h)
