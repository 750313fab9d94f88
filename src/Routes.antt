-- ===== src/Routes.antt =====
-- app/api/routes/chat.py: the two chat routes, behind the authentication. FastAPI validates the
-- payload (Payload) and calls the dependencies. What is sent is a list of events here, and its bytes
-- in Frames. The durations and the logger's calls are left out.
pub mod Sent
pub mod Kept
pub mod Counted
pub mod Frames
pub mod Payload
use chatting.Common.{
  ℕ, suc, ◌+◌, String, Bool, true, false, Option, none, some, List, [], ◌∷◌, ◌++◌, ◌==◌,
  if◌then◌else◌, ℤ, pos, negsuc,
}
use chatting.Common.Text.{str, ◌<>◌}
use chatting.Exec.{Exec, Result, ok, raised}
use chatting.RateLimit.{RateLimitDecision}
use chatting.Chat.Ports.{Voice}
use chatting.Chat.{
  ChatOrchestrationService, ChatResult, StreamEvent, start, token, done, error, chat,
}
use chatting.App.{Context}

pub record ChatRequest : Type 0 where
  pub session_id : String
  pub message : String
  pub response_mode : String
  pub voice : Voice

pub record ChatResponse : Type 0 where
  pub request_id : String
  pub trace_id : String
  pub text : String
  pub audio_url : Option String
  pub response_mode : String

-- The service's state beside the labels that `observe_chat_request` counted.
pub record Served (S : Type 0) : Type 0 where
  pub state : S
  pub chat_requests : List (String × String)

abbrev str_ℤ : ℤ → String
str_ℤ (pos n) = str n
str_ℤ (negsuc n) = "-" <> str (suc n)

-- The headers of a response, where the limiter was asked for the tenant.
unfoldable pub rate_limit_headers : Option RateLimitDecision → List (String × String)
rate_limit_headers none = []
rate_limit_headers (some d) =
    ("X-RateLimit-Limit", str_ℤ d.limit)
    ∷ ("X-RateLimit-Remaining", str_ℤ d.remaining)
    ∷ ("X-RateLimit-Reset", str d.reset_at_epoch_sec)
    ∷ []

abbrev pub response_of : Context → ChatRequest → ChatResult → ChatResponse
response_of ctx payload result = record {
  request_id = ctx.request_id;
  trace_id = ctx.trace_id;
  text = result.text;
  audio_url = result.audio_url;
  response_mode = payload.response_mode;
}

module _ {S : Type 0} where
  abbrev pub observe_chat_request : String → String → S → Served S → Served S
  observe_chat_request mode result s w = record {
    state = s;
    chat_requests = w.chat_requests ++ ((mode, result) ∷ []);
  }

  unfoldable pub chat_route :
      ChatOrchestrationService S
      → Context
      → Option RateLimitDecision
      → ChatRequest
      → Exec (Served S) (ChatResponse × List (String × String))
  chat_route service ctx limit payload w =
      let (r, s) =
        chat service payload.session_id payload.message (payload.response_mode == "text_audio")
          payload.voice w.state in
      elim r [
        | raised e ↦ (raised e, observe_chat_request payload.response_mode "failure" s w)
        | ok result ↦ (
          ok (response_of ctx payload result, rate_limit_headers limit),
          observe_chat_request payload.response_mode "success" s w,
        )
      ]

-- What a round of the loop of `event_generator` meets: no time is left before it waits, its wait
-- times out, the task is cancelled, or the wait ends in time, with the client gone or still there.
-- Where it is there, the generator may be closed while it is suspended at the yield of the event.
pub data Moment : Type 0 where
  out_of_time waited_out cancelled client_gone closed_at_yield arrives : Moment

-- What the generator sent until it ended, its `result`, and the counted errors and disconnects.
pub record Outcome : Type 0 where
  pub sent : List StreamEvent
  pub result : String
  pub stream_errors : List String
  pub stream_disconnects : List String

abbrev pub stream_timeout : StreamEvent
stream_timeout = error "STREAM_TIMEOUT" "stream timeout exceeded"

abbrev pub timed_out : Outcome
timed_out = record {
  sent = stream_timeout ∷ [];
  result = "timeout";
  stream_errors = "STREAM_TIMEOUT" ∷ [];
  stream_disconnects = [];
}

abbrev pub disconnected : String → Outcome
disconnected reason = record {
  sent = [];
  result = "disconnect";
  stream_errors = [];
  stream_disconnects = reason ∷ [];
}

-- The loop was left with this `result` and nothing more was sent.
abbrev pub ended : String → Outcome
ended result = record { sent = []; result = result; stream_errors = []; stream_disconnects = [] }

abbrev pub sending : StreamEvent → Outcome → Outcome
sending event o = record o { sent = event ∷ o.sent }

-- An event that arrived in time, with what the next rounds do.
unfoldable pub deliver : StreamEvent → Outcome → Outcome
deliver (error code message) rest = record (sending (error code message) (ended "error")) {
  stream_errors = code ∷ [];
}
deliver done rest = sending done (ended "success")
deliver (start request_id trace_id session_id) rest =
    sending (start request_id trace_id session_id) rest
deliver (token delta sequence) rest = sending (token delta sequence) rest

-- One round: what it comes to where the client is gone, where the generator is closed at the yield
-- of the event, and where an event or the end arrives.
abbrev pub round : Moment → (gone closed next : Outcome) → Outcome
round out_of_time gone closed next = timed_out
round waited_out gone closed next = timed_out
round cancelled gone closed next = disconnected "client_cancelled"
round client_gone gone closed next = gone
round closed_at_yield gone closed next = closed
round arrives gone closed next = next

-- The rounds from the k-th on, over the events that the service has still to yield. The end of the
-- stream leaves the loop before it looks for the client or yields. A generator that is closed at a
-- yield goes on with `finally`: GeneratorExit is no CancelledError.
unfoldable pub pump : (ℕ → Moment) → ℕ → List StreamEvent → Outcome
pump moments k [] = round (moments k) (ended "success") (ended "success") (ended "success")
pump moments k (event ∷ events) =
    let rest = pump moments (k + 1) events in
    round (moments k) (disconnected "client_disconnected") (deliver event (ended "success"))
      (deliver event rest)

unfoldable pub event_generator : (ℕ → Moment) → List StreamEvent → Outcome
event_generator moments events = pump moments 0 events
