-- ===== src/Routes/Frames/Schemas.antt =====
-- app/api/schemas/streaming.py: the payload of a stream request and the data of the four events,
-- as pydantic reads them from JSON. A default stands where the key is missing.
use mathlib.Core.Option
use chatting.Common.{
  ◌≡◌, refl, String, Bool, not, ◌&&◌, Option, none, some, leb, ◌==◌, if◌then◌else◌, ℤ, pos, negsuc,
}
use chatting.Common.Text.{is_empty, length}
use chatting.Common.Text.Decimal.{parse_int-str}
use chatting.Json.{
  ◌>>=◌, str_field, int_field, has_field, optional_dict, Json, object, Fields, get_field,
}
use chatting.Chat.{StreamEvent, start, token, done, error}
use chatting.Routes.Frames.{event_name, event_data}

pub record ChatStreamRequest : Type 0 where
  pub session_id : String
  pub message : String
  pub response_mode : String

-- The constraints of the fields.
abbrev pub is_accepted : ChatStreamRequest → Bool
is_accepted r =
    not (is_empty r.session_id)
    && leb (length r.session_id) 128
    && not (is_empty r.message)
    && r.response_mode == "text"

pub record StreamStartData : Type 0 where
  pub request_id : String
  pub trace_id : String
  pub session_id : String

pub record StreamTokenData : Type 0 where
  pub delta : String
  pub sequence : ℤ

-- `usage` is a dict or None.
pub record StreamDoneData : Type 0 where
  pub finish_reason : String
  pub usage : Option Fields

pub record StreamErrorDetail : Type 0 where
  pub code : String
  pub message : String

pub record StreamErrorData : Type 0 where
  pub error : StreamErrorDetail

abbrev start_in : Fields → Option StreamStartData
start_in fields = do
  request_id ← str_field "request_id" fields
  trace_id ← str_field "trace_id" fields
  session_id ← str_field "session_id" fields
  some (record { request_id = request_id; trace_id = trace_id; session_id = session_id })

abbrev token_in : Fields → Option StreamTokenData
token_in fields = do
  delta ← str_field "delta" fields
  sequence ← int_field "sequence" fields
  some (record { delta = delta; sequence = sequence })

abbrev done_in : Fields → Option StreamDoneData
done_in fields = do
  finish_reason ←
      (if has_field "finish_reason" fields then str_field "finish_reason" fields else some "stop")
  usage ← optional_dict "usage" fields
  some (record { finish_reason = finish_reason; usage = usage })

abbrev detail_in : Json → Option StreamErrorDetail
detail_in (object fields) = do
  code ← str_field "code" fields
  message ← str_field "message" fields
  some (record { code = code; message = message })
detail_in _ = none

abbrev error_in : Fields → Option StreamErrorData
error_in fields = do detail ← detail_in (get_field "error" fields); some (record { error = detail })

abbrev accept : ChatStreamRequest → Option ChatStreamRequest
accept r = if is_accepted r then some r else none

-- The body of a request, where it is accepted.
unfoldable pub request_in : Json → Option ChatStreamRequest
request_in (object fields) = do
  session_id ← str_field "session_id" fields
  message ← str_field "message" fields
  response_mode ←
      (if has_field "response_mode" fields then str_field "response_mode" fields else some "text")
  accept (record { session_id = session_id; message = message; response_mode = response_mode })
request_in _ = none

-- The data of an event, by the schema of its name.
pub data StreamData : Type 0 where
  of_start : StreamStartData → StreamData
  of_token : StreamTokenData → StreamData
  of_done : StreamDoneData → StreamData
  of_error : StreamErrorData → StreamData

abbrev by_name : String → Fields → Option StreamData
by_name name fields =
    if name == "start"
    then Option.map of_start (start_in fields)
    else if name == "token"
    then Option.map of_token (token_in fields)
    else if name == "done"
    then Option.map of_done (done_in fields)
    else if name == "error"
    then Option.map of_error (error_in fields)
    else none

unfoldable pub validate : String → Json → Option StreamData
validate name (object fields) = by_name name fields
validate name _ = none

-- The data that the service means by an event.
abbrev pub data_of : StreamEvent → StreamData
data_of (start request_id trace_id session_id) =
    of_start (record { request_id = request_id; trace_id = trace_id; session_id = session_id })
data_of (token delta sequence) = of_token (record { delta = delta; sequence = pos sequence })
data_of done = of_done (record { finish_reason = "stop"; usage = none })
data_of (error code message) =
    of_error (record { error = record { code = code; message = message } })

-- The event that a client takes the data for.
abbrev pub event_of : StreamData → Option StreamEvent
event_of (of_start d) = some (start d.request_id d.trace_id d.session_id)
event_of (of_token d) = sequence_of d.delta d.sequence
  where
    sequence_of : String → ℤ → Option StreamEvent
    sequence_of delta (pos n) = some (token delta n)
    sequence_of delta (negsuc n) = none
event_of (of_done d) = some done
event_of (of_error d) = some (error d.error.code d.error.message)

-- The data of every event that the service and the route send is of the schema that streaming.py
-- declares for its name, with the values that the event stands for.
pub validate-data_of :
    (event : StreamEvent) → validate (event_name event) (event_data event) ≡ some (data_of event)
unfolding validate get_field
validate-data_of (start request_id trace_id session_id) = refl
validate-data_of (token delta sequence) = rw (parse_int-str sequence) refl
validate-data_of done = refl
validate-data_of (error code message) = refl

pub event_of-data_of : (event : StreamEvent) → event_of (data_of event) ≡ some event
event_of-data_of (start request_id trace_id session_id) = refl
event_of-data_of (token delta sequence) = refl
event_of-data_of done = refl
event_of-data_of (error code message) = refl
