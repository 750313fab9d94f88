-- ===== src/Routes/Frames.antt =====
-- app/api/routes/chat.py and app/api/schemas/streaming.py: the bytes of the stream's response, with
-- the reader of server-sent events that a browser has (the WHATWG standard's, without `id` and
-- `retry`). `json.dumps` is an argument.
pub mod Reading
pub mod Schemas
pub mod Wire
use Prim.Native.String as Native
use Prim.Native.Char.{code}
use chatting.Common.{
  ℕ, String, Bool, true, false, not, ◌&&◌, ◌||◌, Option, none, some, List, [], ◌∷◌, ◌++◌, ◌==◌,
  nat_eq, if◌then◌else◌,
}
use chatting.Common.Text.{is_empty, has_char, split_once, cons_head, str, ◌<>◌}
use chatting.Json.{Json, null, number, text, object, no_fields, field}
use chatting.Chat.{StreamEvent, start, token, done, error}

abbrev pub event_name : StreamEvent → String
event_name (start _ _ _) = "start"
event_name (token _ _) = "token"
event_name done = "done"
event_name (error _ _) = "error"

-- The `data` that `stream_chat` and the route give to an event.
abbrev pub event_data : StreamEvent → Json
event_data (start request_id trace_id session_id) = object (
    field "request_id" (text request_id)
      (field "trace_id" (text trace_id) (field "session_id" (text session_id) no_fields)))
event_data (token delta sequence) =
    object (field "delta" (text delta) (field "sequence" (number (str sequence)) no_fields))
event_data done = object (field "finish_reason" (text "stop") (field "usage" null no_fields))
event_data (error code message) = object (
    field "error" (object (field "code" (text code) (field "message" (text message) no_fields)))
      no_fields)

module _ (dumps : Json → String) where
  unfoldable pub format_sse : String → Json → String
  format_sse event data_ = "event: " <> event <> "\ndata: " <> dumps data_ <> "\n\n"

  -- The body of the response, for the events that were sent.
  unfoldable pub sse_body : List StreamEvent → String
  unfolding format_sse
  sse_body [] = ""
  sse_body (event ∷ events) = format_sse (event_name event) (event_data event) <> sse_body events

-- The lines of a text, which end in a line feed, a carriage return, or the two together; the flag
-- is set behind a carriage return.
unfoldable pub lines : Bool → String → List String
lines returned Native.[] = Native.[] ∷ []
lines returned (Native.◌∷◌ c s) =
    let rest = lines (nat_eq (code c) 13) s in
    if nat_eq (code c) 10 && returned
    then rest
    else if nat_eq (code c) 10 || nat_eq (code c) 13
    then "" ∷ rest
    else cons_head c rest

-- One space behind the colon is no part of a field's value.
abbrev pub after_space : String → String
after_space Native.[] = Native.[]
after_space (Native.◌∷◌ c s) = if nat_eq (code c) 32 then s else Native.◌∷◌ c s

-- A line's field and its value.
abbrev pub field_of : String → String × String
field_of line =
    let (name, value) = split_once 58 line in
    if has_char 58 line then (name, after_space value) else (line, "")

-- The event that is being read: its type, and its data where a line of them has come.
pub record Pending : Type 0 where
  pub event : String
  pub received : Option String

abbrev pub nothing_yet : Pending
nothing_yet = record { event = ""; received = none }

abbrev pub added : Option String → String → String
added none value = value
added (some before) value = before <> "\n" <> value

abbrev pub set_field : String → String → Pending → Pending
set_field name value p =
    if name == "event"
    then record p { event = value }
    else if name == "data"
    then record p { received = some (added p.received value) }
    else p

-- A blank line hands on an event that has data; its type is "message" where none was named.
abbrev pub dispatched : Pending → List (String × String)
dispatched p = elim p.received [
  | none ↦ []
  | some value ↦ ((if is_empty p.event then "message" else p.event), value) ∷ []
]

unfoldable pub take_line : Pending → String → Pending × List (String × String)
take_line p line =
    let (name, value) = field_of line in
    if is_empty line then (nothing_yet, dispatched p) else (set_field name value p, [])

unfoldable pub read_lines : Pending → List String → List (String × String)
read_lines p [] = []
read_lines p (line ∷ rest) = let (next, out) = take_line p line in out ++ read_lines next rest

-- The events of a body, each with its type and its data.
unfoldable pub read_events : String → List (String × String)
read_events body = read_lines nothing_yet (lines false body)
