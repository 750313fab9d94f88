-- ===== src/Routes/Payload.antt =====
-- app/api/schemas/chat.py: the payload of a chat request, as pydantic reads it from JSON.
use chatting.Common.{Bool, not, ◌&&◌, ◌||◌, Option, none, some, leb, ◌==◌, if◌then◌else◌}
use chatting.Common.Text.{is_empty, length}
use chatting.Json.{Json, object, Fields, ◌>>=◌, str_field, has_field, optional_str}
use chatting.Chat.Ports.{Voice}
use chatting.Routes.{ChatRequest}

-- The constraints of the fields.
abbrev pub fits : ChatRequest → Bool
fits r =
    not (is_empty r.session_id)
    && leb (length r.session_id) 128
    && not (is_empty r.message)
    && (r.response_mode == "text" || r.response_mode == "text_audio")

abbrev voice_in : Fields → Option Voice
voice_in fields = do
  voice_id ← optional_str "voice_id" fields
  speaker ← optional_str "speaker" fields
  language ← optional_str "language" fields
  reference_audio_url ← optional_str "reference_audio_url" fields
  some (record {
    voice_id = voice_id;
    speaker = speaker;
    language = language;
    reference_audio_url = reference_audio_url;
  })

abbrev where_fits : ChatRequest → Option ChatRequest
where_fits r = if fits r then some r else none

-- `none` is a RequestValidationError.
unfoldable pub chat_request_in : Json → Option ChatRequest
chat_request_in (object fields) = do
  session_id ← str_field "session_id" fields
  message ← str_field "message" fields
  response_mode ←
      (if has_field "response_mode" fields then str_field "response_mode" fields else some "text")
  voice ← voice_in fields
  where_fits (record {
    session_id = session_id;
    message = message;
    response_mode = response_mode;
    voice = voice;
  })
chat_request_in _ = none
