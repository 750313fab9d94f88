-- ===== src/Mock.antt =====
-- app/mock_servers/vllm_mock.py and gptsovits_mock.py: the servers that stand in for the providers.
-- FastAPI reads a payload by its pydantic model and answers 422 where it does not fit, which is
-- `none` here; a handler's dict is the JSON of a response with the status 200. `str` of a value that
-- is no text is an argument.
pub mod Reached
pub mod Spoken
use mathlib.Core.List.{reverse}
use mathlib.Core.Option
use chatting.Common.{
  String, Bool, ◌==◌, true, false, Option, none, some, List, [], ◌∷◌, if◌then◌else◌, ℤ,
}
use chatting.Common.Text.{strip, take, replace_spaces, ◌<>◌}
use chatting.Json.{
  Json, null, number, text, array, object, no_items, item, Fields, no_fields, field, get_field,
  has_field, ◌>>=◌, str_field, optional_int, optional_float, optional_dict, dicts_field,
}

-- The handler of `GET /health`, in both servers.
abbrev pub health : String → Json
health provider = object (field "status" (text "ok") (field "provider" (text provider) no_fields))

pub record ChatCompletionRequest : Type 0 where
  pub model : String
  pub messages : List Fields
  pub temperature : Option String
  pub max_tokens : Option ℤ

unfoldable pub completion_request_in : Json → Option ChatCompletionRequest
completion_request_in (object fields) = do
  model ← str_field "model" fields
  messages ← dicts_field "messages" fields
  temperature ← optional_float "temperature" fields
  max_tokens ← optional_int "max_tokens" fields
  some (record {
    model = model;
    messages = messages;
    temperature = temperature;
    max_tokens = max_tokens;
  })
completion_request_in _ = none

-- `msg.get("role") == "user"`
abbrev pub is_user : Json → Bool
is_user (text role) = role == "user"
is_user _ = false

abbrev pub completion : String → Json
completion content = object (
    field "id" (text "cmpl-mock-1") (
      field "object" (text "chat.completion") (
        field "choices"
          (array (
            item
              (object (
                field "index" (number "0") (
                  field "message"
                    (object
                      (field "role" (text "assistant") (field "content" (text content) no_fields)))
                    (field "finish_reason" (text "stop") no_fields))))
              no_items))
          (field "usage"
            (object (
              field "prompt_tokens" (number "12") (
                field "completion_tokens" (number "8")
                  (field "total_tokens" (number "20") no_fields))))
            no_fields))))

module _ (str_of : Json → String) where
  -- `str(v)`
  abbrev pub as_str : Json → String
  as_str (text s) = s
  as_str v = str_of v

  -- `str(msg.get("content", ""))`
  abbrev pub content_str : Fields → String
  content_str msg = if has_field "content" msg then as_str (get_field "content" msg) else ""

  -- The loop over `reversed(payload.messages)`.
  unfoldable pub last_user_in : List Fields → String
  last_user_in [] = ""
  last_user_in (msg ∷ messages) =
      let rest = last_user_in messages in
      if is_user (get_field "role" msg) then content_str msg else rest

  unfoldable pub mock_text : List Fields → String
  unfolding last_user_in
  mock_text messages = strip ("mock-vllm-reply: " <> last_user_in (reverse messages))

  unfoldable pub chat_completions : Json → Option Json
  chat_completions payload =
      Option.map (λ r. completion (mock_text r.messages)) (completion_request_in payload)

pub record SynthesizeRequest : Type 0 where
  pub spoken : String
  pub reference : Option Fields

unfoldable pub synthesize_request_in : Json → Option SynthesizeRequest
synthesize_request_in (object fields) = do
  spoken ← str_field "text" fields
  reference ← optional_dict "reference" fields
  some (record { spoken = spoken; reference = reference })
synthesize_request_in _ = none

abbrev pub audio_url : String → String
audio_url spoken = "https://audio.mock.local/" <> replace_spaces (take 24 spoken) <> ".wav"

unfoldable pub synthesize : Json → Option Json
synthesize payload =
    Option.map (λ r. object (field "audio_url" (text (audio_url r.spoken)) no_fields))
      (synthesize_request_in payload)
