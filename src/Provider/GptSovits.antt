-- ===== src/Provider/GptSovits.antt =====
-- app/adapters/outbound/gptsovits_http_client.py: the client of the GPT-SoVITS server over HTTP. The clock of the
-- latencies and the logger's calls are left out; `on_retry`, which only logs, is the runtime's.
pub mod Outcomes
pub mod Replies
use chatting.Common.{
  ℕ, ◌+◌, String, Bool, true, false, ◌||◌, not, Option, none, some, List, [], ◌∷◌, map, leb, ltb,
}
use chatting.Common.{if◌then◌else◌, ℤ, pos, max_ℤ, ◌+ℤ◌}
use chatting.Common.Text.{is_empty, strip, rstrip_char, str, ◌<>◌}
use chatting.Signal.{RetrySignal, TimeoutType}
use chatting.Errors.{
  Exn, new, new_other, is_instance, code_or, tts_timeout_error, tts_bad_response_error,
}
use chatting.Exec.{Exec, Result, ok, raised, pure, raise, ◌>>=◌, ◌>>◌}
use chatting.Retry.{
  Float, RetryPolicy, Runtime, attach_retry_signal, should_retry_by_taxonomy, run_with_retry,
}
use chatting.Message.{ChatMessage}
use chatting.Chunks.{slices}
use chatting.Chat.Ports.{Chunks, LlmClient, Voice, TtsClient}
use chatting.Json.{
  Json, null, number, text, array, object, Fields, no_fields, field, get_field, get_of,
}
use chatting.Provider.Http.{
  Failure, Reply, response, failed, HttpClient, Wire, observe_provider_latency, posted, got,
  on_http, NewClient,
}

pub record GptSovitsHttpClient (F : Float) (S : Type 0) : Type 0 where
  pub base_url : String
  pub synthesis_idempotent : Bool
  pub retry_policy : RetryPolicy F
  pub client : HttpClient S
  pub owns_client : Bool

module _ (F : Float) {S : Type 0} where
  open F use {Seconds}

  -- `httpx.AsyncClient` is `new_client`.
  unfoldable pub tts_init :
      NewClient Seconds S
      → (base_url : String)
      → (connect_timeout_sec read_timeout_sec : Seconds) (retry_count : ℤ)
        (retry_base_delay_sec retry_max_delay_sec : Seconds) (retry_jitter_enabled : Bool)
        (retry_jitter_ratio retry_total_timeout_sec : Seconds) (synthesis_idempotent : Bool)
      → Option (HttpClient S)
      → GptSovitsHttpClient F S
  tts_init new_client base_url connect_timeout_sec read_timeout_sec retry_count retry_base_delay_sec
        retry_max_delay_sec retry_jitter_enabled retry_jitter_ratio retry_total_timeout_sec
        synthesis_idempotent http_client =
      record {
        base_url = rstrip_char 47 base_url;
        synthesis_idempotent = synthesis_idempotent;
        retry_policy = record {
          max_attempts = max_ℤ (pos 1) (retry_count +ℤ pos 1);
          base_delay_sec = retry_base_delay_sec;
          max_delay_sec = retry_max_delay_sec;
          jitter_enabled = retry_jitter_enabled;
          jitter_ratio = retry_jitter_ratio;
          total_timeout_sec = retry_total_timeout_sec;
        };
        client = elim http_client [
          | some client ↦ client
          | none ↦ new_client (record {
            connect = connect_timeout_sec;
            read = read_timeout_sec;
            write = read_timeout_sec;
            pool = connect_timeout_sec;
          })
        ];
        owns_client = elim http_client [ some client ↦ false | none ↦ true ];
      }

-- An error of this call, with its retry signal.
abbrev pub tts_signed : Bool → Exn → String → Option ℕ → Option TimeoutType → Exn
tts_signed idempotent err exception_type http_status timeout_type =
    attach_retry_signal err (record {
      provider = "tts";
      operation = "synthesize";
      idempotent = idempotent;
      error_code = code_or "" err;
      exception_type = exception_type;
      http_status = http_status;
      timeout_type = timeout_type;
      retryable_override = none;
    })

-- `isinstance(v, str) and v.strip()`
abbrev pub is_filled : Json → Bool
is_filled (text s) = not (is_empty (strip s))
is_filled _ = false

abbrev pub text_of : Json → String
text_of (text s) = s
text_of _ = ""

-- `if isinstance(v, str) and v.strip(): return f"{prefix}{v}"`, and what follows
abbrev pub audio_or : String → Json → Result String → Result String
audio_or prefix v rest = if is_filled v then ok (prefix <> text_of v) else rest

abbrev pub no_audio : Bool → Exn
no_audio idempotent =
    tts_signed idempotent (new tts_bad_response_error "tts response has no audio payload")
      "invalid_body" none none

abbrev pub audio_in : Bool → Fields → Result String
audio_in idempotent body = audio_or "" (get_field "audio_url" body) (
    audio_or "" (get_field "file_path" body) (
      audio_or "base64:" (get_field "audio_base64" body)
        (audio_or "base64:" (get_field "audio" body) (raised (no_audio idempotent)))))

-- A body that is no dict has no `get`.
unfoldable pub parse_audio_location : Bool → Json → Result String
parse_audio_location idempotent (object body) = audio_in idempotent body
parse_audio_location idempotent _ =
    raised (new_other "AttributeError" "object has no attribute 'get'")

module _ {S : Type 0} (idempotent : Bool) where
  abbrev pub tts_observe : String → Exec (Wire S) (Unit {0})
  tts_observe result = observe_provider_latency "tts" "synthesize" result

  -- The `except` clauses around `post`.
  unfoldable pub tts_on_failure : Failure → Exec (Wire S) String
  tts_on_failure Failure.connect_timeout =
      tts_observe "failure"
      >> raise (
          tts_signed idempotent (new tts_timeout_error "tts provider connect timeout") "timeout"
            none (some TimeoutType.connect_timeout))
  tts_on_failure Failure.read_timeout =
      tts_observe "failure"
      >> raise (
          tts_signed idempotent (new tts_timeout_error "tts provider read timeout") "timeout" none
            (some TimeoutType.read_timeout))
  tts_on_failure Failure.other_timeout =
      tts_observe "failure"
      >> raise (
          tts_signed idempotent (new tts_timeout_error "tts provider total timeout") "timeout" none
            (some TimeoutType.total_timeout))
  tts_on_failure Failure.network_error =
      tts_observe "failure"
      >> raise (
          tts_signed idempotent (new tts_bad_response_error "tts transient network error")
            "network_error" none none)
  tts_on_failure Failure.other_http_error =
      tts_observe "failure"
      >> raise (
          tts_signed idempotent (new tts_bad_response_error "tts transport error") "transport_error"
            none none)
  tts_on_failure (Failure.unrelated e) = raise e

  -- From `response.json()` on. A body that does not parse is not counted.
  unfoldable pub tts_on_body : Option Json → Exec (Wire S) String
  tts_on_body none =
      tts_observe "failure"
      >> raise (
          tts_signed idempotent (new tts_bad_response_error "tts response is not valid json")
            "invalid_json" none none)
  tts_on_body (some body) = elim (parse_audio_location idempotent body) [
    | raised e ↦ raise e
    | ok content ↦ tts_observe "success" >> pure content
  ]

  unfoldable pub tts_on_response : ℕ → Option Json → Exec (Wire S) String
  tts_on_response status body =
      if leb 400 status
      then (tts_observe "failure"
          >> raise (
              tts_signed idempotent (new tts_bad_response_error ("tts status=" <> str status))
                "http_status" (some status) none))
      else tts_on_body body

  unfoldable pub tts_on_reply : Reply → Exec (Wire S) String
  tts_on_reply (failed failure) = tts_on_failure failure
  tts_on_reply (response status body) = tts_on_response status body

-- An optional text, where `None` is null
abbrev pub optional : Option String → Json
optional none = null
optional (some s) = text s

abbrev pub tts_payload : String → Voice → Json
tts_payload spoken voice = object (
    field "text" (text spoken) (
      field "reference"
        (object (
          field "voice_id" (optional voice.voice_id) (
            field "speaker" (optional voice.speaker) (
              field "language" (optional voice.language)
                (field "audio_url" (optional voice.reference_audio_url) no_fields)))))
        no_fields))

-- The `except` clauses round the retry loop.
unfoldable pub tts_settle : Result (Option String) → Result (Option String)
tts_settle (ok content) = ok content
tts_settle (raised e) =
    if is_instance e tts_timeout_error || is_instance e tts_bad_response_error
    then raised e
    else raised (new tts_bad_response_error "tts synthesis failed")

module _ (F : Float) {S : Type 0} (rt : Runtime F (Wire S)) (self : GptSovitsHttpClient F S) where
  -- One round: `_request`.
  unfoldable pub tts_request : Json → Exec (Wire S) String
  tts_request payload w =
      let (reply, w') = posted self.client (self.base_url <> "/synthesize") payload w in
      tts_on_reply self.synthesis_idempotent reply w'

  -- `None` stands for a retry loop that ended without a result.
  unfoldable pub tts_synthesize : String → Voice → Exec (Wire S) (Option String)
  tts_synthesize spoken voice w =
      let (r, w') =
        run_with_retry F self.retry_policy rt (tts_request (tts_payload spoken voice))
          should_retry_by_taxonomy w in
      (tts_settle r, w')

  unfoldable pub tts_ping : Exec (Wire S) Bool
  tts_ping = got self.client (self.base_url <> "/health") >>= λ r. elim r [
    | raised e ↦ observe_provider_latency "tts" "ping" "failure" >> pure false
    | ok status ↦
        observe_provider_latency "tts" "ping" (if ltb status 500 then "success" else "failure")
        >> pure (ltb status 500)
  ]

  unfoldable pub tts_close : Exec (Wire S) (Unit {0})
  tts_close = if self.owns_client then on_http self.client.aclose else pure tt
