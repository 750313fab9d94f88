-- ===== src/Provider/Vllm.antt =====
-- app/adapters/outbound/vllm_http_client.py: the client of the vLLM server over HTTP. The clock of the
-- latencies and the logger's calls are left out; `on_retry`, which only logs, is the runtime's.
pub mod Outcomes
pub mod Content
pub mod Replies
use chatting.Common.{
  ℕ, ◌+◌, String, Bool, true, false, ◌||◌, Option, none, some, List, [], ◌∷◌, map, leb, ltb,
}
use chatting.Common.{if◌then◌else◌, ℤ, pos, max_ℤ, ◌+ℤ◌}
use chatting.Common.Text.{is_empty, strip, rstrip_char, str, ◌<>◌}
use chatting.Signal.{RetrySignal, TimeoutType}
use chatting.Errors.{
  Exn, new, new_other, is_instance, code_or, llm_timeout_error, llm_bad_response_error,
}
use chatting.Exec.{Exec, Result, ok, raised, pure, raise, ◌>>=◌, ◌>>◌}
use chatting.Retry.{
  Float, RetryPolicy, Runtime, attach_retry_signal, should_retry_by_taxonomy, run_with_retry,
}
use chatting.Message.{ChatMessage}
use chatting.Chunks.{slices}
use chatting.Chat.Ports.{Chunks, LlmClient, Voice, TtsClient}
use chatting.Json.{
  Json, null, number, text, array, object, Items, no_items, item, no_fields, field, get_field,
  get_of,
}
use chatting.Provider.Http.{
  Failure, Reply, response, failed, HttpClient, Wire, observe_provider_latency, posted, got,
  on_http, NewClient,
}

pub record VllmHttpClient (F : Float) (S : Type 0) : Type 0 where
  pub base_url : String
  pub model : String
  -- the JSON texts of the two numbers
  pub temperature : String
  pub max_tokens : String
  pub retry_policy : RetryPolicy F
  pub client : HttpClient S
  pub owns_client : Bool

module _ (F : Float) {S : Type 0} where
  open F use {Seconds}

  -- `httpx.AsyncClient` is `new_client`.
  unfoldable pub llm_init :
      NewClient Seconds S
      → (base_url : String) (model temperature max_tokens : String)
      → (connect_timeout_sec read_timeout_sec : Seconds) (retry_count : ℤ)
        (retry_base_delay_sec retry_max_delay_sec : Seconds) (retry_jitter_enabled : Bool)
        (retry_jitter_ratio retry_total_timeout_sec : Seconds)
      → Option (HttpClient S)
      → VllmHttpClient F S
  llm_init new_client base_url model temperature max_tokens connect_timeout_sec read_timeout_sec
        retry_count retry_base_delay_sec retry_max_delay_sec retry_jitter_enabled retry_jitter_ratio
        retry_total_timeout_sec http_client =
      record {
        base_url = rstrip_char 47 base_url;
        model = model;
        temperature = temperature;
        max_tokens = max_tokens;
        retry_policy = record {
          max_attempts = max_ℤ (pos 1) (retry_count +ℤ pos 1);
          base_delay_sec = retry_base_delay_sec;
          max_delay_sec = retry_max_delay_sec;
          jitter_enabled = retry_jitter_enabled;
          jitter_ratio = retry_jitter_ratio;
          total_timeout_sec = retry_total_timeout_sec;
        };
        client = elim http_client [
          | some client ↦ client
          | none ↦ new_client (record {
            connect = connect_timeout_sec;
            read = read_timeout_sec;
            write = read_timeout_sec;
            pool = connect_timeout_sec;
          })
        ];
        owns_client = elim http_client [ some client ↦ false | none ↦ true ];
      }

-- An error of this call, with its retry signal.
abbrev pub llm_signed : Bool → Exn → String → Option ℕ → Option TimeoutType → Exn
llm_signed idempotent err exception_type http_status timeout_type =
    attach_retry_signal err (record {
      provider = "llm";
      operation = "generate";
      idempotent = idempotent;
      error_code = code_or "" err;
      exception_type = exception_type;
      http_status = http_status;
      timeout_type = timeout_type;
      retryable_override = none;
    })

abbrev empty_content : Exn
empty_content =
    llm_signed true (new llm_bad_response_error "llm response content is empty") "invalid_body" none
      none

abbrev pub content_text : Json → Result String
content_text (text content) = if is_empty (strip content) then raised empty_content else ok content
content_text _ = raised empty_content

abbrev pub content_of : Json → Result String
content_of (object message) = content_text (get_field "content" message)
content_of _ = raised (new llm_bad_response_error "llm response has no message object")

abbrev pub message_of : Json → Result String
message_of (object first) = content_of (get_field "message" first)
message_of _ = raised (new llm_bad_response_error "llm choice item is invalid")

abbrev pub first_of : Json → Result String
first_of (array (item first rest)) = message_of first
first_of _ = raised (new llm_bad_response_error "llm response has no choices")

-- `body.get("choices")`, its first item, that item's "message", and the message's "content"
unfoldable pub parse_response_content : Json → Result String
parse_response_content body = elim (get_of "choices" body) [
  | raised e ↦ raised e
  | ok choices ↦ first_of choices
]

module _ {S : Type 0} (idempotent : Bool) where
  abbrev pub llm_observe : String → Exec (Wire S) (Unit {0})
  llm_observe result = observe_provider_latency "llm" "generate" result

  -- The `except` clauses around `post`.
  unfoldable pub llm_on_failure : Failure → Exec (Wire S) String
  llm_on_failure Failure.connect_timeout =
      llm_observe "failure"
      >> raise (
          llm_signed idempotent (new llm_timeout_error "llm provider connect timeout") "timeout"
            none (some TimeoutType.connect_timeout))
  llm_on_failure Failure.read_timeout =
      llm_observe "failure"
      >> raise (
          llm_signed idempotent (new llm_timeout_error "llm provider read timeout") "timeout" none
            (some TimeoutType.read_timeout))
  llm_on_failure Failure.other_timeout =
      llm_observe "failure"
      >> raise (
          llm_signed idempotent (new llm_timeout_error "llm provider total timeout") "timeout" none
            (some TimeoutType.total_timeout))
  llm_on_failure Failure.network_error =
      llm_observe "failure"
      >> raise (
          llm_signed idempotent (new llm_bad_response_error "llm transient network error")
            "network_error" none none)
  llm_on_failure Failure.other_http_error =
      llm_observe "failure"
      >> raise (
          llm_signed idempotent (new llm_bad_response_error "llm transport error") "transport_error"
            none none)
  llm_on_failure (Failure.unrelated e) = raise e

  -- From `response.json()` on. A body that does not parse is not counted.
  unfoldable pub llm_on_body : Option Json → Exec (Wire S) String
  llm_on_body none =
      llm_observe "failure"
      >> raise (
          llm_signed idempotent (new llm_bad_response_error "llm response is not valid json")
            "invalid_json" none none)
  llm_on_body (some body) = elim (parse_response_content body) [
    | raised e ↦ raise e
    | ok content ↦ llm_observe "success" >> pure content
  ]

  unfoldable pub llm_on_response : ℕ → Option Json → Exec (Wire S) String
  llm_on_response status body =
      if leb 400 status
      then (llm_observe "failure"
          >> raise (
              llm_signed idempotent (new llm_bad_response_error ("llm status=" <> str status))
                "http_status" (some status) none))
      else llm_on_body body

  unfoldable pub llm_on_reply : Reply → Exec (Wire S) String
  llm_on_reply (failed failure) = llm_on_failure failure
  llm_on_reply (response status body) = llm_on_response status body

-- `[m.model_dump() for m in messages]`
abbrev pub dumped : List ChatMessage → Items
dumped [] = no_items
dumped (m ∷ messages) =
    item (object (field "role" (text m.role) (field "content" (text m.content) no_fields)))
      (dumped messages)

abbrev pub llm_payload : {F : Float} {S : Type 0} → VllmHttpClient F S → List ChatMessage → Json
llm_payload self messages = object (
    field "model" (text self.model) (
      field "messages" (array (dumped messages)) (
        field "temperature" (number self.temperature)
          (field "max_tokens" (number self.max_tokens) no_fields))))

-- The `except` clauses round the retry loop.
unfoldable pub llm_settle : Result (Option String) → Result (Option String)
llm_settle (ok content) = ok content
llm_settle (raised e) =
    if is_instance e llm_timeout_error || is_instance e llm_bad_response_error
    then raised e
    else raised (new llm_bad_response_error "llm generation failed")

module _ (F : Float) {S : Type 0} (rt : Runtime F (Wire S)) (self : VllmHttpClient F S) where
  -- One round: `_request`.
  unfoldable pub llm_request : Json → Exec (Wire S) String
  llm_request payload w =
      let (reply, w') = posted self.client (self.base_url <> "/v1/chat/completions") payload w in
      llm_on_reply true reply w'

  -- `None` stands for a retry loop that ended without a result.
  unfoldable pub llm_generate : List ChatMessage → Exec (Wire S) (Option String)
  llm_generate messages w =
      let (r, w') =
        run_with_retry F self.retry_policy rt (llm_request (llm_payload self messages))
          should_retry_by_taxonomy w in
      (llm_settle r, w')

  -- The chunks of 12 characters of the whole text.
  unfoldable pub llm_generate_stream : List ChatMessage → Wire S → Chunks (Wire S)
  llm_generate_stream messages w =
      let (r, w') = llm_generate messages w in
      elim r [
        | ok (some content) ↦ record {
          yielded = map (λ chunk. (chunk, w')) (slices 12 content);
          end = ok tt;
          last = w';
        }
        | ok none ↦ record {
          yielded = [];
          end = raised (new_other "TypeError" "object of type 'NoneType' has no len()");
          last = w';
        }
        | raised e ↦ record { yielded = []; end = raised e; last = w' }
      ]

  unfoldable pub llm_ping : Exec (Wire S) Bool
  llm_ping = got self.client (self.base_url <> "/health") >>= λ r. elim r [
    | raised e ↦ observe_provider_latency "llm" "ping" "failure" >> pure false
    | ok status ↦
        observe_provider_latency "llm" "ping" (if ltb status 500 then "success" else "failure")
        >> pure (ltb status 500)
  ]

  unfoldable pub llm_close : Exec (Wire S) (Unit {0})
  llm_close = if self.owns_client then on_http self.client.aclose else pure tt
