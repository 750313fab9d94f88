-- ===== src/Tests/Providers.antt =====
-- Calls of the HTTP clients against a server that first times out, and their theorems there.
use chatting.Common.{
  ℕ, ◌+◌, ◌≤◌, ◌≡◌, refl, true, false, none, some, List, [], ◌∷◌, pos, nat_eq, if◌then◌else◌,
}
use chatting.Common.Text.{strip, str, is_empty}
use chatting.Errors.{
  Exn, new, class_code, is_instance, is_subclass, base_class, llm_bad_response_error,
  tts_bad_response_error,
}
use chatting.Exec.{ok, raised, pure}
use chatting.Retry.{
  Runtime, run_with_retry, attempts, after_failure, next_delay, should_retry_by_taxonomy,
}
use chatting.Message.{ChatMessage, user}
use chatting.Chat.Ports.{Voice}
use chatting.Json.{Json, object, text, array, no_items, item, no_fields, field, get_field, get_of}
use chatting.Provider.Http.{
  Failure, Reply, response, failed, HttpClient, Wire, observe_provider_latency,
}
use chatting.Provider.Matrix.{retry_expected}
use chatting.Provider.Vllm.{
  VllmHttpClient, llm_init, llm_signed, parse_response_content, llm_on_failure, llm_on_body,
  llm_on_response, llm_on_reply, llm_settle, llm_request, llm_generate,
}
use chatting.Provider.Vllm.Outcomes.{llm_on_reply-retry}
use chatting.Provider.Vllm.Replies
use chatting.Provider.GptSovits.{
  GptSovitsHttpClient, tts_init, tts_signed, tts_on_failure, tts_on_response, tts_on_reply,
  tts_settle, tts_request, tts_synthesize,
}
use chatting.Provider.GptSovits.Outcomes.{tts_on_reply-retry}
use chatting.Provider.GptSovits.Replies as Synthesis
use chatting.Tests.Retries.{millis}

abbrev body : Json
body = object (
    field "choices"
      (array (
        item
          (object (field "message" (object (field "content" (text "hello") no_fields)) no_fields))
          no_items))
      no_fields)

-- The state counts the posts; the first one times out.
abbrev pub server : Reply → HttpClient ℕ
server answer = record {
  post = λ url payload n. (if nat_eq n 0 then failed Failure.connect_timeout else answer, n + 1);
  get = λ url. pure 200;
  aclose = pure tt;
}

abbrev pub runtime : Runtime millis (Wire ℕ)
runtime = record {
  monotonic = λ w. 0;
  uniform = λ a b w. (a, w);
  sleep = λ d w. w;
  on_retry = λ k e d w. w;
}

abbrev llm : VllmHttpClient millis ℕ
llm =
    llm_init millis (λ t. server (response 200 (some body))) "http://vllm/" "m" "0.7" "64" 2000
      30000 (pos 1) 200 2000 true 1 40000 none

abbrev pub fresh : Wire ℕ
fresh = record { http = 0; latencies = [] }

abbrev pub asked : List ChatMessage
asked = user "hi" ∷ []

llm_runs : (llm_generate millis runtime llm asked fresh).0 ≡ ok (some "hello")
unfolding llm_generate llm_init run_with_retry attempts after_failure next_delay
    should_retry_by_taxonomy llm_request llm_on_reply llm_on_failure llm_on_response llm_on_body
    parse_response_content get_of get_field strip observe_provider_latency llm_settle class_code
llm_runs = refl

llm_generate-answers_example :
    (is_empty (strip "hello") ≡ false) × Replies.IsAnswered millis runtime llm asked fresh "hello"
llm_generate-answers_example =
    Replies.llm_generate-answers millis runtime llm asked fresh "hello" llm_runs

llm_generate-posts_example :
    let n = (llm_generate millis runtime llm asked fresh).1.http in (1 ≤ n) × (n ≤ 2)
unfolding llm_init
llm_generate-posts_example =
    Replies.llm_generate-posts millis runtime (λ t. server (response 200 (some body)))
      "http://vllm/" "m" "0.7" "64" 2000 30000 1 200 2000 true 1 40000 none asked fresh (λ n. n) llm
      refl (λ url payload s. refl) (λ a b v. refl) (λ d v. refl) (λ k e d v. refl)

-- A server that answers with an error status.
abbrev pub busy : VllmHttpClient millis ℕ
busy = record llm { client = server (response 400 none) }

abbrev pub refused : Exn
refused =
    llm_signed true (new llm_bad_response_error "llm status=400") "http_status" (some 400) none

refused_runs : (llm_on_reply true (response 400 none) fresh).0 ≡ raised refused
unfolding llm_on_reply llm_on_response observe_provider_latency str
refused_runs = refl

pub busy_runs : (llm_generate millis runtime busy asked fresh).0 ≡ raised refused
unfolding llm_generate llm_init run_with_retry attempts after_failure next_delay
    should_retry_by_taxonomy llm_request llm_on_reply llm_on_failure llm_on_response llm_on_body
    parse_response_content get_of get_field strip observe_provider_latency llm_settle class_code
    is_instance is_subclass base_class str
busy_runs = refl

llm_on_reply-retry_example :
    should_retry_by_taxonomy refused ≡ retry_expected true (response 400 none)
llm_on_reply-retry_example =
    llm_on_reply-retry true (response 400 none) fresh refused tt refused_runs

abbrev tts : GptSovitsHttpClient millis ℕ
tts =
    tts_init millis (λ t. server (response 500 none)) "http://tts" 2000 30000 (pos 1) 200 2000 true
      1 40000 false none

abbrev no_voice : Voice
no_voice = record { voice_id = none; speaker = none; language = none; reference_audio_url = none }

abbrev broken : Exn
broken =
    tts_signed false (new tts_bad_response_error "tts status=500") "http_status" (some 500) none

broken_runs : (tts_on_reply false (response 500 none) fresh).0 ≡ raised broken
unfolding tts_on_reply tts_on_response observe_provider_latency str
broken_runs = refl

tts_runs : (tts_synthesize millis runtime tts "hi" no_voice fresh).0 ≡ raised broken
unfolding tts_synthesize tts_init run_with_retry attempts after_failure next_delay
    should_retry_by_taxonomy tts_request tts_on_reply tts_on_failure tts_on_response
    observe_provider_latency tts_settle class_code is_instance is_subclass base_class str
tts_runs = refl

tts_on_reply-retry_example :
    should_retry_by_taxonomy broken ≡ retry_expected false (response 500 none)
tts_on_reply-retry_example =
    tts_on_reply-retry false (response 500 none) fresh broken tt broken_runs

tts_synthesize-posts_example :
    let n = (tts_synthesize millis runtime tts "hi" no_voice fresh).1.http in (1 ≤ n) × (n ≤ 2)
unfolding tts_init
tts_synthesize-posts_example =
    Synthesis.tts_synthesize-posts millis runtime (λ t. server (response 500 none)) "http://tts"
      2000 30000 1 200 2000 true 1 40000 false none "hi" no_voice fresh (λ n. n) tts refl
      (λ url payload s. refl) (λ a b v. refl) (λ d v. refl) (λ k e d v. refl)
