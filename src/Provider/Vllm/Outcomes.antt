-- ===== src/Provider/Vllm/Outcomes.antt =====
-- What a call of `VLLMHTTPClient` ends with, and how often it posts.
use chatting.Common.{ℕ, ◌≡◌, refl, ◌∙◌, inl, inr, Bool, false, Option, none, some}
use chatting.Common.{arith, leb, Bool-cases}
use chatting.Common.Text.{is_empty, strip}
use chatting.Errors.{Exn, class_code}
use chatting.Exec.{raised, Result-cases, raised-injective}
use chatting.Retry.{should_retry_by_taxonomy}
use chatting.Json.{Json, object, text, array, item, get_of, get_field}
use chatting.Provider.Http.{Failure, Reply, response, failed, Wire, observe_provider_latency}
use chatting.Retry.Taxonomy.{should_retry-unsigned}
use chatting.Provider.Matrix.{retry_expected, IsUnsigned}
use chatting.Provider.Vllm.{
  content_text, content_of, message_of, first_of, parse_response_content, llm_on_failure,
  llm_on_body, llm_on_response, llm_on_reply,
}

content_text-retry :
    (j : Json) (e : Exn) → content_text j ≡ raised e → should_retry_by_taxonomy e ≡ false
unfolding should_retry_by_taxonomy class_code
content_text-retry (text content) e h = elim (Bool-cases (is_empty (strip content))) [
  | inl k ↦ rw (← raised-injective (rw k at h)) refl
  | inr k ↦ cc (rw k at h)
]
content_text-retry _ e h = rw (← raised-injective h) refl

content_of-retry :
    (j : Json) (e : Exn) → content_of j ≡ raised e → should_retry_by_taxonomy e ≡ false
unfolding should_retry_by_taxonomy class_code
content_of-retry (object fields) e h = content_text-retry (get_field "content" fields) e h
content_of-retry _ e h = rw (← raised-injective h) refl

message_of-retry :
    (j : Json) (e : Exn) → message_of j ≡ raised e → should_retry_by_taxonomy e ≡ false
unfolding should_retry_by_taxonomy class_code
message_of-retry (object fields) e h = content_of-retry (get_field "message" fields) e h
message_of-retry _ e h = rw (← raised-injective h) refl

first_of-retry : (j : Json) (e : Exn) → first_of j ≡ raised e → should_retry_by_taxonomy e ≡ false
unfolding should_retry_by_taxonomy class_code
first_of-retry (array (item first rest)) e h = message_of-retry first e h
first_of-retry _ e h = rw (← raised-injective h) refl

parse_response_content-retry :
    (body : Json) (e : Exn)
    → parse_response_content body ≡ raised e
    → should_retry_by_taxonomy e ≡ false
unfolding parse_response_content get_of should_retry_by_taxonomy class_code
parse_response_content-retry (object fields) e h = first_of-retry (get_field "choices" fields) e h
parse_response_content-retry _ e h = rw (← raised-injective h) refl

module _ {S : Type 0} (idempotent : Bool) where
  llm_on_failure-retry :
      (failure : Failure) (w : Wire S) (e : Exn)
      → IsUnsigned (failed failure)
      → (llm_on_failure idempotent failure w).0 ≡ raised e
      → should_retry_by_taxonomy e ≡ retry_expected idempotent (failed failure)
  unfolding llm_on_failure observe_provider_latency should_retry_by_taxonomy class_code
  llm_on_failure-retry Failure.connect_timeout w e u h = rw (← raised-injective h) refl
  llm_on_failure-retry Failure.read_timeout w e u h = rw (← raised-injective h) refl
  llm_on_failure-retry Failure.other_timeout w e u h = rw (← raised-injective h) refl
  llm_on_failure-retry Failure.network_error w e u h = rw (← raised-injective h) refl
  llm_on_failure-retry Failure.other_http_error w e u h = rw (← raised-injective h) refl
  llm_on_failure-retry (Failure.unrelated x) w e u h =
      rw (← raised-injective h) (should_retry-unsigned x u)

  llm_on_body-retry :
      (body : Option Json) (w : Wire S) (e : Exn)
      → (llm_on_body idempotent body w).0 ≡ raised e
      → should_retry_by_taxonomy e ≡ false
  unfolding llm_on_body observe_provider_latency should_retry_by_taxonomy class_code
  llm_on_body-retry none w e h = rw (← raised-injective h) refl
  llm_on_body-retry (some body) w e h = elim (Result-cases (parse_response_content body)) [
    | inl (content, k) ↦ cc (rw (k, llm_on_body) at h)
    | inr (x, k) ↦ parse_response_content-retry body e (k ∙ rw (k, llm_on_body) at h)
  ]

  llm_on_response-retry :
      (status : ℕ) (body : Option Json) (w : Wire S) (e : Exn)
      → (llm_on_response idempotent status body w).0 ≡ raised e
      → should_retry_by_taxonomy e ≡ retry_expected idempotent (response status body)
  unfolding llm_on_response observe_provider_latency should_retry_by_taxonomy class_code
  llm_on_response-retry status body w e h = elim (Bool-cases (leb 400 status)) [
    | inl k ↦ rw (← raised-injective (rw (k, llm_on_response) at h)) (ground arith)
    | inr k ↦ llm_on_body-retry body w e (rw (k, llm_on_response) at h) ∙ ground arith
  ]

  -- Whether a failed call is retried is what the table of Provider/Matrix gives for the reply and
  -- the idempotency of the call, whatever the body of a response, where an exception that is no
  -- error of httpx carries no retry signal.
  pub llm_on_reply-retry :
      (reply : Reply) (w : Wire S) (e : Exn)
      → IsUnsigned reply
      → (llm_on_reply idempotent reply w).0 ≡ raised e
      → should_retry_by_taxonomy e ≡ retry_expected idempotent reply
  unfolding llm_on_reply
  llm_on_reply-retry (failed failure) w e u h = llm_on_failure-retry failure w e u h
  llm_on_reply-retry (response status body) w e u h = llm_on_response-retry status body w e h
