-- ===== src/App/Status.antt =====
-- The status codes that app/main.py gives to the exceptions of the program.
use chatting.Common.{◌||◌, ◌≤◌, ◌≡◌, ◌↔◌, ◌⊎◌, true, false, arith, List}
use chatting.Errors.{
  Exn, ErrorClass, domain, other, is_instance, is_subclass, base_class, domain_error, infra_error,
  external_service_error, validation_error, llm_timeout_error, llm_bad_response_error,
  tts_timeout_error, tts_bad_response_error, session_store_error, unauthorized_error,
  forbidden_error, rate_limit_exceeded_error,
}
use chatting.Exec.{raised}
use chatting.Retry.{Float, Runtime}
use chatting.Message.{ChatMessage}
use chatting.Provider.Http.{Wire}
use chatting.Provider.Vllm.{VllmHttpClient, llm_generate}
use chatting.Provider.Vllm.Replies.{IsLlmError, llm_generate-raised}
use chatting.App.{Context, status_of, is_named, is_validation, handle}

-- A server's fault: an error of the infrastructure, or neither a domain error nor the error of a
-- payload that does not fit.
abbrev pub IsServerFault : Exn → Type 0
IsServerFault e =
    (is_instance e infra_error ≡ true)
    ⊎ ((is_instance e domain_error ≡ false) × (is_validation e ≡ false))

-- What the table of the classes gives for one of them.
IsRow : Context → Exn → Type 0
IsRow ctx e =
    ((500 ≤ (handle ctx e).status_code) ↔ IsServerFault e)
    × (is_instance e external_service_error ≡ true → (handle ctx e).status_code ≡ 503)
    × ((is_instance e llm_timeout_error || is_instance e llm_bad_response_error) ≡ true
        → is_instance e external_service_error ≡ true)

handle-IsRow : (ctx : Context) (e : Exn) (cls : ErrorClass) → IsRow ctx (record e { cls = cls })
unfolding IsRow handle status_of is_instance is_subclass base_class
handle-IsRow ctx e (domain domain_error) = ground arith
handle-IsRow ctx e (domain infra_error) = ground arith
handle-IsRow ctx e (domain external_service_error) = ground arith
handle-IsRow ctx e (domain validation_error) = ground arith
handle-IsRow ctx e (domain llm_timeout_error) = ground arith
handle-IsRow ctx e (domain llm_bad_response_error) = ground arith
handle-IsRow ctx e (domain tts_timeout_error) = ground arith
handle-IsRow ctx e (domain tts_bad_response_error) = ground arith
handle-IsRow ctx e (domain session_store_error) = ground arith
handle-IsRow ctx e (domain unauthorized_error) = ground arith
handle-IsRow ctx e (domain forbidden_error) = ground arith
handle-IsRow ctx e (domain rate_limit_exceeded_error) = ground arith
handle-IsRow ctx e (other name) = ground arith

-- For an exception that is no HTTPException of Starlette: the response has a status from 500 on
-- exactly where the exception is an error of the infrastructure, or neither a domain error nor a
-- RequestValidationError.
pub handle-fault :
    (ctx : Context) (e : Exn)
    → is_named "HTTPException" e ≡ false
    → (500 ≤ (handle ctx e).status_code) ↔ IsServerFault e
unfolding IsRow
handle-fault ctx e own = (handle-IsRow ctx e e.cls).0

llm_status : (ctx : Context) (e : Exn) → IsLlmError e → (handle ctx e).status_code ≡ 503
unfolding IsRow
llm_status ctx e h = let row = handle-IsRow ctx e e.cls in row.1 (row.2 (ground arith))

module _ (F : Float) {S : Type 0} (rt : Runtime F (Wire S)) (ctx : Context) where
  -- Whatever makes the LLM client fail, the response to the exception is a 503.
  pub llm_generate-status :
      (self : VllmHttpClient F S) (messages : List ChatMessage) (w : Wire S) (e : Exn)
      → (llm_generate F rt self messages w).0 ≡ raised e
      → (handle ctx e).status_code ≡ 503
  llm_generate-status self messages w e h =
      llm_status ctx e (llm_generate-raised F rt self messages w e h)
