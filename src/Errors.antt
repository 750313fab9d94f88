-- ===== src/Errors.antt =====
-- app/domain/exceptions/errors.py: the exception classes, their error codes and who is a subclass
-- of whom. An exception outside that file is `other`, with the name of its type.
use chatting.Common.{ℕ, zero, suc, String, Bool, false, Option, none, some, ◌==◌, ◌||◌}
use chatting.Signal.{RetrySignal}

pub data DomainClass : Type 0 where
  domain_error infra_error external_service_error validation_error : DomainClass
  llm_timeout_error llm_bad_response_error tts_timeout_error tts_bad_response_error : DomainClass
  session_store_error unauthorized_error forbidden_error rate_limit_exceeded_error : DomainClass

pub data ErrorClass : Type 0 where
  domain : DomainClass → ErrorClass
  other : String → ErrorClass

-- An exception object. Only a domain error has an `error_code`.
pub record Exn : Type 0 where
  pub cls : ErrorClass
  pub message : String
  pub error_code : Option String
  pub retry_signal : Option RetrySignal

-- The code that each class's `__init__` gives, the default where it takes one.
unfoldable pub class_code : DomainClass → String
class_code domain_error = "DOMAIN_ERROR"
class_code infra_error = "INFRA_ERROR"
class_code external_service_error = "EXTERNAL_SERVICE_ERROR"
class_code validation_error = "INVALID_ARGUMENT"
class_code llm_timeout_error = "LLM_TIMEOUT"
class_code llm_bad_response_error = "LLM_BAD_RESPONSE"
class_code tts_timeout_error = "TTS_TIMEOUT"
class_code tts_bad_response_error = "TTS_BAD_RESPONSE"
class_code session_store_error = "SESSION_STORE_ERROR"
class_code unauthorized_error = "UNAUTHORIZED"
class_code forbidden_error = "FORBIDDEN"
class_code rate_limit_exceeded_error = "RATE_LIMIT_EXCEEDED"

-- The class that each class extends; `DomainError` extends only `Exception`.
unfoldable pub base_class : DomainClass → Option DomainClass
base_class domain_error = none
base_class infra_error = some domain_error
base_class external_service_error = some infra_error
base_class validation_error = some domain_error
base_class llm_timeout_error = some external_service_error
base_class llm_bad_response_error = some external_service_error
base_class tts_timeout_error = some external_service_error
base_class tts_bad_response_error = some external_service_error
base_class session_store_error = some infra_error
base_class unauthorized_error = some domain_error
base_class forbidden_error = some domain_error
base_class rate_limit_exceeded_error = some domain_error

-- `LLMTimeoutError(message)` and so on.
abbrev pub new : DomainClass → String → Exn
new c message = record {
  cls = domain c;
  message = message;
  error_code = some (class_code c);
  retry_signal = none;
}

-- An exception of another type, `ValueError(message)`.
abbrev pub new_other : String → String → Exn
new_other name message = record {
  cls = other name;
  message = message;
  error_code = none;
  retry_signal = none;
}

-- `type(exc).__name__`
abbrev pub class_name : DomainClass → String
class_name domain_error = "DomainError"
class_name infra_error = "InfraError"
class_name external_service_error = "ExternalServiceError"
class_name validation_error = "ValidationError"
class_name llm_timeout_error = "LLMTimeoutError"
class_name llm_bad_response_error = "LLMBadResponseError"
class_name tts_timeout_error = "TTSTimeoutError"
class_name tts_bad_response_error = "TTSBadResponseError"
class_name session_store_error = "SessionStoreError"
class_name unauthorized_error = "UnauthorizedError"
class_name forbidden_error = "ForbiddenError"
class_name rate_limit_exceeded_error = "RateLimitExceededError"

abbrev pub type_name : Exn → String
type_name e = elim e.cls [ domain c ↦ class_name c | other name ↦ name ]

-- `isinstance` up the chain of bases, which is at most four classes long.
is_subclass_in : ℕ → DomainClass → DomainClass → Bool
is_subclass_in zero c d = false
is_subclass_in (suc n) c d =
    class_name c == class_name d
    || elim (base_class c) [ none ↦ false | some b ↦ is_subclass_in n b d ]

unfoldable pub is_subclass : DomainClass → DomainClass → Bool
unfolding is_subclass_in base_class
is_subclass c d = is_subclass_in 4 c d

unfoldable pub is_instance : Exn → DomainClass → Bool
unfolding is_subclass
is_instance e d = elim e.cls [ domain c ↦ is_subclass c d | other name ↦ false ]

-- `getattr(exc, "error_code", default)`
abbrev pub code_or : String → Exn → String
code_or default e = elim e.error_code [ none ↦ default | some code ↦ code ]
