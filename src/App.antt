-- ===== src/App.antt =====
-- app/main.py: the handlers that turn exceptions into responses, and the ids of a request. FastAPI
-- calls the handler of the nearest registered class of the exception. `uuid4` is an argument, and
-- the logger's calls are left out.
pub mod Status
pub mod Lifespan
use chatting.Common.{ℕ, String, Bool, ◌==◌, true, false, Option, none, some, if◌then◌else◌}
use chatting.Common.Text.{is_empty}
use chatting.Errors.{
  Exn, domain, other, is_instance, code_or, domain_error, validation_error, unauthorized_error,
  forbidden_error, rate_limit_exceeded_error, infra_error,
}

-- The JSON body is the four texts under "error".
pub record ErrorResponse : Type 0 where
  pub status_code : ℕ
  pub code : String
  pub message : String
  pub request_id : String
  pub trace_id : String

unfoldable pub status_of : Exn → ℕ
status_of e =
    if is_instance e validation_error
    then 422
    else if is_instance e unauthorized_error
    then 401
    else if is_instance e forbidden_error
    then 403
    else if is_instance e rate_limit_exceeded_error
    then 429
    else if is_instance e infra_error
    then 503
    else 400

-- `request_id_ctx` and `trace_id_ctx`
pub record Context : Type 0 where
  pub request_id : String
  pub trace_id : String

-- `request.headers.get(name) or str(uuid.uuid4())`
abbrev pub header_or : Option String → String → String
header_or none fresh = fresh
header_or (some header) fresh = if is_empty header then fresh else header

-- The ids that the middleware sets; the response carries them in its headers.
abbrev pub request_context : Option String → Option String → String → String → Context
request_context request_header trace_header uuid₁ uuid₂ = record {
  request_id = header_or request_header uuid₁;
  trace_id = header_or trace_header uuid₂;
}

abbrev pub error_response : Context → ℕ → String → String → ErrorResponse
error_response ctx status code message = record {
  status_code = status;
  code = code;
  message = message;
  request_id = ctx.request_id;
  trace_id = ctx.trace_id;
}

abbrev pub request_validation_exception_handler : Context → ErrorResponse
request_validation_exception_handler ctx =
    error_response ctx 422 "INVALID_ARGUMENT" "invalid request payload"

abbrev pub domain_exception_handler : Context → Exn → ErrorResponse
domain_exception_handler ctx e =
    error_response ctx (status_of e) (code_or "DOMAIN_ERROR" e) e.message

abbrev pub unhandled_exception_handler : Context → Exn → ErrorResponse
unhandled_exception_handler ctx e = error_response ctx 500 "INTERNAL_ERROR" "internal server error"

-- The exception is of a type that is no class of the program's own, by its name.
abbrev pub is_named : String → Exn → Bool
is_named type_name e = elim e.cls [ domain c ↦ false | other name ↦ name == type_name ]

abbrev pub is_validation : Exn → Bool
is_validation e = is_named "RequestValidationError" e

-- The handler that answers for an exception of a route or a dependency. Starlette's own handler of
-- its HTTPException, which no code of the program raises, is left out.
unfoldable pub handle : Context → Exn → ErrorResponse
handle ctx e =
    if is_instance e domain_error
    then domain_exception_handler ctx e
    else if is_validation e
    then request_validation_exception_handler ctx
    else unhandled_exception_handler ctx e
