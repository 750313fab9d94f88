-- ===== src/Server.antt =====
-- app/main.py, app/api/deps/providers.py and app/common/tracing/context.py: one POST to
-- /api/v1/chat, or to its streaming sibling (Streams), through the whole application. Starlette calls the handler of `Exception` outside of
-- all middleware, then the middleware that was added last, and the other handlers next to the
-- route; FastAPI calls the dependencies in the order of the parameters before it reads the payload
-- by its model, and a body that is no JSON is refused before both. The two ids are `Context`.
pub mod Branches
pub mod Answers
pub mod Streams
use chatting.Common.{ℕ, String, Bool, true, false, Option, none, some, List, [], ◌∷◌, ◌++◌, ◌==◌}
use chatting.Common.{if◌then◌else◌}
use chatting.Json.{Json}
use chatting.Errors.{Exn, ErrorClass, domain, other, new_other, is_instance, domain_error}
use chatting.Exec.{Exec, Result, ok, raised, pure, raise, continue, ◌>>=◌}
use chatting.Retry.{Float}
use chatting.RateLimit.{RateLimitDecision}
use chatting.Settings.{Settings}
use chatting.Bootstrap.{AppContainer}
use chatting.Chat.{ChatOrchestrationService}
use chatting.Auth.{AccessSettings, Request, Access, auth_dependency}
use chatting.Metrics.{Prometheus, dispatch}
use chatting.App.{
  is_validation, Context, request_context, ErrorResponse, request_validation_exception_handler,
  domain_exception_handler, unhandled_exception_handler,
}
use chatting.Routes.{ChatRequest, ChatResponse, Served, chat_route}
use chatting.Routes.Payload.{chat_request_in}
use chatting.Routes.Frames.Schemas.{ChatStreamRequest}

pub data Body : Type 0 where
  of_chat : ChatResponse → Body
  of_error : ErrorResponse → Body
  -- what the generator is asked to stream, once the response has begun
  of_stream : ChatStreamRequest → Body

pub record HttpResponse : Type 0 where
  pub status_code : ℕ
  pub headers : List (String × String)
  pub body : Body

-- What the application reads of a request; a body that is no JSON is `none`.
pub record HttpRequest : Type 0 where
  pub access : Request
  pub request_id : Option String
  pub trace_id : Option String
  pub body : Option Json

-- The state of the resources, the labels that were counted, and the registry of the metrics.
pub record Site (W M : Type 0) : Type 0 where
  pub resources : W
  pub chat_requests : List (String × String)
  pub auth_results : List String
  pub rate_limit_results : List (String × String)
  pub metrics : M

abbrev pub error_reply : ErrorResponse → HttpResponse
error_reply e = record { status_code = e.status_code; headers = []; body = of_error e }

-- `RequestValidationError`, which FastAPI raises.
abbrev pub invalid_payload : Exn
invalid_payload = new_other "RequestValidationError" ""

-- `request.app.state.container`, which is set before the first request is served.
abbrev pub get_container : {S C : Type 0} → Option C → Exec S C
get_container none =
    raise (new_other "AttributeError" "'State' object has no attribute 'container'")
get_container (some container) = pure container

abbrev pub get_chat_service :
    {F : Float} {S W : Type 0} → Option (AppContainer F W) → Exec S (ChatOrchestrationService W)
get_chat_service app = do container ← get_container app; pure container.chat_service

-- The settings that `auth_dependency` reads of `container.settings`.
abbrev pub access_settings : {F : Float} → Settings F → AccessSettings
access_settings s = record {
  auth_enabled = s.auth_enabled;
  auth_default_tenant = s.auth_default_tenant;
  auth_tenant_api_keys = s.auth_tenant_api_keys;
  rate_limit_enabled = s.rate_limit_enabled;
  rate_limit_window_sec = s.rate_limit_window_sec;
  rate_limit_requests_per_window = s.rate_limit_requests_per_window;
  rate_limit_tenant_overrides = s.rate_limit_tenant_overrides;
  rate_limit_fail_open = s.rate_limit_fail_open;
  auth_failure_limit_per_window = s.auth_failure_limit_per_window;
}

-- The registry as a part of the site.
abbrev pub site_registry : {W M : Type 0} → Prometheus M → Prometheus (Site W M)
site_registry registry = record {
  value = λ w. registry.value w.metrics;
  add = λ name labels n w. record w { metrics = registry.add name labels n w.metrics };
  observe = λ name labels w. record w { metrics = registry.observe name labels w.metrics };
}

abbrev pub chat_reply : ChatResponse × List (String × String) → HttpResponse
chat_reply (response, headers) = record {
  status_code = 200;
  headers = headers;
  body = of_chat response;
}

module _ {W M : Type 0} where
  -- The dependency, on a `request.state` where nothing is set yet.
  abbrev pub access_of : Site W M → Access W
  access_of w = record {
    limiter = w.resources;
    tenant_id = none;
    rate_limit = none;
    auth_results = w.auth_results;
    rate_limit_results = w.rate_limit_results;
  }

  abbrev pub with_access : Access W → Site W M → Site W M
  with_access a w = record w {
    resources = a.limiter;
    auth_results = a.auth_results;
    rate_limit_results = a.rate_limit_results;
  }

  -- Its effect for the route is the decision that `request.state` holds then.
  unfoldable pub authorize :
      {F : Float} → AppContainer F W → String → Request → Exec (Site W M) (Option RateLimitDecision)
  authorize container route_id request w =
      let (r, a) =
        auth_dependency container.rate_limiter (access_settings container.settings) route_id request
          (access_of w) in
      elim r [
        | raised e ↦ (raised e, with_access a w)
        | ok access ↦ (ok a.rate_limit, with_access a w)
      ]

  abbrev pub served_of : Site W M → Served W
  served_of w = record { state = w.resources; chat_requests = w.chat_requests }

  abbrev pub with_served : Served W → Site W M → Site W M
  with_served served w = record w { resources = served.state; chat_requests = served.chat_requests }

  unfoldable pub call_route :
      ChatOrchestrationService W
      → Context
      → Option RateLimitDecision
      → ChatRequest
      → Exec (Site W M) HttpResponse
  call_route service ctx limit payload w =
      let (r, served) = chat_route service ctx limit payload (served_of w) in
      elim r [
        | raised e ↦ (raised e, with_served served w)
        | ok reply ↦ (ok (chat_reply reply), with_served served w)
      ]

  -- The payload, once the dependencies have been called.
  unfoldable pub call_with :
      ChatOrchestrationService W
      → Context
      → Option RateLimitDecision
      → Option ChatRequest
      → Exec (Site W M) HttpResponse
  call_with service ctx limit none = raise invalid_payload
  call_with service ctx limit (some payload) = call_route service ctx limit payload

  -- The route with its dependencies, as FastAPI calls it on a body.
  unfoldable pub chat_endpoint :
      {F : Float}
      → Option (AppContainer F W)
      → Context
      → Request
      → Option Json
      → Exec (Site W M) HttpResponse
  chat_endpoint app ctx access none = raise invalid_payload
  chat_endpoint app ctx access (some json) = do
    container ← get_container app
    limit ← authorize container "chat_sync" access
    service ← get_chat_service app
    call_with service ctx limit (chat_request_in json)

-- The handlers next to the route.
abbrev pub handled : Context → Result HttpResponse → Result HttpResponse
handled ctx (ok response) = ok response
handled ctx (raised e) =
    if is_instance e domain_error
    then ok (error_reply (domain_exception_handler ctx e))
    else if is_validation e
    then ok (error_reply (request_validation_exception_handler ctx))
    else raised e

unfoldable pub with_handlers : {S : Type 0} → Context → Exec S HttpResponse → Exec S HttpResponse
with_handlers ctx route s = let (r, s') = route s in (handled ctx r, s')

-- The end of `request_context_middleware`; an exception goes through.
abbrev pub labelled : Context → Result HttpResponse → Result HttpResponse
labelled ctx (raised e) = raised e
labelled ctx (ok response) = ok (record response {
  headers =
      response.headers ++ (("x-request-id", ctx.request_id) ∷ ("x-trace-id", ctx.trace_id) ∷ []);
})

unfoldable pub request_context_middleware :
    {S : Type 0} → Context → Exec S HttpResponse → Exec S HttpResponse
request_context_middleware ctx call_next s = let (r, s') = call_next s in (labelled ctx r, s')

-- The handler of `Exception`.
abbrev pub response_to : Context → Result HttpResponse → HttpResponse
response_to ctx (ok response) = response
response_to ctx (raised e) = error_reply (unhandled_exception_handler ctx e)

module _ {W M : Type 0} (registry : Prometheus M) where
  -- The application's answer to a post on a route; `uuid₁` and `uuid₂` are what `uuid4` would give.
  unfoldable pub serve_route :
      String
      → (Context → Exec (Site W M) HttpResponse)
      → (uuid₁ uuid₂ : String) → HttpRequest
      → Site W M
      → HttpResponse × Site W M
  serve_route path route uuid₁ uuid₂ request w =
      let ctx = request_context request.request_id request.trace_id uuid₁ uuid₂ in
      let (r, w') =
        request_context_middleware ctx
          (dispatch (site_registry registry) (λ response. response.status_code) "POST" path
            (with_handlers ctx (route ctx)))
          w in
      (response_to ctx r, w')

  unfoldable pub serve :
      {F : Float}
      → Option (AppContainer F W)
      → (uuid₁ uuid₂ : String) → HttpRequest
      → Site W M
      → HttpResponse × Site W M
  serve app uuid₁ uuid₂ request =
      serve_route "/api/v1/chat" (λ ctx. chat_endpoint app ctx request.access request.body) uuid₁
        uuid₂ request
