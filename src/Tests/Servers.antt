-- ===== src/Tests/Servers.antt =====
-- Requests to the whole application, on the store in memory and the stub clients, and the theorems
-- there.
use chatting.Common.{◌≡◌, ◌↔◌, ◌⊎◌, refl, String, true, false, none, some, [], pos}
use chatting.Common.Text.{strip, split, split_once, lower_starts_with, has_char, is_ascii}
use chatting.Common.Dict.{insert}
use chatting.Json.{Json, text, object, no_fields, field, get_field}
use chatting.Errors.{Exn, new, unauthorized_error}
use chatting.Exec.{raised, pure}
use chatting.Message.{build_prompt_history}
use chatting.RateLimit.{RateLimiter}
use chatting.Session.Memory.{Store, memory_repository, history_of}
use chatting.Provider.Stub.{stub_llm_client, stub_tts_client, stub_reply}
use chatting.Chat.{service_init, chat, store_turn}
use chatting.Bootstrap.{AppContainer}
use chatting.Auth.Keys.{parse_tenant_api_keys, add_all, add_api_key}
use chatting.Auth.{
  TenantAccessContext, find_tenant, bearer_token_of, auth_dependency, compare_digest,
  observe_auth_result, set_tenant, throttle_auth_failure, reject, admit, matched, authenticate,
}
use chatting.Auth.Sound.{HasEntry, IsWithinLimit, asked_for}
use chatting.Metrics.{dispatch, enter}
use chatting.App.{handle}
use chatting.Routes.{chat_route}
use chatting.Routes.Payload.{chat_request_in}
use chatting.Server.{
  HttpRequest, HttpResponse, access_settings, Site, of_error, authorize, call_with, call_route,
  chat_endpoint, with_handlers, request_context_middleware, serve, serve_route,
}
use chatting.Server.Branches.{run_auth}
use chatting.Server.Streams.{serve_stream, IsBegun, serve_stream-IsBegun}
use chatting.Server.Answers.{IsAnswered, context, serve-IsAnswered, serve-HasEntry, serve-refused}
use chatting.Tests.Retries.{millis}
use chatting.Tests.Processes.{settings}
use chatting.Tests.Counters.{Values, registry, zeros}

abbrev no_limiter : RateLimiter Store
no_limiter = record {
  consume = λ tenant route limit window.
      pure
        (record { allowed = true; limit = limit; remaining = limit; reset_at_epoch_sec = window });
  ping = pure true;
  close = pure tt;
}

abbrev container : AppContainer millis Store
container = record {
  settings = record settings { auth_enabled = true; auth_tenant_api_keys = "a:k1,b:k2" };
  llm_client = stub_llm_client;
  tts_client = stub_tts_client;
  session_repo = memory_repository;
  rate_limiter = no_limiter;
  chat_service = service_init stub_llm_client stub_tts_client memory_repository (pos 10) (pos 12);
}

abbrev site : Site Store Values
site = record {
  resources = [];
  chat_requests = [];
  auth_results = [];
  rate_limit_results = [];
  metrics = zeros;
}

abbrev posted : Json
posted = object (field "session_id" (text "s") (field "message" (text "hi") no_fields))

abbrev request : String → HttpRequest
request token = record {
  access = record { authorization = token; client_host = some "h" };
  request_id = some "r";
  trace_id = none;
  body = some posted;
}

serve_runs :
    (serve registry (some container) "u" "v" (request "Bearer k2") site).0.status_code ≡ 200
unfolding serve serve_route request_context_middleware dispatch with_handlers chat_endpoint
    authorize auth_dependency authenticate strip lower_starts_with matched find_tenant
    parse_tenant_api_keys split has_char split_once insert compare_digest is_ascii add_all
    add_api_key admit observe_auth_result set_tenant chat store_turn build_prompt_history get_field
    chat_request_in chat_route call_route call_with stub_llm_client memory_repository stub_reply
    history_of enter
serve_runs = refl

serve-IsAnswered_example :
    let response = (serve registry (some container) "u" "v" (request "Bearer k2") site).0 in
    (response.status_code ≡ 200)
    ↔ IsAnswered container
        (context registry container "u" "v" (request "Bearer k2"))
        (some posted)
        (run_auth container (request "Bearer k2").access "chat_sync" site)
        response
serve-IsAnswered_example = serve-IsAnswered registry container "u" "v" (request "Bearer k2") site

serve-HasEntry_example :
    (lower_starts_with (strip "Bearer k2") "bearer " ≡ true)
    × (tenant : TenantAccessContext) × HasEntry tenant.tenant_id
        (bearer_token_of (strip "Bearer k2"))
        (parse_tenant_api_keys "a:k1,b:k2")
    × ((false ≡ false)
        ⊎ IsWithinLimit no_limiter
            (access_settings container.settings)
            "chat_sync"
            (asked_for no_limiter (access_settings container.settings) "chat_sync" tenant []).0)
serve-HasEntry_example =
    serve-HasEntry registry container "u" "v" (request "Bearer k2") site refl serve_runs

abbrev wrong : Exn
wrong = new unauthorized_error "invalid tenant api key"

wrong_runs : (run_auth container (request "Bearer k3").access "chat_sync" site).0 ≡ raised wrong
unfolding auth_dependency authenticate strip lower_starts_with matched find_tenant
    parse_tenant_api_keys split has_char split_once insert compare_digest is_ascii reject
    observe_auth_result throttle_auth_failure
wrong_runs = refl

serve-refused_example :
    let (response, after) = serve registry (some container) "u" "v" (request "Bearer k3") site in
    (response.body
      ≡ of_error (handle (context registry container "u" "v" (request "Bearer k3")) wrong))
    × (response.status_code
        ≡ (handle (context registry container "u" "v" (request "Bearer k3")) wrong).status_code)
    × (after.resources
        ≡ (run_auth container (request "Bearer k3").access "chat_sync" site).1.limiter)
    × (after.chat_requests ≡ [])
serve-refused_example =
    serve-refused registry container "u" "v" (request "Bearer k3") posted wrong site refl wrong_runs
      refl

-- The stream begins before the service has been asked.
abbrev stream_reply : HttpResponse × Site Store Values
stream_reply = serve_stream registry (some container) "u" "v" (request "Bearer k1") site

serve_stream-IsBegun_example :
    ((stream_reply.0.status_code ≡ 200)
      ↔ IsBegun
          (some posted)
          (run_auth container (request "Bearer k1").access "chat_stream" site)
          stream_reply.0)
    × (stream_reply.1.resources
        ≡ (run_auth container (request "Bearer k1").access "chat_stream" site).1.limiter)
serve_stream-IsBegun_example =
    serve_stream-IsBegun registry container "u" "v" (request "Bearer k1") posted site refl
