-- ===== src/Server/Branches.antt =====
-- What one request comes to on each way through the route and its dependencies, and through the
-- handlers and the middleware.
use chatting.Common.{String, ◌≤◌, ◌≡◌, refl, none, some, arith, ◌==◌, if_intro}
use chatting.Json.{Json}
use chatting.Errors.{Exn, is_instance, domain_error}
use chatting.Exec.{Result, ok, raised}
use chatting.Retry.{Float}
use chatting.Bootstrap.{AppContainer}
use chatting.Auth.{Request, Access, TenantAccessContext, auth_dependency}
use chatting.Chat.{ChatResult, chat}
use chatting.App.{is_validation, Context, status_of}
use chatting.Routes.{ChatRequest, chat_route, response_of, rate_limit_headers}
use chatting.Routes.Payload.{chat_request_in}
use chatting.Server.{
  HttpResponse, Site, invalid_payload, access_settings, access_of, with_access, authorize,
  call_with, call_route, chat_reply, chat_endpoint, handled, labelled, response_to,
}

-- The application's answer to how the route ended.
abbrev pub reply_to : Context → Result HttpResponse → HttpResponse
reply_to ctx r = response_to ctx (labelled ctx (handled ctx r))

status_of-client : (e : Exn) → 400 ≤ status_of e
unfolding status_of
status_of-client e = ground arith

-- No exception is answered with a success.
pub reply_to-raised : (ctx : Context) (e : Exn) → 400 ≤ (reply_to ctx (raised e)).status_code
reply_to-raised ctx e =
    if_intro (λ (r : Result HttpResponse). 400 ≤ (response_to ctx (labelled ctx r)).status_code)
      (is_instance e domain_error) _ _ (λ h. status_of-client e)
      (λ h.
        if_intro (λ (r : Result HttpResponse). 400 ≤ (response_to ctx (labelled ctx r)).status_code)
          (is_validation e) _ _ (λ k. omega arith) (λ k. omega arith))

pub not_200 : (ctx : Context) (e : Exn) → (reply_to ctx (raised e)).status_code ≡ 200 → ⊥
not_200 ctx e h = let k = reply_to-raised ctx e in absurd (omega (arith, h, k))

-- The service on the state that the dependency left.
abbrev pub run_chat :
    {F : Float} {W : Type 0} → AppContainer F W → ChatRequest → W → Result ChatResult × W
run_chat container payload s =
    chat container.chat_service payload.session_id payload.message
      (payload.response_mode == "text_audio") payload.voice s

module _ {F : Float} {W M : Type 0} (container : AppContainer F W) (access : Request) where
  -- The dependency on the site.
  abbrev pub run_auth : String → Site W M → Result TenantAccessContext × Access W
  run_auth route_id w =
      auth_dependency container.rate_limiter (access_settings container.settings) route_id access
        (access_of w)

  pub endpoint-not_json :
      (ctx : Context) (w : Site W M)
      → chat_endpoint (some container) ctx access none w ≡ (raised invalid_payload, w)
  unfolding chat_endpoint
  endpoint-not_json ctx w = refl

  module _ (w : Site W M) where
    pub authorize-raised :
        (route_id : String) (e : Exn)
        → (run_auth route_id w).0 ≡ raised e
        → authorize container route_id access w ≡ (raised e, with_access (run_auth route_id w).1 w)
    unfolding authorize
    authorize-raised route_id e h = rw (h, authorize) refl

    pub authorize-ok :
        (route_id : String) (tenant : TenantAccessContext)
        → (run_auth route_id w).0 ≡ ok tenant
        → authorize container route_id access w
          ≡ (ok (run_auth route_id w).1.rate_limit, with_access (run_auth route_id w).1 w)
    unfolding authorize
    authorize-ok route_id tenant h = rw (h, authorize) refl

    module _ (ctx : Context) (json : Json) where
      pub endpoint-refused :
          (e : Exn)
          → (run_auth "chat_sync" w).0 ≡ raised e
          → chat_endpoint (some container) ctx access (some json) w
            ≡ (raised e, with_access (run_auth "chat_sync" w).1 w)
      unfolding chat_endpoint
      endpoint-refused e h = rw (authorize-raised "chat_sync" e h, chat_endpoint) refl

      endpoint-admitted :
          (tenant : TenantAccessContext)
          → (run_auth "chat_sync" w).0 ≡ ok tenant
          → chat_endpoint (some container) ctx access (some json) w
            ≡ call_with container.chat_service ctx
                (run_auth "chat_sync" w).1.rate_limit
                (chat_request_in json)
                (with_access (run_auth "chat_sync" w).1 w)
      unfolding chat_endpoint
      endpoint-admitted tenant h = rw (authorize-ok "chat_sync" tenant h, chat_endpoint) refl

      pub endpoint-misfit :
          (tenant : TenantAccessContext)
          → (run_auth "chat_sync" w).0 ≡ ok tenant
          → chat_request_in json ≡ none
          → chat_endpoint (some container) ctx access (some json) w
            ≡ (raised invalid_payload, with_access (run_auth "chat_sync" w).1 w)
      unfolding call_with
      endpoint-misfit tenant h k = rw (endpoint-admitted tenant h, k) refl

      module _ (tenant : TenantAccessContext) (admitted : (run_auth "chat_sync" w).0 ≡ ok tenant)
          (payload : ChatRequest) (fits : chat_request_in json ≡ some payload) where
        pub endpoint-failed :
            (e : Exn)
            → (run_chat container payload (run_auth "chat_sync" w).1.limiter).0 ≡ raised e
            → (chat_endpoint (some container) ctx access (some json) w).0 ≡ raised e
        unfolding call_with call_route chat_route
        endpoint-failed e h =
            rw (endpoint-admitted tenant admitted, fits, h, call_with, call_route, chat_route) refl

        pub endpoint-answered :
            (result : ChatResult)
            → (run_chat container payload (run_auth "chat_sync" w).1.limiter).0 ≡ ok result
            → (chat_endpoint (some container) ctx access (some json) w).0
              ≡ ok (
                  chat_reply (
                    response_of ctx payload result,
                    rate_limit_headers (run_auth "chat_sync" w).1.rate_limit,
                  ))
        unfolding call_with call_route chat_route
        endpoint-answered result h =
            rw (endpoint-admitted tenant admitted, fits, h, call_with, call_route, chat_route) refl
