-- ===== src/Server/Answers.antt =====
-- Which requests the application answers with a success, and what it has done for the others.
use chatting.Common.{
  ◌≡◌, ◌↔◌, ◌⊎◌, refl, inl, inr, String, true, false, Option, none, some, Bool-cases, Option-cases,
}
use chatting.Common.Text.{strip, lower_starts_with}
use chatting.Json.{Json}
use chatting.Errors.{Exn, is_instance, domain_error}
use chatting.Exec.{Result, ok, raised, Result-cases}
use chatting.Retry.{Float}
use chatting.Bootstrap.{AppContainer}
use chatting.Auth.{Access, Request, TenantAccessContext, bearer_token_of}
use chatting.Auth.Keys.{parse_tenant_api_keys}
use chatting.Auth.Sound.{HasEntry, IsWithinLimit, asked_for, auth_dependency_sound}
use chatting.Chat.{ChatResult}
use chatting.Metrics.{Prometheus, enter, leave, dispatch}
use chatting.App.{is_validation, handle, Context, request_context}
use chatting.Routes.{ChatRequest, response_of}
use chatting.Routes.Payload.{chat_request_in}
use chatting.Server.{
  serve_route, HttpRequest, HttpResponse, of_chat, Site, invalid_payload, access_settings,
  chat_endpoint, serve, of_error, access_of, site_registry, with_handlers,
  request_context_middleware,
}
use chatting.Server.Branches.{
  run_auth, run_chat, reply_to, not_200, endpoint-not_json, endpoint-refused, endpoint-misfit,
  endpoint-failed, endpoint-answered,
}

reply_to-handle :
    (ctx : Context) (e : Exn)
    → is_validation e ≡ false
    → ((reply_to ctx (raised e)).body ≡ of_error (handle ctx e))
      × ((reply_to ctx (raised e)).status_code ≡ (handle ctx e).status_code)
unfolding handle
reply_to-handle ctx e h = elim (Bool-cases (is_instance e domain_error)) [
  | inl k ↦ rw k (refl, refl)
  | inr k ↦ rw (k, h) (refl, refl)
]

module _ {F : Float} {W : Type 0} (container : AppContainer F W) (ctx : Context) where
  -- The dependency let the request in, its payload fits, the service replied, and this is the
  -- answer.
  pub record IsAnswered (body : Option Json) (auth : Result TenantAccessContext × Access W)
      (response : HttpResponse) : Type 0 where
    pub json : Json
    pub posted : body ≡ some json
    pub tenant : TenantAccessContext
    pub admitted : auth.0 ≡ ok tenant
    pub payload : ChatRequest
    pub fits : chat_request_in json ≡ some payload
    pub result : ChatResult
    pub replied : (run_chat container payload auth.1.limiter).0 ≡ ok result
    pub answer : response.body ≡ of_chat (response_of ctx payload result)

module _ {F : Float} {W M : Type 0} (container : AppContainer F W) (ctx : Context)
    (access : Request) where
  abbrev answer_to : Option Json → Site W M → HttpResponse
  answer_to body w = reply_to ctx (chat_endpoint (some container) ctx access body w).0

  admitted-IsAnswered :
      (json : Json) (w : Site W M) (tenant : TenantAccessContext)
      → (run_auth container access "chat_sync" w).0 ≡ ok tenant
      → (payload : ChatRequest) → chat_request_in json ≡ some payload
      → (answer_to (some json) w).status_code ≡ 200
      → IsAnswered container ctx
          (some json)
          (run_auth container access "chat_sync" w)
          (answer_to (some json) w)
  admitted-IsAnswered json w tenant a payload k h =
      elim (Result-cases
        (run_chat container payload (run_auth container access "chat_sync" w).1.limiter).0) [
          | inr (e, c) ↦ absurd (
              not_200 ctx e
                (rw (endpoint-failed container access w ctx json tenant a payload k e c) at h))
          | inl (result, c) ↦ record {
            json = json;
            posted = refl;
            tenant = tenant;
            admitted = a;
            payload = payload;
            fits = k;
            result = result;
            replied = c;
            answer =
                rw (endpoint-answered container access w ctx json tenant a payload k result c) refl;
          }
        ]

  success-IsAnswered :
      (body : Option Json) (w : Site W M)
      → (answer_to body w).status_code ≡ 200
      → IsAnswered container ctx body (run_auth container access "chat_sync" w) (answer_to body w)
  success-IsAnswered none w h =
      absurd (not_200 ctx invalid_payload (rw (endpoint-not_json container access ctx w) at h))
  success-IsAnswered (some json) w h =
      elim (Result-cases (run_auth container access "chat_sync" w).0) [
        | inr (e, a) ↦
            absurd (not_200 ctx e (rw (endpoint-refused container access w ctx json e a) at h))
        | inl (tenant, a) ↦ elim (Option-cases (chat_request_in json)) [
          | inl k ↦ absurd (
              not_200 ctx invalid_payload
                (rw (endpoint-misfit container access w ctx json tenant a k) at h))
          | inr (payload, k) ↦ admitted-IsAnswered json w tenant a payload k h
        ]
      ]

  IsAnswered-success :
      (body : Option Json) (w : Site W M) (response : HttpResponse)
      → IsAnswered container ctx body (run_auth container access "chat_sync" w) response
      → (answer_to body w).status_code ≡ 200
  IsAnswered-success body w response r =
      rw
        (
          r.posted,
          endpoint-answered container access w ctx r.json r.tenant r.admitted r.payload r.fits
              r.result r.replied,
        )
        refl

module _ {F : Float} {W M : Type 0} (registry : Prometheus M) (container : AppContainer F W)
    (uuid₁ uuid₂ : String) (request : HttpRequest) where
  abbrev pub context : Context
  context = request_context request.request_id request.trace_id uuid₁ uuid₂

  -- The application answers 200 exactly where the dependency lets the request in, the body is JSON
  -- that fits the model, and the service replies to it; the answer is that reply, under the ids of
  -- this request.
  pub serve-IsAnswered :
      (w : Site W M)
      → let response = (serve registry (some container) uuid₁ uuid₂ request w).0 in
        (response.status_code ≡ 200)
        ↔ IsAnswered container context request.body
            (run_auth container request.access "chat_sync" w)
            response
  unfolding serve serve_route request_context_middleware dispatch with_handlers enter
  serve-IsAnswered w =
      let entered = enter (site_registry registry) w in
      (
        success-IsAnswered container context request.access request.body entered,
        IsAnswered-success container context request.access request.body entered _,
      )

  -- Where authentication is on, a request that is answered with 200 has sent, by the bearer scheme,
  -- a token that is configured for a tenant. Where rate limits are on too, the limiter let that
  -- tenant through, or failed and the settings let such requests pass.
  pub serve-HasEntry :
      (w : Site W M)
      → container.settings.auth_enabled ≡ true
      → (serve registry (some container) uuid₁ uuid₂ request w).0.status_code ≡ 200
      → (lower_starts_with (strip request.access.authorization) "bearer " ≡ true)
        × (tenant : TenantAccessContext) × HasEntry tenant.tenant_id
            (bearer_token_of (strip request.access.authorization))
            (parse_tenant_api_keys container.settings.auth_tenant_api_keys)
        × ((container.settings.rate_limit_enabled ≡ false)
            ⊎ IsWithinLimit container.rate_limiter
                (access_settings container.settings)
                "chat_sync"
                (asked_for container.rate_limiter
                  (access_settings container.settings)
                  "chat_sync"
                  tenant
                  w.resources).0)
  serve-HasEntry w on h =
      let r = (serve-IsAnswered w).0 h in
      let (scheme, entry, _, within) =
        auth_dependency_sound container.rate_limiter (access_settings container.settings)
          "chat_sync" request.access (access_of w) r.tenant on r.admitted in
      (scheme, r.tenant, entry, within)

  -- Where the dependency refuses a request whose body is JSON, by an exception that is no
  -- RequestValidationError: the answer is that of the handlers to
  -- its exception, nothing but the limiter has worked on the resources, so neither the store nor a
  -- provider was called, and no chat request is counted.
  pub serve-refused :
      (json : Json) (e : Exn) (w : Site W M)
      → request.body ≡ some json
      → (run_auth container request.access "chat_sync" w).0 ≡ raised e
      → is_validation e ≡ false
      → let (response, after) = serve registry (some container) uuid₁ uuid₂ request w in
        (response.body ≡ of_error (handle context e))
        × (response.status_code ≡ (handle context e).status_code)
        × (after.resources ≡ (run_auth container request.access "chat_sync" w).1.limiter)
        × (after.chat_requests ≡ w.chat_requests)
  unfolding serve serve_route request_context_middleware dispatch with_handlers enter leave
  serve-refused json e w posted refused proper =
      let entered = enter (site_registry registry) w in
      let reply = reply_to-handle context e proper in
      rw (posted, endpoint-refused container request.access entered context json e refused)
        (reply.0, reply.1, refl, refl)
