-- ===== src/Server/Streams.antt =====
-- app/api/routes/chat.py: one POST to /api/v1/chat/stream through the whole application, up to the
-- beginning of the response; its events follow by the generator of Routes.
use chatting.Common.{◌≡◌, ◌↔◌, refl, inl, inr, String, Option, none, some, Option-cases}
use chatting.Json.{Json}
use chatting.Errors.{Exn}
use chatting.Exec.{Exec, Result, ok, raised, raise, pure, ◌>>=◌, Result-cases}
use chatting.Retry.{Float}
use chatting.RateLimit.{RateLimitDecision}
use chatting.Bootstrap.{AppContainer}
use chatting.Auth.{Request, Access, TenantAccessContext}
use chatting.Metrics.{Prometheus, enter, leave, dispatch}
use chatting.App.{Context, request_context}
use chatting.Routes.Counted.{stream_headers}
use chatting.Routes.Frames.Schemas.{ChatStreamRequest, request_in}
use chatting.Server.{
  HttpRequest, HttpResponse, of_stream, Site, invalid_payload, get_container, get_chat_service,
  authorize, with_access, site_registry, serve_route, with_handlers, request_context_middleware,
}
use chatting.Server.Branches.{run_auth, reply_to, not_200, authorize-raised, authorize-ok}

module _ {W M : Type 0} where
  -- The body of the route: the response is made before the generator runs.
  unfoldable pub begin_stream :
      Option RateLimitDecision → Option ChatStreamRequest → Exec (Site W M) HttpResponse
  begin_stream limit none = raise invalid_payload
  begin_stream limit (some payload) =
      pure (record { status_code = 200; headers = stream_headers limit; body = of_stream payload })

  unfoldable pub stream_endpoint :
      {F : Float} → Option (AppContainer F W) → Request → Option Json → Exec (Site W M) HttpResponse
  stream_endpoint app access none = raise invalid_payload
  stream_endpoint app access (some json) = do
    container ← get_container app
    limit ← authorize container "chat_stream" access
    service ← get_chat_service app
    begin_stream limit (request_in json)

module _ {W M : Type 0} (registry : Prometheus M) where
  unfoldable pub serve_stream :
      {F : Float}
      → Option (AppContainer F W)
      → (uuid₁ uuid₂ : String) → HttpRequest
      → Site W M
      → HttpResponse × Site W M
  serve_stream app uuid₁ uuid₂ request =
      serve_route registry "/api/v1/chat/stream"
        (λ ctx. stream_endpoint app request.access request.body) uuid₁ uuid₂ request

module _ {F : Float} {W M : Type 0} (container : AppContainer F W) (access : Request)
    (w : Site W M) where
  stream_endpoint-refused :
      (json : Json) (e : Exn)
      → (run_auth container access "chat_stream" w).0 ≡ raised e
      → stream_endpoint (some container) access (some json) w
        ≡ (raised e, with_access (run_auth container access "chat_stream" w).1 w)
  unfolding stream_endpoint
  stream_endpoint-refused json e h =
      rw (authorize-raised container access w "chat_stream" e h, stream_endpoint) refl

  stream_endpoint-admitted :
      (json : Json) (tenant : TenantAccessContext)
      → (run_auth container access "chat_stream" w).0 ≡ ok tenant
      → stream_endpoint (some container) access (some json) w
        ≡ begin_stream
            (run_auth container access "chat_stream" w).1.rate_limit
            (request_in json)
            (with_access (run_auth container access "chat_stream" w).1 w)
  unfolding stream_endpoint
  stream_endpoint-admitted json tenant h =
      rw (authorize-ok container access w "chat_stream" tenant h, stream_endpoint) refl

-- The dependency let the request in and its payload fits; the answer begins the stream of it.
pub record IsBegun {W : Type 0} (body : Option Json) (auth : Result TenantAccessContext × Access W)
    (response : HttpResponse) : Type 0 where
  pub json : Json
  pub posted : body ≡ some json
  pub tenant : TenantAccessContext
  pub admitted : auth.0 ≡ ok tenant
  pub payload : ChatStreamRequest
  pub fits : request_in json ≡ some payload
  pub answer : response.body ≡ of_stream payload

module _ {F : Float} {W M : Type 0} (container : AppContainer F W) (ctx : Context)
    (access : Request) where
  abbrev answer_to : Option Json → Site W M → HttpResponse
  answer_to body w = reply_to ctx (stream_endpoint (some container) access body w).0

  success-IsBegun :
      (body : Option Json) (w : Site W M)
      → (answer_to body w).status_code ≡ 200
      → IsBegun body (run_auth container access "chat_stream" w) (answer_to body w)
  unfolding stream_endpoint begin_stream
  success-IsBegun none w h = absurd (not_200 ctx invalid_payload h)
  success-IsBegun (some json) w h =
      elim (Result-cases (run_auth container access "chat_stream" w).0) [
        | inr (e, a) ↦
            absurd (not_200 ctx e (rw (stream_endpoint-refused container access w json e a) at h))
        | inl (tenant, a) ↦ elim (Option-cases (request_in json)) [
          | inl k ↦ absurd (
              not_200 ctx invalid_payload
                (rw (stream_endpoint-admitted container access w json tenant a, k) at h))
          | inr (payload, k) ↦ record {
            json = json;
            posted = refl;
            tenant = tenant;
            admitted = a;
            payload = payload;
            fits = k;
            answer = rw (stream_endpoint-admitted container access w json tenant a, k) refl;
          }
        ]
      ]

  IsBegun-success :
      (body : Option Json) (w : Site W M) (response : HttpResponse)
      → IsBegun body (run_auth container access "chat_stream" w) response
      → (answer_to body w).status_code ≡ 200
  unfolding begin_stream
  IsBegun-success body w response r =
      rw (r.posted, stream_endpoint-admitted container access w r.json r.tenant r.admitted, r.fits)
        refl

  -- Nothing but the dependency has worked on the resources.
  stream_endpoint-resources :
      (json : Json) (w : Site W M)
      → (stream_endpoint (some container) access (some json) w).1.resources
        ≡ (run_auth container access "chat_stream" w).1.limiter
  unfolding begin_stream
  stream_endpoint-resources json w =
      elim (Result-cases (run_auth container access "chat_stream" w).0) [
        | inr (e, a) ↦ rw (stream_endpoint-refused container access w json e a) refl
        | inl (tenant, a) ↦ elim (Option-cases (request_in json)) [
          | inl k ↦ rw (stream_endpoint-admitted container access w json tenant a, k) refl
          | inr (payload, k) ↦
              rw (stream_endpoint-admitted container access w json tenant a, k) refl
        ]
      ]

module _ {F : Float} {W M : Type 0} (registry : Prometheus M) (container : AppContainer F W)
    (uuid₁ uuid₂ : String) (request : HttpRequest) where
  -- For a body that is JSON: the response begins, with 200, exactly where the dependency lets the
  -- request in and the payload fits, and then it is the stream of this payload; in any case nothing
  -- but the dependency has worked on the resources until then.
  pub serve_stream-IsBegun :
      (json : Json) (w : Site W M)
      → request.body ≡ some json
      → let (response, after) = serve_stream registry (some container) uuid₁ uuid₂ request w in
        let auth = run_auth container request.access "chat_stream" w in
        ((response.status_code ≡ 200) ↔ IsBegun (some json) auth response)
        × (after.resources ≡ auth.1.limiter)
  unfolding serve_stream serve_route request_context_middleware dispatch with_handlers enter leave
  serve_stream-IsBegun json w posted =
      let ctx = request_context request.request_id request.trace_id uuid₁ uuid₂ in
      let entered = enter (site_registry registry) w in
      rw posted (
        (
          success-IsBegun container ctx request.access (some json) entered,
          IsBegun-success container ctx request.access (some json) entered _,
        ),
        stream_endpoint-resources container ctx request.access json entered,
      )
