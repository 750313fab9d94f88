-- ===== src/Auth/Sound.antt =====
-- Who is let in by app/api/deps/auth.py.
use chatting.Common.{
  ◌≡◌, ◌≢◌, refl, ◌∙◌, sym, ap, ◌⊎◌, inl, inr, String, true, false, Option, none, some,
}
use chatting.Common.{[], ◌∷◌, arith, eq_iff, Bool-cases, if_intro}
use chatting.Common.Text.{is_empty, strip, lower_starts_with}
use chatting.Common.Dict.{Dict}
use chatting.Errors.{Exn}
use chatting.Exec.{Exec, Result, ok, raised, Result-cases, ok-injective}
use chatting.RateLimit.{RateLimitDecision, RateLimiter}
use mathlib.Core.Bool.{true≢false}
use chatting.Auth.Keys.{parse_tenant_api_keys}
use chatting.Auth.{
  AccessSettings, TenantAccessContext, Request, Access, compare_digest, find_tenant,
  observe_auth_result, observe_rate_limit, set_rate_limit, try_consume, set_tenant,
  throttle_auth_failure, reject, limit_for, limit_decision, admit, matched, bearer_token_of,
  authenticate, auth_dependency,
}

-- The dict holds the pair.
abbrev pub HasEntry : String → String → Dict String → Type 0
HasEntry k v [] = ⊥
HasEntry k v ((j, w) ∷ d) = ((j ≡ k) × (w ≡ v)) ⊎ HasEntry k v d

compare_digest_sound : (a b : String) → compare_digest a b ≡ ok true → a ≡ b
unfolding compare_digest
compare_digest_sound a b h = ground (arith, eq_iff a b)

find_tenant_sound :
    (token : String) (keys : Dict String) (tenant : String)
    → find_tenant token keys ≡ ok (some tenant)
    → HasEntry tenant token keys
unfolding find_tenant
find_tenant_sound token [] tenant h = cc
find_tenant_sound token ((j, w) ∷ keys) tenant h = elim (Result-cases (compare_digest w token)) [
  | inr (e, c) ↦ cc (rw (c, find_tenant) at h)
  | inl (b, c) ↦ elim (Bool-cases b) [
    | inl t ↦
        let c' : compare_digest w token ≡ ok true = c ∙ ap ok t in
        inl (cc (rw (c', find_tenant) at h), compare_digest_sound w token c')
    | inr f ↦
        let c' : compare_digest w token ≡ ok false = c ∙ ap ok f in
        inr (find_tenant_sound token keys tenant (rw (c', find_tenant) at h))
  ]
]

module _ {S : Type 0} (rate_limiter : RateLimiter S) (settings : AccessSettings)
    (route_id : String) where
  -- What the limiter is asked for a known tenant.
  abbrev pub asked_for : TenantAccessContext → S → Result RateLimitDecision × S
  asked_for access s =
      rate_limiter.consume access.tenant_id route_id
        (limit_for rate_limiter settings route_id access.tenant_id) settings.rate_limit_window_sec s

  -- The limiter let the request through, or failed where the settings let such requests pass.
  abbrev pub IsWithinLimit : Result RateLimitDecision → Type 0
  IsWithinLimit r =
      ((d : RateLimitDecision) × (r ≡ ok d) × (d.allowed ≡ true))
      ⊎ ((e : Exn) × (r ≡ raised e) × (settings.rate_limit_fail_open ≡ true))

  limit_decision-ok :
      (access : TenantAccessContext) (r : Result RateLimitDecision) (a : Access S)
      {access' : TenantAccessContext}
      → (limit_decision rate_limiter settings route_id access r a).0 ≡ ok access'
      → (access ≡ access') × IsWithinLimit r
  unfolding limit_decision set_rate_limit observe_rate_limit
  limit_decision-ok access (ok d) a h = elim (Bool-cases d.allowed) [
    | inl t ↦ (ok-injective (rw (t, limit_decision) at h), inl (d, refl, t))
    | inr f ↦ cc (rw (f, limit_decision) at h)
  ]
  limit_decision-ok access (raised e) a h = elim (Bool-cases settings.rate_limit_fail_open) [
    | inl t ↦ (ok-injective (rw (t, limit_decision) at h), inr (e, refl, t))
    | inr f ↦ cc (rw (f, limit_decision) at h)
  ]

  admit-ok :
      (access : TenantAccessContext) (a : Access S) {access' : TenantAccessContext}
      → (admit rate_limiter settings route_id access a).0 ≡ ok access'
      → (access ≡ access')
        × ((settings.rate_limit_enabled ≡ false) ⊎ IsWithinLimit (asked_for access a.limiter).0)
  unfolding admit try_consume set_tenant
  admit-ok access a {access'} h =
      if_intro
        (λ (m : Exec (Access S) TenantAccessContext).
          (m (record a { tenant_id = some access.tenant_id })).0 ≡ ok access'
          → (access ≡ access')
            × ((settings.rate_limit_enabled ≡ false)
                ⊎ IsWithinLimit (asked_for access a.limiter).0))
        settings.rate_limit_enabled _ _
        (λ t k. let l = limit_decision-ok access _ _ k in (l.0, inr l.1))
        (λ f k. (ok-injective k, inl f)) h

  reject-ne-ok :
      (request : Request) (label message : String) (a : Access S) (access : TenantAccessContext)
      → (reject rate_limiter settings route_id request label message a).0 ≢ ok access
  unfolding reject observe_auth_result
  reject-ne-ok request label message a access h =
      elim (Result-cases
        (throttle_auth_failure rate_limiter settings route_id request
          (observe_auth_result label a).1).0) [
            | inl (u, e) ↦ cc (rw (e, reject) at h)
            | inr (x, e) ↦ cc (rw (e, reject) at h)
          ]

  matched-ok :
      (request : Request) (r : Result (Option String)) (a : Access S) (access : TenantAccessContext)
      → (matched rate_limiter settings route_id request r a).0 ≡ ok access
      → (r ≡ ok (some access.tenant_id))
        × (access.authenticated ≡ true)
        × ((settings.rate_limit_enabled ≡ false) ⊎ IsWithinLimit (asked_for access a.limiter).0)
  unfolding matched observe_auth_result
  matched-ok request (raised e) a access h = cc
  matched-ok request (ok none) a access h = absurd (reject-ne-ok request _ _ a access h)
  matched-ok request (ok (some tenant)) a access h =
      let m = admit-ok (record { tenant_id = tenant; authenticated = true }) _ h in
      rw (← m.0) (refl, refl, m.1)

  authenticate-ok :
      (request : Request) (header : String) (a : Access S) (access : TenantAccessContext)
      → (authenticate rate_limiter settings route_id request header a).0 ≡ ok access
      → (lower_starts_with header "bearer " ≡ true)
        × HasEntry access.tenant_id
            (bearer_token_of header)
            (parse_tenant_api_keys settings.auth_tenant_api_keys)
        × (access.authenticated ≡ true)
        × ((settings.rate_limit_enabled ≡ false) ⊎ IsWithinLimit (asked_for access a.limiter).0)
  unfolding authenticate
  authenticate-ok request header a access h = elim (Bool-cases (is_empty header)) [
    | inl e ↦ absurd (reject-ne-ok request _ _ a access (rw (e, authenticate) at h))
    | inr e ↦ elim (Bool-cases (lower_starts_with header "bearer ")) [
      | inr f ↦ absurd (reject-ne-ok request _ _ a access (rw (e, f, authenticate) at h))
      | inl g ↦
          let m = matched-ok request _ a access (rw (e, g, authenticate) at h) in
          (g, find_tenant_sound _ _ _ m.0, m.1, m.2)
    ]
  ]

  -- Where authentication is on, whoever is let in has sent, by the bearer scheme, a token that is
  -- configured for the tenant whose identity is given. Where rate limits are on too, the limiter
  -- let that tenant through, or failed and the settings let such requests pass.
  pub auth_dependency_sound :
      (request : Request) (a : Access S) (access : TenantAccessContext)
      → settings.auth_enabled ≡ true
      → (auth_dependency rate_limiter settings route_id request a).0 ≡ ok access
      → (lower_starts_with (strip request.authorization) "bearer " ≡ true)
        × HasEntry access.tenant_id
            (bearer_token_of (strip request.authorization))
            (parse_tenant_api_keys settings.auth_tenant_api_keys)
        × (access.authenticated ≡ true)
        × ((settings.rate_limit_enabled ≡ false) ⊎ IsWithinLimit (asked_for access a.limiter).0)
  unfolding auth_dependency
  auth_dependency_sound request a access on h =
      authenticate-ok request (strip request.authorization) a access (
        if_intro
          (λ (m : Exec (Access S) TenantAccessContext).
            (m a).0 ≡ ok access
            → (authenticate rate_limiter settings route_id request (strip request.authorization)
                a).0
              ≡ ok access)
          settings.auth_enabled _ _ (λ _ k. k) (λ f k. absurd (true≢false (sym on ∙ f))) h)
