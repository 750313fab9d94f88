-- ===== src/Auth/Reject.antt =====
-- What app/api/deps/auth.py does with requests that fail to authenticate.
use chatting.Common.{◌≡◌, refl, ◌⊎◌, inl, inr, String, true, false, not, Option, none, some}
use chatting.Common.{◌∷◌, arith, if◌then◌else◌, Bool-cases, if_intro}
use chatting.Common.Text.{is_empty, strip, is_ascii, lower_starts_with, ◌<>◌}
use chatting.Common.Dict.{Dict}
use chatting.Errors.{Exn, new, new_other, unauthorized_error, class_code}
use chatting.Exec.{Exec, Result, ok, raised, raise, ◌>>◌}
use chatting.RateLimit.{RateLimitDecision, RateLimiter}
use chatting.Auth.Keys.{parse_tenant_api_keys}
use chatting.Auth.{
  AccessSettings, TenantAccessContext, Request, Access, compare_digest, find_tenant, principal_of,
  observe_auth_result, observe_rate_limit, try_consume, throttle_decision, throttle_auth_failure,
  reject, matched, bearer_token_of, authenticate, auth_dependency,
}

-- The text of the header, and what the search for its token gives.
abbrev pub header_of : Request → String
header_of request = strip request.authorization

abbrev pub found_for : AccessSettings → Request → Result (Option String)
found_for settings request =
    find_tenant (bearer_token_of (header_of request))
      (parse_tenant_api_keys settings.auth_tenant_api_keys)

-- No header, another scheme, or a token that no tenant has.
abbrev pub IsUnauthenticated : AccessSettings → Request → Type 0
IsUnauthenticated settings request =
    (is_empty (header_of request) ≡ true)
    ⊎ (lower_starts_with (header_of request) "bearer " ≡ false)
    ⊎ (found_for settings request ≡ ok none)

-- The code of the refusal: the limiter's, where it answered that the quota is used up.
abbrev pub refusal_code : Result RateLimitDecision → String
refusal_code (raised e) = "UNAUTHORIZED"
refusal_code (ok decision) = if decision.allowed then "UNAUTHORIZED" else "RATE_LIMIT_EXCEEDED"

abbrev pub not_ascii : Exn
not_ascii = new_other "TypeError" "comparing strings with non-ASCII characters is not supported"

find_tenant-not_ascii :
    (token : String) (key : String × String) (keys : Dict String)
    → is_ascii token ≡ false
    → find_tenant token (key ∷ keys) ≡ raised not_ascii
unfolding find_tenant compare_digest
find_tenant-not_ascii token (tenant, expected) keys h = ground arith

module _ {S : Type 0} where
  -- The call raised, with the code that `r` calls for, and left the limiter as `r` did.
  abbrev pub IsRefusedBy :
      Result RateLimitDecision × S → Result TenantAccessContext × Access S → Type 0
  IsRefusedBy r p =
      (p.1.limiter ≡ r.1)
      × ((e : Exn) × (p.0 ≡ raised e) × (e.error_code ≡ some (refusal_code r.0)))

module _ {S : Type 0} (rate_limiter : RateLimiter S) (settings : AccessSettings)
    (route_id : String) where
  -- What a failed attempt asks of the limiter.
  abbrev pub quota_for : Request → S → Result RateLimitDecision × S
  quota_for request s =
      rate_limiter.consume (principal_of request) (route_id <> ":auth")
        settings.auth_failure_limit_per_window settings.rate_limit_window_sec s

  reject_by :
      (principal message : String) (r : Result RateLimitDecision) (a : Access S)
      → IsRefusedBy
          (r, a.limiter)
          ((throttle_decision rate_limiter settings route_id principal r
              >> raise {A = TenantAccessContext} (new unauthorized_error message))
            a)
  unfolding throttle_decision observe_rate_limit class_code
  reject_by principal message (raised e) a = (refl, (_, refl, refl))
  reject_by principal message (ok d) a = elim (Bool-cases d.allowed) [
    | inl t ↦ rw t (refl, (_, refl, refl))
    | inr f ↦ rw f (refl, (_, refl, refl))
  ]

  reject-IsRefusedBy :
      (request : Request) (label message : String) (a : Access S)
      → settings.rate_limit_enabled ≡ true
      → IsRefusedBy
          (quota_for request a.limiter)
          (reject rate_limiter settings route_id request label message a)
  unfolding reject throttle_auth_failure observe_auth_result try_consume
  reject-IsRefusedBy request label message a on =
      if_intro
        (λ (m : Exec (Access S) (Unit {0})). IsRefusedBy (quota_for request a.limiter) (
          (m >> raise {A = TenantAccessContext} (new unauthorized_error message))
            (observe_auth_result label a).1))
        (not settings.rate_limit_enabled) _ _ (λ off. ground arith)
        (λ h.
          reject_by (principal_of request) message (quota_for request a.limiter).0
            (record (observe_auth_result label a).1 { limiter = (quota_for request a.limiter).1 }))

  authenticate-IsRefusedBy :
      (request : Request) (a : Access S)
      → settings.rate_limit_enabled ≡ true
      → IsUnauthenticated settings request
      → IsRefusedBy
          (quota_for request a.limiter)
          (authenticate rate_limiter settings route_id request (header_of request) a)
  unfolding authenticate matched
  authenticate-IsRefusedBy request a on why =
      let P : Exec (Access S) TenantAccessContext → Type 0 =
        λ m. IsRefusedBy (quota_for request a.limiter) (m a) in
      if_intro P (is_empty (header_of request)) _ _ (λ e. reject-IsRefusedBy request _ _ a on)
        (λ e.
          if_intro P (not (lower_starts_with (header_of request) "bearer ")) _ _
            (λ f. reject-IsRefusedBy request _ _ a on)
            (λ g. elim why [
              | inl k ↦ ground arith
              | inr (inl k) ↦ ground arith
              | inr (inr k) ↦ rw k (reject-IsRefusedBy request _ _ a on)
            ]))

  -- Where authentication and rate limits are on, a request with no header, with another scheme or
  -- with a token that no tenant has consumes the failure quota of its host on this route once and
  -- no other, and is refused: with 429's code where the limiter answers that the quota is used up,
  -- with 401's code where it allows the attempt or fails itself.
  pub auth_dependency-IsRefusedBy :
      (request : Request) (a : Access S)
      → settings.auth_enabled ≡ true
      → settings.rate_limit_enabled ≡ true
      → IsUnauthenticated settings request
      → IsRefusedBy
          (quota_for request a.limiter)
          (auth_dependency rate_limiter settings route_id request a)
  unfolding auth_dependency
  auth_dependency-IsRefusedBy request a on limited why =
      if_intro
        (λ (m : Exec (Access S) TenantAccessContext).
          IsRefusedBy (quota_for request a.limiter) (m a))
        settings.auth_enabled _ _ (λ t. authenticate-IsRefusedBy request a limited why)
        (λ f. ground arith)

  authenticate-raised :
      (request : Request) (a : Access S) (e : Exn)
      → is_empty (header_of request) ≡ false
      → lower_starts_with (header_of request) "bearer " ≡ true
      → found_for settings request ≡ raised e
      → authenticate rate_limiter settings route_id request (header_of request) a ≡ (raised e, a)
  unfolding authenticate matched
  authenticate-raised request a e sent scheme found = rw (sent, scheme, found)

  -- Where authentication is on and at least one tenant key is configured, a bearer token with a
  -- character that is not ASCII ends in a `TypeError`, which is no domain error, and nothing is
  -- counted: the limiter is not asked, so no quota is consumed.
  pub auth_dependency-not_ascii :
      (request : Request) (a : Access S) (key : String × String) (keys : Dict String)
      → settings.auth_enabled ≡ true
      → is_empty (header_of request) ≡ false
      → lower_starts_with (header_of request) "bearer " ≡ true
      → is_ascii (bearer_token_of (header_of request)) ≡ false
      → parse_tenant_api_keys settings.auth_tenant_api_keys ≡ key ∷ keys
      → auth_dependency rate_limiter settings route_id request a ≡ (raised not_ascii, a)
  unfolding auth_dependency
  auth_dependency-not_ascii request a key keys on sent scheme ascii configured =
      if_intro (λ (m : Exec (Access S) TenantAccessContext). m a ≡ (raised not_ascii, a))
        settings.auth_enabled _ _
        (λ t.
          authenticate-raised request a not_ascii sent scheme
            (rw configured (find_tenant-not_ascii _ key keys ascii)))
        (λ f. ground arith)
