-- ===== src/Auth.antt =====
-- app/api/deps/auth.py: authentication by tenant API keys, the throttle on failed attempts, and the
-- tenant's rate limit, over any rate limiter. `S` is the limiter's state. The Prometheus counters are
-- the lists of the labels that were counted; the logger's calls are left out.
pub mod Keys
pub mod Sound
pub mod Reject
use chatting.Common.{
  ℕ, leb, String, Bool, true, false, not, ◌&&◌, Option, none, some, List, [], ◌∷◌, ◌++◌, ◌==◌,
}
use chatting.Common.{if◌then◌else◌, ℤ}
use chatting.Common.Text.{is_empty, strip, split_once, is_ascii, lower_starts_with, ◌<>◌}
use chatting.Common.Dict.{Dict, lookup}
use chatting.Errors.{Exn, new, new_other, unauthorized_error, rate_limit_exceeded_error}
use chatting.Exec.{Exec, Result, ok, raised, pure, raise, ◌>>=◌, ◌>>◌}
use chatting.RateLimit.{RateLimitDecision, RateLimiter}
use chatting.Auth.Keys.{parse_tenant_api_keys, parse_tenant_overrides}

-- The settings of app/common/config/settings.py that this module reads.
pub record AccessSettings : Type 0 where
  pub auth_enabled : Bool
  pub auth_default_tenant : String
  pub auth_tenant_api_keys : String
  pub rate_limit_enabled : Bool
  pub rate_limit_window_sec : ℕ
  pub rate_limit_requests_per_window : ℤ
  pub rate_limit_tenant_overrides : String
  pub rate_limit_fail_open : Bool
  pub auth_failure_limit_per_window : ℤ

pub record TenantAccessContext : Type 0 where
  pub tenant_id : String
  pub authenticated : Bool

-- What the dependency reads of the request. A missing header is the empty text.
pub record Request : Type 0 where
  pub authorization : String
  pub client_host : Option String

-- The limiter, the fields of `request.state` that are set, and the counted labels.
pub record Access (S : Type 0) : Type 0 where
  pub limiter : S
  pub tenant_id : Option String
  pub rate_limit : Option RateLimitDecision
  pub auth_results : List String
  pub rate_limit_results : List (String × String)

-- `secrets.compare_digest` of two texts, which takes ASCII only.
unfoldable pub compare_digest : String → String → Result Bool
compare_digest a b =
    if is_ascii a && is_ascii b
    then ok (a == b)
    else raised
        (new_other "TypeError" "comparing strings with non-ASCII characters is not supported")

-- `next((tenant_id for ... if secrets.compare_digest(...)), None)`
unfoldable pub find_tenant : String → Dict String → Result (Option String)
find_tenant bearer_token [] = ok none
find_tenant bearer_token ((tenant_id, expected_token) ∷ keys) =
    let rest = find_tenant bearer_token keys in
    elim (compare_digest expected_token bearer_token) [
      | ok true ↦ ok (some tenant_id)
      | ok false ↦ rest
      | raised e ↦ raised e
    ]

module _ {S : Type 0} where
  unfoldable pub observe_auth_result : String → Exec (Access S) (Unit {0})
  observe_auth_result result a =
      (ok tt, record a { auth_results = a.auth_results ++ (result ∷ []) })

  unfoldable pub observe_rate_limit : String → String → Exec (Access S) (Unit {0})
  observe_rate_limit tenant result a =
      (ok tt, record a { rate_limit_results = a.rate_limit_results ++ ((tenant, result) ∷ []) })

  unfoldable pub set_tenant : String → Exec (Access S) (Unit {0})
  set_tenant tenant a = (ok tt, record a { tenant_id = some tenant })

  unfoldable pub set_rate_limit : RateLimitDecision → Exec (Access S) (Unit {0})
  set_rate_limit decision a = (ok tt, record a { rate_limit = some decision })

  -- A call of the limiter whose exception is handed on as a value, for an `except Exception`.
  unfoldable pub try_consume :
      RateLimiter S → String → String → ℤ → ℕ → Exec (Access S) (Result RateLimitDecision)
  try_consume rate_limiter tenant route limit window a =
      let (r, s) = rate_limiter.consume tenant route limit window a.limiter in
      (ok r, record a { limiter = s })

abbrev pub host_or_unknown : Option String → String
host_or_unknown none = "unknown"
host_or_unknown (some host) = host

-- The principal of a request that is not authenticated.
abbrev pub principal_of : Request → String
principal_of request = "anon:" <> host_or_unknown request.client_host

-- `token_to_validate.split(" ", 1)[1].strip()`
abbrev pub bearer_token_of : String → String
bearer_token_of token_to_validate = strip (split_once 32 token_to_validate).1

module _ {S : Type 0} (rate_limiter : RateLimiter S) (settings : AccessSettings)
    (route_id : String) where
  unfoldable pub throttle_decision : String → Result RateLimitDecision → Exec (Access S) (Unit {0})
  throttle_decision principal (raised e) = pure tt
  throttle_decision principal (ok decision) =
      if decision.allowed
      then pure tt
      else (observe_rate_limit principal "auth_rejected"
          >> raise (new rate_limit_exceeded_error "too many failed authentication attempts"))

  unfoldable pub throttle_auth_failure : Request → Exec (Access S) (Unit {0})
  throttle_auth_failure request = if not settings.rate_limit_enabled then pure tt else do
    decision ←
        try_consume rate_limiter (principal_of request) (route_id <> ":auth")
          settings.auth_failure_limit_per_window settings.rate_limit_window_sec
    throttle_decision (principal_of request) decision

  -- A failed authentication: the label is counted, the attempt is throttled, and 401 is raised.
  unfoldable pub reject : Request → String → String → Exec (Access S) TenantAccessContext
  reject request label message = do
    observe_auth_result label
    throttle_auth_failure request
    raise (new unauthorized_error message)

  unfoldable pub limit_for : String → ℤ
  limit_for tenant =
      elim (lookup tenant (parse_tenant_overrides settings.rate_limit_tenant_overrides)) [
        | none ↦ settings.rate_limit_requests_per_window
        | some limit ↦ limit
      ]

  unfoldable pub limit_decision :
      TenantAccessContext → Result RateLimitDecision → Exec (Access S) TenantAccessContext
  limit_decision access (raised e) =
      if settings.rate_limit_fail_open
      then (observe_rate_limit access.tenant_id "bypass_on_error" >> pure access)
      else (observe_rate_limit access.tenant_id "backend_error"
          >> raise (new rate_limit_exceeded_error "rate limiter backend unavailable"))
  limit_decision access (ok decision) =
      set_rate_limit decision
      >> (if not decision.allowed
          then (observe_rate_limit access.tenant_id "rejected"
              >> raise (new rate_limit_exceeded_error "tenant rate limit exceeded"))
          else (observe_rate_limit access.tenant_id "allowed" >> pure access))

  -- The end of the dependency, once the tenant is known.
  unfoldable pub admit : TenantAccessContext → Exec (Access S) TenantAccessContext
  admit access = do
    set_tenant access.tenant_id
    if settings.rate_limit_enabled
        then (do
          decision ←
              try_consume rate_limiter access.tenant_id route_id (limit_for access.tenant_id)
                settings.rate_limit_window_sec
          limit_decision access decision)
        else pure access

  -- What the search for the token's tenant leads to.
  unfoldable pub matched : Request → Result (Option String) → Exec (Access S) TenantAccessContext
  matched request (raised e) = raise e
  matched request (ok none) = reject request "invalid_key" "invalid tenant api key"
  matched request (ok (some tenant)) =
      observe_auth_result "success" >> admit (record { tenant_id = tenant; authenticated = true })

  unfoldable pub authenticate : Request → String → Exec (Access S) TenantAccessContext
  authenticate request token_to_validate =
      if is_empty token_to_validate
      then reject request "missing" "missing authorization header"
      else if not (lower_starts_with token_to_validate "bearer ")
      then reject request "invalid_scheme" "authorization header must use bearer scheme"
      else matched request (
          find_tenant (bearer_token_of token_to_validate)
            (parse_tenant_api_keys settings.auth_tenant_api_keys))

  unfoldable pub auth_dependency : Request → Exec (Access S) TenantAccessContext
  auth_dependency request =
      if settings.auth_enabled
      then authenticate request (strip request.authorization)
      else (observe_auth_result "bypass"
          >> admit (record { tenant_id = settings.auth_default_tenant; authenticated = false }))
