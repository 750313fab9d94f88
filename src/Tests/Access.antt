-- ===== src/Tests/Access.antt =====
-- Requests through authentication and the in-memory rate limiter, and the theorems of both there.
use chatting.Common.{ℕ, ◌≡◌, inl, inr, refl, true, false, String, none, some, [], ◌∷◌, pos}
use chatting.Common.Text.{
  strip, split, split_once, lower_starts_with, has_char, is_ascii, parse_int, str,
}
use chatting.Common.Dict.{lookup, insert}
use chatting.Errors.{new, rate_limit_exceeded_error}
use chatting.Exec.{ok, raised}
use chatting.RateLimit.Memory.{Counters, key, count_of, consume, memory_rate_limiter}
use chatting.RateLimit.Memory.Quota
use chatting.RateLimit.Memory.Quota.{allowed_on, requests_on, outcome, allowed_on-min}
use chatting.Auth.Keys.{
  parse_tenant_api_keys, parse_tenant_overrides, add_all, add_api_key, add_override,
}
use chatting.Auth.{
  AccessSettings, TenantAccessContext, Request, Access, find_tenant, auth_dependency, limit_for,
  compare_digest, observe_auth_result, observe_rate_limit, set_rate_limit, try_consume, set_tenant,
  throttle_decision, throttle_auth_failure, reject, limit_decision, admit, matched, authenticate,
}
use chatting.Auth.Reject

abbrev settings : AccessSettings
settings = record {
  auth_enabled = true;
  auth_default_tenant = "default";
  auth_tenant_api_keys = "a:k1, b : k2 ,c";
  rate_limit_enabled = true;
  rate_limit_window_sec = 60;
  rate_limit_requests_per_window = pos 5;
  rate_limit_tenant_overrides = "b:2,a:x";
  rate_limit_fail_open = false;
  auth_failure_limit_per_window = pos 1;
}

abbrev request : String → Request
request token = record { authorization = token; client_host = some "h" }

abbrev fresh : Access Counters
fresh = record {
  limiter = record { now = 125; counters = [] };
  tenant_id = none;
  rate_limit = none;
  auth_results = [];
  rate_limit_results = [];
}

keys_run : parse_tenant_api_keys "a:k1, b : k2 ,c" ≡ ("a", "k1") ∷ ("b", "k2") ∷ []
unfolding parse_tenant_api_keys add_all add_api_key strip split split_once insert has_char
keys_run = refl

abbrev admitted : TenantAccessContext
admitted = record { tenant_id = "b"; authenticated = true }

auth_runs :
    (auth_dependency memory_rate_limiter settings "chat" (request "Bearer k2") fresh).0
    ≡ ok admitted
unfolding auth_dependency authenticate matched admit limit_decision limit_for find_tenant
    compare_digest observe_auth_result observe_rate_limit set_rate_limit try_consume set_tenant
    parse_tenant_api_keys add_all add_api_key strip split split_once insert parse_tenant_overrides
    add_override lookup memory_rate_limiter consume count_of key lower_starts_with has_char is_ascii
    parse_int
auth_runs = refl

-- The second bad token of a host within the window is throttled.
rejected_run :
    (auth_dependency memory_rate_limiter settings "chat"
      (request "Bearer bad")
      (auth_dependency memory_rate_limiter settings "chat" (request "Basic k2") fresh).1).0
    ≡ raised (new rate_limit_exceeded_error "too many failed authentication attempts")
unfolding auth_dependency authenticate matched reject throttle_auth_failure throttle_decision
    find_tenant compare_digest observe_auth_result observe_rate_limit try_consume
    parse_tenant_api_keys add_all add_api_key strip split split_once insert lookup
    memory_rate_limiter consume count_of key lower_starts_with has_char is_ascii str
rejected_run = refl

abbrev attempt : ℕ → Quota.Request
attempt t = record { tenant_id = "anon:h"; route = "chat:auth"; limit = pos 2; at = t }

allowed_on-min_example :
    allowed_on 59
      (key "anon:h" "chat:auth" 120)
      (attempt 121 ∷ attempt 130 ∷ attempt 179 ∷ [])
      (record { now = 0; counters = [] })
    ≡ 2
unfolding requests_on key str count_of lookup
allowed_on-min_example =
    allowed_on-min 59 (key "anon:h" "chat:auth" 120) (pos 2)
      (attempt 121 ∷ attempt 130 ∷ attempt 179 ∷ []) (record { now = 0; counters = [] })
      ((λ e. refl), ((λ e. refl), ((λ e. refl), tt))) refl

auth_dependency-IsRefusedBy_example :
    Reject.IsRefusedBy
      (Reject.quota_for memory_rate_limiter settings "chat" (request "Basic k2") fresh.limiter)
      (auth_dependency memory_rate_limiter settings "chat" (request "Basic k2") fresh)
unfolding lower_starts_with strip
auth_dependency-IsRefusedBy_example =
    Reject.auth_dependency-IsRefusedBy memory_rate_limiter settings "chat" (request "Basic k2")
      fresh refl refl (inr (inl refl))

auth_dependency-not_ascii_example :
    auth_dependency memory_rate_limiter settings "chat" (request "Bearer é") fresh
    ≡ (raised Reject.not_ascii, fresh)
unfolding lower_starts_with strip split_once is_ascii parse_tenant_api_keys add_all add_api_key
    split insert has_char
auth_dependency-not_ascii_example =
    Reject.auth_dependency-not_ascii memory_rate_limiter settings "chat" (request "Bearer é") fresh
      ("a", "k1") (("b", "k2") ∷ []) refl refl refl refl refl
