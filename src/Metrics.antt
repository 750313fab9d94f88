-- ===== src/Metrics.antt =====
-- app/common/metrics/metrics.py: the middleware that counts requests, and the metrics of streams. The
-- registry of prometheus_client is an argument, `Prometheus`, on a state that other tasks share. The
-- durations are left out.
pub mod Balance
pub mod Declared
use chatting.Common.{
  ℕ, ◌≡◌, String, Bool, true, false, ◌&&◌, List, [], ◌∷◌, ◌==◌, if◌then◌else◌, ℤ, pos, negsuc, ◌+ℤ◌,
}
use chatting.Common.Text.{str}
use chatting.Exec.{Exec, Result, ok, raised}

-- Metrics by name and labels: `inc` and `dec` add, `observe` adds to a histogram.
pub record Prometheus (S : Type 0) : Type 0 where
  pub value : S → String → List String → ℤ
  pub add : String → List String → ℤ → S → S
  pub observe : String → List String → S → S

abbrev pub same_labels : List String → List String → Bool
same_labels [] [] = true
same_labels (a ∷ labels) (b ∷ others) = a == b && same_labels labels others
same_labels _ _ = false

pub record PrometheusLaws {S : Type 0} (registry : Prometheus S) : Type 0 where
  pub value-add :
      (name other : String) (labels labels' : List String) (n : ℤ) (s : S)
      → registry.value (registry.add name labels n s) other labels' ≡ (
          if name == other && same_labels labels labels'
          then registry.value s other labels' +ℤ n
          else registry.value s other labels')
  -- A histogram is no counter and no gauge.
  pub value-observe :
      (name other : String) (labels labels' : List String) (s : S)
      → registry.value (registry.observe name labels s) other labels'
        ≡ registry.value s other labels'

-- The status of a response, and the 500 that stands where there is none.
abbrev pub counted_status : {A : Type 0} → (A → ℕ) → Result A → ℕ
counted_status status (ok response) = status response
counted_status status (raised e) = 500

module _ {S : Type 0} (registry : Prometheus S) where
  open registry use {add, observe}

  unfoldable pub enter : S → S
  enter s = add "app_request_in_progress" [] (pos 1) s

  -- The `finally` of `dispatch`.
  unfoldable pub leave : String → String → ℕ → S → S
  leave method path status s = add "app_request_in_progress" [] (negsuc 0) (
      observe "app_request_latency_seconds" (method ∷ path ∷ [])
        (add "app_request_total" (method ∷ path ∷ str status ∷ []) (pos 1) s))

  -- `status` is that of a response.
  unfoldable pub dispatch : {A : Type 0} → (A → ℕ) → String → String → Exec S A → Exec S A
  dispatch status method path call_next s =
      let (r, s') = call_next (enter s) in (r, leave method path (counted_status status r) s')

  unfoldable pub stream_connection_opened : S → S
  stream_connection_opened s = add "chat_stream_active_connections" [] (pos 1) s

  unfoldable pub stream_connection_closed : S → S
  stream_connection_closed s = add "chat_stream_active_connections" [] (negsuc 0) s

  unfoldable pub observe_stream_request : String → S → S
  observe_stream_request result s =
      observe "chat_stream_duration_seconds" (result ∷ [])
        (add "chat_stream_request_total" (result ∷ []) (pos 1) s)

  unfoldable pub observe_stream_disconnect : String → S → S
  observe_stream_disconnect reason s = add "chat_stream_disconnect_total" (reason ∷ []) (pos 1) s

  unfoldable pub observe_stream_error : String → S → S
  observe_stream_error error_code s = add "chat_stream_error_total" (error_code ∷ []) (pos 1) s

  unfoldable pub observe_readiness_probe : String → String → S → S
  observe_readiness_probe dependency result s =
      observe "readiness_probe_latency_seconds" (dependency ∷ result ∷ []) s

  unfoldable pub observe_chat_request : String → String → S → S
  observe_chat_request response_mode result s =
      observe "chat_request_latency_seconds" (response_mode ∷ result ∷ [])
        (add "chat_request_total" (response_mode ∷ result ∷ []) (pos 1) s)

  unfoldable pub observe_provider_latency : String → String → String → S → S
  observe_provider_latency provider operation result s =
      observe "provider_latency_seconds" (provider ∷ operation ∷ result ∷ []) s

  unfoldable pub observe_auth_result : String → S → S
  observe_auth_result result s = add "auth_request_total" (result ∷ []) (pos 1) s

  unfoldable pub observe_rate_limit : String → String → S → S
  observe_rate_limit tenant result s = add "rate_limit_total" (tenant ∷ result ∷ []) (pos 1) s
