-- ===== src/Settings.antt =====
-- app/common/config/settings.py: the settings that the components read, with the names in lower case.
-- Reading them from the environment is pydantic's. Floats are an argument; the two numbers that only
-- go into a request are given by their text.
use chatting.Common.{ℕ, String, Bool, ℤ}
use chatting.Retry.{Float}

pub record Settings (F : Float) : Type 0 where
  pub app_name : String
  pub app_env : String
  pub log_level : String
  pub llm_provider : String
  pub tts_provider : String
  pub session_backend : String
  pub vllm_base_url : String
  pub vllm_model : String
  pub vllm_temperature : String
  pub vllm_max_tokens : String
  pub vllm_connect_timeout_sec : F.Seconds
  pub vllm_read_timeout_sec : F.Seconds
  pub gpt_sovits_base_url : String
  pub gpt_sovits_connect_timeout_sec : F.Seconds
  pub gpt_sovits_read_timeout_sec : F.Seconds
  pub http_retry_count : ℤ
  pub http_retry_base_delay_sec : F.Seconds
  pub http_retry_max_delay_sec : F.Seconds
  pub http_retry_jitter_enabled : Bool
  pub http_retry_jitter_ratio : F.Seconds
  pub http_retry_total_timeout_sec : F.Seconds
  pub llm_http_retry_count : ℤ
  pub tts_http_retry_count : ℤ
  pub tts_synthesis_idempotent : Bool
  pub redis_url : String
  pub session_ttl_sec : ℤ
  pub postgres_dsn : String
  pub postgres_min_pool_size : ℤ
  pub postgres_max_pool_size : ℤ
  -- seconds that are not negative
  pub session_expiration_sec : ℕ
  pub max_history_turns : ℤ
  pub request_timeout_sec : F.Seconds
  pub stream_total_timeout_sec : F.Seconds
  pub stream_chunk_size : ℤ
  pub auth_enabled : Bool
  pub auth_default_tenant : String
  pub auth_tenant_api_keys : String
  pub rate_limit_enabled : Bool
  pub rate_limit_backend : String
  -- seconds that are not negative
  pub rate_limit_window_sec : ℕ
  pub rate_limit_requests_per_window : ℤ
  pub rate_limit_tenant_overrides : String
  pub rate_limit_fail_open : Bool
  pub auth_failure_limit_per_window : ℤ
