-- ===== src/Bootstrap.antt =====
-- app/bootstrap.py: the adapters that the settings choose, the service on them, and the shutdown. The
-- third-party clients that the constructors make are an argument, `Libraries`.
pub mod Views
pub mod Backends
pub mod Shutdown
use chatting.Common.{
  ℕ, String, Bool, true, false, not, Option, none, some, List, [], ◌∷◌, ◌++◌, ◌==◌, if◌then◌else◌,
  ℤ, pos, leb_ℤ,
}
use chatting.Common.Text.{◌<>◌}
use chatting.Common.Dict.{Dict}
use chatting.Errors.{Exn, new_other}
use chatting.Exec.{Exec, Result, ok, raised, pure, raise, ◌>>=◌}
use chatting.Settings.{Settings}
use chatting.Retry.{Float, Runtime}
use chatting.Chat.{ChatOrchestrationService, service_init}
use chatting.Chat.Ports.{LlmClient, TtsClient}
use chatting.Session.{SessionRepository}
use chatting.Session.Memory.{Store, memory_repository}
use chatting.Session.Redis.{MessageJson, redis_repository}
use chatting.Session.Postgres.{Pool, Connected, postgres_repository}
use chatting.RateLimit.{RateLimiter}
use chatting.RateLimit.Memory.{Counters, memory_rate_limiter}
use chatting.RateLimit.Redis.{RedisClock, redis_rate_limiter}
use chatting.Redis.{RedisServer}
use chatting.Provider.Http.{Wire, NewClient}
use chatting.Provider.Stub.{stub_llm_client, stub_tts_client}
use chatting.Provider.Vllm.{
  VllmHttpClient, llm_init, llm_generate, llm_generate_stream, llm_ping, llm_close,
}
use chatting.Provider.GptSovits.{GptSovitsHttpClient, tts_init, tts_synthesize, tts_ping, tts_close}
use chatting.Bootstrap.Views.{View, repository_on, limiter_on, llm_on, tts_on}

-- The state of everything that an adapter works on: R is a Redis server's, P a Postgres server's, H
-- the network's.
pub record World (R P H : Type 0) : Type 0 where
  pub store : Store
  pub counters : Counters
  pub redis : R
  pub postgres : Connected P
  pub wire : Wire H

-- What the constructors make by redis.from_url, asyncpg.create_pool and httpx.AsyncClient, pydantic's
-- JSON, and the runtime of the retry loop.
pub record Libraries (F : Float) (R P H : Type 0) : Type 1 where
  pub from_url : String → RedisServer R
  pub pool_of : String → ℤ → ℤ → Pool P
  pub json : MessageJson
  pub new_client : NewClient F.Seconds H
  pub runtime : Runtime F (Wire H)

pub record AppContainer (F : Float) (W : Type 0) : Type 0 where
  pub settings : Settings F
  pub llm_client : LlmClient W
  pub tts_client : TtsClient W
  pub session_repo : SessionRepository W
  pub rate_limiter : RateLimiter W
  pub chat_service : ChatOrchestrationService W

abbrev unsupported {ℓ} : {A : Type ℓ} → String → String → Result A
unsupported setting value =
    raised (new_other "ValueError" ("unsupported " <> setting <> ": " <> value))

-- The count of one client, or where it is negative the common one.
abbrev pub retry_count_or : ℤ → ℤ → ℤ
retry_count_or own common = if leb_ℤ (pos 0) own then own else common

-- A retry loop that ended without a result; it never does (run_with_retry-ne-none).
abbrev given : {S : Type 0} → Option String → Exec S String
given none = raise (new_other "RuntimeError" "no result")
given (some text) = pure text

abbrev then_build {ℓ} : {A B : Type ℓ} → Result A → (A → Result B) → Result B
then_build (ok a) f = f a
then_build (raised e) f = raised e

module _ {F : Float} {R P H : Type 0} (libraries : Libraries F R P H) where
  open libraries use {from_url, pool_of, json, new_client, runtime}

  abbrev pub wire_view : View (World R P H) (Wire H)
  wire_view = record { part = λ w. w.wire; with_part = λ s w. record w { wire = s } }

  abbrev pub store_view : View (World R P H) Store
  store_view = record { part = λ w. w.store; with_part = λ s w. record w { store = s } }

  abbrev pub redis_view : View (World R P H) R
  redis_view = record { part = λ w. w.redis; with_part = λ s w. record w { redis = s } }

  abbrev pub postgres_view : View (World R P H) (Connected P)
  postgres_view = record { part = λ w. w.postgres; with_part = λ s w. record w { postgres = s } }

  abbrev counters_view : View (World R P H) Counters
  counters_view = record { part = λ w. w.counters; with_part = λ s w. record w { counters = s } }

  -- The wall clock is the one beside the counters.
  abbrev clock_view : View (World R P H) (RedisClock R)
  clock_view = record {
    part = λ w. record { now = w.counters.now; server_state = w.redis };
    with_part = λ s w. record w { redis = s.server_state };
  }

  abbrev vllm_port : VllmHttpClient F H → LlmClient (Wire H)
  vllm_port client = record {
    generate = λ messages. llm_generate F runtime client messages >>= given;
    generate_stream = some (llm_generate_stream F runtime client);
    ping = llm_ping F runtime client;
    close = llm_close F runtime client;
  }

  abbrev gptsovits_port : GptSovitsHttpClient F H → TtsClient (Wire H)
  gptsovits_port client = record {
    synthesize = λ text voice. tts_synthesize F runtime client text voice >>= given;
    ping = tts_ping F runtime client;
    close = tts_close F runtime client;
  }

  module _ (settings : Settings F) where
    open settings use {
      llm_provider, tts_provider, session_backend, rate_limit_backend, http_retry_base_delay_sec,
      http_retry_max_delay_sec, http_retry_jitter_enabled, http_retry_jitter_ratio,
      http_retry_total_timeout_sec,
    }

    unfoldable pub build_llm_client : Result (LlmClient (World R P H))
    build_llm_client =
        if llm_provider == "stub"
        then ok stub_llm_client
        else if llm_provider == "vllm"
        then ok (
            llm_on wire_view (
              vllm_port (
                llm_init F new_client settings.vllm_base_url settings.vllm_model
                  settings.vllm_temperature settings.vllm_max_tokens
                  settings.vllm_connect_timeout_sec settings.vllm_read_timeout_sec
                  (retry_count_or settings.llm_http_retry_count settings.http_retry_count)
                  http_retry_base_delay_sec http_retry_max_delay_sec http_retry_jitter_enabled
                  http_retry_jitter_ratio http_retry_total_timeout_sec none)))
        else unsupported "LLM_PROVIDER" llm_provider

    unfoldable pub build_tts_client : Result (TtsClient (World R P H))
    build_tts_client =
        if tts_provider == "stub"
        then ok stub_tts_client
        else if tts_provider == "gptsovits"
        then ok (
            tts_on wire_view (
              gptsovits_port (
                tts_init F new_client settings.gpt_sovits_base_url
                  settings.gpt_sovits_connect_timeout_sec settings.gpt_sovits_read_timeout_sec
                  (retry_count_or settings.tts_http_retry_count settings.http_retry_count)
                  http_retry_base_delay_sec http_retry_max_delay_sec http_retry_jitter_enabled
                  http_retry_jitter_ratio http_retry_total_timeout_sec
                  settings.tts_synthesis_idempotent none)))
        else unsupported "TTS_PROVIDER" tts_provider

    unfoldable pub build_session_repo : Result (SessionRepository (World R P H))
    build_session_repo =
        if session_backend == "memory"
        then ok (repository_on store_view memory_repository)
        else if session_backend == "redis"
        then ok (
            repository_on redis_view
              (redis_repository (from_url settings.redis_url) json settings.session_ttl_sec))
        else if session_backend == "postgres"
        then ok (
            repository_on postgres_view (
              postgres_repository
                (pool_of settings.postgres_dsn settings.postgres_min_pool_size
                  settings.postgres_max_pool_size)
                settings.session_expiration_sec settings.max_history_turns))
        else unsupported "SESSION_BACKEND" session_backend

    unfoldable pub build_rate_limiter : Result (RateLimiter (World R P H))
    build_rate_limiter =
        if rate_limit_backend == "memory"
        then ok (limiter_on counters_view memory_rate_limiter)
        else if rate_limit_backend == "redis"
        then ok
            (limiter_on clock_view (redis_rate_limiter (from_url settings.redis_url) "rate-limit"))
        else unsupported "RATE_LIMIT_BACKEND" rate_limit_backend

    unfoldable pub build_container : Result (AppContainer F (World R P H))
    build_container = then_build build_session_repo λ session_repo.
        then_build build_rate_limiter λ rate_limiter. then_build build_llm_client λ llm_client.
          then_build build_tts_client λ tts_client. ok (record {
            settings = settings;
            llm_client = llm_client;
            tts_client = tts_client;
            session_repo = session_repo;
            rate_limiter = rate_limiter;
            chat_service =
                service_init llm_client tts_client session_repo settings.max_history_turns
                  settings.stream_chunk_size;
          })

-- A failure that the shutdown logs: `provider` and the exception.
abbrev pub failure_of : String → Result (Unit {0}) → List (String × Exn)
failure_of name (ok _) = []
failure_of name (raised e) = (name, e) ∷ []

-- `asyncio.gather(..., return_exceptions=True)`: a close that raises stops no other.
unfoldable pub close_all :
    {W : Type 0} → List (String × Exec W (Unit {0})) → W → List (String × Exn) × W
close_all [] w = ([], w)
close_all ((name, close) ∷ closes) w =
    let (r, w') = close w in
    let (failures, last) = close_all closes w' in (failure_of name r ++ failures, last)

-- With the failures that are logged.
unfoldable pub close_container :
    {F : Float} {W : Type 0} → AppContainer F W → W → List (String × Exn) × W
close_container container = close_all (
    ("llm_client", container.llm_client.close)
    ∷ ("tts_client", container.tts_client.close)
    ∷ ("session_repo", container.session_repo.close)
    ∷ ("rate_limiter", container.rate_limiter.close)
    ∷ [])
