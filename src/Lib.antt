-- ===== src/Lib.antt =====
-- A chat backend: a FastAPI service that keeps each session's history, asks an LLM for a reply
-- and, on request, a speech provider for audio. This library models the Python code under app/.
--
-- How the parts fit together. A request passes authentication and the tenant's rate limit
-- (app/api/deps/auth.py), then a route (app/api/routes/chat.py) calls the chat service
-- (app/application/services/chat_orchestration_service.py). The service works on three ports
-- (app/ports/outbound): the session store, the LLM client and the speech client, which the
-- adapters under app/adapters/outbound implement. The HTTP adapters run their requests in the
-- retry loop of app/common/utils/retry.py. app/main.py turns exceptions into responses.
--
-- Which file models which part:
-- - Common and its children: what is used of Python itself. A `str` is the native text, an `int`
--   that may be negative is ℤ, a `dict` with text keys is an association list in insertion order.
-- - Signal.antt, Retry.antt: app/common/utils/retry.py (`RetrySignal`, `RetryPolicy`,
--   `should_retry_by_taxonomy`, `run_with_retry`). The loop recurs on the rounds that are left,
--   `max(1, max_attempts)` of them at first, which is the bound of the source's `range`. Floats
--   are an argument, `Float`; the clock, the random numbers, the sleep and the callback are a
--   `Runtime`.
-- - Errors.antt: app/domain/exceptions/errors.py.
-- - Exec.antt: calls that may raise, over a state. An awaited call is a function on the state, so
--   what other tasks do meanwhile is part of what it does.
-- - Message.antt: app/domain/entities/message.py and app/application/services/history_builder.py.
-- - Session.antt and its children: the port of app/ports/outbound/session_repository.py, what it
--   promises (Contract), and the adapters inmemory_session_repository.py (Memory),
--   redis_session_repository.py (Redis) and postgres_session_repository.py (Postgres) of
--   app/adapters/outbound. The SQL of the last is in Tables, as functions on the two tables of
--   deploy/migrations/0001_create_chat_session_tables.sql.
-- - Redis.antt: what the adapters use of a Redis server. The server is an argument, with its
--   documented behaviour as a record of laws; so are asyncpg with Postgres, a `Pool`, whose
--   rolled-back transactions keep the numbers they took of a sequence (Tables/Sequence), and
--   pydantic's JSON.
-- - Chunks.antt: the slicing of a reply into pieces.
-- - Chat.antt and its children: app/application/services/chat_orchestration_service.py. A stream
--   is the list of its events, each with the state when it is yielded, so a consumer that stops
--   early has seen a prefix of it.
-- - Provider.antt and its children: the clients of app/adapters/outbound for the LLM and for
--   speech, the stubs (Stub) and the HTTP clients (Vllm for vllm_http_client.py, GptSovits for
--   gptsovits_http_client.py). httpx is an argument, an `HttpClient` over the state of the
--   network: what `post` gives is a response or the first `except` clause that takes its
--   exception. A JSON value is data, and so are the labels of the latency metric.
-- - RateLimit.antt and its children: app/ports/outbound/rate_limiter.py and the adapters
--   inmemory_rate_limiter.py (Memory) and redis_rate_limiter.py (Redis) of app/adapters/outbound,
--   with the wall clock in the state.
-- - Auth.antt and its children: app/api/deps/auth.py over any rate limiter: the parsed settings
--   (Keys), `auth_dependency` with the throttle on failures and the tenant's limit.
-- - App.antt and its children: the exception handlers and the lifespan of app/main.py.
-- - Health.antt and its children: app/api/routes/health.py.
-- - Json.antt: JSON values, and how pydantic reads fields from them.
-- - Server.antt and its children: app/api/deps/providers.py, app/common/tracing/context.py and the
--   rest of app/main.py: one request of either chat route through the middleware, the handlers,
--   the dependencies and the route, in the order that Starlette and FastAPI document.
-- - Mock.antt and its children: app/mock_servers, and what the HTTP clients make of their answers.
-- - Routes.antt and its children: app/api/routes/chat.py with app/api/schemas. The loop of
--   `event_generator` recurs on the events that the service has still to yield; what each round
--   meets (time out, cancellation, a client that is gone, a close of the generator at its yield)
--   is an argument, a function from the number of the round. Frames has the bytes of a stream,
--   beside a reader of server-sent events as the WHATWG standard has it; json.dumps is an
--   argument.
-- - Settings.antt: app/common/config/settings.py.
-- - Bootstrap.antt and its children: app/bootstrap.py. Each adapter works on its part of the state
--   of the process, by a view (Views).
-- - Logging.antt and its children: app/common/logging/logger.py.
-- - Metrics.antt and its children: app/common/metrics/metrics.py. prometheus_client is an
--   argument. The models of what counts (Auth, Routes, Provider/Http) keep the counted labels as
--   lists.
-- - Tests and its children: runs, and the theorems at concrete data.
--
-- What is not modelled: creating the FastAPI application object; FastAPI's and pydantic's own
-- conversions, of a text of digits to a number for instance; the routes /health and /metrics,
-- which give a constant and the text of prometheus_client. A stream's events are sent after the
-- middleware has seen the response begin, so the two are modelled apart. A task that is cancelled
-- inside a call of the service or of an adapter is not modelled, nor are durations: the clock
-- stands still in a call, and a key of Redis does not expire between two calls. The Postgres read
-- does not check the role of a row again, as ChatMessage does, turn_index is an unbounded integer
-- where its column is INTEGER, and no TEXT is refused for a NUL. Starlette's own handler of its
-- HTTPException, which no code of the program raises, is left out. The closes of a shutdown run
-- one after another.
pub mod Common
pub mod Signal
pub mod Errors
pub mod Exec
pub mod Retry
pub mod Message
pub mod Session
pub mod Chunks
pub mod RateLimit
pub mod Auth
pub mod Chat
pub mod Provider
pub mod Tests
pub mod App
pub mod Health
pub mod Json
pub mod Routes
pub mod Redis
pub mod Server
pub mod Settings
pub mod Bootstrap
pub mod Logging
pub mod Metrics
pub mod Mock
