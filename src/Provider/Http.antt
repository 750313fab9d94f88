-- ===== src/Provider/Http.antt =====
-- What the HTTP adapters use of httpx: the client is an argument, an `HttpClient` over a state `S`;
-- a call's outcome and the counted latencies are data.
use chatting.Common.{ℕ, String, Option, List, [], ◌∷◌, ◌++◌}
use chatting.Errors.{Exn}
use chatting.Exec.{Exec, Result, ok}
use chatting.Json.{Json}

-- What `post` raised, by the first `except` clause of the adapters that takes it.
pub data Failure : Type 0 where
  -- httpx.ConnectTimeout, httpx.ReadTimeout, another httpx.TimeoutException
  connect_timeout read_timeout other_timeout : Failure
  -- httpx.ConnectError or another httpx.NetworkError, and any other httpx.HTTPError
  network_error other_http_error : Failure
  -- an exception that is no httpx.HTTPError
  unrelated : Exn → Failure

-- A response has a status and a body, which may be no JSON.
pub data Reply : Type 0 where
  response : ℕ → Option Json → Reply
  failed : Failure → Reply

pub record HttpClient (S : Type 0) : Type 0 where
  pub post : String → Json → S → Reply × S
  -- the status of the response
  pub get : String → Exec S ℕ
  pub aclose : Exec S (Unit {0})

-- The labels of `observe_provider_latency`; the duration is left out.
pub record Latency : Type 0 where
  pub provider : String
  pub operation : String
  pub result : String

-- The state of the world beside the latencies that were counted.
pub record Wire (S : Type 0) : Type 0 where
  pub http : S
  pub latencies : List Latency

module _ {S : Type 0} where
  unfoldable pub observe_provider_latency : String → String → String → Exec (Wire S) (Unit {0})
  observe_provider_latency provider operation result w = (
    ok tt,
    record w {
      latencies =
          w.latencies
          ++ ((record { provider = provider; operation = operation; result = result }) ∷ []);
    },
  )

  abbrev pub posted : HttpClient S → String → Json → Wire S → Reply × Wire S
  posted client url payload w =
      let (reply, s) = client.post url payload w.http in (reply, record w { http = s })

  -- A call of the client whose exception is handed on as a value, for an `except Exception`.
  abbrev pub got : HttpClient S → String → Exec (Wire S) (Result ℕ)
  got client url w = let (r, s) = client.get url w.http in (ok r, record w { http = s })

  abbrev pub on_http : Exec S (Unit {0}) → Exec (Wire S) (Unit {0})
  on_http m w = let (r, s) = m w.http in (r, record w { http = s })

-- `httpx.Timeout(connect=..., read=..., write=..., pool=...)`
pub record Timeout (Seconds : Type 0) : Type 0 where
  pub connect : Seconds
  pub read : Seconds
  pub write : Seconds
  pub pool : Seconds

-- How a client is made where none is given: `httpx.AsyncClient(timeout=timeout)`.
abbrev pub NewClient : Type 0 → Type 0 → Type 0
NewClient Seconds S = Timeout Seconds → HttpClient S
