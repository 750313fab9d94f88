-- ===== src/App/Lifespan.antt =====
-- app/main.py: the lifespan of the application, from the container that was built to its shutdown.
use chatting.Common.{ℕ, ◌+◌, ◌≡◌, refl, String, Bool, true, false, List, [], ◌++◌}
use chatting.Common.Dict.{Dict}
use chatting.Errors.{Exn}
use chatting.Exec.{Exec, Result, ok, raised}
use chatting.Retry.{Float}
use chatting.Bootstrap.{AppContainer, close_container}
use chatting.Bootstrap.Shutdown.{IsCounted, close_container-closes}

-- `app.state` beside the state of the resources, with the failures that the shutdown logged.
pub record Process (W : Type 0) : Type 0 where
  pub bootstrap_complete : Bool
  pub readiness_last_success : Dict String
  pub resources : W
  pub close_failures : List (String × Exn)

unfoldable pub start_up : {W : Type 0} → Process W → Process W
start_up p = record p { bootstrap_complete = true; readiness_last_success = [] }

module _ {F : Float} {W : Type 0} where
  -- The `finally` of `lifespan`.
  unfoldable pub shut_down : AppContainer F W → Process W → Process W
  shut_down container p =
      let (failures, w) = close_container container p.resources in
      record p {
        bootstrap_complete = false;
        resources = w;
        close_failures = p.close_failures ++ failures;
      }

  -- A container that cannot be built stops the start. `serve` is what happens at the `yield`.
  unfoldable pub lifespan :
      Result (AppContainer F W) → Exec (Process W) (Unit {0}) → Exec (Process W) (Unit {0})
  lifespan (raised e) serve p = (raised e, p)
  lifespan (ok container) serve p = let (r, p') = serve (start_up p) in (r, shut_down container p')

module _ {F : Float} {W : Type 0} (calls : String → W → ℕ) (container : AppContainer F W) where
  -- Where each of the four resources counts the calls of its close: however the serving ends, also by
  -- an exception, which goes on, the application is not ready afterwards, and each of the four was
  -- closed once since, whichever of the closes raised.
  pub lifespan-closes :
      (serve : Exec (Process W) (Unit {0})) (p : Process W)
      → IsCounted calls "llm_client" container.llm_client.close
      → IsCounted calls "tts_client" container.tts_client.close
      → IsCounted calls "session_repo" container.session_repo.close
      → IsCounted calls "rate_limiter" container.rate_limiter.close
      → let served = serve (start_up p) in
        let (r, after) = lifespan (ok container) serve p in
        (r ≡ served.0)
        × (after.bootstrap_complete ≡ false)
        × (calls "llm_client" after.resources ≡ calls "llm_client" served.1.resources + 1)
        × (calls "tts_client" after.resources ≡ calls "tts_client" served.1.resources + 1)
        × (calls "session_repo" after.resources ≡ calls "session_repo" served.1.resources + 1)
        × (calls "rate_limiter" after.resources ≡ calls "rate_limiter" served.1.resources + 1)
  unfolding lifespan shut_down
  lifespan-closes serve p llm tts repo limiter =
      let served = serve (start_up p) in
      let (a, b, c, d) =
        close_container-closes calls container served.1.resources llm tts repo limiter in
      (refl, refl, a, b, c, d)
