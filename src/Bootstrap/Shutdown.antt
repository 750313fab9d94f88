-- ===== src/Bootstrap/Shutdown.antt =====
-- The shutdown closes every resource, whichever of them fail.
use chatting.Common.{ℕ, ◌+◌, ◌≡◌, String, List, [], ◌∷◌, ◌==◌, if◌then◌else◌, arith}
use chatting.Exec.{Exec}
use chatting.Retry.{Float}
use chatting.Bootstrap.{AppContainer, close_all, close_container}

module _ {W : Type 0} (calls : String → W → ℕ) where
  -- Calls of `close` are counted under its name, whether or not they raise, and under no other.
  abbrev pub IsCounted : String → Exec W (Unit {0}) → Type 0
  IsCounted name close =
      (m : String) (w : W) → calls m (close w).1 ≡ calls m w + (if name == m then 1 else 0)

  abbrev AreCounted : List (String × Exec W (Unit {0})) → Type 0
  AreCounted [] = Unit
  AreCounted ((name, close) ∷ closes) = IsCounted name close × AreCounted closes

  -- How often a name stands in the list.
  abbrev times : String → List (String × Exec W (Unit {0})) → ℕ
  times m [] = 0
  times m ((name, close) ∷ closes) = (if name == m then 1 else 0) + times m closes

  close_all-closes :
      (closes : List (String × Exec W (Unit {0}))) (m : String) (w : W)
      → AreCounted closes
      → calls m (close_all closes w).1 ≡ calls m w + times m closes
  unfolding close_all
  close_all-closes [] m w counted = ground arith
  close_all-closes ((name, close) ∷ closes) m w (one, others) =
      omega (arith, close_all-closes closes m (close w).1 others, one m w)

  module _ {F : Float} (container : AppContainer F W) where
    -- Where each of the four counts its calls, the shutdown closes each of them once.
    pub close_container-closes :
        (w : W)
        → IsCounted "llm_client" container.llm_client.close
        → IsCounted "tts_client" container.tts_client.close
        → IsCounted "session_repo" container.session_repo.close
        → IsCounted "rate_limiter" container.rate_limiter.close
        → (calls "llm_client" (close_container container w).1 ≡ calls "llm_client" w + 1)
          × (calls "tts_client" (close_container container w).1 ≡ calls "tts_client" w + 1)
          × (calls "session_repo" (close_container container w).1 ≡ calls "session_repo" w + 1)
          × (calls "rate_limiter" (close_container container w).1 ≡ calls "rate_limiter" w + 1)
    unfolding close_container
    close_container-closes w llm tts repo limiter = (
      close_all-closes _ "llm_client" w (llm, (tts, (repo, (limiter, tt)))),
      close_all-closes _ "tts_client" w (llm, (tts, (repo, (limiter, tt)))),
      close_all-closes _ "session_repo" w (llm, (tts, (repo, (limiter, tt)))),
      close_all-closes _ "rate_limiter" w (llm, (tts, (repo, (limiter, tt)))),
    )
