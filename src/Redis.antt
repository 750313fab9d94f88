-- ===== src/Redis.antt =====
-- What the adapters use of a Redis server: its commands on a state `S`, and how one piece of work, a
-- command, a MULTI/EXEC or a script, is sent to it. The server is an argument of the adapters. What
-- is relied on of it, from its documentation, are the records of laws.
use chatting.Common.{
  ℕ, suc, ◌+◌, ◌≡◌, ◌⊎◌, String, Bool, List, [], ◌∷◌, ◌++◌, ◌==◌, if◌then◌else◌, ℤ, pos, negsuc,
}
use chatting.Common.Window.{keep}
use chatting.Errors.{Exn}
use chatting.Exec.{Exec, ok, raised}

-- Commands run inside the server, one piece of work after another. `submit` may fail, before or
-- after the work is done.
pub record RedisServer (S : Type 0) : Type 1 where
  pub lrange : String → ℤ → ℤ → S → List String
  pub rpush : String → List String → S → S
  pub ltrim : String → ℤ → ℤ → S → S
  pub delete : String → S → S
  pub expire : String → ℤ → S → S
  pub incr : String → S → ℕ × S
  pub submit : {A : Type 0} → (S → A × S) → Exec S A
  pub ping : Exec S Bool
  pub aclose : Exec S (Unit {0})

-- LRANGE key 0 -1
abbrev pub list_at : {S : Type 0} → RedisServer S → S → String → List String
list_at server s key = server.lrange key (pos 0) (negsuc 0) s

pub record SubmitLaws {S : Type 0} (server : RedisServer S) : Type 1 where
  pub submit_done :
      {A : Type 0} (work : S → A × S) (s : S) (a : A)
      → (server.submit work s).0 ≡ ok a
      → ((work s).0 ≡ a) × ((server.submit work s).1 ≡ (work s).1)
  pub submit_failed :
      {A : Type 0} (work : S → A × S) (s : S) (e : Exn)
      → (server.submit work s).0 ≡ raised e
      → ((server.submit work s).1 ≡ s) ⊎ ((server.submit work s).1 ≡ (work s).1)

-- Lists under keys that hold nothing else.
pub record ListLaws {S : Type 0} (server : RedisServer S) : Type 1 where
  pub submits : SubmitLaws server
  pub list_at-rpush :
      (key other value : String) (values : List String) (s : S)
      → list_at server (server.rpush key (value ∷ values) s) other ≡ (
          if key == other then list_at server s key ++ (value ∷ values) else list_at server s other)
  -- LTRIM key -n -1
  pub list_at-ltrim :
      (key other : String) (n : ℕ) (s : S)
      → list_at server (server.ltrim key (negsuc n) (negsuc 0) s) other
        ≡ (if key == other then keep (suc n) (list_at server s key) else list_at server s other)
  pub list_at-delete :
      (key other : String) (s : S)
      → list_at server (server.delete key s) other
        ≡ (if key == other then [] else list_at server s other)
  -- A time to live that is positive changes no value when it is set.
  pub list_at-expire :
      (key other : String) (n : ℕ) (s : S)
      → list_at server (server.expire key (pos (suc n)) s) other ≡ list_at server s other

-- Counters under keys that hold nothing else. A key that is not there counts as 0.
pub record CounterLaws {S : Type 0} (server : RedisServer S) (count_at : S → String → ℕ)
    : Type 1 where
  pub submits : SubmitLaws server
  pub counted : (key : String) (s : S) → (server.incr key s).0 ≡ count_at s key + 1
  pub count_at-incr :
      (key other : String) (s : S)
      → count_at (server.incr key s).1 other
        ≡ (if key == other then count_at s key + 1 else count_at s other)
  pub count_at-expire :
      (key other : String) (n : ℕ) (s : S)
      → count_at (server.expire key (pos (suc n)) s) other ≡ count_at s other
