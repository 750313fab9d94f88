-- ===== src/Session.antt =====
-- app/ports/outbound/session_repository.py: the port of the session store. The adapters are the
-- modules below. A repository works on a state, which for an adapter of a server is the server's.
pub mod Contract
pub mod Memory
pub mod Redis
pub mod Tables
pub mod Postgres
use chatting.Common.{ℕ, ◌≡◌, String, Bool, Option, none, some, List, ◌++◌, ℤ, pos_part}
use chatting.Common.Window.{keep}
use chatting.Exec.{Exec}
use chatting.Message.{ChatMessage}

pub record SessionRepository (S : Type 0) : Type 0 where
  pub get_history : String → Exec S (List ChatMessage)
  pub append_messages : String → List ChatMessage → Option ℤ → Exec S (Unit {0})
  pub set_history : String → List ChatMessage → Exec S (Unit {0})
  pub ping : Exec S Bool
  pub close : Exec S (Unit {0})

-- What the port's comment promises of `max_messages`: the most recent ones are kept.
abbrev pub bounded : Option ℤ → List ChatMessage → List ChatMessage
bounded none messages = messages
bounded (some max_messages) messages = keep (pos_part max_messages) messages
