-- ===== src/Session/Memory.antt =====
-- app/adapters/outbound/inmemory_session_repository.py. Each method runs to its end before another
-- task goes on: nothing inside its lock awaits.
pub mod Laws
use chatting.Common.{String, Bool, true, Option, none, some, List, [], ◌∷◌, ◌++◌, if◌then◌else◌}
use chatting.Common.{ℤ, pos, leb_ℤ, ltb_ℤ, length, slice_from_end}
use chatting.Common.Dict.{Dict, lookup, insert}
use chatting.Exec.{Exec, pure, ok}
use chatting.Message.{ChatMessage}
use chatting.Session.{SessionRepository}

abbrev pub Store : Type 0
Store = Dict (List ChatMessage)

-- `self._store.get(session_id, [])`, and the list that `self._store[session_id]` makes
unfoldable pub history_of : String → Store → List ChatMessage
unfolding lookup
history_of session_id store = elim (lookup session_id store) [
  | none ↦ []
  | some messages ↦ messages
]

-- The bucket, after it is extended, as it is stored.
unfoldable pub trimmed : Option ℤ → List ChatMessage → List ChatMessage
trimmed none bucket = bucket
trimmed (some max_messages) bucket =
    if leb_ℤ max_messages (pos 0)
    then []
    else if ltb_ℤ max_messages (pos (length bucket))
    then slice_from_end max_messages bucket
    else bucket

unfoldable pub append_to : String → List ChatMessage → Option ℤ → Store → Store
append_to session_id [] max_messages store = store
append_to session_id (m ∷ messages) max_messages store =
    insert session_id (trimmed max_messages (history_of session_id store ++ (m ∷ messages))) store

unfoldable pub memory_repository : SessionRepository Store
memory_repository = record {
  get_history = λ session_id store. (ok (history_of session_id store), store);
  append_messages = λ session_id messages max_messages store.
      (ok tt, append_to session_id messages max_messages store);
  set_history = λ session_id messages store. (ok tt, insert session_id messages store);
  ping = pure true;
  close = pure tt;
}
