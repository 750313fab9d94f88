-- ===== src/Tests/Sessions.antt =====
-- Appends to the in-memory store, and its theorems there.
use chatting.Common.{◌≡◌, List, [], ◌∷◌, some, pos}
use chatting.Message.{user, assistant}
use chatting.Session.Memory.{history_of}
use chatting.Session.Contract.{Append, sent_to}
use chatting.Session.Memory.Laws.{append_all, append_all-keeps}

-- Two requests of one session that finish one after the other, and one of another session.
abbrev requests : List Append
requests =
    (record { session_id = "s"; first = user "first"; others = assistant "1" ∷ [] })
    ∷ (record { session_id = "t"; first = user "x"; others = assistant "y" ∷ [] })
    ∷ (record { session_id = "s"; first = user "second"; others = assistant "2" ∷ [] })
    ∷ []

append_all_runs :
    history_of "s" (append_all (some (pos 20)) [] requests)
    ≡ user "first" ∷ assistant "1" ∷ user "second" ∷ assistant "2" ∷ []
unfolding sent_to
append_all_runs = append_all-keeps (some (pos 20)) "s" requests
