-- ===== src/Session/Tables/Sequence.antt =====
-- The sequence of chat_sessions.id: the server never gives a number back, and may skip some.
use chatting.Common.{ℕ, ◌≤◌, ◌≡◌, sym, String, List, arith}
use mathlib.Core.Path.{subst}
use chatting.Message.{ChatMessage}
use chatting.Session.Tables.{Tables}
use chatting.Session.Tables.Ids.{AreKeyed}
use chatting.Session.Tables.Statements.{AreStored}

-- The rows and the time are those of `t`, and the sequence has been moved on, or not.
abbrev pub IsAdvanced : Tables → Tables → Type 0
IsAdvanced t t' = (n : ℕ) × (t.next_id ≤ n) × (t' ≡ record t { next_id = n })

pub same-IsAdvanced : (t t' : Tables) → t' ≡ t → IsAdvanced t t'
same-IsAdvanced t t' e = (t.next_id, omega arith, e)

moved-AreKeyed :
    (t : Tables) (n : ℕ) → t.next_id ≤ n → AreKeyed t → AreKeyed (record t { next_id = n })
moved-AreKeyed t n h keyed = record {
  unique = keyed.unique;
  below = λ k r found. let b = keyed.below k r found in omega (arith, h, b);
  distinct = keyed.distinct;
  unused = λ pk over. keyed.unused pk (omega (arith, h, over));
}

-- The messages of a session stay what they were.
pub stored_in :
    (t t' : Tables) (k : String) (xs : List ChatMessage)
    → IsAdvanced t t'
    → AreStored t k xs
    → AreStored t' k xs
stored_in t t' k xs (n, h, e) (keyed, stored) =
    subst (λ u. AreStored u k xs) (sym e) (moved-AreKeyed t n h keyed, stored)
