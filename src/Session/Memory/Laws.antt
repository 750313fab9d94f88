-- ===== src/Session/Memory/Laws.antt =====
-- The in-memory repository keeps the promises of the port, and loses no message of any session.
use chatting.Common.{zero, suc, ◌-◌, ◌≡◌, refl, sym, ◌∙◌, String, Option, none, some, List, [], ◌∷◌}
use chatting.Common.{
  ◌++◌, arith, ◌==◌, eq_iff, eq_refl, false, if◌then◌else◌, ℤ, pos, negsuc, pos_part,
}
use chatting.Common.{drop-nil}
use mathlib.Core.List.{append-nil, append_assoc}
use chatting.Common.{Bool-cases, inl, inr}
use chatting.Common.Window.{keep_all, keep_zero, keep-keep-append}
use chatting.Common.Dict.{insert, lookup-insert}
use chatting.Message.{ChatMessage}
use chatting.Session.{bounded}
use chatting.Session.Contract.{Append, appended, sent_to, KeepsMessages}
use chatting.Exec.{ok-injective}
use chatting.Session.Memory.{Store, history_of, trimmed, append_to, memory_repository}

trimmed-bounded :
    (max_messages : Option ℤ) (bucket : List ChatMessage)
    → trimmed max_messages bucket ≡ bounded max_messages bucket
unfolding trimmed
trimmed-bounded none bucket = refl
trimmed-bounded (some (pos zero)) bucket = sym (keep_zero bucket)
trimmed-bounded (some (pos (suc n))) bucket = ground (arith, keep_all (suc n) bucket)
trimmed-bounded (some (negsuc n)) bucket = ground (arith, keep_zero bucket)

history_of-insert :
    (k j : String) (messages : List ChatMessage) (store : Store)
    → history_of j (insert k messages store) ≡ (if k == j then messages else history_of j store)
unfolding history_of
history_of-insert k j messages store = ground (arith, lookup-insert k j messages store)

bounded-bounded-append :
    (max_messages : Option ℤ) (xs ys : List ChatMessage)
    → bounded max_messages (bounded max_messages xs ++ ys) ≡ bounded max_messages (xs ++ ys)
bounded-bounded-append none xs ys = refl
bounded-bounded-append (some n) xs ys = keep-keep-append (pos_part n) xs ys

-- An append that has something to append leaves the most recent messages of its session, the
-- appended ones last, and every other session as it was.
pub history_of-append_to :
    (k j : String) (m : ChatMessage) (messages : List ChatMessage) (max_messages : Option ℤ)
    (store : Store)
    → history_of j (append_to k (m ∷ messages) max_messages store) ≡ (
        if k == j
        then bounded max_messages (history_of k store ++ (m ∷ messages))
        else history_of j store)
unfolding append_to
history_of-append_to k j m messages max_messages store = rw (history_of-insert, trimmed-bounded)

-- The store after appends that ran in this order, all with one bound.
pub append_all : Option ℤ → Store → List Append → Store
append_all max_messages store [] = store
append_all max_messages store (a ∷ appends) =
    append_all max_messages (append_to a.session_id (appended a) max_messages store) appends

append_all-window :
    (max_messages : Option ℤ) (j : String) (xs : List ChatMessage) (store : Store)
    (appends : List Append)
    → history_of j store ≡ bounded max_messages xs
    → history_of j (append_all max_messages store appends)
      ≡ bounded max_messages (xs ++ sent_to j appends)
unfolding append_all sent_to
append_all-window b j xs store [] h = rw append-nil h
append_all-window b j xs store (a ∷ appends) h = elim (Bool-cases (a.session_id == j)) [
  | inl same ↦
      let e : a.session_id ≡ j = (eq_iff a.session_id j).0 same in
      rw (same, ← append_assoc xs (appended a) (sent_to j appends))
        (append_all-window b j (xs ++ appended a) _ appends (
          history_of-append_to a.session_id j a.first a.others b store
          ∙ rw (same, e, h) (bounded-bounded-append b xs (appended a))))
  | inr differ ↦ rw differ (
      append_all-window b j xs _ appends
        (history_of-append_to a.session_id j a.first a.others b store ∙ rw differ h))
]

history_of-nil : (b : Option ℤ) (j : String) → history_of j [] ≡ bounded b []
unfolding history_of
history_of-nil none j = refl
history_of-nil (some n) j = ground (arith, drop-nil {0} (0 - pos_part n))

-- Whatever order the appends of concurrent requests ran in, the history of each session is the
-- most recent of all the messages that were appended to it, in that order, and of no others: none
-- is overwritten.
pub append_all-keeps :
    (max_messages : Option ℤ) (j : String) (appends : List Append)
    → history_of j (append_all max_messages [] appends) ≡ bounded max_messages (sent_to j appends)
append_all-keeps b j appends = append_all-window b j [] [] appends (history_of-nil b j)

append_to_other :
    (store : Store) (k j : String) (messages : List ChatMessage) (n : ℤ) (xs : List ChatMessage)
    → history_of j store ≡ xs
    → (k == j) ≡ false
    → history_of j (append_to k messages (some n) store) ≡ xs
unfolding append_to
append_to_other store k j [] n xs h differ = h
append_to_other store k j (m ∷ messages) n xs h differ =
    history_of-append_to k j m messages (some n) store ∙ rw differ h

-- The in-memory store keeps the port's promises about appends and reads: nothing expires in it.
pub memory-KeepsMessages :
    KeepsMessages memory_repository (λ store k xs. history_of k store ≡ xs) (λ store k. Unit)
unfolding memory_repository
memory-KeepsMessages = record {
  appends =
      λ s k m messages n xs h e. history_of-append_to k k m messages (some n) s ∙ rw (eq_refl k, h);
  fails = λ s k m messages n xs e h f. cc;
  leaves = λ s k j messages n xs ys own h differ. append_to_other s k j messages n xs h differ;
  reads = λ s k xs ys h l e. sym (ok-injective e) ∙ h;
}
