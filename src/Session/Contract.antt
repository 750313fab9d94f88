-- ===== src/Session/Contract.antt =====
-- What the port of app/ports/outbound/session_repository.py promises, and what follows from it for a
-- session that many requests append to. An adapter says by a relation which messages its state holds.
use chatting.Common.{
  ◌≡◌, ◌⊎◌, inl, inr, refl, sym, ◌∙◌, String, Bool, true, false, some, List, [], ◌∷◌, ◌++◌, ◌==◌,
  eq_iff, if◌then◌else◌, ℤ, pos_part, Bool-cases, drop-nil, ◌-◌, arith,
}
use mathlib.Core.Path.{subst}
use mathlib.Core.List.{append-nil, append_assoc}
use chatting.Common.Window.{keep-keep-append}
use chatting.Errors.{Exn}
use chatting.Exec.{Result, ok, raised, Result-cases}
use chatting.Message.{ChatMessage}
use chatting.Session.{SessionRepository, bounded}

-- `Holds s k xs`: in the state `s` the session `k` has the messages `xs`. `Live s k`: it has not
-- expired. A failed append may have been made, as where the connection is lost after it.
pub record KeepsMessages {S : Type 0} (repo : SessionRepository S)
    (Holds : S → String → List ChatMessage → Type 0) (Live : S → String → Type 0) : Type 0 where
  pub appends :
      (s : S) (k : String) (m : ChatMessage) (messages : List ChatMessage) (n : ℤ)
      (xs : List ChatMessage)
      → Holds s k xs
      → (repo.append_messages k (m ∷ messages) (some n) s).0 ≡ ok tt
      → Holds
          (repo.append_messages k (m ∷ messages) (some n) s).1
          k
          (bounded (some n) (xs ++ (m ∷ messages)))
  pub fails :
      (s : S) (k : String) (m : ChatMessage) (messages : List ChatMessage) (n : ℤ)
      (xs : List ChatMessage) (e : Exn)
      → Holds s k xs
      → (repo.append_messages k (m ∷ messages) (some n) s).0 ≡ raised e
      → Holds (repo.append_messages k (m ∷ messages) (some n) s).1 k xs
        ⊎ Holds
            (repo.append_messages k (m ∷ messages) (some n) s).1
            k
            (bounded (some n) (xs ++ (m ∷ messages)))
  pub leaves :
      (s : S) (k j : String) (messages : List ChatMessage) (n : ℤ) (xs ys : List ChatMessage)
      → Holds s k ys
      → Holds s j xs
      → (k == j) ≡ false
      → Holds (repo.append_messages k messages (some n) s).1 j xs
  pub reads :
      (s : S) (k : String) (xs ys : List ChatMessage)
      → Holds s k xs
      → Live s k
      → (repo.get_history k s).0 ≡ ok ys
      → ys ≡ xs

-- One append: its session and its messages, of which there is at least one.
pub record Append : Type 0 where
  pub session_id : String
  pub first : ChatMessage
  pub others : List ChatMessage

abbrev pub appended : Append → List ChatMessage
appended a = a.first ∷ a.others

-- All messages that were appended to one session.
unfoldable pub sent_to : String → List Append → List ChatMessage
sent_to j [] = []
sent_to j (a ∷ appends) =
    let rest = sent_to j appends in if a.session_id == j then appended a ++ rest else rest

abbrev pub is_ok : Result (Unit {0}) → Bool
is_ok (ok _) = true
is_ok (raised e) = false

-- Some of the appends, in their order: each that was answered with success, and of the others any.
abbrev pub IsTaken : List (Append × Bool) → List Append → Type 0
IsTaken [] taken = taken ≡ []
IsTaken ((a, true) ∷ log) taken = (rest : List Append) × (taken ≡ a ∷ rest) × IsTaken log rest
IsTaken ((a, false) ∷ log) taken =
    IsTaken log taken ⊎ ((rest : List Append) × (taken ≡ a ∷ rest) × IsTaken log rest)

module _ {S : Type 0} (repo : SessionRepository S) (n : ℤ) where
  -- The appends of requests that ran in this order, with whether each was answered with success.
  unfoldable pub append_each : List Append → S → List (Append × Bool) × S
  append_each [] s = ([], s)
  append_each (a ∷ appends) s =
      let (r, s') = repo.append_messages a.session_id (appended a) (some n) s in
      let (log, last) = append_each appends s' in ((a, is_ok r) ∷ log, last)

bounded-append :
    (n : ℤ) (xs base ys : List ChatMessage)
    → xs ≡ bounded (some n) base
    → bounded (some n) (xs ++ ys) ≡ bounded (some n) (base ++ ys)
bounded-append n xs base ys h = rw h (keep-keep-append (pos_part n) base ys)

bounded-nil : (n : ℤ) → bounded (some n) [] ≡ []
bounded-nil n = ground (arith, drop-nil {0} {A = ChatMessage} (0 - pos_part n))

-- What an append adds to the session `j`.
abbrev part_of : String → Append → List ChatMessage
part_of j a = if a.session_id == j then appended a else []

-- One more append in front of what is known of the others.
sent_to-cons :
    (j : String) (base : List ChatMessage) (a : Append) (rest : List Append)
    → (base ++ part_of j a) ++ sent_to j rest ≡ base ++ sent_to j (a ∷ rest)
unfolding sent_to
sent_to-cons j base a rest = elim (Bool-cases (a.session_id == j)) [
  | inl same ↦ rw same (append_assoc base (appended a) (sent_to j rest))
  | inr differ ↦ rw (differ, append-nil)
]

module _ {S : Type 0} (repo : SessionRepository S) {Holds : S → String → List ChatMessage → Type 0}
    {Live : S → String → Type 0} (contract : KeepsMessages repo Holds Live) (n : ℤ) where
  -- Every session holds the window over all that was appended to it, `base`.
  abbrev pub AreWindows : S → (String → List ChatMessage) → Type 0
  AreWindows s base =
      (j : String) → (xs : List ChatMessage) × Holds s j xs × (xs ≡ bounded (some n) (base j))

  abbrev after : Append → S → S
  after a s = (repo.append_messages a.session_id (appended a) (some n) s).1

  made-AreWindows :
      (a : Append) (s : S) (base : String → List ChatMessage) (w : AreWindows s base)
      → Holds (after a s) a.session_id (bounded (some n) ((w a.session_id).0 ++ appended a))
      → AreWindows (after a s) (λ j. base j ++ part_of j a)
  made-AreWindows a s base w h j = elim (Bool-cases (a.session_id == j)) [
    | inl same ↦
        let e : a.session_id ≡ j = (eq_iff a.session_id j).0 same in
        let own = w a.session_id in
        rw same (
          bounded (some n) (own.0 ++ appended a),
          subst (λ k. Holds (after a s) k (bounded (some n) (own.0 ++ appended a))) e h,
          bounded-append n own.0 (base j) (appended a) (own.2 ∙ rw e),
        )
    | inr differ ↦
        rw (differ, append-nil)
          (
            (w j).0,
            contract.leaves s a.session_id j (appended a) n (w j).0 (w a.session_id).0
                (w a.session_id).1 (w j).1 differ,
            (w j).2,
          )
  ]

  skipped-AreWindows :
      (a : Append) (s : S) (base : String → List ChatMessage) (w : AreWindows s base)
      → Holds (after a s) a.session_id (w a.session_id).0
      → AreWindows (after a s) base
  skipped-AreWindows a s base w h j = elim (Bool-cases (a.session_id == j)) [
    | inl same ↦
        let e : a.session_id ≡ j = (eq_iff a.session_id j).0 same in
        let own = w a.session_id in
        (own.0, subst (λ k. Holds (after a s) k own.0) e h, own.2 ∙ rw e)
    | inr differ ↦ (
      (w j).0,
      contract.leaves s a.session_id j (appended a) n (w j).0 (w a.session_id).0 (w a.session_id).1
          (w j).1 differ,
      (w j).2,
    )
  ]

  -- What is claimed of a run of appends from a state of such windows.
  abbrev pub AreTaken : (String → List ChatMessage) → List (Append × Bool) × S → Type 0
  AreTaken base r =
      (taken : List Append) × IsTaken r.0 taken × AreWindows r.1 (λ j. base j ++ sent_to j taken)

  made_taken :
      (a : Append) (answered : Bool) (base : String → List ChatMessage) (log : List (Append × Bool))
      (s : S)
      → AreTaken (λ j. base j ++ part_of j a) (log, s)
      → AreTaken base ((a, answered) ∷ log, s)
  made_taken a answered base log s (taken, t, w) = (
    a ∷ taken,
    IsTaken-cons answered,
    λ j. ((w j).0, (w j).1, rw (← sent_to-cons j (base j) a taken) (w j).2),
  )
    where
      IsTaken-cons : (answered : Bool) → IsTaken ((a, answered) ∷ log) (a ∷ taken)
      IsTaken-cons true = (taken, refl, t)
      IsTaken-cons false = inr (taken, refl, t)

  append_each-AreTaken :
      (appends : List Append) (s : S) (base : String → List ChatMessage)
      → AreWindows s base
      → AreTaken base (append_each repo n appends s)
  unfolding append_each sent_to
  append_each-AreTaken [] s base w = ([], refl, λ j. ((w j).0, (w j).1, rw append-nil (w j).2))
  append_each-AreTaken (a ∷ appends) s base w =
      elim (Result-cases (repo.append_messages a.session_id (appended a) (some n) s).0) [
        | inl (u, e) ↦ made_taken a _ base _ _ (
            append_each-AreTaken appends (after a s) (λ j. base j ++ part_of j a)
              (made-AreWindows a s base w
                (contract.appends s a.session_id a.first a.others n _ (w a.session_id).1 e)))
        | inr (x, e) ↦
            elim (contract.fails s a.session_id a.first a.others n _ x (w a.session_id).1 e) [
              | inl h ↦
                  let (taken, t, v) =
                    append_each-AreTaken appends (after a s) base
                      (skipped-AreWindows a s base w h) in
                  rw e (taken, inl t, v)
              | inr h ↦ made_taken a _ base _ _ (
                  append_each-AreTaken appends (after a s) (λ j. base j ++ part_of j a)
                    (made-AreWindows a s base w h))
            ]
      ]

  -- Whatever order the appends of concurrent requests ran in, and whichever of them failed: there is
  -- one choice of appends, which has each that was answered with success and of the failed ones any,
  -- such that every session holds the most recent of all its messages of that choice, in that order,
  -- and no others. None is overwritten.
  pub append_each-keeps :
      (appends : List Append) (s : S)
      → ((j : String) → Holds s j [])
      → AreTaken (λ j. []) (append_each repo n appends s)
  append_each-keeps appends s fresh =
      append_each-AreTaken appends s (λ j. []) (λ j. ([], fresh j, sym (bounded-nil n)))
