-- ===== src/Session/Tables/Ids.antt =====
-- The ids of sessions: which row of chat_sessions a session has, before and after the upsert, and
-- which rows of chat_messages a read of the session selects.
use chatting.Common.{
  some-injective, ℕ, ◌≤◌, ◌<◌, ◌≡◌, refl, sym, ap, ◌∙◌, String, Bool, true, false, ◌&&◌, ◌||◌,
  Option, none, some, List, [], ◌∷◌, ◌++◌, ◌==◌, eq_iff, if◌then◌else◌, Bool-cases, arith, inl, inr,
}
use chatting.Session.Tables.{
  SessionRow, MessageRow, Tables, find_session, set_expiry, is_of, is_live, is_selected,
}
use chatting.Session.Tables.Numbered.{rows_of}

-- session_id is UNIQUE.
abbrev pub AreUnique : List SessionRow → Type 0
AreUnique [] = Unit
AreUnique (r ∷ rows) = (find_session r.session_id rows ≡ none) × AreUnique rows

-- A session and its row have one name, and two sessions two ids; an id that the sequence has still
-- to give is no session's and has no messages.
pub record AreKeyed (t : Tables) : Type 0 where
  pub unique : AreUnique t.sessions
  pub below : (k : String) (r : SessionRow) → find_session k t.sessions ≡ some r → r.id < t.next_id
  pub distinct :
      (k j : String) (r q : SessionRow)
      → find_session k t.sessions ≡ some r
      → find_session j t.sessions ≡ some q
      → r.id ≡ q.id
      → k ≡ j
  pub unused : (pk : ℕ) → t.next_id ≤ pk → rows_of pk t.messages ≡ []

abbrev pub row_of : ℕ → String → ℕ → SessionRow
row_of pk k expires_at = record { id = pk; session_id = k; expires_at = some expires_at }

module _ (k : String) where
  found_first :
      (q r : SessionRow) (rows : List SessionRow)
      → (q.session_id == k) ≡ true
      → find_session k (q ∷ rows) ≡ some r
      → (q ≡ r) × (q.session_id ≡ k)
  found_first q r rows e h = (some-injective (rw e at h), (eq_iff q.session_id k).0 e)

  find_session-name :
      (rows : List SessionRow) (r : SessionRow) → find_session k rows ≡ some r → r.session_id ≡ k
  find_session-name [] r h = cc
  find_session-name (q ∷ rows) r h = elim (Bool-cases (q.session_id == k)) [
    | inl e ↦
        let (same, name) = found_first q r rows e h in ap (λ x. x.session_id) (sym same) ∙ name
    | inr e ↦ find_session-name rows r (rw e at h)
  ]

  module _ (expires_at : ℕ) where
    pub find_session-set_expiry :
        (rows : List SessionRow) (r : SessionRow)
        → find_session k rows ≡ some r
        → find_session k (set_expiry k expires_at rows) ≡ some (row_of r.id k expires_at)
    find_session-set_expiry [] r h = cc
    find_session-set_expiry (q ∷ rows) r h = elim (Bool-cases (q.session_id == k)) [
      | inl e ↦
          let (same, name) = found_first q r rows e h in
          rw (e, e, same)
            (ap (λ n. some (row_of r.id n expires_at)) (ap (λ x. x.session_id) (sym same) ∙ name))
      | inr e ↦ rw (e, e) (find_session-set_expiry rows r (rw e at h))
    ]

    pub find_session-set_expiry_other :
        (j : String) (rows : List SessionRow)
        → (k == j) ≡ false
        → find_session j (set_expiry k expires_at rows) ≡ find_session j rows
    find_session-set_expiry_other j [] differ = refl
    find_session-set_expiry_other j (q ∷ rows) differ = elim (Bool-cases (q.session_id == k)) [
      | inl e ↦
          let name : (q.session_id == j) ≡ false =
            ap (λ n. n == j) ((eq_iff q.session_id k).0 e) ∙ differ in
          rw (e, name)
      | inr e ↦ rw (e, find_session-set_expiry_other j rows differ)
    ]

abbrev pub or_row : String → SessionRow → Option SessionRow → Option SessionRow
or_row j r none = if r.session_id == j then some r else none
or_row j r (some q) = some q

pub find_session-append :
    (j : String) (rows : List SessionRow) (r : SessionRow)
    → find_session j (rows ++ (r ∷ [])) ≡ or_row j r (find_session j rows)
find_session-append j [] r = refl
find_session-append j (q ∷ rows) r = elim (Bool-cases (q.session_id == j)) [
  | inl e ↦ rw e
  | inr e ↦ rw e (find_session-append j rows r)
]

pub eq_flip : (a b : String) → (a == b) ≡ false → (b == a) ≡ false
eq_flip a b differ = elim (Bool-cases (b == a)) [
  | inl e ↦ cc (sym differ ∙ (eq_iff a b).1 (sym ((eq_iff b a).0 e)))
  | inr e ↦ e
]

-- What a read of the session `k` selects.
abbrev pub selects : ℕ → MessageRow → Option SessionRow → Bool
selects now row none = false
selects now row (some r) = is_of r.id row && is_live now r

joined : (a b : Bool) → ((a && true && b) || false) ≡ (a && b)
joined a b = ground arith

skipped : (a b c : Bool) → ((a && false && b) || c) ≡ c
skipped a b c = ground arith

pub is_selected-eq :
    (now : ℕ) (k : String) (sessions : List SessionRow) (row : MessageRow)
    → AreUnique sessions
    → is_selected now k sessions row ≡ selects now row (find_session k sessions)
unfolding is_selected
is_selected-eq now k [] row u = refl
is_selected-eq now k (r ∷ sessions) row (fresh, u) = elim (Bool-cases (r.session_id == k)) [
  | inl e ↦
      let none_left : find_session k sessions ≡ none =
        ap (λ n. find_session n sessions) (sym ((eq_iff r.session_id k).0 e)) ∙ fresh in
      rw (e, is_selected-eq now k sessions row u, none_left)
        (joined (is_of r.id row) (is_live now r))
  | inr e ↦ rw (e, is_selected-eq now k sessions row u) (skipped (is_of r.id row) (is_live now r) _)
]
