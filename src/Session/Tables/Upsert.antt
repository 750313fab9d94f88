-- ===== src/Session/Tables/Upsert.antt =====
-- The upsert of a session's row: the id it gives, and that it keeps the tables keyed.
use chatting.Common.{
  some-injective, ℕ, ◌+◌, ◌<◌, ◌≡◌, refl, sym, ap, ◌∙◌, String, false, Option, none, some, List, [],
  ◌∷◌, ◌++◌, ◌==◌, eq_iff, eq_refl, nat_eq, Bool-cases, arith, inl, inr, ◌⊎◌,
}
use chatting.Session.Tables.{SessionRow, Tables, find_session, set_expiry, upserted, upsert_session}
use chatting.Session.Tables.Numbered.{rows_of}
use chatting.Session.Tables.Ids.{
  AreUnique, AreKeyed, row_of, or_row, find_session-set_expiry, find_session-set_expiry_other,
  find_session-append, eq_flip,
}

-- What an upsert leaves: its session has the id, the others have what they had.
pub record AreUpserted (k : String) (t : Tables) (pk : ℕ) (t' : Tables) : Type 0 where
  pub own : (q : SessionRow) × (find_session k t'.sessions ≡ some q) × (q.id ≡ pk)
  pub others :
      (j : String) → (k == j) ≡ false → find_session j t'.sessions ≡ find_session j t.sessions
  pub next : t'.next_id ≡ t.next_id + 1
  pub messages : t'.messages ≡ t.messages
  pub id :
      ((r : SessionRow) × (find_session k t.sessions ≡ some r) × (r.id ≡ pk))
      ⊎ ((find_session k t.sessions ≡ none) × (t.next_id ≡ pk))

unique-set_expiry :
    (k : String) (e : ℕ) (rows : List SessionRow) → AreUnique rows → AreUnique (set_expiry k e rows)
unique-set_expiry k e [] u = tt
unique-set_expiry k e (r ∷ rows) (fresh, u) = elim (Bool-cases (r.session_id == k)) [
  | inl same ↦ rw same (fresh, u)
  | inr differ ↦ rw differ (
    find_session-set_expiry_other k e r.session_id rows (eq_flip r.session_id k differ) ∙ fresh,
    unique-set_expiry k e rows u,
  )
]

unique-append :
    (rows : List SessionRow) (r : SessionRow)
    → find_session r.session_id rows ≡ none
    → AreUnique rows
    → AreUnique (rows ++ (r ∷ []))
unique-append [] r h u = (refl, tt)
unique-append (q ∷ rows) r h (fresh, u) = elim (Bool-cases (q.session_id == r.session_id)) [
  | inl e ↦ cc (rw e at h)
  | inr e ↦ (
    find_session-append q.session_id rows r ∙ rw (fresh, eq_flip q.session_id r.session_id e),
    unique-append rows r (rw e at h) u,
  )
]

upserted-AreUpserted :
    (k : String) (e : ℕ) (t : Tables) (found : Option SessionRow)
    → find_session k t.sessions ≡ found
    → AreUpserted k t (upserted k e found t).0 (upserted k e found t).1
upserted-AreUpserted k e t (some r) h = record {
  own = (row_of r.id k e, find_session-set_expiry k e t.sessions r h, refl);
  others = λ j differ. find_session-set_expiry_other k e j t.sessions differ;
  next = refl;
  messages = refl;
  id = inl (r, h, refl);
}
upserted-AreUpserted k e t none h = record {
  own = (
    row_of t.next_id k e,
    find_session-append k t.sessions (row_of t.next_id k e) ∙ rw (h, eq_refl k),
    refl,
  );
  others = λ j differ.
      find_session-append j t.sessions (row_of t.next_id k e)
      ∙ unchanged j differ (find_session j t.sessions);
  next = refl;
  messages = refl;
  id = inr (h, refl);
}
  where
    unchanged :
        (j : String)
        → (k == j) ≡ false
        → (o : Option SessionRow) → or_row j (row_of t.next_id k e) o ≡ o
    unchanged j differ none = rw differ
    unchanged j differ (some q) = refl

upserted-AreUnique :
    (k : String) (e : ℕ) (t : Tables) (found : Option SessionRow)
    → find_session k t.sessions ≡ found
    → AreUnique t.sessions
    → AreUnique (upserted k e found t).1.sessions
upserted-AreUnique k e t (some r) h u = unique-set_expiry k e t.sessions u
upserted-AreUnique k e t none h u = unique-append t.sessions (row_of t.next_id k e) h u

module _ (k : String) (e : ℕ) (t : Tables) where
  pub upsert-AreUpserted : AreUpserted k t (upsert_session k e t).0 (upsert_session k e t).1
  unfolding upsert_session
  upsert-AreUpserted = upserted-AreUpserted k e t (find_session k t.sessions) refl

  pub upsert-AreUnique : AreUnique t.sessions → AreUnique (upsert_session k e t).1.sessions
  unfolding upsert_session
  upsert-AreUnique u = upserted-AreUnique k e t (find_session k t.sessions) refl u

module _ (k : String) (t : Tables) (pk : ℕ) (t' : Tables) (up : AreUpserted k t pk t')
    (keyed : AreKeyed t) where
  -- The id of the upsert is no other session's.
  own_id : (r : SessionRow) → find_session k t'.sessions ≡ some r → r.id ≡ pk
  own_id r h = let (q, found, id) = up.own in ap (λ x. x.id) (some-injective (sym h ∙ found)) ∙ id

  pub other_id :
      (j : String) (q : SessionRow)
      → (k == j) ≡ false
      → find_session j t.sessions ≡ some q
      → nat_eq pk q.id ≡ false
  other_id j q differ h = elim (Bool-cases (nat_eq pk q.id)) [
    | inl e ↦
        let same : pk ≡ q.id = ground arith in
        elim up.id [
          | inl (r, found, id) ↦
              cc (sym differ ∙ (eq_iff k j).1 (keyed.distinct k j r q found h (id ∙ same)))
          | inr (fresh, id) ↦ let older = keyed.below j q h in absurd (omega arith)
        ]
    | inr e ↦ e
  ]

  -- A session that is found is the one of the upsert or was there before.
  found_before :
      (j : String) (r : SessionRow)
      → find_session j t'.sessions ≡ some r
      → ((k ≡ j) × (r.id ≡ pk)) ⊎ (((k == j) ≡ false) × (find_session j t.sessions ≡ some r))
  found_before j r h = elim (Bool-cases (k == j)) [
    | inl e ↦
        let same : k ≡ j = (eq_iff k j).0 e in
        inl (same, own_id r (ap (λ n. find_session n t'.sessions) same ∙ h))
    | inr e ↦ inr (e, sym (up.others j e) ∙ h)
  ]

  pub pk_below : pk < t'.next_id
  pk_below = elim up.id [
    | inl (r, found, id) ↦ let older = keyed.below k r found in omega (arith, up.next)
    | inr (fresh, id) ↦ omega (arith, up.next)
  ]

  ids_below :
      (j : String) (r : SessionRow) → find_session j t'.sessions ≡ some r → r.id < t'.next_id
  ids_below j r h = elim (found_before j r h) [
    | inl (same, id) ↦ omega (arith, pk_below)
    | inr (differ, found) ↦ let older = keyed.below j r found in omega (arith, up.next)
  ]

  ids_distinct :
      (j l : String) (r q : SessionRow)
      → find_session j t'.sessions ≡ some r
      → find_session l t'.sessions ≡ some q
      → r.id ≡ q.id
      → j ≡ l
  ids_distinct j l r q hr hq ids = elim (found_before j r hr) [
    | inl (same, id) ↦ elim (found_before l q hq) [
      | inl (same', id') ↦ sym same ∙ same'
      | inr (differ, found) ↦
          let apart : nat_eq pk q.id ≡ false = other_id l q differ found in absurd (ground arith)
    ]
    | inr (differ, found) ↦ elim (found_before l q hq) [
      | inl (same, id) ↦
          let apart : nat_eq pk r.id ≡ false = other_id j r differ found in absurd (ground arith)
      | inr (differ', found') ↦ keyed.distinct j l r q found found' ids
    ]
  ]

  pub upsert-AreKeyed : AreUnique t'.sessions → AreKeyed t'
  upsert-AreKeyed unique = record {
    unique = unique;
    below = ids_below;
    distinct = ids_distinct;
    unused = λ n le. ap (rows_of n) up.messages ∙ keyed.unused n (omega (arith, up.next));
  }
