-- ===== src/Session/Postgres/Laws.antt =====
-- The Postgres repository keeps the port's promises, over a server that runs each transaction whole
-- or not at all.
use chatting.Common.{
  ℕ, zero, suc, ◌≡◌, ◌⊎◌, inl, inr, refl, sym, ap, ◌∙◌, String, true, false, some, List, [], ◌∷◌,
  ◌++◌, ◌==◌, if◌then◌else◌, if_intro, ℤ, pos, negsuc, pos_part, max_ℤ, arith,
}
use mathlib.Core.Path.{subst}
use chatting.Errors.{Exn, new, session_store_error}
use chatting.Exec.{Exec, Result, ok, raised, Result-cases, ok-injective}
use chatting.Message.{ChatMessage}
use chatting.Session.{SessionRepository, bounded}
use chatting.Session.Contract.{KeepsMessages}
use chatting.Session.Tables.{
  Tables, find_session, append_statements, get_statement, resolve_max_messages,
}
use chatting.Session.Postgres.{
  Pool, Connected, ensure_pool, in_transaction, expires_from, postgres_get_history,
  postgres_append_messages, postgres_repository,
}
use chatting.Session.Tables.Sequence.{IsAdvanced, same-IsAdvanced, stored_in}
use chatting.Session.Tables.Statements.{
  AreStored, AreWritten, append_statements-AreWritten, is_seen, get_statement-eq,
}

-- What is relied on of asyncpg and the server. A transaction that raises was rolled back, or its
-- commit was made and its answer lost. The numbers that it took of a sequence are never given back,
-- and the sequence may skip others.
pub record PoolLaws {S : Type 0} (pool : Pool S) : Type 1 where
  pub opens : (s : S) → pool.tables (pool.create_pool s).1 ≡ pool.tables s
  pub commits :
      {A : Type 0} (work : Tables → Result A × Tables) (s : S) (a : A)
      → (pool.transact work s).0 ≡ ok a
      → ((work (pool.tables s)).0 ≡ ok a)
        × IsAdvanced (work (pool.tables s)).1 (pool.tables (pool.transact work s).1)
  pub aborts :
      {A : Type 0} (work : Tables → Result A × Tables) (s : S) (e : Exn)
      → (pool.transact work s).0 ≡ raised e
      → IsAdvanced (pool.tables s) (pool.tables (pool.transact work s).1)
        ⊎ ((a : A) × ((work (pool.tables s)).0 ≡ ok a)
            × IsAdvanced (work (pool.tables s)).1 (pool.tables (pool.transact work s).1))

limit_of : (n : ℤ) → max_ℤ (pos 0) n ≡ pos (pos_part n)
limit_of (pos zero) = refl
limit_of (pos (suc n)) = ground arith
limit_of (negsuc n) = ground arith

module _ {S : Type 0} (pool : Pool S) (laws : PoolLaws pool) where
  abbrev pub tables_of : Connected S → Tables
  tables_of c = pool.tables c.db

  ensure_pool-tables : (c : Connected S) → tables_of (ensure_pool pool c).1 ≡ tables_of c
  unfolding ensure_pool
  ensure_pool-tables c =
      if_intro (λ (m : Exec (Connected S) (Unit {0})). tables_of (m c).1 ≡ tables_of c) c.has_pool _
        _ (λ has. refl)
        (λ has. elim (Result-cases (pool.create_pool c.db).0) [
          | inl (u, e) ↦ rw e (laws.opens c.db)
          | inr (x, e) ↦ rw e (laws.opens c.db)
        ])

  -- How work on the tables may end, with what it leaves.
  abbrev pub DoesEnd :
      {A : Type 0} → (Tables → Result A × Tables) → Tables → Result A → Tables → Type 0
  DoesEnd {A} work t r t' =
      ((a : A) × (r ≡ ok a) × ((work t).0 ≡ ok a) × IsAdvanced (work t).1 t')
      ⊎ ((e : Exn) × (r ≡ raised e) × (IsAdvanced t t' ⊎ IsAdvanced (work t).1 t'))

  transact-DoesEnd :
      {A : Type 0} (work : Tables → Result A × Tables) (s : S)
      → DoesEnd work (pool.tables s) (pool.transact work s).0 (pool.tables (pool.transact work s).1)
  transact-DoesEnd work s = elim (Result-cases (pool.transact work s).0) [
    | inl (a, e) ↦ let (given, left) = laws.commits work s a e in inl (a, e, given, left)
    | inr (x, e) ↦ elim (laws.aborts work s x e) [
      | inl back ↦ inr (x, e, inl back)
      | inr (a, given, left) ↦ inr (x, e, inr left)
    ]
  ]

  pub in_transaction-DoesEnd :
      {A : Type 0} (work : Tables → Result A × Tables) (c : Connected S)
      → DoesEnd work
          (tables_of c)
          (in_transaction pool work c).0
          (tables_of (in_transaction pool work c).1)
  in_transaction-DoesEnd work c = elim (Result-cases (ensure_pool pool c).0) [
    | inl (u, e) ↦ rw e (
        subst
          (λ t.
            DoesEnd work t (pool.transact work (ensure_pool pool c).1.db).0
              (pool.tables (pool.transact work (ensure_pool pool c).1.db).1))
          (ensure_pool-tables c) (transact-DoesEnd work (ensure_pool pool c).1.db))
    | inr (x, e) ↦ rw e (inr (x, refl, inl (same-IsAdvanced _ _ (ensure_pool-tables c))))
  ]

  -- The session has the messages in the tables.
  abbrev pub PostgresHolds : Connected S → String → List ChatMessage → Type 0
  PostgresHolds c k xs = AreStored (tables_of c) k xs

  -- Its row has not expired.
  abbrev pub PostgresLive : Connected S → String → Type 0
  PostgresLive c k = is_seen (tables_of c).now (find_session k (tables_of c).sessions) ≡ true

  module _ (expiration_sec : ℕ) (max_history_turns : ℤ) where
    abbrev repo : SessionRepository (Connected S)
    repo = postgres_repository pool expiration_sec max_history_turns

    abbrev work :
        String
        → ChatMessage
        → List ChatMessage
        → ℤ
        → Connected S
        → Tables
        → Result (Unit {0}) × Tables
    work k m messages n c =
        append_statements k (expires_from pool expiration_sec max_history_turns c) (m ∷ messages)
          (resolve_max_messages max_history_turns (some n))

    work-AreWritten :
        (k : String) (m : ChatMessage) (messages : List ChatMessage) (n : ℤ) (c : Connected S)
        (xs : List ChatMessage)
        → PostgresHolds c k xs
        → AreWritten
            (tables_of c)
            k
            (bounded (some n) (xs ++ (m ∷ messages)))
            (work k m messages n c (tables_of c))
    work-AreWritten k m messages n c xs h =
        rw (limit_of n)
          (append_statements-AreWritten k _ (pos_part n) (tables_of c) xs (m ∷ messages) h)

    append_ends :
        (k : String) (m : ChatMessage) (messages : List ChatMessage) (n : ℤ) (c : Connected S)
        → ((repo.append_messages k (m ∷ messages) (some n) c).0 ≡ ok tt
            × IsAdvanced
                (work k m messages n c (tables_of c)).1
                (tables_of (repo.append_messages k (m ∷ messages) (some n) c).1))
          ⊎ ((e : Exn) × ((repo.append_messages k (m ∷ messages) (some n) c).0 ≡ raised e)
              × (IsAdvanced
                    (tables_of c)
                    (tables_of (repo.append_messages k (m ∷ messages) (some n) c).1)
                  ⊎ IsAdvanced
                      (work k m messages n c (tables_of c)).1
                      (tables_of (repo.append_messages k (m ∷ messages) (some n) c).1)))
    unfolding postgres_repository postgres_append_messages
    append_ends k m messages n c = elim (in_transaction-DoesEnd (work k m messages n c) c) [
      | inl (u, e, given, left) ↦ inl (rw e refl, rw e left)
      | inr (x, e, left) ↦ inr (
        new session_store_error "failed to append session history to postgres",
        rw e refl,
        rw e left,
      )
    ]

    pub appends-PostgresHolds :
        (c : Connected S) (k : String) (m : ChatMessage) (messages : List ChatMessage) (n : ℤ)
        (xs : List ChatMessage)
        → PostgresHolds c k xs
        → (repo.append_messages k (m ∷ messages) (some n) c).0 ≡ ok tt
        → PostgresHolds
            (repo.append_messages k (m ∷ messages) (some n) c).1
            k
            (bounded (some n) (xs ++ (m ∷ messages)))
    appends-PostgresHolds c k m messages n xs h r = elim (append_ends k m messages n c) [
      | inl (_, left) ↦ stored_in _ _ k _ left (work-AreWritten k m messages n c xs h).1
      | inr (x, q, _) ↦ cc
    ]

    fails-PostgresHolds :
        (c : Connected S) (k : String) (m : ChatMessage) (messages : List ChatMessage) (n : ℤ)
        (xs : List ChatMessage)
        → PostgresHolds c k xs
        → PostgresHolds (repo.append_messages k (m ∷ messages) (some n) c).1 k xs
          ⊎ PostgresHolds
              (repo.append_messages k (m ∷ messages) (some n) c).1
              k
              (bounded (some n) (xs ++ (m ∷ messages)))
    fails-PostgresHolds c k m messages n xs h = elim (append_ends k m messages n c) [
      | inl (_, left) ↦ inr (stored_in _ _ k _ left (work-AreWritten k m messages n c xs h).1)
      | inr (x, q, inl same) ↦ inl (stored_in _ _ k _ same h)
      | inr (x, q, inr left) ↦
          inr (stored_in _ _ k _ left (work-AreWritten k m messages n c xs h).1)
    ]

    work-leaves :
        (c : Connected S) (k j : String) (m : ChatMessage) (messages : List ChatMessage) (n : ℤ)
        (xs ys : List ChatMessage)
        → PostgresHolds c k ys
        → PostgresHolds c j xs
        → (k == j) ≡ false
        → AreStored (work k m messages n c (tables_of c)).1 j xs
    work-leaves c k j m messages n xs ys own h differ =
        (work-AreWritten k m messages n c ys own).2 j xs differ h

    leaves-PostgresHolds :
        (c : Connected S) (k j : String) (messages : List ChatMessage) (n : ℤ)
        (xs ys : List ChatMessage)
        → PostgresHolds c k ys
        → PostgresHolds c j xs
        → (k == j) ≡ false
        → PostgresHolds (repo.append_messages k messages (some n) c).1 j xs
    unfolding postgres_repository postgres_append_messages
    leaves-PostgresHolds c k j [] n xs ys own h differ = h
    leaves-PostgresHolds c k j (m ∷ messages) n xs ys own h differ =
        elim (append_ends k m messages n c) [
          | inl (_, left) ↦
              stored_in _ _ j _ left (work-leaves c k j m messages n xs ys own h differ)
          | inr (x, q, inl same) ↦ stored_in _ _ j _ same h
          | inr (x, q, inr left) ↦
              stored_in _ _ j _ left (work-leaves c k j m messages n xs ys own h differ)
        ]

    -- A read that answers gives what the session has, or nothing where it has expired.
    pub get_history-seen :
        (c : Connected S) (k : String) (xs ys : List ChatMessage)
        → PostgresHolds c k xs
        → (repo.get_history k c).0 ≡ ok ys
        → ys
          ≡ (if is_seen (tables_of c).now (find_session k (tables_of c).sessions) then xs else [])
    unfolding postgres_repository postgres_get_history
    get_history-seen c k xs ys h r = elim (in_transaction-DoesEnd (get_statement k) c) [
      | inl (zs, e, given, left) ↦
          ok-injective (sym (rw e at r))
          ∙ ok-injective (sym given ∙ ap (λ p. p.0) (get_statement-eq k (tables_of c) xs h))
      | inr (x, e, left) ↦ cc (rw e at r)
    ]

    pub postgres-KeepsMessages : KeepsMessages repo PostgresHolds PostgresLive
    postgres-KeepsMessages = record {
      appends = appends-PostgresHolds;
      fails = λ c k m messages n xs e h r. fails-PostgresHolds c k m messages n xs h;
      leaves = leaves-PostgresHolds;
      reads = λ c k xs ys h live r. get_history-seen c k xs ys h r ∙ rw live;
    }
