-- ===== src/Session/Postgres/Reads.antt =====
-- What a read of a Postgres session gives after a write of it.
use chatting.Common.{
  ℕ, zero, suc, ◌≡◌, sym, ◌∙◌, String, some, List, [], ◌∷◌, ◌++◌, ℤ, pos, negsuc, pos_part, ◌*ℤ◌,
  max_ℤ, slice_from_end, if◌then◌else◌, arith, inl, inr,
}
use chatting.Common.Window.{keep, keep_zero}
use chatting.Exec.{ok}
use chatting.Message.{ChatMessage}
use chatting.Session.{SessionRepository, bounded}
use chatting.Session.Tables.{eq_ℤ, normalize_messages, set_statements}
use chatting.Session.Postgres.{
  Pool, Connected, expires_from, postgres_set_history, postgres_repository,
}
use chatting.Session.Tables.Ids.{AreKeyed}
use chatting.Session.Tables.Sequence.{stored_in}
use chatting.Session.Tables.Statements.{set_statements-AreWritten}
use chatting.Session.Postgres.Laws.{
  PoolLaws, PostgresHolds, PostgresLive, tables_of, in_transaction-DoesEnd, get_history-seen,
  appends-PostgresHolds,
}

normalize_messages-keep :
    (turns : ℤ) (messages : List ChatMessage)
    → normalize_messages turns messages ≡ keep (pos_part (turns *ℤ pos 2)) messages
normalize_messages-keep turns messages = go (turns *ℤ pos 2)
  where
    go :
        (n : ℤ)
        → (if eq_ℤ (max_ℤ (pos 0) n) (pos 0) then [] else slice_from_end (max_ℤ (pos 0) n) messages)
          ≡ keep (pos_part n) messages
    go (pos zero) = sym (keep_zero messages)
    go (pos (suc n)) = ground arith
    go (negsuc n) = ground (arith, keep_zero messages)

module _ {S : Type 0} (pool : Pool S) (laws : PoolLaws pool) (expiration_sec : ℕ)
    (max_history_turns : ℤ) where
  abbrev repo : SessionRepository (Connected S)
  repo = postgres_repository pool expiration_sec max_history_turns

  set_history-PostgresHolds :
      (c : Connected S) (k : String) (messages : List ChatMessage)
      → AreKeyed (tables_of pool laws c)
      → (repo.set_history k messages c).0 ≡ ok tt
      → PostgresHolds pool laws
          (repo.set_history k messages c).1
          k
          (normalize_messages max_history_turns messages)
  unfolding postgres_repository postgres_set_history
  set_history-PostgresHolds c k messages keyed done =
      let expires_at = expires_from pool expiration_sec max_history_turns c in
      let normalized = normalize_messages max_history_turns messages in
      let work = set_statements k expires_at normalized in
      elim (in_transaction-DoesEnd pool laws work c) [
        | inl (u, e, given, left) ↦
            stored_in _ _ k normalized (rw e left)
              (set_statements-AreWritten k expires_at (tables_of pool laws c) normalized keyed).1
        | inr (x, e, left) ↦ cc (rw e at done)
      ]

  -- Over a pool that keeps its documented laws, and where the tables were keyed: after a `set_history` that succeeded a read that answers gives the
  -- last messages it was given, two for each turn that the history may have, as long as the session
  -- has not expired since.
  pub set_history-get_history :
      (c : Connected S) (k : String) (messages ys : List ChatMessage)
      → AreKeyed (tables_of pool laws c)
      → (repo.set_history k messages c).0 ≡ ok tt
      → PostgresLive pool laws (repo.set_history k messages c).1 k
      → (repo.get_history k (repo.set_history k messages c).1).0 ≡ ok ys
      → ys ≡ keep (pos_part (max_history_turns *ℤ pos 2)) messages
  unfolding postgres_repository postgres_set_history
  set_history-get_history c k messages ys keyed done live r =
      get_history-seen pool laws expiration_sec max_history_turns _ k
        (normalize_messages max_history_turns messages) ys
        (set_history-PostgresHolds c k messages keyed done) r
      ∙ rw live (normalize_messages-keep max_history_turns messages)

  -- Over a pool that keeps its documented laws: after an append that succeeded a read that answers gives the window over what was stored and
  -- the new messages, as long as the session has not expired since: what had expired before the
  -- append is read again.
  pub append_messages-get_history :
      (c : Connected S) (k : String) (m : ChatMessage) (messages : List ChatMessage) (n : ℤ)
      (xs ys : List ChatMessage)
      → PostgresHolds pool laws c k xs
      → (repo.append_messages k (m ∷ messages) (some n) c).0 ≡ ok tt
      → PostgresLive pool laws (repo.append_messages k (m ∷ messages) (some n) c).1 k
      → (repo.get_history k (repo.append_messages k (m ∷ messages) (some n) c).1).0 ≡ ok ys
      → ys ≡ bounded (some n) (xs ++ (m ∷ messages))
  append_messages-get_history c k m messages n xs ys h done live r =
      get_history-seen pool laws expiration_sec max_history_turns _ k _ ys
        (appends-PostgresHolds pool laws expiration_sec max_history_turns c k m messages n xs h
          done)
        r
      ∙ rw live
