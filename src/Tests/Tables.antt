-- ===== src/Tests/Tables.antt =====
-- A Postgres server in memory, and the repository's theorems over it.
use chatting.Common.{
  ◌≡◌, ◌+◌, refl, sym, ap, ◌∙◌, inl, inr, String, false, some, [], ◌∷◌, ◌==◌, eq_iff, pos,
  Bool-cases, some-injective, arith,
}
use chatting.Errors.{Exn}
use chatting.Exec.{Result, ok, raised}
use chatting.Message.{user, assistant}
use chatting.Session.Tables.{
  SessionRow, Tables, find_session, append_statements, set_statements, get_statement,
  upsert_session, append_rows, insert_all, payload, max_turn, is_taken, delete_upto, delete_all,
  select, is_selected, order_by_turn, insert_sorted,
}
use chatting.Session.Postgres.{
  Pool, Connected, postgres_repository, postgres_append_messages, postgres_set_history,
  postgres_get_history, ensure_pool,
}
use chatting.Session.Tables.Numbered.{rows_of, numbered}
use chatting.Session.Tables.Statements.{AreWritten, append_statements-AreWritten}
use chatting.Session.Tables.Ids.{AreKeyed}
use chatting.Session.Tables.Sequence.{IsAdvanced, same-IsAdvanced}
use chatting.Session.Postgres.Laws.{PoolLaws}
use chatting.Session.Postgres.Reads.{append_messages-get_history, set_history-get_history}

-- A transaction that raises is rolled back, less the number that it took of the sequence.
abbrev finished : {A : Type 0} → Tables → Result A × Tables → Result A × Tables
finished t (ok a, t') = (ok a, t')
finished t (raised e, t') = (raised e, record t { next_id = t.next_id + 1 })

abbrev pub pool : Pool Tables
pool = record {
  tables = λ t. t;
  clock = λ t. t.now;
  create_pool = λ t. (ok tt, t);
  transact = λ work t. finished t (work t);
  close = λ t. (ok tt, t);
}

pool_commits :
    {A : Type 0} (t : Tables) (r : Result A × Tables) (a : A)
    → (finished t r).0 ≡ ok a
    → (r.0 ≡ ok a) × IsAdvanced r.1 (finished t r).1
pool_commits t (ok b, t') a e = (e, same-IsAdvanced t' t' refl)
pool_commits t (raised x, t') a e = cc

pool_aborts :
    {A : Type 0} (t : Tables) (r : Result A × Tables) (e : Exn)
    → (finished t r).0 ≡ raised e
    → IsAdvanced t (finished t r).1
pool_aborts t (ok b, t') e h = cc
pool_aborts t (raised x, t') e h = (t.next_id + 1, omega arith, refl)

pub pool_laws : PoolLaws pool
pool_laws = record {
  opens = λ t. refl;
  commits = λ work t a e. pool_commits t (work t) a e;
  aborts = λ work t x e. inl (pool_aborts t (work t) x e);
}

-- One session, which expired at 50, with two messages.
abbrev old_row : SessionRow
old_row = record { id = 1; session_id = "s"; expires_at = some 50 }

abbrev old_tables : Tables
old_tables = record {
  now = 100;
  next_id = 2;
  sessions = old_row ∷ [];
  messages =
      (record { session_pk = 1; turn_index = pos 3; role = "user"; content = "a" })
      ∷ (record { session_pk = 1; turn_index = pos 4; role = "assistant"; content = "b" })
      ∷ [];
}

old_session :
    (k : String) (r : SessionRow)
    → find_session k (old_row ∷ []) ≡ some r
    → (old_row ≡ r) × (◌≡◌ {A = String} "s" k)
old_session k r h = elim (Bool-cases ("s" == k)) [
  | inl e ↦ (some-injective (rw e at h), (eq_iff "s" k).0 e)
  | inr e ↦ cc (rw e at h)
]

old-AreKeyed : AreKeyed old_tables
unfolding select
old-AreKeyed = record {
  unique = (refl, tt);
  below = λ k r h. let same = ap (λ x. x.id) (old_session k r h).0 in omega arith;
  distinct = λ k j r q h g e. sym (old_session k r h).1 ∙ (old_session j q g).1;
  unused = λ pk le. ground arith;
}

abbrev connected : Connected Tables
connected = record { has_pool = false; db = old_tables }

-- The expired messages are read beside the new one.
append_messages-get_history_example :
    user "a" ∷ assistant "b" ∷ user "c" ∷ [] ≡ user "a" ∷ assistant "b" ∷ user "c" ∷ []
unfolding postgres_repository postgres_append_messages postgres_set_history postgres_get_history
    ensure_pool append_statements set_statements get_statement upsert_session append_rows insert_all
    payload max_turn is_taken delete_upto delete_all select is_selected order_by_turn insert_sorted
append_messages-get_history_example =
    append_messages-get_history pool pool_laws 60 (pos 10) connected "s" (user "c") [] (pos 20)
      (user "a" ∷ assistant "b" ∷ []) (user "a" ∷ assistant "b" ∷ user "c" ∷ [])
      (old-AreKeyed, (3, refl)) refl refl refl

set_history-get_history_example : user "c" ∷ [] ≡ user "c" ∷ []
unfolding postgres_repository postgres_append_messages postgres_set_history postgres_get_history
    ensure_pool append_statements set_statements get_statement upsert_session append_rows insert_all
    payload max_turn is_taken delete_upto delete_all select is_selected order_by_turn insert_sorted
set_history-get_history_example =
    set_history-get_history pool pool_laws 60 (pos 10) connected "s" (user "c" ∷ []) (user "c" ∷ [])
      old-AreKeyed refl refl refl

append_statements-AreWritten_example :
    AreWritten old_tables "s"
      (user "c" ∷ [])
      (append_statements "s" 160 (user "c" ∷ []) (some (pos 1)) old_tables)
unfolding select
append_statements-AreWritten_example =
    append_statements-AreWritten "s" 160 1 old_tables (user "a" ∷ assistant "b" ∷ [])
      (user "c" ∷ []) (old-AreKeyed, (3, stored))
  where
    stored : rows_of 1 old_tables.messages ≡ numbered 1 3 (user "a" ∷ assistant "b" ∷ [])
    stored = refl
