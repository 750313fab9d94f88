-- ===== src/Session/Postgres.antt =====
-- app/adapters/outbound/postgres_session_repository.py over its two tables. asyncpg and the server are
-- an argument, a `Pool` over a state, which runs a transaction whole or not at all: `FOR UPDATE` on
-- the session's row and its upsert serialise the transactions of one session.
pub mod Laws
pub mod Reads
use chatting.Common.{
  ℕ, suc, ◌+◌, String, Bool, true, false, not, ◌&&◌, ◌||◌, Option, none, some, List, [], ◌∷◌, ◌++◌,
  map, length, ◌==◌, nat_eq, ltb, if◌then◌else◌, ℤ, pos, negsuc, max_ℤ, leb_ℤ, ltb_ℤ, ◌+ℤ◌, ◌-ℤ◌,
  ◌*ℤ◌, slice_from_end,
}
use chatting.Errors.{Exn, new, new_other, session_store_error}
use chatting.Exec.{Exec, Result, ok, raised, pure, raise, catch, ◌>>=◌, ◌>>◌}
use chatting.Message.{ChatMessage}
use chatting.Session.{SessionRepository}
use chatting.Session.Tables.{
  Tables, append_statements, set_statements, get_statement, resolve_max_messages,
  normalize_messages,
}

-- asyncpg over a server. `create_pool` may fail; `transact` acquires a connection and runs the
-- statements as one transaction; `clock` is the client's.
pub record Pool (S : Type 0) : Type 1 where
  pub tables : S → Tables
  pub clock : S → ℕ
  pub create_pool : Exec S (Unit {0})
  pub transact : {A : Type 0} → (Tables → Result A × Tables) → Exec S A
  pub close : Exec S (Unit {0})

-- The repository's `_pool` beside the server's state.
pub record Connected (S : Type 0) : Type 0 where
  pub has_pool : Bool
  pub db : S

module _ {S : Type 0} (pool : Pool S) where
  abbrev pub on_db : {A : Type 0} → Exec S A → Exec (Connected S) A
  on_db m c = let (r, s) = m c.db in (r, record c { db = s })

  abbrev opened : Exec (Connected S) (Unit {0})
  opened c = (ok tt, record c { has_pool = true })

  abbrev lost : Exec (Connected S) (Unit {0})
  lost c = (ok tt, record c { has_pool = false })

  unfoldable pub ensure_pool : Exec (Connected S) (Unit {0})
  ensure_pool c = (if c.has_pool then pure tt else (on_db pool.create_pool >> opened)) c

  abbrev pub in_transaction : {A : Type 0} → (Tables → Result A × Tables) → Exec (Connected S) A
  in_transaction work = ensure_pool >> on_db (pool.transact work)

  unfoldable pub postgres_get_history : String → Exec (Connected S) (List ChatMessage)
  postgres_get_history k =
      catch (in_transaction (get_statement k))
        (λ e. raise (new session_store_error "failed to load session history from postgres"))

  module _ (expiration_sec : ℕ) (max_history_turns : ℤ) where
    abbrev pub expires_from : Connected S → ℕ
    expires_from c = pool.clock c.db + expiration_sec

    unfoldable pub postgres_append_messages :
        String → List ChatMessage → Option ℤ → Exec (Connected S) (Unit {0})
    postgres_append_messages k [] max_messages c = (ok tt, c)
    postgres_append_messages k (m ∷ messages) max_messages c =
        catch
          (in_transaction (
            append_statements k (expires_from c) (m ∷ messages)
              (resolve_max_messages max_history_turns max_messages)))
          (λ e. raise (new session_store_error "failed to append session history to postgres")) c

    unfoldable pub postgres_set_history : String → List ChatMessage → Exec (Connected S) (Unit {0})
    postgres_set_history k messages c =
        catch
          (in_transaction
            (set_statements k (expires_from c) (normalize_messages max_history_turns messages)))
          (λ e. raise (new session_store_error "failed to set session history in postgres")) c

    abbrev answer : Result (Unit {0}) → Bool
    answer (ok _) = true
    answer (raised e) = false

    unfoldable pub postgres_ping : Exec (Connected S) Bool
    postgres_ping c = let (r, c') = in_transaction (λ t. (ok tt, t)) c in (ok (answer r), c')

    unfoldable pub postgres_close : Exec (Connected S) (Unit {0})
    postgres_close c = (if c.has_pool then on_db pool.close >> lost else pure tt) c

    unfoldable pub postgres_repository : SessionRepository (Connected S)
    postgres_repository = record {
      get_history = postgres_get_history;
      append_messages = postgres_append_messages;
      set_history = postgres_set_history;
      ping = postgres_ping;
      close = postgres_close;
    }
