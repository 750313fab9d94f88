-- ===== src/Session/Tables.antt =====
-- The SQL of app/adapters/outbound/postgres_session_repository.py: its statements are functions on the
-- two tables of deploy/migrations/0001_create_chat_session_tables.sql. Times are seconds.
pub mod Numbered
pub mod Ids
pub mod Upsert
pub mod Appends
pub mod Statements
pub mod Sequence
use chatting.Common.{
  ℕ, suc, ◌+◌, String, Bool, true, false, not, ◌&&◌, ◌||◌, Option, none, some, List, [], ◌∷◌, ◌++◌,
  map, length, ◌==◌, nat_eq, ltb, if◌then◌else◌, ℤ, pos, negsuc, max_ℤ, leb_ℤ, ltb_ℤ, ◌+ℤ◌, ◌-ℤ◌,
  ◌*ℤ◌, slice_from_end,
}
use chatting.Errors.{Exn, new, new_other, session_store_error}
use chatting.Exec.{Exec, Result, ok, raised, pure, raise, catch, ◌>>=◌, ◌>>◌}
use chatting.Message.{ChatMessage}

-- chat_sessions and chat_messages, less the columns that no statement reads.
pub record SessionRow : Type 0 where
  pub id : ℕ
  pub session_id : String
  pub expires_at : Option ℕ

pub record MessageRow : Type 0 where
  pub session_pk : ℕ
  pub turn_index : ℤ
  pub role : String
  pub content : String

-- `next_id` is the sequence of chat_sessions.id, `now` what `now()` gives.
-- The `turn_index` of a row is of any size, where the column is INTEGER.
pub record Tables : Type 0 where
  pub now : ℕ
  pub next_id : ℕ
  pub sessions : List SessionRow
  pub messages : List MessageRow

abbrev pub find_session : String → List SessionRow → Option SessionRow
find_session k [] = none
find_session k (r ∷ rows) = if r.session_id == k then some r else find_session k rows

abbrev pub set_expiry : String → ℕ → List SessionRow → List SessionRow
set_expiry k expires_at [] = []
set_expiry k expires_at (r ∷ rows) =
    if r.session_id == k
    then record r { expires_at = some expires_at } ∷ rows
    else r ∷ set_expiry k expires_at rows

abbrev upserted : String → ℕ → Option SessionRow → Tables → ℕ × Tables
upserted k expires_at (some r) t =
    (r.id, record t { next_id = t.next_id + 1; sessions = set_expiry k expires_at t.sessions })
upserted k expires_at none t = (
  t.next_id,
  record t {
    next_id = t.next_id + 1;
    sessions =
        t.sessions
        ++ ((record { id = t.next_id; session_id = k; expires_at = some expires_at }) ∷ []);
  },
)

-- INSERT ... ON CONFLICT (session_id) DO UPDATE ... RETURNING id, which takes a number of the
-- sequence in both cases.
unfoldable pub upsert_session : String → ℕ → Tables → ℕ × Tables
upsert_session k expires_at t = upserted k expires_at (find_session k t.sessions) t

-- Whether a row is of the session, and the rows that are.
abbrev pub is_of : ℕ → MessageRow → Bool
is_of pk row = nat_eq row.session_pk pk

-- MAX(turn_index), which no row makes NULL
unfoldable pub max_turn : ℕ → List MessageRow → Option ℤ
max_turn pk [] = none
max_turn pk (row ∷ rows) =
    let rest = max_turn pk rows in
    if is_of pk row
    then some (elim rest [ none ↦ row.turn_index | some n ↦ max_ℤ row.turn_index n ])
    else rest

-- SELECT COALESCE(MAX(turn_index), -1)
abbrev pub coalesce : Option ℤ → ℤ
coalesce none = negsuc 0
coalesce (some n) = n

abbrev pub eq_ℤ : ℤ → ℤ → Bool
eq_ℤ a b = leb_ℤ a b && leb_ℤ b a

-- The unique index on (session_pk, turn_index).
unfoldable pub is_taken : ℕ → ℤ → List MessageRow → Bool
is_taken pk index [] = false
is_taken pk index (row ∷ rows) =
    (is_of pk row && eq_ℤ row.turn_index index) || is_taken pk index rows

abbrev pub violation : Exn
violation = new_other "UniqueViolationError" "duplicate key value violates unique constraint"

-- INSERT INTO chat_messages for each row, until one is refused.
unfoldable pub insert_all : List MessageRow → List MessageRow → Result (List MessageRow)
insert_all [] table = ok table
insert_all (row ∷ rows) table =
    let rest = insert_all rows (table ++ (row ∷ [])) in
    if is_taken row.session_pk row.turn_index table then raised violation else rest

-- `(session_pk, first + offset, msg.role, msg.content)` for each message
unfoldable pub payload : ℕ → ℤ → List ChatMessage → List MessageRow
payload pk first [] = []
payload pk first (m ∷ messages) =
    record { session_pk = pk; turn_index = first; role = m.role; content = m.content }
    ∷ payload pk (first +ℤ pos 1) messages

-- DELETE ... WHERE session_pk = $1 AND turn_index <= $2
unfoldable pub delete_upto : ℕ → ℤ → List MessageRow → List MessageRow
delete_upto pk bound [] = []
delete_upto pk bound (row ∷ rows) =
    let rest = delete_upto pk bound rows in
    if is_of pk row && leb_ℤ row.turn_index bound then rest else row ∷ rest

-- DELETE ... WHERE session_pk = $1
unfoldable pub delete_all : ℕ → List MessageRow → List MessageRow
delete_all pk [] = []
delete_all pk (row ∷ rows) =
    let rest = delete_all pk rows in if is_of pk row then rest else row ∷ rest

abbrev pub resolve_max_messages : ℤ → Option ℤ → Option ℤ
resolve_max_messages max_history_turns (some max_messages) = some (max_ℤ (pos 0) max_messages)
resolve_max_messages max_history_turns none =
    if ltb_ℤ (pos 0) max_history_turns then some (max_history_turns *ℤ pos 2) else none

abbrev pub trim_messages : ℕ → ℤ → Option ℤ → List MessageRow → List MessageRow
trim_messages pk highest none rows = rows
trim_messages pk highest (some limit) rows = delete_upto pk (highest -ℤ limit) rows

-- The statements of `append_messages` after the upsert.
unfoldable pub append_rows :
    ℕ → List ChatMessage → Option ℤ → List MessageRow → Result (List MessageRow)
append_rows pk messages limit rows =
    let last_index = coalesce (max_turn pk rows) in
    elim (insert_all (payload pk (last_index +ℤ pos 1) messages) rows) [
      | raised e ↦ raised e
      | ok inserted ↦ ok (trim_messages pk (last_index +ℤ pos (length messages)) limit inserted)
    ]

-- The tables with new messages, where there are any.
abbrev pub with_messages : Tables → Result (List MessageRow) → Result (Unit {0}) × Tables
with_messages t (raised e) = (raised e, t)
with_messages t (ok rows) = (ok tt, record t { messages = rows })

unfoldable pub append_statements :
    String → ℕ → List ChatMessage → Option ℤ → Tables → Result (Unit {0}) × Tables
append_statements k expires_at messages limit t =
    let (pk, t') = upsert_session k expires_at t in
    with_messages t' (append_rows pk messages limit t'.messages)

-- `_normalize_messages`
abbrev pub normalize_messages : ℤ → List ChatMessage → List ChatMessage
normalize_messages max_history_turns messages =
    let max_messages = max_ℤ (pos 0) (max_history_turns *ℤ pos 2) in
    if eq_ℤ max_messages (pos 0) then [] else slice_from_end max_messages messages

unfoldable pub set_statements : String → ℕ → List ChatMessage → Tables → Result (Unit {0}) × Tables
set_statements k expires_at normalized t =
    let (pk, t') = upsert_session k expires_at t in
    with_messages t' (insert_all (payload pk (pos 0) normalized) (delete_all pk t'.messages))

-- s.expires_at IS NULL OR s.expires_at > now()
abbrev pub is_live : ℕ → SessionRow → Bool
is_live now r = elim r.expires_at [ none ↦ true | some end ↦ ltb now end ]

-- The row joins a live row of the session; id is a primary key, so it joins one at most.
unfoldable pub is_selected : ℕ → String → List SessionRow → MessageRow → Bool
is_selected now k [] row = false
is_selected now k (r ∷ sessions) row =
    (is_of r.id row && (r.session_id == k) && is_live now r) || is_selected now k sessions row

unfoldable pub select : (MessageRow → Bool) → List MessageRow → List MessageRow
select p [] = []
select p (row ∷ rows) = let rest = select p rows in if p row then row ∷ rest else rest

-- ORDER BY m.turn_index ASC
unfoldable pub insert_sorted : MessageRow → List MessageRow → List MessageRow
insert_sorted row [] = row ∷ []
insert_sorted row (r ∷ rows) =
    if leb_ℤ row.turn_index r.turn_index then row ∷ r ∷ rows else r ∷ insert_sorted row rows

unfoldable pub order_by_turn : List MessageRow → List MessageRow
order_by_turn [] = []
order_by_turn (row ∷ rows) = insert_sorted row (order_by_turn rows)

-- `ChatMessage(role=..., content=...)`, less the check of the role, which every row has passed when it
-- was written.
abbrev pub row_message : MessageRow → ChatMessage
row_message row = record { role = row.role; content = row.content }

unfoldable pub get_statement : String → Tables → Result (List ChatMessage) × Tables
get_statement k t =
    (ok (map row_message (order_by_turn (select (is_selected t.now k t.sessions) t.messages))), t)
