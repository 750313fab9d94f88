-- ===== src/Session/Tables/Statements.antt =====
-- What the transactions of the Postgres repository make of the two tables.
use chatting.Common.{
  ℕ, ◌≡◌, refl, sym, ap, ◌∙◌, String, Bool, false, Option, none, some, List, [], ◌++◌, ◌==◌, nat_eq,
  pos, map, if◌then◌else◌, Bool-cases, arith, inl, inr,
}
use mathlib.Core.Path.{subst}
use mathlib.Core.List.{append-nil}
use chatting.Common.Window.{keep}
use chatting.Exec.{Result, ok}
use chatting.Message.{ChatMessage}
use chatting.Session.Tables.{
  SessionRow, MessageRow, Tables, find_session, upsert_session, is_of, is_live, is_selected, select,
  order_by_turn, row_message, delete_all, append_statements, set_statements, get_statement,
}
use chatting.Session.Tables.Numbered.{
  rows_of, numbered, select-append, select-ext, select-none, rows_of-numbered, rows_of-delete_all,
  order_by_turn-numbered, map-numbered, rows_of-numbered_other, rows_of-delete_all_other,
}
use chatting.Session.Tables.Upsert.{
  AreUpserted, upsert-AreUpserted, upsert-AreUnique, upsert-AreKeyed, pk_below, other_id,
}
use chatting.Session.Tables.Ids.{AreKeyed, selects, is_selected-eq}
use chatting.Session.Tables.Appends.{append_rows-AreAppended, set_rows-numbered}

-- The messages of a session by its row; without a row it has none.
abbrev IsStored : Option SessionRow → List MessageRow → List ChatMessage → Type 0
IsStored none rows xs = xs ≡ []
IsStored (some r) rows xs = (n : ℕ) × (rows_of r.id rows ≡ numbered r.id n xs)

-- The tables are keyed, and the session has the messages, numbered one after another.
abbrev pub AreStored : Tables → String → List ChatMessage → Type 0
AreStored t k xs = AreKeyed t × IsStored (find_session k t.sessions) t.messages xs

module _ (k : String) (t : Tables) (pk : ℕ) (t' : Tables) (up : AreUpserted k t pk t')
    (keyed : AreKeyed t) (keyed' : AreKeyed t') where
  -- The rows that the session has when the upsert is done.
  upserted_rows :
      (xs : List ChatMessage)
      → IsStored (find_session k t.sessions) t.messages xs
      → (n : ℕ) × (rows_of pk t'.messages ≡ numbered pk n xs)
  upserted_rows xs stored = elim up.id [
    | inl (r, found, id) ↦
        let (n, own) = subst (λ o. IsStored o t.messages xs) found stored in
        (
          n,
          ap (rows_of pk) up.messages ∙ subst (λ i. rows_of i t.messages ≡ numbered i n xs) id own,
        )
    | inr (fresh, id) ↦
        let empty : xs ≡ [] = subst (λ o. IsStored o t.messages xs) fresh stored in
        (0, rw empty (ap (rows_of pk) up.messages ∙ keyed.unused pk (omega arith)))
  ]

  module _ (after : List MessageRow)
      (others : (j : ℕ) → nat_eq pk j ≡ false → rows_of j after ≡ rows_of j t'.messages) where
    abbrev done : Tables
    done = record t' { messages = after }

    done-AreKeyed : AreKeyed done
    done-AreKeyed = record {
      unique = keyed'.unique;
      below = keyed'.below;
      distinct = keyed'.distinct;
      unused = λ j le.
          others j (let b = pk_below k t pk t' up keyed in ground arith) ∙ keyed'.unused j le;
    }

    pub own-AreStored :
        (n : ℕ) (ys : List ChatMessage) → rows_of pk after ≡ numbered pk n ys → AreStored done k ys
    own-AreStored n ys h =
        let (q, found, id) = up.own in
        (
          done-AreKeyed,
          subst (λ o. IsStored o after ys) (sym found)
              (n, subst (λ i. rows_of i after ≡ numbered i n ys) (sym id) h),
        )

    pub other-AreStored :
        (j : String) (ys : List ChatMessage)
        → (k == j) ≡ false
        → IsStored (find_session j t.sessions) t.messages ys
        → AreStored done j ys
    other-AreStored j ys differ stored = (
      done-AreKeyed,
      subst (λ o. IsStored o after ys) (sym (up.others j differ))
          (go (find_session j t.sessions) refl stored),
    )
      where
        go :
            (o : Option SessionRow)
            → find_session j t.sessions ≡ o
            → IsStored o t.messages ys
            → IsStored o after ys
        go none e h = h
        go (some q) e (n, h) = (
          n,
          others q.id (other_id k t pk t' up keyed j q differ e)
              ∙ ap (rows_of q.id) up.messages
              ∙ h,
        )

-- The upsert of a statement on keyed tables, as the lemmas above take it.
module _ (k : String) (e : ℕ) (t : Tables) (keyed : AreKeyed t) where
  abbrev new_id : ℕ
  new_id = (upsert_session k e t).0

  abbrev fresh : Tables
  fresh = (upsert_session k e t).1

  fresh-AreUpserted : AreUpserted k t new_id fresh
  fresh-AreUpserted = upsert-AreUpserted k e t

  fresh-AreKeyed : AreKeyed fresh
  fresh-AreKeyed =
      upsert-AreKeyed k t new_id fresh fresh-AreUpserted keyed (upsert-AreUnique k e t keyed.unique)

-- What a transaction that writes a session gives: no error, its session has the messages, and the
-- others have what they had.
abbrev pub AreWritten : Tables → String → List ChatMessage → Result (Unit {0}) × Tables → Type 0
AreWritten t k xs (r, t') =
    (r ≡ ok tt)
    × AreStored t' k xs
    × ((j : String) (ys : List ChatMessage)
        → (k == j) ≡ false
        → AreStored t j ys
        → AreStored t' j ys)

-- Where the tables are keyed and the session's messages are numbered one after another, an append is
-- never refused by the unique index, leaves the tables so, gives its session the window over the old
-- and the new messages, and leaves every other session what it had.
pub append_statements-AreWritten :
    (k : String) (e l : ℕ) (t : Tables) (xs ms : List ChatMessage)
    → AreStored t k xs
    → AreWritten t k (keep l (xs ++ ms)) (append_statements k e ms (some (pos l)) t)
unfolding append_statements
append_statements-AreWritten k e l t xs ms (keyed, stored) =
    let up = fresh-AreUpserted k e t keyed in
    let keyed' = fresh-AreKeyed k e t keyed in
    let pk : ℕ = new_id k e t keyed in
    let t' : Tables = fresh k e t keyed in
    let (n, own) = upserted_rows k t pk t' up keyed keyed' xs stored in
    let (after, made, (b, kept, others)) = append_rows-AreAppended pk n l xs ms t'.messages own in
    rw made (
      refl,
      own-AreStored k t pk t' up keyed keyed' after others b (keep l (xs ++ ms)) kept,
      λ j ys differ (_, held).
          other-AreStored k t pk t' up keyed keyed' after others j ys differ held,
    )

-- So is a `set_history`, which gives its session the new messages, whatever it had.
pub set_statements-AreWritten :
    (k : String) (e : ℕ) (t : Tables) (xs : List ChatMessage)
    → AreKeyed t
    → AreWritten t k xs (set_statements k e xs t)
unfolding set_statements
set_statements-AreWritten k e t xs keyed =
    let up = fresh-AreUpserted k e t keyed in
    let keyed' = fresh-AreKeyed k e t keyed in
    let pk : ℕ = new_id k e t keyed in
    let t' : Tables = fresh k e t keyed in
    let left : List MessageRow = delete_all pk t'.messages in
    let after : List MessageRow = left ++ numbered pk 0 xs in
    let own : rows_of pk after ≡ numbered pk 0 xs =
      select-append (is_of pk) left (numbered pk 0 xs)
      ∙ rw (rows_of-delete_all pk t'.messages, rows_of-numbered pk 0 xs) in
    let others : (j : ℕ) → nat_eq pk j ≡ false → rows_of j after ≡ rows_of j t'.messages =
      λ j other.
        select-append (is_of j) left (numbered pk 0 xs)
        ∙ rw (rows_of-numbered_other pk j other 0 xs, append-nil)
            (rows_of-delete_all_other pk j other t'.messages) in
    rw (set_rows-numbered pk xs t'.messages) (
      refl,
      own-AreStored k t pk t' up keyed keyed' after others 0 xs own,
      λ j ys differ (_, held).
          other-AreStored k t pk t' up keyed keyed' after others j ys differ held,
    )

-- Whether a read sees what is stored: the session's row has not expired.
abbrev pub is_seen : ℕ → Option SessionRow → Bool
is_seen now none = false
is_seen now (some r) = is_live now r

selected :
    (now : ℕ) (o : Option SessionRow) (rows : List MessageRow) (xs : List ChatMessage)
    → IsStored o rows xs
    → map row_message (order_by_turn (select (λ row. selects now row o) rows))
      ≡ (if is_seen now o then xs else [])
unfolding order_by_turn
selected now none rows xs h = ap (λ rs. map row_message (order_by_turn rs)) (select-none rows)
selected now (some r) rows xs (n, h) = elim (Bool-cases (is_live now r)) [
  | inl live ↦
      ap (λ rs. map row_message (order_by_turn rs))
        (select-ext _ (is_of r.id) rows
            (λ row. let b : Bool = is_of r.id row in rw live (ground arith))
          ∙ h)
      ∙ rw (live, order_by_turn-numbered r.id n xs, map-numbered r.id n xs)
  | inr expired ↦
      ap (λ rs. map row_message (order_by_turn rs))
        (select-ext _ (λ row. false) rows (λ row. rw expired (ground arith)) ∙ select-none rows)
      ∙ rw expired
]

-- A read gives the messages in their order, and nothing where the session has expired.
pub get_statement-eq :
    (k : String) (t : Tables) (xs : List ChatMessage)
    → AreStored t k xs
    → get_statement k t ≡ (ok (if is_seen t.now (find_session k t.sessions) then xs else []), t)
unfolding get_statement
get_statement-eq k t xs (keyed, stored) =
    ap (λ rows. (ok (map row_message (order_by_turn rows)), t))
      (select-ext (is_selected t.now k t.sessions)
        (λ row. selects t.now row (find_session k t.sessions)) t.messages
        (λ row. is_selected-eq t.now k t.sessions row keyed.unique))
    ∙ ap (λ ys. (ok ys, t)) (selected t.now (find_session k t.sessions) t.messages xs stored)
