-- ===== src/Session/Tables/Appends.antt =====
-- What `append_messages` makes of the rows of chat_messages: it meets no number that is taken, and
-- leaves the session the last of its messages, numbered one after another.
use chatting.Common.{
  ℕ, suc, ◌+◌, ◌-◌, ◌≤◌, ◌≡◌, sym, ap, ◌∙◌, true, false, ◌&&◌, ◌||◌, some, List, [], ◌∷◌, ◌++◌,
  length, nat_eq, ℤ, pos, negsuc, ltb_ℤ, ◌+ℤ◌, ◌-ℤ◌, Bool-cases, arith, inl, inr, leb,
  length-append,
}
use mathlib.Core.List.{append_assoc, append-nil}
use chatting.Common.Window.{keep}
use chatting.Exec.{ok}
use chatting.Message.{ChatMessage}
use chatting.Session.Tables.{
  MessageRow, is_of, max_turn, coalesce, eq_ℤ, is_taken, insert_all, payload, delete_all,
  delete_upto, append_rows,
}
use chatting.Session.Tables.Numbered.{
  rows_of, row_at, numbered, payload-numbered, select-append, max_turn-rows_of, is_taken-rows_of,
  rows_of-delete_upto, rows_of-delete_all, rows_of-numbered, numbered-append, max_turn-numbered,
  is_taken-numbered, delete_upto_none, delete_upto-drop, rows_of-numbered_other,
  rows_of-delete_upto_other,
}

-- No row of the session has a number from `n` on.
abbrev IsFree : ℕ → ℕ → List MessageRow → Type 0
IsFree pk n table = (i : ℕ) → n ≤ i → is_taken pk (pos i) table ≡ false

module _ (pk : ℕ) where
  is_taken-append :
      (index : ℤ) (row : MessageRow) (table : List MessageRow)
      → is_taken pk index (table ++ (row ∷ []))
        ≡ (is_taken pk index table || (is_of pk row && eq_ℤ row.turn_index index))
  unfolding is_taken
  is_taken-append index row [] = ground arith
  is_taken-append index row (r ∷ table) = ground (arith, is_taken-append index row table)

  IsFree-append :
      (n : ℕ) (m : ChatMessage) (table : List MessageRow)
      → IsFree pk n table
      → IsFree pk (n + 1) (table ++ (row_at pk n m ∷ []))
  IsFree-append n m table free i le =
      is_taken-append (pos i) (row_at pk n m) table ∙ rw (free i (omega arith)) (ground arith)

  -- Rows with free numbers are all inserted.
  insert_all-numbered :
      (n : ℕ) (xs : List ChatMessage) (table : List MessageRow)
      → IsFree pk n table
      → insert_all (numbered pk n xs) table ≡ ok (table ++ numbered pk n xs)
  unfolding insert_all
  insert_all-numbered n [] table free = rw append-nil
  insert_all-numbered n (m ∷ xs) table free =
      rw (free n (omega arith), insert_all-numbered (n + 1) xs _ (IsFree-append n m table free))
        (ap ok (append_assoc table (row_at pk n m ∷ []) (numbered pk (n + 1) xs)))

  rows_of-IsFree :
      (a n : ℕ) (xs : List ChatMessage) (rows : List MessageRow)
      → rows_of pk rows ≡ numbered pk a xs
      → a + length xs ≤ n
      → IsFree pk n rows
  rows_of-IsFree a n xs rows h le i further =
      sym (is_taken-rows_of pk (pos i) rows)
      ∙ ap (is_taken pk (pos i)) h
      ∙ is_taken-numbered pk a i xs (omega arith)

  -- The number that the next row gets, MAX + 1 or 0.
  next_index :
      (a : ℕ) (xs : List ChatMessage) (rows : List MessageRow)
      → rows_of pk rows ≡ numbered pk a xs
      → (b : ℕ) × (rows_of pk rows ≡ numbered pk b xs)
        × (coalesce (max_turn pk rows) +ℤ pos 1 ≡ pos (b + length xs))
  unfolding max_turn
  next_index a [] rows h =
      (0, h, ap (λ i. coalesce i +ℤ pos 1) (sym (max_turn-rows_of pk rows) ∙ ap (max_turn pk) h))
  next_index a (m ∷ xs) rows h = (
    a,
    h,
    ap (λ i. coalesce i +ℤ pos 1)
          (sym (max_turn-rows_of pk rows) ∙ ap (max_turn pk) h ∙ max_turn-numbered pk a m xs)
        ∙ ground arith,
  )

  -- A deletion up to `l` numbers below the last.
  delete_upto-keep :
      (b l : ℕ) (bound : ℤ) (zs : List ChatMessage)
      → bound +ℤ pos (suc l) ≡ pos (b + length zs)
      → delete_upto pk bound (numbered pk b zs) ≡ numbered pk (b + (length zs - l)) (keep l zs)
  delete_upto-keep b l bound zs h = elim (Bool-cases (leb (length zs) l)) [
    | inl few ↦
        let none_cut : length zs - l ≡ 0 = ground arith in
        let start : b + 0 ≡ b = omega arith in
        rw (none_cut, start) (delete_upto_none pk b bound zs (below b l bound (length zs) few h))
    | inr many ↦ delete_upto-drop pk b (length zs - l) bound zs (cut b l bound (length zs) many h)
  ]
    where
      below :
          (b l : ℕ) (bound : ℤ) (k : ℕ)
          → leb k l ≡ true
          → bound +ℤ pos (suc l) ≡ pos (b + k)
          → ltb_ℤ bound (pos b) ≡ true
      below b l (pos i) k few h = ground arith
      below b l (negsuc i) k few h = ground arith

      cut :
          (b l : ℕ) (bound : ℤ) (k : ℕ)
          → leb k l ≡ false
          → bound +ℤ pos (suc l) ≡ pos (b + k)
          → bound +ℤ pos 1 ≡ pos (b + (k - l))
      cut b l (pos i) k many h = ground arith
      cut b l (negsuc i) k many h = ground arith

  -- `highest - limit`
  bound-eq :
      (last : ℤ) (n q l : ℕ)
      → last +ℤ pos 1 ≡ pos n
      → ((last +ℤ pos q) -ℤ pos l) +ℤ pos (suc l) ≡ pos (n + q)
  bound-eq (pos i) n q l h = ground arith
  bound-eq (negsuc i) n q l h = ground arith

  -- The rows after `set_history`, of which none is left over.
  pub set_rows-numbered :
      (xs : List ChatMessage) (rows : List MessageRow)
      → insert_all (payload pk (pos 0) xs) (delete_all pk rows)
        ≡ ok (delete_all pk rows ++ numbered pk 0 xs)
  set_rows-numbered xs rows = rw (payload-numbered pk 0 xs) (
      insert_all-numbered 0 xs (delete_all pk rows)
        (rows_of-IsFree 0 0 [] (delete_all pk rows) (rows_of-delete_all pk rows) (omega arith)))

  -- The rows after an append to a session of the messages `xs`.
  abbrev pub AreAppended :
      ℕ → List ChatMessage → List ChatMessage → List MessageRow → List MessageRow → Type 0
  AreAppended l xs ms rows after =
      (b : ℕ) × (rows_of pk after ≡ numbered pk b (keep l (xs ++ ms)))
      × ((j : ℕ) → nat_eq pk j ≡ false → rows_of j after ≡ rows_of j rows)

  pub append_rows-AreAppended :
      (a l : ℕ) (xs ms : List ChatMessage) (rows : List MessageRow)
      → rows_of pk rows ≡ numbered pk a xs
      → (after : List MessageRow) × (append_rows pk ms (some (pos l)) rows ≡ ok after)
        × AreAppended l xs ms rows after
  unfolding append_rows
  append_rows-AreAppended a l xs ms rows h =
      let (b, own, next) = next_index a xs rows h in
      let last : ℤ = coalesce (max_turn pk rows) in
      let added : List MessageRow = numbered pk (b + length xs) ms in
      let bound : ℤ = (last +ℤ pos (length ms)) -ℤ pos l in
      let inserted : insert_all (payload pk (last +ℤ pos 1) ms) rows ≡ ok (rows ++ added) =
        rw (next, payload-numbered pk (b + length xs) ms)
          (insert_all-numbered (b + length xs) ms rows
            (rows_of-IsFree b _ xs rows own (omega arith))) in
      let all : rows_of pk (rows ++ added) ≡ numbered pk b (xs ++ ms) =
        select-append (is_of pk) rows added
        ∙ rw (own, rows_of-numbered pk (b + length xs) ms) (sym (numbered-append pk b xs ms)) in
      let total : (b + length xs) + length ms ≡ b + length (xs ++ ms) =
        omega (arith, length-append xs ms) in
      (
        delete_upto pk bound (rows ++ added),
        rw (inserted, append_rows),
        (
          b + (length (xs ++ ms) - l),
          rows_of-delete_upto pk bound (rows ++ added)
              ∙ ap (delete_upto pk bound) all
              ∙ delete_upto-keep b l bound (xs ++ ms)
                  (bound-eq last (b + length xs) (length ms) l next ∙ ap pos total),
          λ j other.
              rows_of-delete_upto_other pk j other bound (rows ++ added)
              ∙ select-append (is_of j) rows added
              ∙ rw (rows_of-numbered_other pk j other (b + length xs) ms, append-nil),
        ),
      )
