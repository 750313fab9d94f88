-- ===== src/Session/Tables/Numbered.antt =====
-- The rows of one session in chat_messages: numbered from some index on, in the order of its messages.
use chatting.Common.{
  ℕ, zero, suc, ◌+◌, ◌≤◌, ◌≡◌, refl, ap, ◌∙◌, Bool, true, false, some, List, [], ◌∷◌, ◌++◌, map,
  length, drop, nat_eq, ℤ, pos, max_ℤ, leb_ℤ, ltb_ℤ, ◌+ℤ◌, Bool-cases, arith, inl, inr,
}
use chatting.Message.{ChatMessage}
use chatting.Session.Tables.{
  MessageRow, is_of, max_turn, is_taken, payload, delete_upto, delete_all, select, insert_sorted,
  order_by_turn, row_message,
}

-- The rows of the session `pk`, in the order of the table.
abbrev pub rows_of : ℕ → List MessageRow → List MessageRow
rows_of pk rows = select (is_of pk) rows

pub nat_eq_self : (n : ℕ) → nat_eq n n ≡ true
nat_eq_self n = ground arith

module _ (p : MessageRow → Bool) where
  pub select-append : (xs ys : List MessageRow) → select p (xs ++ ys) ≡ select p xs ++ select p ys
  unfolding select
  select-append [] ys = refl
  select-append (row ∷ xs) ys = ground (arith, select-append xs ys)

  pub select-ext :
      (q : MessageRow → Bool) (xs : List MessageRow)
      → ((row : MessageRow) → p row ≡ q row)
      → select p xs ≡ select q xs
  unfolding select
  select-ext q [] h = refl
  select-ext q (row ∷ xs) h = rw (h row, select-ext q xs h)

abbrev pub row_at : ℕ → ℕ → ChatMessage → MessageRow
row_at pk n m = record { session_pk = pk; turn_index = pos n; role = m.role; content = m.content }

-- Rows of the session `pk` with the numbers from `n` on.
abbrev pub numbered : ℕ → ℕ → List ChatMessage → List MessageRow
numbered pk n [] = []
numbered pk n (m ∷ xs) = row_at pk n m ∷ numbered pk (n + 1) xs

pub payload-numbered : (pk n : ℕ) (xs : List ChatMessage) → payload pk (pos n) xs ≡ numbered pk n xs
unfolding payload
payload-numbered pk n [] = refl
payload-numbered pk n (m ∷ xs) =
    let e : pos n +ℤ pos 1 ≡ pos (n + 1) = ground arith in rw (e, payload-numbered pk (n + 1) xs)

pub select-none : (xs : List MessageRow) → select (λ row. false) xs ≡ []
unfolding select
select-none [] = refl
select-none (row ∷ xs) = select-none xs

module _ (pk : ℕ) where
  -- What a statement on one session reads are the rows of the session.
  pub max_turn-rows_of : (rows : List MessageRow) → max_turn pk (rows_of pk rows) ≡ max_turn pk rows
  unfolding max_turn select
  max_turn-rows_of [] = refl
  max_turn-rows_of (row ∷ rows) = elim (Bool-cases (is_of pk row)) [
    | inl e ↦ rw (e, e, max_turn-rows_of rows)
    | inr e ↦ rw (e, max_turn-rows_of rows)
  ]

  pub is_taken-rows_of :
      (index : ℤ) (rows : List MessageRow)
      → is_taken pk index (rows_of pk rows) ≡ is_taken pk index rows
  unfolding is_taken select
  is_taken-rows_of index [] = refl
  is_taken-rows_of index (row ∷ rows) = elim (Bool-cases (is_of pk row)) [
    | inl e ↦ rw (e, e, is_taken-rows_of index rows)
    | inr e ↦ rw (e, is_taken-rows_of index rows)
  ]

  pub rows_of-delete_upto :
      (bound : ℤ) (rows : List MessageRow)
      → rows_of pk (delete_upto pk bound rows) ≡ delete_upto pk bound (rows_of pk rows)
  unfolding delete_upto select
  rows_of-delete_upto bound [] = refl
  rows_of-delete_upto bound (row ∷ rows) = elim (Bool-cases (is_of pk row)) [
    | inl e ↦ elim (Bool-cases (leb_ℤ row.turn_index bound)) [
      | inl le ↦ rw (e, e, le, rows_of-delete_upto bound rows)
      | inr gt ↦ rw (e, e, gt, e, rows_of-delete_upto bound rows)
    ]
    | inr e ↦ rw (e, e, rows_of-delete_upto bound rows)
  ]

  pub rows_of-delete_all : (rows : List MessageRow) → rows_of pk (delete_all pk rows) ≡ []
  unfolding delete_all select
  rows_of-delete_all [] = refl
  rows_of-delete_all (row ∷ rows) = elim (Bool-cases (is_of pk row)) [
    | inl e ↦ rw (e, rows_of-delete_all rows)
    | inr e ↦ rw (e, e, rows_of-delete_all rows)
  ]

  pub rows_of-numbered :
      (n : ℕ) (xs : List ChatMessage) → rows_of pk (numbered pk n xs) ≡ numbered pk n xs
  unfolding select
  rows_of-numbered n [] = refl
  rows_of-numbered n (m ∷ xs) = rw (nat_eq_self pk, rows_of-numbered (n + 1) xs)

  pub numbered-append :
      (n : ℕ) (xs ys : List ChatMessage)
      → numbered pk n (xs ++ ys) ≡ numbered pk n xs ++ numbered pk (n + length xs) ys
  numbered-append n [] ys = let e : n + 0 ≡ n = omega arith in rw e
  numbered-append n (m ∷ xs) ys =
      let e : n + suc (length xs) ≡ (n + 1) + length xs = omega arith in
      rw (e, numbered-append (n + 1) xs ys)

  max_turn-cons :
      (row : MessageRow) (rows : List MessageRow) (i : ℤ)
      → is_of pk row ≡ true
      → max_turn pk rows ≡ some i
      → max_turn pk (row ∷ rows) ≡ some (max_ℤ row.turn_index i)
  unfolding max_turn
  max_turn-cons row rows i own e = rw (own, e)

  -- The row that comes next has the next number, which the index has not.
  pub max_turn-numbered :
      (n : ℕ) (m : ChatMessage) (xs : List ChatMessage)
      → max_turn pk (numbered pk n (m ∷ xs)) ≡ some (pos (n + length xs))
  unfolding max_turn
  max_turn-numbered n m [] = ground (arith, nat_eq_self pk)
  max_turn-numbered n m (l ∷ xs) =
      max_turn-cons (row_at pk n m) (numbered pk (n + 1) (l ∷ xs)) _ (nat_eq_self pk)
        (max_turn-numbered (n + 1) l xs)
      ∙ ap some (later n (length xs))
    where
      later : (n i : ℕ) → max_ℤ (pos n) (pos (n + 1 + i)) ≡ pos (n + suc i)
      later n i = ground arith

  pub is_taken-numbered :
      (n i : ℕ) (xs : List ChatMessage)
      → n + length xs ≤ i
      → is_taken pk (pos i) (numbered pk n xs) ≡ false
  unfolding is_taken
  is_taken-numbered n i [] h = refl
  is_taken-numbered n i (m ∷ xs) h = ground (arith, is_taken-numbered (n + 1) i xs)

  pub order_by_turn-numbered :
      (n : ℕ) (xs : List ChatMessage) → order_by_turn (numbered pk n xs) ≡ numbered pk n xs
  unfolding order_by_turn insert_sorted
  order_by_turn-numbered n [] = refl
  order_by_turn-numbered n (m ∷ []) = refl
  order_by_turn-numbered n (m ∷ l ∷ xs) =
      ap (insert_sorted _) (order_by_turn-numbered (n + 1) (l ∷ xs))
      ∙ insert_first _ _ _ (ground arith)
    where
      insert_first :
          (row r : MessageRow) (rows : List MessageRow)
          → leb_ℤ row.turn_index r.turn_index ≡ true
          → insert_sorted row (r ∷ rows) ≡ row ∷ r ∷ rows
      insert_first row r rows le = rw le

  pub map-numbered : (n : ℕ) (xs : List ChatMessage) → map row_message (numbered pk n xs) ≡ xs
  map-numbered n [] = refl
  map-numbered n (m ∷ xs) = ap (λ rest. m ∷ rest) (map-numbered (n + 1) xs)

  -- A deletion of none of the rows, and of the first `d`.
  pub delete_upto_none :
      (n : ℕ) (bound : ℤ) (xs : List ChatMessage)
      → ltb_ℤ bound (pos n) ≡ true
      → delete_upto pk bound (numbered pk n xs) ≡ numbered pk n xs
  unfolding delete_upto
  delete_upto_none n bound [] h = refl
  delete_upto_none n bound (m ∷ xs) h =
      let later : ltb_ℤ bound (pos (n + 1)) ≡ true = ground arith in
      let kept : leb_ℤ (pos n) bound ≡ false = ground arith in
      rw (nat_eq_self pk, kept, delete_upto_none (n + 1) bound xs later)

  pub delete_upto-drop :
      (n d : ℕ) (bound : ℤ) (xs : List ChatMessage)
      → bound +ℤ pos 1 ≡ pos (n + d)
      → delete_upto pk bound (numbered pk n xs) ≡ numbered pk (n + d) (drop d xs)
  unfolding delete_upto
  delete_upto-drop n zero bound xs h =
      let none : ltb_ℤ bound (pos n) ≡ true = ground arith in
      let e : n + 0 ≡ n = omega arith in rw e (delete_upto_none n bound xs none)
  delete_upto-drop n (suc d) bound [] h = refl
  delete_upto-drop n (suc d) bound (m ∷ xs) h =
      let gone : leb_ℤ (pos n) bound ≡ true = ground arith in
      let e : n + suc d ≡ (n + 1) + d = omega arith in
      rw (nat_eq_self pk, gone, e, delete_upto-drop (n + 1) d bound xs (h ∙ ap pos e))

-- Statements on one session, seen from another.
module _ (pk j : ℕ) (other : nat_eq pk j ≡ false) where
  pub rows_of-numbered_other : (n : ℕ) (xs : List ChatMessage) → rows_of j (numbered pk n xs) ≡ []
  unfolding select
  rows_of-numbered_other n [] = refl
  rows_of-numbered_other n (m ∷ xs) = rw (other, rows_of-numbered_other (n + 1) xs)

  pub rows_of-delete_upto_other :
      (bound : ℤ) (rows : List MessageRow) → rows_of j (delete_upto pk bound rows) ≡ rows_of j rows
  unfolding delete_upto select
  rows_of-delete_upto_other bound [] = refl
  rows_of-delete_upto_other bound (row ∷ rows) = elim (Bool-cases (is_of pk row)) [
    | inl e ↦
        let f : is_of j row ≡ false = ground arith in
        elim (Bool-cases (leb_ℤ row.turn_index bound)) [
          | inl le ↦ rw (e, le, f, rows_of-delete_upto_other bound rows)
          | inr gt ↦ rw (e, gt, f, rows_of-delete_upto_other bound rows)
        ]
    | inr e ↦ rw (e, rows_of-delete_upto_other bound rows)
  ]

  pub rows_of-delete_all_other :
      (rows : List MessageRow) → rows_of j (delete_all pk rows) ≡ rows_of j rows
  unfolding delete_all select
  rows_of-delete_all_other [] = refl
  rows_of-delete_all_other (row ∷ rows) = elim (Bool-cases (is_of pk row)) [
    | inl e ↦ let f : is_of j row ≡ false = ground arith in rw (e, f, rows_of-delete_all_other rows)
    | inr e ↦ rw (e, rows_of-delete_all_other rows)
  ]
