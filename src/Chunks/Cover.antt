-- ===== src/Chunks/Cover.antt =====
-- The slices of app/application/services/chat_orchestration_service.py cover the text.
use chatting.Common.{ℕ, zero, suc, ◌+◌, ◌-◌, ◌*◌, ◌/◌, ◌≤◌, ◌<◌, ◌≡◌, sym, false}
use chatting.Common.{String, List, [], ◌∷◌, arith}
use chatting.Common.Text
use chatting.Common.Text.{◌<>◌, join}
use chatting.Chunks.{slices, slices_from}

-- Every entry of a list has the property.
abbrev pub All {ℓ κ} : {A : Type ℓ} → (A → Type κ) → List A → Type κ
All P [] = Unit
All P (x ∷ xs) = P x × All P xs

join-slices_from :
    (size : ℕ) (text : String) (rounds i : ℕ)
    → Text.length text ≤ i + rounds * size
    → join (slices_from size text rounds i) ≡ Text.drop i text
unfolding slices_from
join-slices_from size text zero i h = sym (Text.drop_all i text (omega arith))
join-slices_from size text (suc rounds) i h =
    rw (join-slices_from size text rounds (i + size) (omega arith), ← Text.drop-drop size i text)
      (Text.take-append-drop size (Text.drop i text))

rounds_enough : (n size : ℕ) → 1 ≤ size → n ≤ 0 + (n + size - 1) / size * size
rounds_enough n size h = omega arith

-- The pieces put together are the text.
pub join-slices : (size : ℕ) (text : String) → 1 ≤ size → join (slices size text) ≡ text
unfolding slices
join-slices size text h = join-slices_from size text _ 0 (rounds_enough (Text.length text) size h)

-- A piece is not empty, and at most `size` characters long.
abbrev pub IsPiece : ℕ → String → Type 0
IsPiece size s = (Text.is_empty s ≡ false) × (Text.length s ≤ size)

slices_from-IsPiece :
    (size : ℕ) (text : String) (rounds i : ℕ)
    → 1 ≤ size
    → i + rounds * size < Text.length text + size
    → All (IsPiece size) (slices_from size text rounds i)
unfolding slices_from
slices_from-IsPiece size text zero i p h = tt
slices_from-IsPiece zero text (suc rounds) i p h = absurd (omega arith)
slices_from-IsPiece (suc size) text (suc rounds) i p h = (
  (
    Text.take_not_empty size i text (omega arith),
    Text.length-take-le (suc size) (Text.drop i text),
  ),
  slices_from-IsPiece (suc size) text rounds (i + suc size) p (omega arith),
)

-- No piece is empty, and none is longer than the size.
pub slices-IsPiece : (size : ℕ) (text : String) → 1 ≤ size → All (IsPiece size) (slices size text)
unfolding slices
slices-IsPiece size text h = slices_from-IsPiece size text _ 0 h (omega arith)

-- The pieces put together are the text, and no piece is empty or longer than the size.
pub slices-cover :
    (size : ℕ) (text : String)
    → 1 ≤ size
    → (join (slices size text) ≡ text) × All (IsPiece size) (slices size text)
slices-cover size text h = (join-slices size text h, slices-IsPiece size text h)

not_empty-of-IsPiece :
    (size : ℕ) (parts : List String)
    → All (IsPiece size) parts
    → All (λ s. Text.is_empty s ≡ false) parts
not_empty-of-IsPiece size [] h = tt
not_empty-of-IsPiece size (s ∷ parts) h = (h.0.0, not_empty-of-IsPiece size parts h.1)

-- No piece is empty, whatever the size.
pub slices-not_empty :
    (size : ℕ) (text : String) → All (λ s. Text.is_empty s ≡ false) (slices size text)
unfolding slices
slices-not_empty zero text = let e : (Text.length text + 0 - 1) / 0 ≡ 0 = omega arith in rw e tt
slices-not_empty (suc size) text =
    not_empty-of-IsPiece (suc size) _ (slices-IsPiece (suc size) text (omega arith))
