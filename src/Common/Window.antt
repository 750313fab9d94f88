-- ===== src/Common/Window.antt =====
-- A window on the end of a list: the last `n` entries, all of them where there are fewer.
use Prim.Native.Nat.{ℕ, zero, suc, ◌+◌, ◌-◌, ◌≤◌}
use mathlib.Core.Path.{◌≡◌, sym, ap, ◌∙◌}
use mathlib.Core.List.{List, [], ◌++◌, map}
use native.Mathlib.Omega.{arith}
use chatting.Common.Tests.{if◌then◌else◌}
use chatting.Common.Int.{ℤ, pos, negsuc, pos_part, ltb_ℤ, slice_from_end}
use chatting.Common.Lists.{
  length-map, map-drop, length, drop, length-append, length-drop, drop-append_left, drop-drop,
  drop_all,
}

module _ {ℓ} {A : Type ℓ} where
  abbrev pub keep : ℕ → List A → List A
  keep n xs = drop (length xs - n) xs

  pub length-keep-le : (n : ℕ) (xs : List A) → length (keep n xs) ≤ n
  length-keep-le n xs = omega (arith, length-drop (length xs - n) xs)

  pub keep_all : (n : ℕ) (xs : List A) → length xs ≤ n → keep n xs ≡ xs
  keep_all n xs h = let e : length xs - n ≡ 0 = omega arith in rw e

  pub keep_zero : (xs : List A) → keep 0 xs ≡ []
  keep_zero xs = drop_all _ xs (omega arith)

  -- A window may be cut before more is appended.
  pub keep-keep-append : (n : ℕ) (xs ys : List A) → keep n (keep n xs ++ ys) ≡ keep n (xs ++ ys)
  keep-keep-append n xs ys =
      let a : ℕ = length xs - n in
      let zs : List A = xs ++ ys in
      let e : drop a xs ++ ys ≡ drop a zs = sym (drop-append_left a xs ys (omega arith)) in
      let k : a + (length (drop a zs) - n) ≡ length zs - n =
        omega (arith, length-drop a zs, length-append xs ys) in
      rw e (drop-drop (length (drop a zs) - n) a zs ∙ ap (λ m. drop m zs) k)

  -- `xs[-m:]` under the test `m > 0` that the program makes.
  pub slice_from_end-keep :
      (m : ℤ) (xs : List A)
      → (if ltb_ℤ (pos 0) m then slice_from_end m xs else []) ≡ keep (pos_part m) xs
  slice_from_end-keep (pos zero) xs = sym (keep_zero xs)
  slice_from_end-keep (pos (suc n)) xs = ground arith
  slice_from_end-keep (negsuc n) xs = ground (arith, keep_zero xs)

pub map-keep {ℓ κ} :
    {A : Type ℓ} {B : Type κ} (f : A → B) (n : ℕ) (xs : List A)
    → map f (keep n xs) ≡ keep n (map f xs)
map-keep f n xs = rw (length-map f xs) (map-drop f (length xs - n) xs)
