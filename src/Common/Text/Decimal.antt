-- ===== src/Common/Text/Decimal.antt =====
-- The decimal texts of the numbers: str(n) is read back by int.
use Prim.Native.Nat.{ℕ, zero, suc, ◌+◌, ◌-◌, ◌*◌, ◌/◌, ◌%◌, ◌<◌}
use Prim.Native.Char.{Char, code}
use Prim.Native.String.{String}
use mathlib.Core.Path.{◌≡◌, refl, subst, sym, ap, ◌∙◌}
use mathlib.Core.Logic.{inl, inr}
use mathlib.Core.Bool.{true≢false, Bool, true, false, ◌&&◌}
use mathlib.Core.Option
use mathlib.Core.Option.{Option, none, some}
use native.Mathlib.Omega.{arith}
use chatting.Common.Int.{pos}
use chatting.Common.Tests.{leb, nat_eq, Bool-cases, some-injective}
use chatting.Common.Text.{
  is_empty, is_space, strip, lstrip, rstrip, digit, is_digit, digits, signed, parse_int, str_fuel,
  str, ◌<>◌, nil-append, cons-append,
}

abbrev pub all_digits : String → Bool
all_digits String.[] = true
all_digits (String.◌∷◌ c s) = is_digit (code c) && all_digits s

all_digits-append :
    (s t : String) → all_digits s ≡ true → all_digits t ≡ true → all_digits (s <> t) ≡ true
all_digits-append String.[] t h k = rw nil-append k
all_digits-append (String.◌∷◌ c s) t h k =
    let ih = all_digits-append s t (ground arith) k in rw cons-append (ground arith)

not_empty-append : (s t : String) → is_empty t ≡ false → is_empty (s <> t) ≡ false
not_empty-append String.[] t h = rw nil-append h
not_empty-append (String.◌∷◌ c s) t h = rw cons-append refl

-- A digit of a number is one character.
digit-code : (d : ℕ) → d < 10 → (c : Char) × (digit d ≡ String.◌∷◌ c String.[]) × (code c ≡ d + 48)
digit-code zero h = (_, refl, refl)
digit-code (suc zero) h = (_, refl, refl)
digit-code (suc (suc zero)) h = (_, refl, refl)
digit-code (suc (suc (suc zero))) h = (_, refl, refl)
digit-code (suc (suc (suc (suc zero)))) h = (_, refl, refl)
digit-code (suc (suc (suc (suc (suc zero))))) h = (_, refl, refl)
digit-code (suc (suc (suc (suc (suc (suc zero)))))) h = (_, refl, refl)
digit-code (suc (suc (suc (suc (suc (suc (suc zero))))))) h = (_, refl, refl)
digit-code (suc (suc (suc (suc (suc (suc (suc (suc zero)))))))) h = (_, refl, refl)
digit-code (suc (suc (suc (suc (suc (suc (suc (suc (suc zero))))))))) h = (_, refl, refl)
digit-code (suc (suc (suc (suc (suc (suc (suc (suc (suc (suc d)))))))))) h = absurd (omega arith)

-- A character's value as a digit.
abbrev shifted : ℕ → ℕ → ℕ
shifted n k = n * 10 + (k - 48)

digits-cons :
    (n : ℕ) (b : Bool) (c : Char) (s : String)
    → is_digit (code c) ≡ true
    → digits n b (String.◌∷◌ c s) ≡ digits (shifted n (code c)) true s
unfolding digits
digits-cons n b c s h = rw h refl

digits-append :
    (s : String) (n m : ℕ) (b : Bool) (c : Char)
    → is_digit (code c) ≡ true
    → all_digits s ≡ true
    → digits n true s ≡ some m
    → digits n b (s <> String.◌∷◌ c String.[]) ≡ some (shifted m (code c))
unfolding digits
digits-append String.[] n m b c h all k =
    let e : n ≡ m = some-injective k in rw (nil-append, digits-cons n b c String.[] h, e) refl
digits-append (String.◌∷◌ x s) n m b c h all k =
    let head : is_digit (code x) ≡ true = ground arith in
    let tail : all_digits s ≡ true = ground arith in
    rw (cons-append, digits-cons n b x _ head)
      (digits-append s (shifted n (code x)) m true c h tail (sym (digits-cons n true x s head) ∙ k))

digits-flag :
    (s : String) (n : ℕ)
    → all_digits s ≡ true
    → is_empty s ≡ false
    → digits n true s ≡ digits n false s
digits-flag String.[] n h k = absurd (true≢false k)
digits-flag (String.◌∷◌ c s) n h k =
    let head : is_digit (code c) ≡ true = ground arith in
    digits-cons n true c s head ∙ sym (digits-cons n false c s head)

-- The decimal text of `n`.
record IsNumeral (n : ℕ) (s : String) : Type 0 where
  only_digits : all_digits s ≡ true
  filled : is_empty s ≡ false
  value : digits 0 false s ≡ some n

digit-IsNumeral : (d : ℕ) → d < 10 → IsNumeral d (digit d)
unfolding digits
digit-IsNumeral d h =
    let (c, e, k) = digit-code d h in
    let numeral : is_digit (code c) ≡ true = rw k (ground arith) in
    let worth : shifted 0 (code c) ≡ d = rw k (omega arith) in
    rw e (record {
      only_digits = rw numeral refl;
      filled = refl;
      value = digits-cons 0 false c String.[] numeral ∙ ap some worth;
    })

append-IsNumeral :
    (n d : ℕ) (s : String) → d < 10 → IsNumeral n s → IsNumeral (n * 10 + d) (s <> digit d)
append-IsNumeral n d s h r =
    let (c, e, k) = digit-code d h in
    let numeral : is_digit (code c) ≡ true = rw k (ground arith) in
    let worth : shifted n (code c) ≡ n * 10 + d = rw k (omega arith) in
    rw e (record {
      only_digits = all_digits-append s _ r.only_digits (rw numeral refl);
      filled = not_empty-append s _ refl;
      value =
          digits-append s 0 n false c numeral r.only_digits
            (digits-flag s 0 r.only_digits r.filled ∙ r.value)
          ∙ ap some worth;
    })

str_fuel-IsNumeral : (f n : ℕ) → n < f → IsNumeral n (str_fuel f n)
unfolding str_fuel
str_fuel-IsNumeral zero n h = absurd (omega arith)
str_fuel-IsNumeral (suc f) n h = elim (Bool-cases (leb n 9)) [
  | inl e ↦ rw e (digit-IsNumeral n (ground arith))
  | inr e ↦
      let ih = str_fuel-IsNumeral f (n / 10) (ground arith) in
      let whole : n / 10 * 10 + n % 10 ≡ n = ground arith in
      rw e (
        subst (λ k. IsNumeral k (str_fuel f (n / 10) <> digit (n % 10))) whole
          (append-IsNumeral (n / 10) (n % 10) _ (ground arith) ih))
]

digit-not_space : (k : ℕ) → is_digit k ≡ true → is_space k ≡ false
unfolding is_space
digit-not_space k h = ground arith

lstrip-digits : (s : String) → all_digits s ≡ true → lstrip s ≡ s
unfolding lstrip
lstrip-digits String.[] h = refl
lstrip-digits (String.◌∷◌ c s) h = rw (digit-not_space (code c) (ground arith)) refl

rstrip-digits : (s : String) → all_digits s ≡ true → rstrip s ≡ s
unfolding rstrip
rstrip-digits String.[] h = refl
rstrip-digits (String.◌∷◌ c s) h =
    rw (digit-not_space (code c) (ground arith), rstrip-digits s (ground arith)) (ground arith)

signed-digits :
    (s : String)
    → all_digits s ≡ true
    → is_empty s ≡ false
    → signed s ≡ Option.map pos (digits 0 false s)
unfolding signed
signed-digits String.[] h k = absurd (true≢false k)
signed-digits (String.◌∷◌ c s) h k =
    let minus : nat_eq (code c) 45 ≡ false = ground arith in
    let plus : nat_eq (code c) 43 ≡ false = ground arith in rw (minus, plus) refl

-- What str prints of a number, int reads as this number.
pub parse_int-str : (n : ℕ) → parse_int (str n) ≡ some (pos n)
unfolding parse_int strip str
parse_int-str n =
    let r = str_fuel-IsNumeral (suc n) n (omega arith) in
    rw
      (
        rstrip-digits _ r.only_digits,
        lstrip-digits _ r.only_digits,
        signed-digits _ r.only_digits r.filled,
        r.value,
      )
      refl
