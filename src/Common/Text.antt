-- ===== src/Common/Text.antt =====
-- Python's str as the native text, a list of characters by its own [] and ∷, with the methods that
-- the program calls. Its slices count characters.
pub mod Decimal
pub mod Strip
use Prim.Native.Nat.{ℕ, zero, suc, ◌+◌, ◌-◌, ◌*◌, ◌/◌, ◌%◌, ◌≤◌, ◌<◌}
use Prim.Native.Char.{Char, code}
use Prim.Native.String.{String}
use mathlib.Core.Path.{◌≡◌, refl}
use mathlib.Core.Bool.{Bool, true, false, not, ◌&&◌, ◌||◌}
use mathlib.Core.Option
use mathlib.Core.Option.{Option, none, some}
use mathlib.Core.List.{List, [], ◌∷◌}
use native.Mathlib.Omega.{arith}
use chatting.Common.Int.{ℤ, pos, sub_ℕ}
use chatting.Common.Tests.{leb, nat_eq, if◌then◌else◌}
pub use Prim.Native.String.{◌++◌ as ◌<>◌}
pub use text.Mathlib.TextLemmas.{nil-append, cons-append, append-nil as str_append-nil}
pub use text.Mathlib.TextLemmas.{append_assoc as str_append_assoc}

abbrev pub is_empty : String → Bool
is_empty String.[] = true
is_empty (String.◌∷◌ c s) = false

abbrev pub within : ℕ → ℕ → ℕ → Bool
within lo hi c = leb lo c && leb c hi

-- The characters for which str.isspace() holds, which str.strip() removes.
unfoldable pub is_space : ℕ → Bool
is_space c =
    within 9 13 c
    || within 28 32 c
    || nat_eq c 133
    || nat_eq c 160
    || nat_eq c 5760
    || within 8192 8202 c
    || within 8232 8233 c
    || nat_eq c 8239
    || nat_eq c 8287
    || nat_eq c 12288

unfoldable pub lstrip : String → String
lstrip String.[] = String.[]
lstrip (String.◌∷◌ c s) = if is_space (code c) then lstrip s else String.◌∷◌ c s

unfoldable pub rstrip : String → String
rstrip String.[] = String.[]
rstrip (String.◌∷◌ c s) =
    let rest = rstrip s in
    if is_empty rest && is_space (code c) then String.[] else String.◌∷◌ c rest

-- s.strip()
unfoldable pub strip : String → String
unfolding lstrip rstrip is_space
strip s = lstrip (rstrip s)

-- s[:n] and s[n:]
abbrev pub take : ℕ → String → String
take zero s = String.[]
take (suc n) String.[] = String.[]
take (suc n) (String.◌∷◌ c s) = String.◌∷◌ c (take n s)

abbrev pub drop : ℕ → String → String
drop zero s = s
drop (suc n) String.[] = String.[]
drop (suc n) (String.◌∷◌ c s) = drop n s

-- "".join(parts)
abbrev pub join : List String → String
join [] = ""
join (s ∷ parts) = s <> join parts

-- len(s)
abbrev pub length : String → ℕ
length String.[] = 0
length (String.◌∷◌ c s) = suc (length s)

-- c in s, for a single character given by its code
unfoldable pub has_char : ℕ → String → Bool
has_char k String.[] = false
has_char k (String.◌∷◌ c s) = nat_eq (code c) k || has_char k s

-- s.split(c): the pieces between the separators, of which there is always one
abbrev pub cons_head : Char → List String → List String
cons_head c [] = String.◌∷◌ c String.[] ∷ []
cons_head c (s ∷ parts) = String.◌∷◌ c s ∷ parts

unfoldable pub split : ℕ → String → List String
split k String.[] = String.[] ∷ []
split k (String.◌∷◌ c s) =
    let rest = split k s in if nat_eq (code c) k then String.[] ∷ rest else cons_head c rest

-- s.split(c, 1), where c is in s: what stands before and behind the first separator
unfoldable pub split_once : ℕ → String → String × String
split_once k String.[] = (String.[], String.[])
split_once k (String.◌∷◌ c s) =
    let (before, behind) = split_once k s in
    if nat_eq (code c) k then (String.[], s) else (String.◌∷◌ c before, behind)

-- s.replace(" ", "_")
unfoldable pub replace_spaces : String → String
replace_spaces String.[] = String.[]
replace_spaces (String.◌∷◌ c s) =
    let rest = replace_spaces s in if nat_eq (code c) 32 then "_" <> rest else String.◌∷◌ c rest

-- str(n), with fuel above the number of digits
abbrev digit : ℕ → String
digit d = take 1 (drop d "0123456789")

str_fuel : ℕ → ℕ → String
str_fuel zero n = ""
str_fuel (suc f) n =
    let rest = str_fuel f (n / 10) in if leb n 9 then digit n else rest <> digit (n % 10)

unfoldable pub str : ℕ → String
unfolding str_fuel
str n = str_fuel (suc n) n

-- int(s): an optional sign, and digits with at most one underscore between two of them. The text is
-- stripped first. `none` is the ValueError. Decimal digits outside ASCII are not read.
abbrev is_digit : ℕ → Bool
is_digit = within 48 57

-- The flag is set behind a digit, where an underscore or the end may stand.
digits : ℕ → Bool → String → Option ℕ
digits n behind String.[] = if behind then some n else none
digits n behind (String.◌∷◌ c s) =
    let k = code c in
    if is_digit k
    then digits (n * 10 + (k - 48)) true s
    else if behind && nat_eq k 95 && not (is_empty s)
    then digits n false s
    else none

signed : String → Option ℤ
signed String.[] = none
signed (String.◌∷◌ c s) =
    if nat_eq (code c) 45
    then Option.map (λ n. sub_ℕ 0 n) (digits 0 false s)
    else if nat_eq (code c) 43
    then Option.map pos (digits 0 false s)
    else Option.map pos (digits 0 false (String.◌∷◌ c s))

unfoldable pub parse_int : String → Option ℤ
unfolding strip signed digits
parse_int s = signed (strip s)

-- The laws of the texts' `+`, and the slices put together again.

pub take-append-drop : (n : ℕ) (s : String) → take n s <> drop n s ≡ s
take-append-drop zero s = nil-append s
take-append-drop (suc n) String.[] = nil-append String.[]
take-append-drop (suc n) (String.◌∷◌ c s) = rw (cons-append, take-append-drop n s)

pub length-drop : (n : ℕ) (s : String) → length (drop n s) ≡ length s - n
length-drop zero s = omega arith
length-drop (suc n) String.[] = omega arith
length-drop (suc n) (String.◌∷◌ c s) = omega (arith, length-drop n s)

pub length-take-le : (n : ℕ) (s : String) → length (take n s) ≤ n
length-take-le zero s = omega arith
length-take-le (suc n) String.[] = omega arith
length-take-le (suc n) (String.◌∷◌ c s) = omega (arith, length-take-le n s)

pub drop-drop : (m n : ℕ) (s : String) → drop m (drop n s) ≡ drop (n + m) s
drop-drop m zero s = let e : 0 + m ≡ m = omega arith in rw e
drop-drop zero (suc n) String.[] = let e : suc n + 0 ≡ suc n = omega arith in rw e
drop-drop (suc m) (suc n) String.[] = let e : suc n + suc m ≡ suc (n + suc m) = omega arith in rw e
drop-drop m (suc n) (String.◌∷◌ c s) =
    let e : suc n + m ≡ suc (n + m) = omega arith in rw e (drop-drop m n s)

pub drop_all : (n : ℕ) (s : String) → length s ≤ n → drop n s ≡ ""
drop_all zero String.[] h = refl
drop_all zero (String.◌∷◌ c s) h = absurd (omega arith)
drop_all (suc n) String.[] h = refl
drop_all (suc n) (String.◌∷◌ c s) h = drop_all n s (omega arith)

-- A slice that begins inside the text is not empty.
pub take_not_empty :
    (n i : ℕ) (s : String) → i < length s → is_empty (take (suc n) (drop i s)) ≡ false
take_not_empty n zero String.[] h = absurd (omega arith)
take_not_empty n zero (String.◌∷◌ c s) h = refl
take_not_empty n (suc i) String.[] h = absurd (omega arith)
take_not_empty n (suc i) (String.◌∷◌ c s) h = take_not_empty n i s (omega arith)

-- s.isascii()
unfoldable pub is_ascii : String → Bool
is_ascii String.[] = true
is_ascii (String.◌∷◌ c s) = leb (code c) 127 && is_ascii s

-- s.lower().startswith(prefix), for a prefix in lower case whose letters no other character than
-- their own capital is lowered to, as those of "bearer " are
abbrev lower : ℕ → ℕ
lower k = if within 65 90 k then k + 32 else k

unfoldable pub lower_starts_with : String → String → Bool
lower_starts_with s String.[] = true
lower_starts_with String.[] (String.◌∷◌ d prefix) = false
lower_starts_with (String.◌∷◌ c s) (String.◌∷◌ d prefix) =
    nat_eq (lower (code c)) (code d) && lower_starts_with s prefix

-- s.rstrip(c), for a single character given by its code
unfoldable pub rstrip_char : ℕ → String → String
rstrip_char k String.[] = String.[]
rstrip_char k (String.◌∷◌ c s) =
    let rest = rstrip_char k s in
    if is_empty rest && nat_eq (code c) k then String.[] else String.◌∷◌ c rest
