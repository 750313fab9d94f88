-- ===== src/Common/Text/Strip.antt =====
-- Stripping a text that begins with no space.
use Prim.Native.String.{String}
use Prim.Native.Char.{Char, code}
use mathlib.Core.Path.{◌≡◌, refl}
use mathlib.Core.Bool.{Bool, true, false, ◌&&◌}
use chatting.Common.Text.{is_empty, is_space, strip, lstrip, rstrip}

and_false : (b : Bool) → (b && false) ≡ false
and_false true = refl
and_false false = refl

rstrip-cons :
    (c : Char) (s : String)
    → is_space (code c) ≡ false
    → rstrip (String.◌∷◌ c s) ≡ String.◌∷◌ c (rstrip s)
unfolding rstrip
rstrip-cons c s h = rw (h, and_false (is_empty (rstrip s))) refl

lstrip-cons :
    (c : Char) (s : String) → is_space (code c) ≡ false → lstrip (String.◌∷◌ c s) ≡ String.◌∷◌ c s
unfolding lstrip
lstrip-cons c s h = rw h refl

-- A text that begins with no space keeps its first character.
pub strip-cons :
    (c : Char) (s : String)
    → is_space (code c) ≡ false
    → strip (String.◌∷◌ c s) ≡ String.◌∷◌ c (rstrip s)
unfolding strip
strip-cons c s h = rw (rstrip-cons c s h, lstrip-cons c (rstrip s) h) refl

pub strip-strip-cons :
    (c : Char) (s : String)
    → is_space (code c) ≡ false
    → is_empty (strip (strip (String.◌∷◌ c s))) ≡ false
strip-strip-cons c s h = rw (strip-cons c s h, strip-cons c (rstrip s) h) refl
