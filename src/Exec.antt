-- ===== src/Exec.antt =====
-- Calls that may raise, over a state. What was written before a raise stays written, so the state
-- comes back beside the exception too. An `await` is a call: what other tasks do to the state
-- while it waits is part of what the call does.
use chatting.Common.{◌≡◌, refl, ap, ◌⊎◌, inl, inr}
use chatting.Errors.{Exn}

pub data Result {ℓ} (A : Type ℓ) : Type ℓ where
  ok : A → Result A
  raised : Exn → Result A

abbrev pub Exec {ℓ} : Type ℓ → Type ℓ → Type ℓ
Exec S A = S → Result A × S

module _ {ℓ} {S A : Type ℓ} where
  abbrev pub pure : A → Exec S A
  pure a s = (ok a, s)

  abbrev pub raise : Exn → Exec S A
  raise e s = (raised e, s)

module _ {ℓ} {S A B : Type ℓ} where
  abbrev pub continue : Result A → (A → Exec S B) → Exec S B
  continue (ok a) f s = f a s
  continue (raised e) f s = (raised e, s)

  infixl 10 ◌>>=◌ ◌>>◌
  abbrev pub ◌>>=◌ : Exec S A → (A → Exec S B) → Exec S B
  ◌>>=◌ m f s = let (r, s') = m s in continue r f s'

  abbrev pub ◌>>◌ : Exec S A → Exec S B → Exec S B
  m >> n = m >>= λ _. n

module _ {ℓ} {S A : Type ℓ} where
  abbrev recover : Result A → (Exn → Exec S A) → Exec S A
  recover (ok a) h s = (ok a, s)
  recover (raised e) h s = h e s

  -- try: m, except Exception as e: h e
  abbrev pub catch : Exec S A → (Exn → Exec S A) → Exec S A
  catch m h s = let (r, s') = m s in recover r h s'

-- To split on how a call ended and keep the equation.
pub Result-cases {ℓ} :
    {A : Type ℓ} (r : Result A) → ((a : A) × (r ≡ ok a)) ⊎ ((e : Exn) × (r ≡ raised e))
Result-cases (ok a) = inl (a, refl)
Result-cases (raised e) = inr (e, refl)

exn_of {ℓ} : {A : Type ℓ} → Exn → Result A → Exn
exn_of d (ok a) = d
exn_of d (raised e) = e

pub raised-injective {ℓ} :
    {A : Type ℓ} {d e : Exn} → ◌≡◌ {A = Result A} (raised d) (raised e) → d ≡ e
unfolding exn_of
raised-injective {d} p = ap (exn_of d) p

value_of {ℓ} : {A : Type ℓ} → A → Result A → A
value_of d (ok a) = a
value_of d (raised e) = d

pub ok-injective {ℓ} : {A : Type ℓ} {a b : A} → ok a ≡ ok b → a ≡ b
unfolding value_of
ok-injective {a} p = ap (value_of a) p
