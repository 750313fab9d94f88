-- ===== src/Logging/Sensitive.antt =====
-- Nothing of a sensitive field reaches the logger.
use chatting.Common.{
  ◌≡◌, refl, sym, ap, ◌∙◌, String, Bool, true, false, Option, none, some, [], ◌∷◌, ◌==◌, eq_iff,
  eq_refl, if_intro, if◌then◌else◌, Bool-cases, inl, inr,
}
use chatting.Common.Dict.{Dict, lookup, insert, lookup-insert, lookup-nil}
use chatting.Logging.{sensitive_keys, is_in, sanitize_from, sanitize_fields, log_event}

module _ {V : Type 0} where
  -- A dict has each key once.
  abbrev pub AreKeysDistinct : Dict V → Type 0
  AreKeysDistinct [] = Unit
  AreKeysDistinct ((key, value) ∷ d) = (lookup key d ≡ none) × AreKeysDistinct d

  abbrev or_else : Option V → Option V → Option V
  or_else none b = b
  or_else (some a) b = some a

  lookup-cons :
      (k key : String) (value : V) (d : Dict V)
      → lookup k ((key, value) ∷ d) ≡ (if key == k then some value else lookup k d)
  unfolding lookup
  lookup-cons k key value d = refl

  -- The dict after one round of the loop, at another key and at its own.
  abbrev round : String → V → Dict V → Dict V
  round key value sanitized =
      if is_in key sensitive_keys then sanitized else insert key value sanitized

  lookup-round_other :
      (k key : String) (value : V) (sanitized : Dict V)
      → (key == k) ≡ false
      → lookup k (round key value sanitized) ≡ lookup k sanitized
  lookup-round_other k key value sanitized e =
      if_intro (λ (d : Dict V). lookup k d ≡ lookup k sanitized) (is_in key sensitive_keys) _ _
        (λ b. refl) (λ b. lookup-insert key k value sanitized ∙ rw e)

  lookup-round_own :
      (k : String) (value : V) (sanitized : Dict V)
      → lookup k (round k value sanitized)
        ≡ (if is_in k sensitive_keys then lookup k sanitized else some value)
  lookup-round_own k value sanitized = elim (Bool-cases (is_in k sensitive_keys)) [
    | inl e ↦ rw e
    | inr e ↦ rw (e, lookup-insert k k value sanitized, eq_refl k)
  ]

  both : (b : Bool) (x : Option V) → (if b then x else x) ≡ x
  both true x = refl
  both false x = refl

  nested :
      (b : Bool) (x y : Option V)
      → (if b then (if b then x else y) else (if b then x else y)) ≡ (if b then x else y)
  nested true x y = refl
  nested false x y = refl

  or_none : (x : Option V) → or_else x none ≡ x
  or_none none = refl
  or_none (some a) = refl

  lookup-sanitize_from :
      (k : String) (fields sanitized : Dict V)
      → AreKeysDistinct fields
      → lookup k (sanitize_from sanitized fields) ≡ (
          if is_in k sensitive_keys
          then lookup k sanitized
          else or_else (lookup k fields) (lookup k sanitized))
  unfolding sanitize_from
  lookup-sanitize_from k [] sanitized distinct =
      rw (lookup-nil {V = V} k) (sym (both (is_in k sensitive_keys) (lookup k sanitized)))
  lookup-sanitize_from k ((key, value) ∷ fields) sanitized (fresh, distinct) =
      lookup-sanitize_from k fields (round key value sanitized) distinct
      ∙ elim (Bool-cases (key == k)) [
        | inl e ↦
            let same : key ≡ k = (eq_iff key k).0 e in
            let left : lookup k fields ≡ none = ap (λ n. lookup n fields) (sym same) ∙ fresh in
            rw (lookup-cons k key value fields, e, left, same, lookup-round_own k value sanitized)
              (nested (is_in k sensitive_keys) _ _)
        | inr e ↦ rw (lookup-cons k key value fields, e, lookup-round_other k key value sanitized e)
      ]

  -- A sensitive field is dropped, and every other field is kept.
  lookup-sanitize_fields :
      (k : String) (fields : Dict V)
      → AreKeysDistinct fields
      → lookup k (sanitize_fields fields)
        ≡ (if is_in k sensitive_keys then none else lookup k fields)
  unfolding sanitize_fields
  lookup-sanitize_fields k fields distinct =
      lookup-sanitize_from k fields [] distinct
      ∙ rw (lookup-nil {V = V} k)
          (ap (λ x. if is_in k sensitive_keys then none else x) (or_none (lookup k fields)))

  -- Where an event has each field once: the record that the logger is given, and with it every
  -- handler and formatter, has none of its sensitive fields, and has every other field with its
  -- value.
  pub lookup-log_event :
      (logger level message : V) (exc_info : Option V) (fields : Dict V) (k : String)
      → AreKeysDistinct fields
      → lookup k (log_event logger level message exc_info fields).event_fields
        ≡ (if is_in k sensitive_keys then none else lookup k fields)
  unfolding log_event
  lookup-log_event logger level message exc_info fields k distinct =
      lookup-sanitize_fields k fields distinct
