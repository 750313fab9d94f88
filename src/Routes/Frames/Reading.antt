-- ===== src/Routes/Frames/Reading.antt =====
-- What the reader of server-sent events makes of the frames that `_format_sse` writes.
use Prim.Native.String as Native
use Prim.Native.Char.{code}
use chatting.Common.{
  ℕ, ◌≡◌, refl, inl, inr, String, Bool, true, false, not, ◌&&◌, ◌||◌, List, [], ◌∷◌, ◌++◌, nat_eq,
  Bool-cases, arith,
}
use chatting.Common.Text.{
  is_empty, has_char, split_once, ◌<>◌, nil-append, cons-append, str_append_assoc,
}
use chatting.Json.{Json}
use chatting.Routes.Frames.{
  format_sse, lines, field_of, Pending, nothing_yet, take_line, set_field, dispatched, read_lines,
  read_events,
}

-- A text with no line feed and no carriage return.
abbrev pub is_line : String → Bool
is_line Native.[] = true
is_line (Native.◌∷◌ c s) = not (nat_eq (code c) 10 || nat_eq (code c) 13) && is_line s

pub is_line-append : (s t : String) → is_line s ≡ true → is_line t ≡ true → is_line (s <> t) ≡ true
is_line-append Native.[] t h k = rw nil-append k
is_line-append (Native.◌∷◌ c s) t h k =
    let rest : is_line s ≡ true = ground arith in
    let ih = is_line-append s t rest k in rw cons-append (ground arith)

split_once-append :
    (k : ℕ) (name value : String)
    → has_char k name ≡ false
    → (sep : String) → split_once k (sep <> value) ≡ ("", value)
    → split_once k (name <> (sep <> value)) ≡ (name, value)
unfolding split_once has_char
split_once-append k Native.[] value h sep e = rw nil-append e
split_once-append k (Native.◌∷◌ c name) value h sep e = elim (Bool-cases (nat_eq (code c) k)) [
  | inl same ↦ absurd (ground arith)
  | inr differs ↦
      let rest : has_char k name ≡ false = ground arith in
      rw (cons-append, differs, split_once-append k name value rest sep e) refl
]

lines-line :
    (line rest : String)
    → is_line line ≡ true
    → lines false (line <> ("\n" <> rest)) ≡ line ∷ lines false rest
unfolding lines
lines-line Native.[] rest h = rw (nil-append, cons-append, nil-append) refl
lines-line (Native.◌∷◌ c line) rest h =
    let feed : nat_eq (code c) 10 ≡ false = ground arith in
    let return : nat_eq (code c) 13 ≡ false = ground arith in
    let tail : is_line line ≡ true = ground arith in
    rw (cons-append, feed, return, lines-line line rest tail) refl

has_char-append : (k : ℕ) (s t : String) → has_char k t ≡ true → has_char k (s <> t) ≡ true
unfolding has_char
has_char-append k Native.[] t h = rw nil-append h
has_char-append k (Native.◌∷◌ c s) t h =
    let ih = has_char-append k s t h in rw (cons-append, ih) (ground arith)

-- A line `name: value` has this field and this value.
field_of-colon :
    (name value : String)
    → has_char 58 name ≡ false
    → field_of (name <> (": " <> value)) ≡ (name, value)
unfolding split_once has_char
field_of-colon name value h =
    let before : split_once 58 (":" <> (" " <> value)) ≡ ("", " " <> value) =
      rw (cons-append, nil-append) refl in
    let apart : ": " ≡ ":" <> " " = refl in
    let colon : ": " <> value ≡ ":" <> (" " <> value) = rw apart (str_append_assoc ":" " " value) in
    let found = has_char-append 58 name (": " <> value) (rw cons-append refl) in
    rw
      (found, colon, split_once-append 58 name (" " <> value) h ":" before, cons-append, nil-append)
      refl

-- One line that sets a field.
read_lines-field :
    (p : Pending) (name value : String) (rest : List String)
    → has_char 58 name ≡ false
    → is_empty (name <> (": " <> value)) ≡ false
    → read_lines p ((name <> (": " <> value)) ∷ rest) ≡ read_lines (set_field name value p) rest
unfolding read_lines take_line
read_lines-field p name value rest h k = rw (k, field_of-colon name value h) refl

read_lines-blank :
    (p : Pending) (rest : List String)
    → read_lines p ("" ∷ rest) ≡ dispatched p ++ read_lines nothing_yet rest
unfolding read_lines take_line
read_lines-blank p rest = refl

lines-blank : (rest : String) → lines false ("\n" <> rest) ≡ "" ∷ lines false rest
unfolding lines
lines-blank rest = rw (cons-append, nil-append) refl

-- A frame in lines: the event, the data, and a blank one.
frame_lines :
    (dumps : Json → String) (event : String) (value : Json) (rest : String)
    → format_sse dumps event value <> rest
      ≡ ("event" <> (": " <> event))
        <> ("\n" <> (("data" <> (": " <> dumps value)) <> ("\n" <> ("\n" <> rest))))
unfolding format_sse
frame_lines dumps event value rest =
    let named : "event: " ≡ "event" <> ": " = refl in
    let fed : "\ndata: " ≡ "\n" <> ("data" <> ": ") = refl in
    let blank : "\n\n" ≡ "\n" <> "\n" = refl in rw (named, fed, blank) (simp str_append_assoc)

module _ (dumps : Json → String) (event : String) (value : Json) (rest : String) where
  -- A frame is read back as its event, and the reader starts anew behind it.
  pub read_events-format_sse :
      is_line event ≡ true
      → is_empty event ≡ false
      → is_line (dumps value) ≡ true
      → read_events (format_sse dumps event value <> rest) ≡ (event, dumps value) ∷ read_events rest
  unfolding read_events has_char
  read_events-format_sse h filled k =
      let heading =
        is_line-append "event" (": " <> event) refl
          (rw cons-append (rw cons-append (rw nil-append h))) in
      let payload =
        is_line-append "data" (": " <> dumps value) refl
          (rw cons-append (rw cons-append (rw nil-append k))) in
      rw
        (
          frame_lines dumps event value rest,
          lines-line ("event" <> (": " <> event)) _ heading,
          lines-line ("data" <> (": " <> dumps value)) _ payload,
          lines-blank rest,
          read_lines-field nothing_yet "event" event _ refl (rw cons-append refl),
          read_lines-field _ "data" (dumps value) _ refl (rw cons-append refl),
          read_lines-blank,
        )
        (rw filled refl)

pub read_events-nil : read_events "" ≡ []
unfolding read_events read_lines lines take_line
read_events-nil = refl
