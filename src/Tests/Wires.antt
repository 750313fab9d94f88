-- ===== src/Tests/Wires.antt =====
-- The bytes of the routes' responses: a JSON of the events in one line, and the theorems there.
use Prim.Native.Char.{Char, char, code, IsScalar}
use Prim.Native.String as Native
use mathlib.Core.Path.{subst}
use mathlib.Core.Option
use chatting.Common.{
  ◌≡◌, refl, sym, String, true, false, Option, none, some, List, [], ◌∷◌, map, nat_eq,
  if◌then◌else◌, inl, inr, pos, Bool-cases, arith,
}
use chatting.Common.Text.{has_char, split_once, nil-append, cons-append, str}
use chatting.Json.{get_field, Json, text, number, null, object, no_fields, field}
use chatting.Chat.{StreamEvent, start, token, done, error}
use chatting.Routes.Frames.{event_data, sse_body, read_events, lines, read_lines, take_line}
use chatting.Routes.Frames.Reading.{is_line, is_line-append}
use chatting.Routes.Frames.Wire.{JsonLaws, received, read_events-sse_body}
use chatting.Routes.Frames.Schemas.{validate, of_token, validate-data_of, request_in}

-- A text in pairs, up to a `.`: a mark, then the character, where the marks `n` and `r` stand for
-- the two that end a line.
abbrev pair_of : Char → Char × Char
pair_of c =
    if nat_eq (code c) 10
    then (char 110 tt, char 110 tt)
    else if nat_eq (code c) 13
    then (char 114 tt, char 114 tt)
    else (char 43 tt, c)

quoted : String → String → String
quoted Native.[] rest = Native.◌∷◌ (char 46 tt) rest
quoted (Native.◌∷◌ c s) rest =
    let more = quoted s rest in let (mark, d) = pair_of c in Native.◌∷◌ mark (Native.◌∷◌ d more)

abbrev with_char : Char → String × String → String × String
with_char c (s, rest) = (Native.◌∷◌ c s, rest)

abbrev char_of : Char → Char → Char
char_of mark c =
    if nat_eq (code mark) 110 then char 10 tt else if nat_eq (code mark) 114 then char 13 tt else c

-- The text, and what stands behind it.
unquoted : String → String × String
unquoted Native.[] = ("", "")
unquoted (Native.◌∷◌ mark Native.[]) = ("", "")
unquoted (Native.◌∷◌ mark (Native.◌∷◌ c s)) =
    let rest = unquoted s in
    if nat_eq (code mark) 46 then ("", Native.◌∷◌ c s) else with_char (char_of mark c) rest

line_feed : (c : Char) → code c ≡ 10 → char 10 tt ≡ c
line_feed (char n q) e =
    subst (λ m. (p : IsScalar m) → ◌≡◌ {A = Char} (char 10 tt) (char m p)) (sym e) (λ p. refl) q

carriage_return : (c : Char) → code c ≡ 13 → char 13 tt ≡ c
carriage_return (char n q) e =
    subst (λ m. (p : IsScalar m) → ◌≡◌ {A = Char} (char 13 tt) (char m p)) (sym e) (λ p. refl) q

-- A pair is no end, is the character again, and ends no line.
record IsPair (c : Char) (p : Char × Char) : Type 0 where
  goes_on : nat_eq (code p.0) 46 ≡ false
  again : char_of p.0 p.1 ≡ c
  in_line : is_line (Native.◌∷◌ p.0 (Native.◌∷◌ p.1 "")) ≡ true

pair_of-IsPair : (c : Char) → IsPair c (pair_of c)
pair_of-IsPair c = elim (Bool-cases (nat_eq (code c) 10)) [
  | inl e ↦ rw e (record { goes_on = refl; again = line_feed c (ground arith); in_line = refl })
  | inr e ↦ elim (Bool-cases (nat_eq (code c) 13)) [
    | inl k ↦
        rw (e, k)
          (record { goes_on = refl; again = carriage_return c (ground arith); in_line = refl })
    | inr k ↦ rw (e, k) (record { goes_on = refl; again = refl; in_line = rw (e, k) refl })
  ]
]

unquoted-quoted :
    (s : String) (d : Char) (rest : String)
    → unquoted (quoted s (Native.◌∷◌ d rest)) ≡ (s, Native.◌∷◌ d rest)
unfolding quoted unquoted
unquoted-quoted Native.[] d rest = refl
unquoted-quoted (Native.◌∷◌ c s) d rest =
    let p = pair_of-IsPair c in rw (p.goes_on, p.again, unquoted-quoted s d rest) refl

quoted-is_line : (s rest : String) → is_line rest ≡ true → is_line (quoted s rest) ≡ true
unfolding quoted
quoted-is_line Native.[] rest h = h
quoted-is_line (Native.◌∷◌ c s) rest h =
    let whole =
      is_line-append (Native.◌∷◌ (pair_of c).0 (Native.◌∷◌ (pair_of c).1 "")) (quoted s rest)
        (pair_of-IsPair c).in_line (quoted-is_line s rest h) in
    rw (cons-append, cons-append, nil-append) at whole

-- Of an event's data, its texts behind a letter for the event; other values are not printed.
abbrev mark_end : String
mark_end = Native.◌∷◌ (char 59 tt) ""

pub printed : Json → String
printed (object (field _ (text a) (field _ (text b) (field _ (text c) no_fields)))) =
    Native.◌∷◌ (char 115 tt) (quoted a (quoted b (quoted c mark_end)))
printed (object (field _ (text a) (field _ (number b) no_fields))) =
    Native.◌∷◌ (char 116 tt) (quoted a (quoted b mark_end))
printed (object (field _ (text a) (field _ null no_fields))) = Native.◌∷◌ (char 100 tt) ""
printed (object (field _ (object (field _ (text a) (field _ (text b) no_fields))) no_fields)) =
    Native.◌∷◌ (char 101 tt) (quoted a (quoted b mark_end))
printed _ = ""

pub parsed : String → Option Json
parsed Native.[] = none
parsed (Native.◌∷◌ letter s) =
    let (a, s₁) = unquoted s in
    let (b, s₂) = unquoted s₁ in
    let (c, s₃) = unquoted s₂ in
    if nat_eq (code letter) 115
    then some (event_data (start a b c))
    else if nat_eq (code letter) 116
    then some (object (field "delta" (text a) (field "sequence" (number b) no_fields)))
    else if nat_eq (code letter) 100
    then some (event_data done)
    else some (event_data (error a b))

quoted-cons :
    (s : String) (d : Char) (rest : String)
    → (c : Char) × (t : String) × (quoted s (Native.◌∷◌ d rest) ≡ Native.◌∷◌ c t)
unfolding quoted
quoted-cons Native.[] d rest = (_, _, refl)
quoted-cons (Native.◌∷◌ c s) d rest = (_, _, refl)

unquoted_inner :
    (s t : String) (d : Char) (rest : String)
    → unquoted (quoted s (quoted t (Native.◌∷◌ d rest))) ≡ (s, quoted t (Native.◌∷◌ d rest))
unquoted_inner s t d rest = let (c, u, e) = quoted-cons t d rest in rw e (unquoted-quoted s c u)

printed-is_line : (event : StreamEvent) → is_line (printed (event_data event)) ≡ true
unfolding printed
printed-is_line (start a b c) = quoted-is_line a _ (quoted-is_line b _ (quoted-is_line c _ refl))
printed-is_line (token delta n) = quoted-is_line delta _ (quoted-is_line (str n) _ refl)
printed-is_line done = refl
printed-is_line (error a b) = quoted-is_line a _ (quoted-is_line b _ refl)

parsed-printed :
    (event : StreamEvent) → parsed (printed (event_data event)) ≡ some (event_data event)
unfolding printed parsed
parsed-printed (start a b c) =
    let (x, u, e) = quoted-cons c (char 59 tt) "" in
    rw (e, unquoted_inner a b x u, unquoted-quoted b x u) (rw (sym e, unquoted-quoted c _ _) refl)
parsed-printed (token delta n) =
    rw (unquoted_inner delta (str n) (char 59 tt) "", unquoted-quoted (str n) (char 59 tt) "") refl
parsed-printed done = refl
parsed-printed (error a b) =
    rw (unquoted_inner a b (char 59 tt) "", unquoted-quoted b (char 59 tt) "") refl

pub json_laws : JsonLaws printed parsed
json_laws = record { one_line = printed-is_line; loads-dumps = parsed-printed }

abbrev spoken : List StreamEvent
spoken = start "r" "t" "s" ∷ token "a\nb" 1 ∷ error "LLM_TIMEOUT" "late" ∷ []

spoken_body :
    map (received printed parsed) (read_events "event: done\r\ndata:d\r\n\r\n") ≡ some done ∷ []
unfolding received parsed read_events lines read_lines take_line validate get_field Option.bind
    has_char split_once unquoted
spoken_body = refl

read_events-sse_body_example :
    map (received printed parsed) (read_events (sse_body printed spoken)) ≡ map some spoken
read_events-sse_body_example = read_events-sse_body printed parsed json_laws spoken

validate-data_of_example :
    validate "token" (event_data (token "hi" 12))
    ≡ some (of_token (record { delta = "hi"; sequence = pos 12 }))
validate-data_of_example = validate-data_of (token "hi" 12)

-- A session id is needed, and 129 characters of it are too many; a message of blanks is let in.
request_runs :
    (request_in (object (field "session_id" (text "s") (field "message" (text " ") no_fields)))
      ≡ some (record { session_id = "s"; message = " "; response_mode = "text" }))
    × (request_in (object (field "session_id" (text "") (field "message" (text "a") no_fields)))
        ≡ none)
unfolding request_in get_field
request_runs = (refl, refl)
