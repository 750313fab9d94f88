-- ===== src/Json.antt =====
-- The values of JSON, as Python's json and httpx read and write them, and how pydantic reads the
-- fields of a model from a dict.
use mathlib.Core.Option
use chatting.Common.{
  String, Bool, false, ◌==◌, ◌||◌, if◌then◌else◌, Option, none, some, List, [], ◌∷◌, ℤ,
}
use chatting.Common.Text.{parse_int}
use chatting.Errors.{new_other}
use chatting.Exec.{Result, ok, raised}

mutual
  -- A number is given by its text.
  pub data Json : Type 0 where
    null : Json
    bool : Bool → Json
    number : String → Json
    text : String → Json
    array : Items → Json
    object : Fields → Json

  pub data Items : Type 0 where
    no_items : Items
    item : Json → Items → Items

  pub data Fields : Type 0 where
    no_fields : Fields
    field : String → Json → Fields → Fields

-- `fields.get(k)`; a missing key gives `None`, as null does
unfoldable pub get_field : String → Fields → Json
get_field k no_fields = null
get_field k (field j v fields) = if j == k then v else get_field k fields

-- `body.get(k)`, where the body may be no dict
unfoldable pub get_of : String → Json → Result Json
get_of k (object fields) = ok (get_field k fields)
get_of k _ = raised (new_other "AttributeError" "object has no attribute 'get'")

-- A missing key is told from a null by its presence.
abbrev pub has_field : String → Fields → Bool
has_field k no_fields = false
has_field k (field j v fields) = j == k || has_field k fields

infixl 10 ◌>>=◌
abbrev pub ◌>>=◌ : {A B : Type 0} → Option A → (A → Option B) → Option B
none >>= f = none
some a >>= f = f a

-- A required `str` and a required `int`, which a text and a number in JSON are; a text of digits is
-- not converted.
abbrev pub str_field : String → Fields → Option String
str_field k fields = elim (get_field k fields) [ text s ↦ some s | _ ↦ none ]

abbrev pub int_field : String → Fields → Option ℤ
int_field k fields = elim (get_field k fields) [ number s ↦ parse_int s | _ ↦ none ]

-- `int | None = None` and `float | None = None`, the latter by its text; a missing key gives None.
abbrev pub optional_int : String → Fields → Option (Option ℤ)
optional_int k fields = elim (get_field k fields) [
  | null ↦ some none
  | number s ↦ Option.map some (parse_int s)
  | _ ↦ none
]

abbrev pub optional_float : String → Fields → Option (Option String)
optional_float k fields = elim (get_field k fields) [
  | null ↦ some none
  | number s ↦ some (some s)
  | _ ↦ none
]

-- `Optional[str] = None`
abbrev pub optional_str : String → Fields → Option (Option String)
optional_str k fields = elim (get_field k fields) [
  | null ↦ some none
  | text s ↦ some (some s)
  | _ ↦ none
]

-- `dict | None = None`
abbrev pub optional_dict : String → Fields → Option (Option Fields)
optional_dict k fields = elim (get_field k fields) [
  | null ↦ some none
  | object f ↦ some (some f)
  | _ ↦ none
]

-- `list[dict]`
abbrev pub dicts : Items → Option (List Fields)
dicts no_items = some []
dicts (item (object fields) items) = Option.map (λ rest. fields ∷ rest) (dicts items)
dicts (item _ items) = none

abbrev pub dicts_field : String → Fields → Option (List Fields)
dicts_field k fields = elim (get_field k fields) [ array items ↦ dicts items | _ ↦ none ]
