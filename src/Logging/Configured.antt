-- ===== src/Logging/Configured.antt =====
-- app/common/logging/logger.py: `configure_logging` on the root logger. `level.upper()`, the levels
-- that logging knows and `logging.StreamHandler()` are arguments.
use chatting.Common.{ℕ, ◌≡◌, refl, ap, String, List, [], ◌∷◌, map}
use chatting.Exec.{Exec, Result, ok, raised}

-- `JsonFormatter()`, or any other.
pub data Formatter : Type 0 where
  json_formatter plain_formatter : Formatter

-- A handler is its stream and its formatter.
pub record Handler : Type 0 where
  pub stream : String
  pub formatter : Formatter

pub record RootLogger : Type 0 where
  pub level : ℕ
  pub handlers : List Handler

abbrev pub set_json : Handler → Handler
set_json handler = record handler { formatter = json_formatter }

-- The handlers that the root has: each gets the formatter, or one is added where there is none.
abbrev pub with_json : Handler → List Handler → List Handler
with_json new_handler [] = set_json new_handler ∷ []
with_json new_handler (handler ∷ handlers) = set_json handler ∷ map set_json handlers

module _ (upper : String → String) (level_of : String → Result ℕ) (new_handler : Handler) where
  unfoldable pub configure_logging : String → Exec RootLogger (Unit {0})
  configure_logging level root = elim (level_of (upper level)) [
    | raised e ↦ (raised e, root)
    | ok n ↦ (ok tt, record { level = n; handlers = with_json new_handler root.handlers })
  ]

abbrev pub AreJson : List Handler → Type 0
AreJson [] = Unit
AreJson (handler ∷ handlers) = (handler.formatter ≡ json_formatter) × AreJson handlers

map-AreJson : (handlers : List Handler) → AreJson (map set_json handlers)
map-AreJson [] = tt
map-AreJson (handler ∷ handlers) = (refl, map-AreJson handlers)

with_json-AreJson :
    (new_handler : Handler) (handlers : List Handler) → AreJson (with_json new_handler handlers)
with_json-AreJson new_handler [] = (refl, tt)
with_json-AreJson new_handler (handler ∷ handlers) = (refl, map-AreJson handlers)

map-set_json-twice :
    (handlers : List Handler) → map set_json (map set_json handlers) ≡ map set_json handlers
map-set_json-twice [] = refl
map-set_json-twice (handler ∷ handlers) =
    ap (λ (hs : List Handler). set_json handler ∷ hs) (map-set_json-twice handlers)

with_json-twice :
    (new_handler : Handler) (handlers : List Handler)
    → with_json new_handler (with_json new_handler handlers) ≡ with_json new_handler handlers
with_json-twice new_handler [] = refl
with_json-twice new_handler (handler ∷ handlers) =
    ap (λ (hs : List Handler). set_json handler ∷ hs) (map-set_json-twice handlers)

module _ (upper : String → String) (level_of : String → Result ℕ) (new_handler : Handler) where
  configured :
      (level : String) (n : ℕ) (root : RootLogger)
      → level_of (upper level) ≡ ok n
      → configure_logging upper level_of new_handler level root
        ≡ (ok tt, record { level = n; handlers = with_json new_handler root.handlers })
  unfolding configure_logging
  configured level n root h = rw (h, configure_logging) refl

  -- For a level that logging knows: every handler writes JSON afterwards, and configuring again with
  -- the same level changes nothing, so no handler is added twice.
  pub configure_logging-twice :
      (level : String) (n : ℕ) (root : RootLogger)
      → level_of (upper level) ≡ ok n
      → let once = (configure_logging upper level_of new_handler level root).1 in
        AreJson once.handlers × ((configure_logging upper level_of new_handler level once).1 ≡ once)
  configure_logging-twice level n root h =
      rw (configured level n root h, configured level n _ h)
        (
          with_json-AreJson new_handler root.handlers,
          ap (λ (hs : List Handler). record { level = n; handlers = hs })
              (with_json-twice new_handler root.handlers),
        )
