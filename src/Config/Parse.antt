-- ===== src/Config/Parse.antt =====
-- The parsing of src/slopsentinel/config.py: the table `tool.slopsentinel` as values of `Json`, where
-- `null` stands for Python's `None`, which TOML never gives. TOML's dates, which no check accepts, are
-- not among the values. A `ConfigError` is given by the field that its message names.
pub mod Rules
pub mod Overrides
pub mod Tables
mod Outcomes
mod Ids
mod Valid
mod Tests
use slopsentinel.Base.{
  Text, codes, List, [], ◌∷◌, Option, none, some, Bool, true, false, map, strip, lower, text_eq,
  ◌==◌, if◌then◌else◌, String, ◌≡◌, refl,
}
use slopsentinel.Types.{Severity}
use slopsentinel.Json.{Json, null, str, arr, obj, Fields, Items, nil, cons, get}
use slopsentinel.Scoring.Penalty.{severity_key}

pub data Parsed (A : Type 0) : Type 0 where
  ok : A → Parsed A
  config_error : Text → Parsed A

infixl 5 ◌>>=◌
unfoldable pub ◌>>=◌ : {A B : Type 0} → Parsed A → (A → Parsed B) → Parsed B
ok a >>= f = f a
config_error field >>= f = config_error field

-- A check with the rest behind it.
unfoldable pub require : {A : Type 0} → Bool → Text → Parsed A → Parsed A
require true field rest = rest
require false field rest = config_error field

-- `value.get(key, default)`
unfoldable pub get_or : Text → Fields → Json → Json
unfolding get
get_or key fs default = elim (get key fs) [ none ↦ default | some j ↦ j ]

abbrev pub cons_text : Option Text → Option (List Text) → Option (List Text)
cons_text (some t) (some ts) = some (t ∷ ts)
cons_text _ _ = none

-- The items, if each is a text
abbrev pub texts_of : Items → Option (List Text)
texts_of nil = some []
texts_of (cons (str t) items) = cons_text (some t) (texts_of items)
texts_of (cons _ items) = none

abbrev stripped_or : Text → Option (List Text) → Parsed (List Text)
stripped_or field none = config_error field
stripped_or field (some ts) = ok (map strip ts)

-- `_validate_str_list`
unfoldable pub validate_str_list : Text → Json → Parsed (List Text)
validate_str_list field null = ok []
validate_str_list field (arr items) = stripped_or field (texts_of items)
validate_str_list field _ = config_error field

abbrev severity_or : Text → Option Severity → Parsed Severity
severity_or field none = config_error field
severity_or field (some s) = ok s

-- `_validate_severity`
unfoldable pub validate_severity : Text → Json → Parsed Severity
unfolding strip lower text_eq severity_key
validate_severity field (str value) =
    let normalized = lower (strip value) in
    severity_or field
      (severity_key (if normalized == codes "warning" then codes "warn" else normalized))
validate_severity field _ = config_error field
