-- ===== src/Cache/Serial.antt =====
-- A violation as JSON: `_serialize_violation` and `_deserialize_violation`.
use slopsentinel.Base.{
  ℕ, zero, suc, Text, codes, text_eq, [], ◌∷◌, ◌++◌, Option, none, some, not, ◌&&◌, ◌==◌,
  if◌then◌else◌, ℤ, pos, is_nil, starts_with, split_at, select, strip, upper, lower, ◌≡◌,
}
use slopsentinel.Types.{
  Severity, info, warn, error, Dimension, fingerprint, quality, hallucination, maintainability,
  security, FilePath, Location, Violation,
}
use slopsentinel.Json.{Json, null, num, str, obj, Fields, end, field, get, int_of, str_of}
use slopsentinel.Paths.{safe_relpath, relative_to}
use slopsentinel.Scoring.Penalty.{dimension_key, severity_key}

-- `resolve` is `none` where `Path.resolve` raises; the project root resolves.
pub record CacheMachine : Type 0 where
  pub project_root : FilePath
  pub resolved_root : FilePath
  pub resolve : FilePath → Option FilePath
  pub resolve_root : resolve project_root ≡ some resolved_root
  -- `str(value)` of a JSON value that is no text
  pub to_str : Json → Text

abbrev pub severity_name : Severity → Text
severity_name info = codes "info"
severity_name warn = codes "warn"
severity_name error = codes "error"

abbrev pub dimension_name : Dimension → Text
dimension_name fingerprint = codes "fingerprint"
dimension_name quality = codes "quality"
dimension_name hallucination = codes "hallucination"
dimension_name maintainability = codes "maintainability"
dimension_name security = codes "security"

-- `Path(text)`: its parts, with "/" in front if it is absolute
unfoldable pub parse_path : Text → FilePath
unfolding split_at starts_with
parse_path t =
    let parts = select (λ p. not (is_nil p) && not (p == codes ".")) (split_at b'/' t) in
    if starts_with t (codes "/") then codes "/" ∷ parts else parts

abbrev pub or_null : Option Text → Json
or_null none = null
or_null (some t) = str t

abbrev pub int_or_null : Option ℤ → Json
int_or_null none = null
int_or_null (some n) = num n

-- `int(loc.start_col or 1)`
abbrev pub col_or_one : Option ℕ → ℕ
col_or_one none = 1
col_or_one (some zero) = 1
col_or_one (some (suc n)) = suc n

module _ (m : CacheMachine) where
  abbrev pub location_fields : FilePath → ℕ → Location → Json
  location_fields path line l = obj (
      field (codes "path") (str (safe_relpath m.resolve path m.project_root)) (
        field (codes "start_line") (num (pos line)) (
          field (codes "start_col") (num (pos (col_or_one l.start_col))) (
            field (codes "end_line") (int_or_null l.end_line)
              (field (codes "end_col") (int_or_null l.end_col) end)))))

  -- A location without a path or a line is written as null.
  abbrev pub location_json : Option Location → Json
  location_json none = null
  location_json (some l) = elim (l.path) [
    | none ↦ null
    | some p ↦ elim (l.start_line) [ none ↦ null | some n ↦ location_fields p n l ]
  ]

  unfoldable pub serialize_violation : Violation → Fields
  serialize_violation v = field (codes "rule_id") (str v.rule_id) (
      field (codes "severity") (str (severity_name v.severity)) (
        field (codes "message") (str v.message) (
          field (codes "dimension") (str (dimension_name v.dimension)) (
            field (codes "suggestion") (or_null v.suggestion)
              (field (codes "location") (location_json v.location) end)))))

  -- `str(data.get(key, default))`
  abbrev pub text_at : Text → Text → Fields → Text
  text_at key default fs = elim (get key fs) [
    | none ↦ default
    | some (str t) ↦ t
    | some j ↦ m.to_str j
  ]

  abbrev pub severity_or_info : Option Severity → Severity
  severity_or_info none = info
  severity_or_info (some s) = s

  abbrev pub dimension_or_quality : Option Dimension → Dimension
  dimension_or_quality none = quality
  dimension_or_quality (some d) = d

  -- `int(raw) if isinstance(raw, int) and raw > 0 else 1`
  abbrev pub col_of : Option ℤ → ℕ
  col_of (some (pos (suc n))) = suc n
  col_of _ = 1

  -- A relative path is resolved below the root; `none` where that fails or leads outside.
  abbrev pub resolve_inside : FilePath → Option FilePath
  resolve_inside candidate = elim (m.resolve (m.project_root ++ candidate)) [
    | none ↦ none
    | some p ↦ elim (relative_to p m.resolved_root) [ none ↦ none | some rel ↦ some p ]
  ]

  abbrev pub location_at : Option FilePath → ℕ → Fields → Option Location
  location_at none line fs = none
  location_at (some p) line fs = some (record {
    path = some p;
    start_line = some line;
    start_col = some (col_of (int_of (get (codes "start_col") fs)));
    end_line = int_of (get (codes "end_line") fs);
    end_col = int_of (get (codes "end_col") fs);
  })

  abbrev pub location_of : Option Text → Option ℤ → Fields → Option Location
  location_of (some path) (some (pos (suc n))) fs =
      if starts_with path (codes "/")
      then none
      else location_at (resolve_inside (parse_path path)) (suc n) fs
  location_of _ _ fs = none

  abbrev pub parse_location : Option Json → Option Location
  parse_location (some (obj fs)) =
      location_of (str_of (get (codes "path") fs)) (int_of (get (codes "start_line") fs)) fs
  parse_location _ = none

  unfoldable pub deserialize_violation : Fields → Violation
  unfolding get
  deserialize_violation fs = record {
    rule_id = upper (strip (text_at (codes "rule_id") [] fs));
    severity =
        severity_or_info
          (severity_key (lower (strip (text_at (codes "severity") (codes "info") fs))));
    message = text_at (codes "message") [] fs;
    dimension =
        dimension_or_quality
          (dimension_key (lower (strip (text_at (codes "dimension") (codes "quality") fs))));
    suggestion = str_of (get (codes "suggestion") fs);
    location = parse_location (get (codes "location") fs);
  }
