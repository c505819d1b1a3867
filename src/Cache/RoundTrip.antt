-- ===== src/Cache/RoundTrip.antt =====
-- A violation that goes through the cache file.
use slopsentinel.Base.{
  ℕ, suc, Text, codes, text_eq, ◌++◌, Option, none, some, false, ◌≡◌, refl, ap, strip, upper, lower,
  starts_with, ℤ,
}
use slopsentinel.Types.{
  FilePath, Location, Violation, Severity, info, warn, error, Dimension, fingerprint, quality,
  hallucination, maintainability, security,
}
use slopsentinel.Paths.{as_posix, safe_relpath, relative_to-append}
use slopsentinel.Json.{get, int_of, str_of}
use mathlib.Core.Path.{ap₂}
use slopsentinel.Scoring.Penalty.{severity_key, dimension_key}
use slopsentinel.Cache.Serial.{
  CacheMachine, parse_path, serialize_violation, deserialize_violation, location_json,
  parse_location, resolve_inside, or_null, int_or_null, severity_or_info, dimension_or_quality,
  severity_name, dimension_name,
}

severity_round_trip : (s : Severity) → severity_key (lower (strip (severity_name s))) ≡ some s
unfolding severity_key lower strip text_eq
severity_round_trip info = refl
severity_round_trip warn = refl
severity_round_trip error = refl

dimension_round_trip : (d : Dimension) → dimension_key (lower (strip (dimension_name d))) ≡ some d
unfolding dimension_key lower strip text_eq
dimension_round_trip fingerprint = refl
dimension_round_trip quality = refl
dimension_round_trip hallucination = refl
dimension_round_trip maintainability = refl
dimension_round_trip security = refl

int_round_trip : (o : Option ℤ) → int_of (some (int_or_null o)) ≡ o
int_round_trip none = refl
int_round_trip (some n) = refl

text_round_trip : (o : Option Text) → str_of (some (or_null o)) ≡ o
text_round_trip none = refl
text_round_trip (some t) = refl

module _ (m : CacheMachine) where
  -- A location inside the project: `rel` below the root, at a line and a column.
  pub record IsInside (rel : FilePath) : Type 0 where
    pub resolved : m.resolve (m.resolved_root ++ rel) ≡ some (m.resolved_root ++ rel)
    pub from_root : m.resolve (m.project_root ++ rel) ≡ some (m.resolved_root ++ rel)
    pub relative : starts_with (as_posix rel) (codes "/") ≡ false
    pub readable : parse_path (as_posix rel) ≡ rel

  abbrev pub at_place : FilePath → ℕ → ℕ → Option ℤ → Option ℤ → Location
  at_place rel line col end_line end_col = record {
    path = some (m.resolved_root ++ rel);
    start_line = some (suc line);
    start_col = some (suc col);
    end_line = end_line;
    end_col = end_col;
  }

  safe_relpath-inside :
      (rel : FilePath)
      → IsInside rel
      → safe_relpath m.resolve (m.resolved_root ++ rel) m.project_root ≡ as_posix rel
  unfolding safe_relpath
  safe_relpath-inside rel i =
      rw (safe_relpath, i.resolved, m.resolve_root, relative_to-append m.resolved_root rel) refl

  resolve_inside_lem :
      (rel : FilePath) → IsInside rel → resolve_inside m rel ≡ some (m.resolved_root ++ rel)
  resolve_inside_lem rel i =
      rw (resolve_inside, i.from_root, relative_to-append m.resolved_root rel) refl

  location-inside :
      (rel : FilePath) (line col : ℕ) (end_line end_col : Option ℤ)
      → IsInside rel
      → let l = at_place rel line col end_line end_col in
        parse_location m (some (location_json m (some l))) ≡ some l
  unfolding get text_eq
  location-inside rel line col end_line end_col i =
      rw (safe_relpath-inside rel i, i.relative, i.readable, resolve_inside_lem rel i)
        (ap₂
          (λ a b. some (record {
            path = some (m.resolved_root ++ rel);
            start_line = some (suc line);
            start_col = some (suc col);
            end_line = a;
            end_col = b;
          }))
          (int_round_trip end_line) (int_round_trip end_col))

  -- A violation with a canonical rule id, at a line and a column of a file inside the project
  -- whose relative path can be read back, comes back from the cache as it was.
  pub deserialize-serialize :
      (v : Violation) (rel : FilePath) (line col : ℕ) (end_line end_col : Option ℤ)
      → upper (strip v.rule_id) ≡ v.rule_id
      → IsInside rel
      → v.location ≡ some (at_place rel line col end_line end_col)
      → deserialize_violation m (serialize_violation m v) ≡ v
  unfolding deserialize_violation serialize_violation text_eq
  deserialize-serialize v rel line col end_line end_col c i l =
      let sev = ap (severity_or_info m) (severity_round_trip v.severity) in
      let dim = ap (dimension_or_quality m) (dimension_round_trip v.dimension) in
      let place : parse_location m (some (location_json m v.location)) ≡ v.location =
        rw l (location-inside rel line col end_line end_col i) in
      λ j. record {
        rule_id = c j;
        severity = sev j;
        message = v.message;
        dimension = dim j;
        suggestion = text_round_trip v.suggestion j;
        location = place j;
      }
