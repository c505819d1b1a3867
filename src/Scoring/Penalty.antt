-- ===== src/Scoring/Penalty.antt =====
-- The penalty tables of src/slopsentinel/engine/scoring.py and `resolve_severity_penalty`.
use slopsentinel.Base.{
  ℕ, Text, codes, text_eq, Option, none, some, List, [], ◌∷◌, ◌==◌, if◌then◌else◌, is_nil, strip,
  lower,
}
use slopsentinel.Types.{
  Severity, info, warn, error, Dimension, fingerprint, quality, hallucination, maintainability,
  security, severity_eq, dimension_eq,
}

-- dict[str, dict[Severity, int]]
abbrev pub SeverityPenalty : Type 0
SeverityPenalty = Dimension → Severity → ℕ

abbrev by_severity : ℕ → ℕ → ℕ → Severity → ℕ
by_severity i w e info = i
by_severity i w e warn = w
by_severity i w e error = e

-- SEVERITY_PENALTY
abbrev pub default_penalty : SeverityPenalty
default_penalty fingerprint = by_severity 1 2 3
default_penalty quality = by_severity 1 3 5
default_penalty hallucination = by_severity 4 10 20
default_penalty maintainability = by_severity 1 3 5
default_penalty security = by_severity 1 3 5

abbrev pub strict_penalty : SeverityPenalty
strict_penalty fingerprint = by_severity 1 3 5
strict_penalty quality = by_severity 1 4 7
strict_penalty hallucination = by_severity 5 12 20
strict_penalty maintainability = by_severity 1 4 7
strict_penalty security = by_severity 2 5 10

abbrev pub lenient_penalty : SeverityPenalty
lenient_penalty fingerprint = by_severity 0 1 2
lenient_penalty quality = by_severity 0 2 4
lenient_penalty hallucination = by_severity 2 6 12
lenient_penalty maintainability = by_severity 0 2 4
lenient_penalty security = by_severity 0 2 4

-- src/slopsentinel/config.py, ScoringConfig
pub record ScoringConfig : Type 0 where
  pub profile : Text
  pub penalties : List (Text × List (Text × ℕ))

-- The keys of the mapping, as values of `Dimension` and `Severity`.
unfoldable pub dimension_key : Text → Option Dimension
dimension_key t =
    if t == codes "fingerprint"
    then some fingerprint
    else if t == codes "quality"
    then some quality
    else if t == codes "hallucination"
    then some hallucination
    else if t == codes "maintainability"
    then some maintainability
    else if t == codes "security"
    then some security
    else none

unfoldable pub severity_key : Text → Option Severity
severity_key t =
    if t == codes "info"
    then some info
    else if t == codes "warn"
    then some warn
    else if t == codes "error"
    then some error
    else none

-- `_SEVERITY_PENALTY_PROFILES.get(profile_name, SEVERITY_PENALTY)`
unfoldable pub profile_penalty : Text → SeverityPenalty
profile_penalty name =
    if name == codes "strict"
    then strict_penalty
    else if name == codes "lenient"
    then lenient_penalty
    else default_penalty

-- merged[dim][sev] = value
unfoldable pub set_penalty : SeverityPenalty → Dimension → Severity → ℕ → SeverityPenalty
set_penalty table dim sev value d s =
    if d == dim then (if s == sev then value else table d s) else table d s

-- The inner loop, over the overrides of one dimension.
unfoldable pub merge_severities : Dimension → List (Text × ℕ) → SeverityPenalty → SeverityPenalty
merge_severities dim [] table = table
merge_severities dim ((sev, value) ∷ rest) table =
    merge_severities dim rest (elim (severity_key (lower (strip sev))) [
      | none ↦ table
      | some s ↦ set_penalty table dim s value
    ])

unfoldable pub merge_dimension :
    Option Dimension → List (Text × ℕ) → SeverityPenalty → SeverityPenalty
merge_dimension none overrides table = table
merge_dimension (some d) overrides table = merge_severities d overrides table

-- The outer loop. A key that is no dimension is skipped.
unfoldable pub merge_penalties : List (Text × List (Text × ℕ)) → SeverityPenalty → SeverityPenalty
merge_penalties [] table = table
merge_penalties ((dim, overrides) ∷ rest) table =
    merge_penalties rest (merge_dimension (dimension_key (lower (strip dim))) overrides table)

-- `x or "default"` on a text
abbrev pub or_default : Text → Text
or_default t = if is_nil t then codes "default" else t

unfoldable pub resolve_severity_penalty : Option ScoringConfig → SeverityPenalty
unfolding profile_penalty merge_penalties merge_dimension merge_severities set_penalty dimension_key
    severity_key
resolve_severity_penalty none = profile_penalty (codes "default")
resolve_severity_penalty (some scoring) =
    merge_penalties scoring.penalties (profile_penalty (or_default (lower (strip scoring.profile))))
