-- ===== src/Scoring/Profiles.antt =====
-- The severity profiles against each other, and `resolve_severity_penalty` against the list of its
-- overrides.
use slopsentinel.Base.{
  ℕ, ◌≤◌, ◌≡◌, refl, sym, ap, ◌∙◌, Text, List, [], ◌∷◌, ◌++◌, Option, none, some, arith,
  if◌then◌else◌, ◌==◌, lower, strip, ◌&&◌, codes, option_eq, text_eq,
}
use slopsentinel.Types.{
  Severity, info, warn, error, Dimension, fingerprint, quality, hallucination, maintainability,
  security, Violation, severity_eq, dimension_eq,
}
use slopsentinel.Scoring.Penalty.{
  SeverityPenalty, ScoringConfig, default_penalty, strict_penalty, lenient_penalty, profile_penalty,
  or_default, set_penalty, merge_severities, merge_dimension, merge_penalties, dimension_key,
  severity_key, resolve_severity_penalty,
}
use slopsentinel.Scoring.{Floats, points, total_points, compute_breakdown}
use slopsentinel.Scoring.Order.{penalty_sum, breakdown-eq-sums, sums-points_le}
use native.Mathlib.Nat.{le_refl}
use slopsentinel.Base.{length}

penalty_sum_mono :
    (s t : SeverityPenalty) (d : Dimension) (vs : List Violation)
    → ((d : Dimension) (v : Severity) → t d v ≤ s d v)
    → penalty_sum t d vs ≤ penalty_sum s d vs
unfolding penalty_sum
penalty_sum_mono s t d [] h = omega arith
penalty_sum_mono s t d (v ∷ vs) h =
    ground (arith, penalty_sum_mono s t d vs h, h v.dimension v.severity)

module _ (fl : Floats) where
  points-mono_table :
      (s t : SeverityPenalty) (vs : List Violation) (x y : fl.F)
      → ((d : Dimension) (v : Severity) → t d v ≤ s d v)
      → (d : Dimension)
      → points (compute_breakdown fl s vs x y) d ≤ points (compute_breakdown fl t vs x y) d
  points-mono_table s t vs x y h d =
      rw (breakdown-eq-sums fl s x y vs, breakdown-eq-sums fl t x y vs)
        (sums-points_le fl x y (λ d. penalty_sum s d vs) (λ d. penalty_sum t d vs) _ _ d
          (λ d. penalty_sum_mono s t d vs h) (le_refl (length vs)))

  total-mono_table :
      (s t : SeverityPenalty) (vs : List Violation) (x y : fl.F)
      → ((d : Dimension) (v : Severity) → t d v ≤ s d v)
      → total_points (compute_breakdown fl s vs x y) ≤ total_points (compute_breakdown fl t vs x y)
  total-mono_table s t vs x y h =
      let p = points-mono_table s t vs x y h in
      omega (arith, p fingerprint, p quality, p hallucination, p maintainability, p security)

default_below_strict : (d : Dimension) (v : Severity) → default_penalty d v ≤ strict_penalty d v
default_below_strict d v = ground arith

lenient_below_default : (d : Dimension) (v : Severity) → lenient_penalty d v ≤ default_penalty d v
lenient_below_default d v = ground arith

strict_lem : profile_penalty (codes "strict") ≡ strict_penalty
unfolding profile_penalty text_eq
strict_lem = refl

default_lem : profile_penalty (codes "default") ≡ default_penalty
unfolding profile_penalty text_eq
default_lem = refl

lenient_lem : profile_penalty (codes "lenient") ≡ lenient_penalty
unfolding profile_penalty text_eq
lenient_lem = refl

-- At the same densities, the same violations score no more under the strict profile than under
-- the default one, and no more under the default one than under the lenient one.
pub profiles_ordered :
    (fl : Floats) (vs : List Violation) (x y : fl.F)
    → let score =
        λ (name : Text). total_points (compute_breakdown fl (profile_penalty name) vs x y) in
      (score (codes "strict") ≤ score (codes "default"))
      × (score (codes "default") ≤ score (codes "lenient"))
profiles_ordered fl vs x y =
    rw (strict_lem, default_lem, lenient_lem)
      (
        total-mono_table fl strict_penalty default_penalty vs x y default_below_strict,
        total-mono_table fl default_penalty lenient_penalty vs x y lenient_below_default,
      )

-- The overrides as one list, each with the dimension and the severity that its keys name.
abbrev Override : Type 0
Override = Option Dimension × Option Severity × ℕ

of_dimension : Option Dimension → List (Text × ℕ) → List Override
of_dimension d [] = []
of_dimension d ((sev, value) ∷ rest) =
    (d, severity_key (lower (strip sev)), value) ∷ of_dimension d rest

pub overrides_of : List (Text × List (Text × ℕ)) → List Override
unfolding of_dimension
overrides_of [] = []
overrides_of ((dim, table) ∷ rest) =
    of_dimension (dimension_key (lower (strip dim))) table ++ overrides_of rest

-- The last override of a dimension and a severity, or the value `base` if there is none.
pub last_override : Dimension → Severity → List Override → ℕ → ℕ
last_override d s [] base = base
last_override d s ((e, t, value) ∷ rest) base =
    last_override d s rest (if e == some d && t == some s then value else base)

last_override-append :
    (d : Dimension) (s : Severity) (os ps : List Override) (base : ℕ)
    → last_override d s (os ++ ps) base ≡ last_override d s ps (last_override d s os base)
unfolding last_override
last_override-append d s [] ps base = refl
last_override-append d s ((e, t, value) ∷ os) ps base = last_override-append d s os ps _

of_no_dimension :
    (d : Dimension) (s : Severity) (os : List (Text × ℕ)) (base : ℕ)
    → last_override d s (of_dimension none os) base ≡ base
unfolding last_override of_dimension
of_no_dimension d s [] base = refl
of_no_dimension d s ((sev, value) ∷ os) base = ground (arith, of_no_dimension d s os base)

merge_severities-eq :
    (e d : Dimension) (s : Severity) (os : List (Text × ℕ)) (table : SeverityPenalty)
    → merge_severities e os table d s ≡ last_override d s (of_dimension (some e) os) (table d s)
unfolding merge_severities last_override of_dimension set_penalty
merge_severities-eq e d s [] table = refl
merge_severities-eq e d s ((sev, value) ∷ os) table = ground (
  arith,
  merge_severities-eq e d s os table,
  merge_severities-eq e d s os (set_penalty table e info value),
  merge_severities-eq e d s os (set_penalty table e warn value),
  merge_severities-eq e d s os (set_penalty table e error value),
)

merge_dimension-eq :
    (k : Option Dimension) (d : Dimension) (s : Severity) (os : List (Text × ℕ))
    (table : SeverityPenalty)
    → merge_dimension k os table d s ≡ last_override d s (of_dimension k os) (table d s)
unfolding merge_dimension
merge_dimension-eq none d s os table = sym (of_no_dimension d s os _)
merge_dimension-eq (some e) d s os table = merge_severities-eq e d s os table

merge_penalties-eq :
    (d : Dimension) (s : Severity) (ps : List (Text × List (Text × ℕ))) (table : SeverityPenalty)
    → merge_penalties ps table d s ≡ last_override d s (overrides_of ps) (table d s)
unfolding merge_penalties overrides_of last_override
merge_penalties-eq d s [] table = refl
merge_penalties-eq d s ((dim, os) ∷ ps) table =
    let k = dimension_key (lower (strip dim)) in
    rw last_override-append (
      merge_penalties-eq d s ps _
      ∙ ap (last_override d s (overrides_of ps)) (merge_dimension-eq k d s os table))

-- The penalty of a dimension and a severity is the one that the configuration's penalties set
-- last for the pair, read without regard to case and blanks, or else that of the profile.
pub resolve-eq-last_override :
    (sc : ScoringConfig) (d : Dimension) (s : Severity)
    → resolve_severity_penalty (some sc) d s
      ≡ last_override d s
          (overrides_of sc.penalties)
          (profile_penalty (or_default (lower (strip sc.profile))) d s)
unfolding resolve_severity_penalty
resolve-eq-last_override sc d s = merge_penalties-eq d s sc.penalties _
