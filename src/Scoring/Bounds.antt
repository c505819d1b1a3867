-- ===== src/Scoring/Bounds.antt =====
-- The ranges of src/slopsentinel/engine/scoring.py: points, score and structure penalty.
use slopsentinel.Base.{ℕ, ◌+◌, ◌-◌, ◌≤◌, ◌≢◌, ◌≡◌, Text, List, Option, length, arith, refl}
use slopsentinel.Types.{
  Dimension, fingerprint, quality, hallucination, maintainability, security, Violation,
  DimensionBreakdown, RuleMeta,
}
use slopsentinel.Scoring.{
  Floats, dimension_max, points, total_points, score_for, structure_penalty, compute_breakdown,
  summarize, add_penalties, compute_density_and_clustering,
}
use slopsentinel.Scoring.Order.{penalty_sum, add_penalties-eq-sum}
use slopsentinel.Scoring.Penalty.{SeverityPenalty, ScoringConfig, resolve_severity_penalty}

-- What the penalties of the violations leave of a dimension's maximum.
abbrev pub unspent : Option ScoringConfig → List Violation → Dimension → ℕ
unspent sc vs d = dimension_max d - penalty_sum (resolve_severity_penalty sc) d vs

score-unspent :
    (sc : Option ScoringConfig) (vs : List Violation) (d : Dimension)
    → score_for (add_penalties (resolve_severity_penalty sc) vs (λ d. 0)) d ≡ unspent sc vs d
unfolding score_for
score-unspent sc vs d =
    rw (score_for, add_penalties-eq-sum (resolve_severity_penalty sc) vs (λ d. 0) d) (omega arith)

module _ (fl : Floats) where
  structure_penalty-le : (x y : fl.F) (n : ℕ) → structure_penalty fl x y n ≤ 10
  unfolding structure_penalty
  structure_penalty-le x y n = ground arith

  points-le :
      (table : SeverityPenalty) (vs : List Violation) (x y : fl.F) (d : Dimension)
      → points (compute_breakdown fl table vs x y) d ≤ dimension_max d
  unfolding compute_breakdown
  points-le table vs x y fingerprint = ground arith
  points-le table vs x y _ = ground arith

  pub breakdown_bounds :
      (table : SeverityPenalty) (vs : List Violation) (x y : fl.F)
      → ((d : Dimension) → points (compute_breakdown fl table vs x y) d ≤ dimension_max d)
        × (score_for (add_penalties table vs (λ d. 0)) quality
            ≤ (compute_breakdown fl table vs x y).quality + 10)
  unfolding compute_breakdown
  breakdown_bounds table vs x y =
      (points-le table vs x y, ground (arith, structure_penalty-le x y (length vs)))

  points-unspent :
      (sc : Option ScoringConfig) (vs : List Violation) (x y : fl.F) (d : Dimension)
      → d ≢ quality
      → points (compute_breakdown fl (resolve_severity_penalty sc) vs x y) d ≡ unspent sc vs d
  unfolding compute_breakdown score_for
  points-unspent sc vs x y quality h = absurd (h refl)
  points-unspent sc vs x y fingerprint h = ground (arith, score-unspent sc vs fingerprint)
  points-unspent sc vs x y hallucination h = ground (arith, score-unspent sc vs hallucination)
  points-unspent sc vs x y maintainability h = ground (arith, score-unspent sc vs maintainability)
  points-unspent sc vs x y security h = ground (arith, score-unspent sc vs security)

  quality-unspent :
      (sc : Option ScoringConfig) (vs : List Violation) (x y : fl.F)
      → let table = resolve_severity_penalty sc in
        ((compute_breakdown fl table vs x y).quality ≤ unspent sc vs quality)
        × (unspent sc vs quality ≤ (compute_breakdown fl table vs x y).quality + 10)
  unfolding compute_breakdown
  quality-unspent sc vs x y =
      let bound = structure_penalty-le x y (length vs) in
      rw (← score-unspent sc vs quality) (ground (arith, bound), ground (arith, bound))

  total_points-le :
      (b : DimensionBreakdown)
      → ((d : Dimension) → points b d ≤ dimension_max d)
      → total_points b ≤ 100
  total_points-le b h =
      omega (arith, h fingerprint, h quality, h hallucination, h maintainability, h security)

  -- The score of a scan is the sum of its five dimensions and at most 100. A dimension other than
  -- quality has the points of the table of maxima less the sum of the penalties of its violations,
  -- down to 0; quality has at most 10 points less than that.
  pub summarize-score_bounds :
      (meta : Text → Option RuleMeta) (files : ℕ) (vs : List Violation) (sc : Option ScoringConfig)
      → let s = summarize fl meta files vs sc in
        (s.score ≤ 100)
        × (s.score ≡ total_points s.breakdown)
        × ((d : Dimension) → d ≢ quality → points s.breakdown d ≡ unspent sc vs d)
        × (s.breakdown.quality ≤ unspent sc vs quality)
        × (unspent sc vs quality ≤ s.breakdown.quality + 10)
  unfolding summarize
  summarize-score_bounds meta files vs sc =
      let (x, y) = compute_density_and_clustering fl files vs in
      let table = resolve_severity_penalty sc in
      let h = points-le table vs x y in
      (
        total_points-le (compute_breakdown fl table vs x y) h,
        refl,
        points-unspent sc vs x y,
        (quality-unspent sc vs x y).0,
        (quality-unspent sc vs x y).1,
      )
