-- ===== src/Scoring/Order.antt =====
-- Points as sums of penalties: what the order and the number of violations change.
use mathlib.Core.List.{Perm, Permᴰ}
use mathlib.Core.Logic.{∥∥₁_elim}
use native.Mathlib.Nat.{ℕ_set}
use mathlib.Core.Path.{fun_ext}
use slopsentinel.Base.{
  ℕ, suc, ◌+◌, ◌-◌, ◌≤◌, ◌≡◌, refl, ap, List, [], ◌∷◌, ◌++◌, length, arith, if◌then◌else◌, ◌==◌,
  length-append, ◌∙◌, sym, true, pos, pos_part,
}
use slopsentinel.Types.{
  Dimension, fingerprint, quality, hallucination, maintainability, security, Violation,
  DimensionBreakdown, dimension_eq,
}
use slopsentinel.Scoring.{
  Floats, points, add_penalties, score_for, structure_penalty, compute_breakdown,
}
use slopsentinel.Scoring.Penalty.{SeverityPenalty}

-- The penalty of a dimension: the sum over its violations.
unfoldable pub penalty_sum : SeverityPenalty → Dimension → List Violation → ℕ
penalty_sum table d [] = 0
penalty_sum table d (v ∷ vs) =
    (if d == v.dimension then table v.dimension v.severity else 0) + penalty_sum table d vs

pub add_penalties-eq-sum :
    (table : SeverityPenalty) (vs : List Violation) (p : Dimension → ℕ) (d : Dimension)
    → add_penalties table vs p d ≡ p d + penalty_sum table d vs
unfolding add_penalties penalty_sum
add_penalties-eq-sum table [] p d = omega arith
add_penalties-eq-sum table (v ∷ vs) p d = ground (
  arith,
  add_penalties-eq-sum table vs
      (λ d. if d == v.dimension then p d + table v.dimension v.severity else p d) d,
)

penalty_sum-append :
    (table : SeverityPenalty) (d : Dimension) (vs ws : List Violation)
    → penalty_sum table d (vs ++ ws) ≡ penalty_sum table d vs + penalty_sum table d ws
unfolding penalty_sum
penalty_sum-append table d [] ws = omega arith
penalty_sum-append table d (v ∷ vs) ws = omega (arith, penalty_sum-append table d vs ws)

penalty_sum-perm :
    (table : SeverityPenalty) (d : Dimension) {vs ws : List Violation}
    → Permᴰ vs ws
    → penalty_sum table d vs ≡ penalty_sum table d ws
unfolding penalty_sum
penalty_sum-perm table d Permᴰ.nil = refl
penalty_sum-perm table d (Permᴰ.cons e p) = λ i.
    (if d == (e i).dimension then table (e i).dimension (e i).severity else 0)
    + penalty_sum-perm table d p i
penalty_sum-perm table d (Permᴰ.swap {a} {b} {l = l} e f) = rw (← e, ← f) (omega arith)
penalty_sum-perm table d (Permᴰ.trans p q) = penalty_sum-perm table d p ∙ penalty_sum-perm table d q

length-perm : {vs ws : List Violation} → Permᴰ vs ws → length vs ≡ length ws
length-perm Permᴰ.nil = refl
length-perm (Permᴰ.cons e p) = ap suc (length-perm p)
length-perm (Permᴰ.swap e f) = refl
length-perm (Permᴰ.trans p q) = length-perm p ∙ length-perm q

breakdown_set : IsSet DimensionBreakdown
breakdown_set = hlevel ℕ_set

module _ (fl : Floats) (x y : fl.F) where
  pub breakdown_of : (Dimension → ℕ) → ℕ → DimensionBreakdown
  breakdown_of sums total =
      let penalty = structure_penalty fl x y total in
      record {
        fingerprint = score_for sums fingerprint;
        quality = score_for sums quality - penalty;
        hallucination = score_for sums hallucination;
        maintainability = score_for sums maintainability;
        security = score_for sums security;
      }

  clustered_nonneg :
      fl.gt y (fl.decimal 6 1) ≡ true
      → let z = fl.int (fl.mul (fl.sub y (fl.decimal 6 1)) (fl.decimal 100 1)) in
        z ≡ pos (pos_part z)
  clustered_nonneg h =
      fl.int_nonneg _ (fl.mul-IsNonneg _ _ (fl.sub-IsNonneg _ _ h) (fl.decimal-IsNonneg 100 1))

  structure_penalty_mono :
      (n m : ℕ) → n ≤ m → structure_penalty fl x y n ≤ structure_penalty fl x y m
  unfolding structure_penalty
  structure_penalty_mono n m h = ground (arith, clustered_nonneg)

  pub sums-points_le :
      (s t : Dimension → ℕ) (n m : ℕ) (d : Dimension)
      → ((d : Dimension) → t d ≤ s d)
      → m ≤ n
      → points (breakdown_of s n) d ≤ points (breakdown_of t m) d
  unfolding score_for breakdown_of
  sums-points_le s t n m quality h k = omega (arith, h quality, structure_penalty_mono m n k)
  sums-points_le s t n m fingerprint h k = omega (arith, h fingerprint)
  sums-points_le s t n m hallucination h k = omega (arith, h hallucination)
  sums-points_le s t n m maintainability h k = omega (arith, h maintainability)
  sums-points_le s t n m security h k = omega (arith, h security)

module _ (fl : Floats) (table : SeverityPenalty) (x y : fl.F) where
  pub breakdown-eq-sums :
      (vs : List Violation)
      → compute_breakdown fl table vs x y
        ≡ breakdown_of fl x y (λ d. penalty_sum table d vs) (length vs)
  unfolding compute_breakdown breakdown_of
  breakdown-eq-sums vs = rw (fun_ext (add_penalties-eq-sum table vs (λ d. 0))) (ground arith)

  -- At the same densities, violations in another order get the same points in every dimension.
  pub breakdown-perm :
      (vs ws : List Violation)
      → Perm vs ws
      → compute_breakdown fl table vs x y ≡ compute_breakdown fl table ws x y
  breakdown-perm vs ws p = ∥∥₁_elim p (breakdown_set _ _) λ q.
      breakdown-eq-sums vs
      ∙ (λ i. breakdown_of fl x y (λ d. penalty_sum-perm table d q i) (length-perm q i))
      ∙ sym (breakdown-eq-sums ws)

  -- At the same densities, further violations raise the points of no dimension.
  pub points-append_le :
      (vs ws : List Violation) (d : Dimension)
      → points (compute_breakdown fl table (vs ++ ws) x y) d
        ≤ points (compute_breakdown fl table vs x y) d
  unfolding score_for breakdown_of
  points-append_le vs ws d =
      rw (breakdown-eq-sums vs, breakdown-eq-sums (vs ++ ws))
        (sums-points_le fl x y (λ d. penalty_sum table d (vs ++ ws)) (λ d. penalty_sum table d vs) _
          _ d (λ d. omega (arith, penalty_sum-append table d vs ws))
          (omega (arith, length-append {0} vs ws)))
