-- ===== src/Scoring.antt =====
-- src/slopsentinel/engine/scoring.py: from violations to dimension points, the score, the dominant
-- fingerprints and the confidence label. The proofs are in the children.
pub mod Penalty
pub mod Bounds
pub mod Order
pub mod Profiles
pub mod Dominant
pub mod Confidence
pub mod Tests
use Penalty.{SeverityPenalty, ScoringConfig, resolve_severity_penalty}
use slopsentinel.Base.{
  Eq, codes, ℕ, ◌+◌, ◌-◌, ◌*◌, ◌≤◌, min, max, Text, text_eq, texts_eq, nat_eq, text_leb, Bool, true,
  false, ◌&&◌, ◌||◌, Option, none, some, List, [], ◌∷◌, map, length, take, contains, ◌==◌, ltb, leb,
  eqb, if◌then◌else◌, ℤ, pos, pos_part, ◌+ℤ◌, min_ℤ, clamp_ℤ, sort, is_nil, ◌≡◌,
}
use slopsentinel.Types.{
  Severity, Dimension, fingerprint, quality, hallucination, maintainability, security, AiConfidence,
  low, medium, high, FilePath, Violation, DimensionBreakdown, RuleMeta, ScanSummary, dimension_eq,
}

-- Python's `float`, which the program only compares, subtracts, multiplies, divides and rounds.
-- `decimal n k` is the literal n / 10^k. The laws are what IEEE arithmetic guarantees of signs.
pub record Floats : Type 1 where
  pub F : Type 0
  pub decimal : ℕ → ℕ → F
  pub of_nat : ℕ → F
  pub div : F → F → F
  pub sub : F → F → F
  pub mul : F → F → F
  pub gt : F → F → Bool
  pub ge : F → F → Bool
  -- `round(x, 3)`
  pub round3 : F → F
  -- `int(x)`
  pub int : F → ℤ
  pub IsNonneg : F → Type 0
  pub decimal-IsNonneg : (n k : ℕ) → IsNonneg (decimal n k)
  pub sub-IsNonneg : (x y : F) → gt x y ≡ true → IsNonneg (sub x y)
  pub mul-IsNonneg : (x y : F) → IsNonneg x → IsNonneg y → IsNonneg (mul x y)
  pub int_nonneg : (x : F) → IsNonneg x → int x ≡ pos (pos_part (int x))

-- DIMENSION_MAX
abbrev pub dimension_max : Dimension → ℕ
dimension_max fingerprint = 35
dimension_max quality = 25
dimension_max hallucination = 20
dimension_max maintainability = 15
dimension_max security = 5

-- getattr(breakdown, dim)
abbrev pub points : DimensionBreakdown → Dimension → ℕ
points b fingerprint = b.fingerprint
points b quality = b.quality
points b hallucination = b.hallucination
points b maintainability = b.maintainability
points b security = b.security

-- The sum over DIMENSION_ORDER.
abbrev pub total_points : DimensionBreakdown → ℕ
total_points b = b.fingerprint + b.quality + b.hallucination + b.maintainability + b.security

-- The loop of `compute_breakdown` over the violations.
unfoldable pub add_penalties : SeverityPenalty → List Violation → (Dimension → ℕ) → Dimension → ℕ
add_penalties table [] penalties = penalties
add_penalties table (v ∷ vs) penalties =
    add_penalties table vs
      λ d. if d == v.dimension then penalties d + table v.dimension v.severity else penalties d

-- `score_for`
unfoldable pub score_for : (Dimension → ℕ) → Dimension → ℕ
score_for penalties d = dimension_max d - min (dimension_max d) (penalties d)

module _ (fl : Floats) where
  open fl use {F, decimal, of_nat, div, sub, mul, gt, ge, round3, int}

  unfoldable pub structure_penalty : F → F → ℕ → ℕ
  unfolding ◌+ℤ◌
  structure_penalty density clustering total =
      if leb total 0
      then 0
      else (let dense =
            if gt density (decimal 20 1)
            then min_ℤ 6 (int (sub density (decimal 20 1)))
            else pos 0 in
          let clustered =
            if leb 10 total && gt clustering (decimal 6 1)
            then min_ℤ 4 (int (mul (sub clustering (decimal 6 1)) (decimal 100 1)))
            else pos 0 in
          clamp_ℤ 10 (dense +ℤ clustered))

  unfoldable pub compute_breakdown : SeverityPenalty → List Violation → F → F → DimensionBreakdown
  unfolding add_penalties score_for structure_penalty
  compute_breakdown table violations density clustering =
      let penalties = add_penalties table violations (λ d. 0) in
      let breakdown : DimensionBreakdown = record {
        fingerprint = score_for penalties fingerprint;
        quality = score_for penalties quality;
        hallucination = score_for penalties hallucination;
        maintainability = score_for penalties maintainability;
        security = score_for penalties security;
      } in
      let penalty = structure_penalty density clustering (length violations) in
      if leb penalty 0
      then breakdown
      else record breakdown { quality = breakdown.quality - penalty }

-- `by_file[key] = by_file.get(key, 0) + 1`
unfoldable pub bump {ℓ} : {K : Type ℓ} ⦃e : Eq K⦄ → K → List (K × ℕ) → List (K × ℕ)
bump k [] = (k, 1) ∷ []
bump k ((j, n) ∷ counts) = if j == k then (j, n + 1) ∷ counts else (j, n) ∷ bump k counts

-- The loops below leave their counts alone at a violation that has no key.
unfoldable pub bump_some {ℓ} : {K : Type ℓ} ⦃e : Eq K⦄ → Option K → List (K × ℕ) → List (K × ℕ)
unfolding bump
bump_some none counts = counts
bump_some (some k) counts = bump k counts

abbrev pub count_some {ℓ} : {K : Type ℓ} → Option K → ℕ → ℕ
count_some none n = n
count_some (some k) n = n + 1

-- `models.add(model)`
abbrev pub add_some : Option Text → List Text → List Text
add_some none models = models
add_some (some m) models = if contains models m then models else m ∷ models

-- `m.fingerprint_model if m else None`, with the empty text as no model
unfoldable pub model_of : (Text → Option RuleMeta) → Violation → Option Text
model_of meta v = elim (meta v.rule_id) [
  | none ↦ none
  | some m ↦ elim (m.fingerprint_model) [
    | none ↦ none
    | some model ↦ if is_nil model then none else some model
  ]
]

-- The key (-count, name) of the sort.
unfoldable pub ranks_before : Text × ℕ → Text × ℕ → Bool
unfolding text_leb
ranks_before (a, m) (b, n) = if ltb n m then true else if eqb n m then text_leb a b else false

module _ (meta : Text → Option RuleMeta) where
  -- The counting loop of `compute_dominant_fingerprints`.
  unfoldable pub count_models : List Violation → List (Text × ℕ) → List (Text × ℕ)
  count_models [] counts = counts
  count_models (v ∷ vs) counts = count_models vs (bump_some (model_of meta v) counts)

  unfoldable pub compute_dominant_fingerprints : List Violation → List Text
  unfolding count_models bump_some model_of ranks_before sort
  compute_dominant_fingerprints violations =
      map (λ (kv : Text × ℕ). kv.0) (take 2 (sort ranks_before (count_models violations [])))

  -- The loop of `compute_ai_confidence`: the hits, and the set of models.
  unfoldable pub collect_hits : List Violation → ℕ → List Text → ℕ × List Text
  collect_hits [] hits models = (hits, models)
  collect_hits (v ∷ vs) hits models =
      let model = model_of meta v in collect_hits vs (count_some model hits) (add_some model models)

  module _ (fl : Floats) where
    open fl use {F, decimal, of_nat, div, ge, round3}

    unfoldable pub confidence_for : ℕ → ℕ → F → F → AiConfidence
    confidence_for hits models density clustering =
        if leb 8 hits || (leb 4 hits && leb 2 models)
        then high
        else if leb 3 hits
        then medium
        else if leb 2 hits
            && leb 2 models
            && (ge density (decimal 20 1) || ge clustering (decimal 6 1))
        then medium
        else low

    unfoldable pub compute_ai_confidence : List Violation → F → F → AiConfidence
    unfolding collect_hits model_of confidence_for
    compute_ai_confidence violations density clustering =
        let (hits, models) = collect_hits violations 0 [] in
        confidence_for hits (length models) density clustering

-- The path of a file-level violation.
abbrev pub location_path : Violation → Option FilePath
location_path v = elim (v.location) [ none ↦ none | some l ↦ l.path ]

-- The loop over the violations that have a path; keys are paths.
unfoldable pub count_files : List Violation → List (FilePath × ℕ) → ℕ → List (FilePath × ℕ) × ℕ
unfolding bump_some
count_files [] by_file total = (by_file, total)
count_files (v ∷ vs) by_file total =
    count_files vs (bump_some (location_path v) by_file) (count_some (location_path v) total)

-- `max(by_file.values(), default=0)`
unfoldable pub max_count : List (FilePath × ℕ) → ℕ
max_count [] = 0
max_count ((p, n) ∷ rest) = max n (max_count rest)

module _ (fl : Floats) where
  open fl use {F, decimal, of_nat, div, round3}

  unfoldable pub compute_density_and_clustering : ℕ → List Violation → F × F
  unfolding count_files max_count
  compute_density_and_clustering files_scanned violations =
      let (by_file, file_total) = count_files violations [] 0 in
      (
        round3 (div (of_nat (length violations)) (of_nat (max 1 files_scanned))),
        round3 (
            if leb file_total 0
            then decimal 0 1
            else div (of_nat (max_count by_file)) (of_nat file_total)),
      )

  unfoldable pub summarize :
      (Text → Option RuleMeta) → ℕ → List Violation → Option ScoringConfig → ScanSummary F
  unfolding resolve_severity_penalty compute_density_and_clustering compute_breakdown
      compute_dominant_fingerprints compute_ai_confidence
  summarize meta files_scanned violations scoring =
      let (density, clustering) = compute_density_and_clustering files_scanned violations in
      let breakdown =
        compute_breakdown fl (resolve_severity_penalty scoring) violations density clustering in
      record {
        files_scanned = files_scanned;
        violations = violations;
        score = total_points breakdown;
        breakdown = breakdown;
        dominant_fingerprints = compute_dominant_fingerprints meta violations;
        ai_confidence = compute_ai_confidence meta fl violations density clustering;
        violation_density = density;
        violation_clustering = clustering;
        scoring_profile = elim scoring [ none ↦ codes "default" | some s ↦ s.profile ];
      }
