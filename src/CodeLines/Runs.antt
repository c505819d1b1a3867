-- ===== src/CodeLines/Runs.antt =====
-- The runs of a list of numbers are the list, cut where it does not count on.
use slopsentinel.Base.{
  ℕ, zero, suc, ◌+◌, ◌<◌, List, [], ◌∷◌, ◌++◌, ◌==◌, nat_eq, ◌≡◌, ◌≢◌, refl, ap, ◌∙◌, append_assoc,
  arith, Bool-cases, inl, inr,
}
use slopsentinel.CodeLines.{runs_from, consecutive_runs}

-- `range(start, start + length)`
abbrev pub range : ℕ → ℕ → List ℕ
range start zero = []
range start (suc length) = start ∷ range (suc start) length

abbrev pub expand : List (ℕ × ℕ) → List ℕ
expand [] = []
expand ((start, length) ∷ runs) = range start length ++ expand runs

range-suc : (start n : ℕ) → range start (suc n) ≡ range start n ++ (start + n) ∷ []
range-suc start zero = ap (λ k. k ∷ []) (omega arith)
range-suc start (suc n) =
    ap (λ l. start ∷ l)
      (range-suc (suc start) n ∙ ap (λ k. range (suc start) n ++ k ∷ []) (omega arith))

cut : (start n : ℕ) → range start (n + 1) ≡ range start n ++ (start + n) ∷ []
cut start n = let e : n + 1 ≡ suc n = omega arith in ap (range start) e ∙ range-suc start n

expand-runs_from :
    (start prev n : ℕ) (values : List ℕ)
    → start + n ≡ prev + 1
    → expand (runs_from start prev n values) ≡ range start n ++ values
unfolding runs_from
expand-runs_from start prev n [] h = refl
expand-runs_from start prev n (v ∷ values) h = elim (Bool-cases (v == prev + 1)) [
  | inl same ↦
      let next : v ≡ prev + 1 = ground arith in
      let here : start + n ≡ v = omega arith in
      rw (same, expand-runs_from start v (n + 1) values (omega arith), ← here)
        (ap (λ l. l ++ values) (cut start n) ∙ append_assoc (range start n) _ values)
  | inr other ↦ rw (other, expand-runs_from v v 1 values refl) refl
]

-- No run is empty, and no run starts where the one before it ends.
abbrev pub AreMaximal : List (ℕ × ℕ) → Type 0
AreMaximal [] = Unit
AreMaximal ((start, length) ∷ []) = 0 < length
AreMaximal ((start, length) ∷ (next, m) ∷ runs) =
    (0 < length) × (next ≢ start + length) × AreMaximal ((next, m) ∷ runs)

-- The first run begins at `start`, and every run is maximal.
abbrev pub BeginsAt : ℕ → List (ℕ × ℕ) → Type 0
BeginsAt start [] = ⊥
BeginsAt start ((s, length) ∷ runs) = s ≡ start

runs_from-BeginsAt :
    (start prev n : ℕ) (values : List ℕ) → BeginsAt start (runs_from start prev n values)
unfolding runs_from
runs_from-BeginsAt start prev n [] = refl
runs_from-BeginsAt start prev n (v ∷ values) =
    ground (arith, runs_from-BeginsAt start v (n + 1) values)

cons-AreMaximal :
    (start n v : ℕ) (runs : List (ℕ × ℕ))
    → 0 < n
    → v ≢ start + n
    → BeginsAt v runs
    → AreMaximal runs
    → AreMaximal ((start, n) ∷ runs)
cons-AreMaximal start n v [] p q b h = p
cons-AreMaximal start n v ((s, m) ∷ runs) p q b h = (p, rw b q, h)

runs_from-AreMaximal :
    (start prev n : ℕ) (values : List ℕ)
    → start + n ≡ prev + 1
    → 0 < n
    → AreMaximal (runs_from start prev n values)
unfolding runs_from
runs_from-AreMaximal start prev n [] h p = p
runs_from-AreMaximal start prev n (v ∷ values) h p = elim (Bool-cases (v == prev + 1)) [
  | inl same ↦
      let next : v ≡ prev + 1 = ground arith in
      rw same (runs_from-AreMaximal start v (n + 1) values (omega arith) (omega arith))
  | inr other ↦
      let apart : v ≢ prev + 1 = ground arith in
      rw other (
        cons-AreMaximal start n v _ p (λ q. apart (q ∙ h)) (runs_from-BeginsAt v v 1 values)
          (runs_from-AreMaximal v v 1 values refl (omega arith)))
]

-- The runs of any list, written out one number after the other, give the list back; no run is
-- empty, and none starts where the one before it ends.
pub expand-consecutive_runs :
    (values : List ℕ)
    → (expand (consecutive_runs values) ≡ values) × AreMaximal (consecutive_runs values)
unfolding consecutive_runs
expand-consecutive_runs [] = (refl, tt)
expand-consecutive_runs (v ∷ values) =
    (expand-runs_from v v 1 values refl, runs_from-AreMaximal v v 1 values refl (omega arith))
