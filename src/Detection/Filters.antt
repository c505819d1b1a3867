-- ===== src/Detection/Filters.antt =====
-- What a scan of changed lines reports, against a full scan.
use slopsentinel.Base.{
  ℕ, Text, List, [], ◌∷◌, Option, none, some, ◌≡◌, refl, select, select-append, Bool, true, false,
  ◌&&◌, ◌==◌, texts_eq, nat_eq, All, any, contains, Bool-cases, Option-cases, inl, inr, arith,
}
use slopsentinel.Types.{FilePath, Violation, Location}
use slopsentinel.Config.{SlopSentinelConfig}
use slopsentinel.Detection.{
  FileContext, Rule, CacheOps, ChangedLines, lines_of, is_on_changed_line, keep_changed,
  cached_full, detect_files,
}

-- No file stands in the changed lines twice, as in a dictionary.
abbrev pub HasNoFileTwice : ChangedLines → Type 0
HasNoFileTwice [] = Unit
HasNoFileTwice ((p, lines) ∷ changed) =
    All (λ (e : FilePath × List ℕ). (e.0 == p) ≡ false) changed × HasNoFileTwice changed

-- The line stands in one of the files' sets.
abbrev pub in_diff : ChangedLines → FilePath → ℕ → Bool
in_diff changed p n = any (λ (e : FilePath × List ℕ). e.0 == p && contains e.1 n) changed

in_diff-other :
    (changed : ChangedLines) (p q : FilePath) (n : ℕ)
    → (q == p) ≡ true
    → All (λ (e : FilePath × List ℕ). (e.0 == q) ≡ false) changed
    → in_diff changed p n ≡ false
in_diff-other [] p q n same h = refl
in_diff-other ((r, lines) ∷ changed) p q n same (h, hs) =
    ground (arith, in_diff-other changed p q n same hs)

lines_of-in_diff :
    (changed : ChangedLines) (p : FilePath) (n : ℕ)
    → HasNoFileTwice changed
    → contains (lines_of p changed) n ≡ in_diff changed p n
unfolding lines_of
lines_of-in_diff [] p n h = refl
lines_of-in_diff ((q, lines) ∷ changed) p n (h, hs) = elim (Bool-cases (q == p)) [
  | inl same ↦ ground (arith, same, in_diff-other changed p q n same h)
  | inr differ ↦ ground (arith, differ, lines_of-in_diff changed p n hs)
]

select-same :
    (p q : Violation → Bool) (vs : List Violation)
    → ((v : Violation) → p v ≡ q v)
    → select p vs ≡ select q vs
select-same p q [] h = refl
select-same p q (v ∷ vs) h = rw (h v, select-same p q vs h) refl

module _ (resolve : FilePath → FilePath) where
  abbrev at_place : ChangedLines → Option FilePath → Option ℕ → Bool
  at_place changed (some p) (some n) = in_diff changed (resolve p) n
  at_place changed path line = true

  abbrev at_location : ChangedLines → Option Location → Bool
  at_location changed none = true
  at_location changed (some l) = at_place changed l.path l.start_line

  -- It has no path or no line, or its line is in the set of its resolved path.
  abbrev pub has_changed : ChangedLines → Violation → Bool
  has_changed changed v = at_location changed v.location

  place-changed :
      (changed : ChangedLines) (path : Option FilePath) (line : Option ℕ)
      → HasNoFileTwice changed
      → (elim path as (λ o. Bool) [
        | none ↦ true
        | some p ↦ elim line as (λ o. Bool) [
          | none ↦ true
          | some n ↦ contains (lines_of (resolve p) changed) n
        ]
      ])
        ≡ at_place changed path line
  place-changed changed none line h = refl
  place-changed changed (some p) none h = refl
  place-changed changed (some p) (some n) h = lines_of-in_diff changed (resolve p) n h

  kept_changed :
      (changed : ChangedLines) (v : Violation)
      → HasNoFileTwice changed
      → is_on_changed_line resolve changed v ≡ has_changed changed v
  unfolding is_on_changed_line
  kept_changed changed v h = elim (Option-cases v.location) [
    | inl e ↦ rw (is_on_changed_line, e) refl
    | inr (l, e) ↦ rw (is_on_changed_line, e) (place-changed changed l.path l.start_line h)
  ]

module _ (resolve : FilePath → FilePath) (ops : CacheOps) (content_hash : Text → Text)
    (config : SlopSentinelConfig) (rules : List Rule) (changed : ChangedLines) where
  -- With the same cache, a scan of changed lines, where no file stands twice in them, reports of the
  -- files exactly the violations of the full scan that have no path or no line, or whose line is in
  -- the set of their resolved path, in the order of the full scan, and leaves the cache as the full
  -- scan does.
  pub detect_files-changed :
      (ctxs : List FileContext) (cache : Option ops.State)
      → HasNoFileTwice changed
      → let diff = detect_files resolve ops content_hash config rules (some changed) ctxs cache in
        let full = detect_files resolve ops content_hash config rules none ctxs cache in
        (diff.0 ≡ select (has_changed resolve changed) full.0) × (diff.1 ≡ full.1)
  unfolding detect_files keep_changed
  detect_files-changed [] cache h = (refl, refl)
  detect_files-changed (ctx ∷ ctxs) cache h =
      let (vs, cache') = cached_full resolve ops content_hash config rules ctx cache in
      let (p, q) = detect_files-changed ctxs cache' h in
      (rw (p, select-append, select-same _ _ vs (λ v. kept_changed resolve changed v h)) refl, q)
