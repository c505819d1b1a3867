-- ===== src/Scoring/Dominant.antt =====
-- The dominant fingerprints, against the number of violations of each model.
use slopsentinel.Base.{
  ℕ, ◌+◌, ◌≤◌, ◌<◌, ◌≡◌, refl, ◌∙◌, Text, text_eq, option_eq, text_leb_total, text_leb_trans, List,
  [], ◌∷◌, Option, none, some, Bool, true, false, length, take, arith, if◌then◌else◌, contains,
  ◌==◌, ◌||◌, ◌⊎◌, inl, inr, All, any, IsSorted, sort, sort-IsSorted, All-sort, any-sort, map,
  Bool-cases, subst,
}
use mathlib.Core.Path.{fun_ext}
use slopsentinel.Types.{Violation, RuleMeta}
use slopsentinel.Scoring.{
  bump, bump_some, model_of, count_models, ranks_before, compute_dominant_fingerprints,
}

-- The tests on a key in the counts.
abbrev has_key : Text → Text × ℕ → Bool
has_key m kv = kv.0 == m

abbrev NodupKeys : List (Text × ℕ) → Type 0
NodupKeys [] = Unit
NodupKeys ((k, n) ∷ rest) = (any (has_key k) rest ≡ false) × NodupKeys rest

-- Every entry holds the number that `f` gives its key.
abbrev Counts : (Text → ℕ) → List (Text × ℕ) → Type 0
Counts f = All (λ (kv : Text × ℕ). kv.1 ≡ f kv.0)

abbrev plus_one : Text → (Text → ℕ) → Text → ℕ
plus_one k f m = f m + (if k == m then 1 else 0)

any-bump :
    (m k : Text) (counts : List (Text × ℕ))
    → any (has_key m) (bump k counts) ≡ (k == m || any (has_key m) counts)
unfolding bump
any-bump m k [] = ground arith
any-bump m k ((j, n) ∷ rest) = ground (arith, any-bump m k rest)

bump-NodupKeys :
    (k : Text) (counts : List (Text × ℕ)) → NodupKeys counts → NodupKeys (bump k counts)
unfolding bump
bump-NodupKeys k [] h = (refl, tt)
bump-NodupKeys k ((j, n) ∷ rest) (fresh, u) =
    ground (arith, bump-NodupKeys k rest u, any-bump j k rest)

Counts-other :
    (k : Text) (f : Text → ℕ) (counts : List (Text × ℕ))
    → any (has_key k) counts ≡ false
    → Counts f counts
    → Counts (plus_one k f) counts
Counts-other k f [] h c = tt
Counts-other k f ((j, n) ∷ rest) h (e, c) = (ground arith, Counts-other k f rest (ground arith) c)

bump-Counts :
    (k : Text) (f : Text → ℕ) (counts : List (Text × ℕ))
    → NodupKeys counts
    → Counts f counts
    → (any (has_key k) counts ≡ false → f k ≡ 0)
    → Counts (plus_one k f) (bump k counts)
unfolding bump
bump-Counts k f [] u c absent = (ground (arith, absent refl), tt)
bump-Counts k f ((j, n) ∷ rest) (fresh, u) (e, c) absent = elim (Bool-cases (j == k)) [
  | inl same ↦ ground (arith, Counts-other k f rest)
  | inr differ ↦ ground (arith, bump-Counts k f rest u c)
]

record Tally (f : Text → ℕ) (counts : List (Text × ℕ)) : Type 0 where
  nodup : NodupKeys counts
  exact : Counts f counts
  absent : (m : Text) → any (has_key m) counts ≡ false → f m ≡ 0

bump-Tally :
    (k : Text) (f : Text → ℕ) (counts : List (Text × ℕ))
    → Tally f counts
    → Tally (plus_one k f) (bump k counts)
bump-Tally k f counts t = record {
  nodup = bump-NodupKeys k counts t.nodup;
  exact = bump-Counts k f counts t.nodup t.exact (t.absent k);
  absent = λ m h. ground (arith, any-bump m k counts, t.absent m);
}

Tally-congr :
    (f g : Text → ℕ) (counts : List (Text × ℕ))
    → ((m : Text) → f m ≡ g m)
    → Tally f counts
    → Tally g counts
Tally-congr f g counts h t = subst (λ k. Tally k counts) (fun_ext h) t

bump_some-Tally :
    (o : Option Text) (f : Text → ℕ) (counts : List (Text × ℕ))
    → Tally f counts
    → Tally (λ m. f m + (if o == some m then 1 else 0)) (bump_some o counts)
unfolding bump_some
bump_some-Tally none f counts t = Tally-congr f _ counts (λ m. ground arith) t
bump_some-Tally (some k) f counts t =
    Tally-congr (plus_one k f) _ (bump k counts) (λ m. ground arith) (bump-Tally k f counts t)

IsSorted-take :
    (f : Text → ℕ) (m : Text) (kv : Text × ℕ) (rest : List (Text × ℕ))
    → All (λ e. ranks_before kv e ≡ true) rest
    → Counts f (kv ∷ rest)
    → any (has_key m) rest ≡ true
    → f m ≤ f kv.0
unfolding ranks_before
IsSorted-take f m kv [] h c found = cc
IsSorted-take f m kv (e ∷ rest) h c found =
    ground (arith, IsSorted-take f m kv rest h.1 (c.0, c.1.1))

ranks_before_total : (a b : Text × ℕ) → (ranks_before a b ≡ true) ⊎ (ranks_before b a ≡ true)
unfolding ranks_before
ranks_before_total (a, m) (b, n) = ground (arith, text_leb_total a b)

ranks_before_trans :
    (a b c : Text × ℕ) → ranks_before a b ≡ true → ranks_before b c ≡ true → ranks_before a c ≡ true
unfolding ranks_before
ranks_before_trans (a, m) (b, n) (c, o) h k = ground (arith, text_leb_trans a b c)

-- What the first two entries of a sorted count list say of a model that is not among them.
top_two :
    (f : Text → ℕ) (m : Text) (l : List (Text × ℕ))
    → IsSorted ranks_before l
    → Counts f l
    → any (has_key m) l ≡ true
    → let top = map (λ (kv : Text × ℕ). kv.0) (take 2 l) in
      contains top m ≡ false → (length top ≡ 2) × All (λ d. f m ≤ f d) top
top_two f m [] s c found out = cc
top_two f m (a ∷ []) s c found out = ground arith
top_two f m (a ∷ b ∷ rest) s c found out = (
  refl,
  (
    IsSorted-take f m a (b ∷ rest) s.0 c (ground arith),
    (IsSorted-take f m b rest s.1.0 c.1 (ground arith), tt),
  ),
)

present :
    {f : Text → ℕ} {counts : List (Text × ℕ)}
    → Tally f counts
    → (m : Text) → 0 < f m
    → any (has_key m) counts ≡ true
present t m h = ground (arith, t.absent m)

module _ (meta : Text → Option RuleMeta) where
  -- The number of violations whose rule has a fingerprint of the model.
  unfoldable pub occurrences : Text → List Violation → ℕ
  occurrences m [] = 0
  occurrences m (v ∷ vs) = (if model_of meta v == some m then 1 else 0) + occurrences m vs

  count_models-Tally :
      (vs : List Violation) (f : Text → ℕ) (counts : List (Text × ℕ))
      → Tally f counts
      → Tally (λ m. f m + occurrences m vs) (count_models meta vs counts)
  unfolding count_models bump_some occurrences
  count_models-Tally [] f counts t = Tally-congr f _ counts (λ m. omega arith) t
  count_models-Tally (v ∷ vs) f counts t =
      Tally-congr _ _ _ (λ m. omega arith)
        (count_models-Tally vs _ _ (bump_some-Tally (model_of meta v) f counts t))

  Tally-all : (vs : List Violation) → Tally (λ m. occurrences m vs) (count_models meta vs [])
  Tally-all vs =
      Tally-congr _ _ _ (λ m. omega arith)
        (count_models-Tally vs (λ m. 0) []
          (record { nodup = tt; exact = tt; absent = λ m h. refl }))

  -- If a model occurs among the violations and is not reported as dominant, then two models
  -- are, and neither of them occurs less often.
  pub dominant_most_frequent :
      (vs : List Violation) (m : Text)
      → 0 < occurrences m vs
      → contains (compute_dominant_fingerprints meta vs) m ≡ false
      → let top = compute_dominant_fingerprints meta vs in
        (length top ≡ 2) × All (λ d. occurrences m vs ≤ occurrences d vs) top
  unfolding compute_dominant_fingerprints
  dominant_most_frequent vs m h out =
      let t = Tally-all vs in
      let counts = count_models meta vs [] in
      top_two (λ k. occurrences k vs) m (sort ranks_before counts)
        (sort-IsSorted ranks_before ranks_before_total ranks_before_trans counts)
        (All-sort ranks_before _ counts t.exact)
        (any-sort ranks_before (has_key m) counts ∙ present t m h) out
