-- ===== src/Detection/Overrides.antt =====
-- Which configuration applies to a file, and what a full detection reports.
use slopsentinel.Base.{
  ℕ, ◌≤◌, Text, text_eq, List, [], ◌∷◌, Option, none, some, true, false, not, ◌&&◌, ◌≡◌, refl, ap,
  ◌⊎◌, inl, inr, arith, contains, select, length, ltb, starts_with, All, All-append, replace_char,
  Bool-cases, Option-cases,
}
use slopsentinel.Types.{Severity, Violation}
use slopsentinel.Config.{RulesConfig, SlopSentinelConfig}
use slopsentinel.Config.Enabled.{compute_enabled_rule_ids}
use slopsentinel.Detection.{
  FileContext, Rule, pick_prefix, longest_prefix, rules_config_for, override_severity,
  with_severity, apply_overrides, suppressed_in, rule_ids, check_rules, detect_file_full,
}

-- `(q, c)` is an item of the mapping.
abbrev pub IsItem : Text → RulesConfig → List (Text × RulesConfig) → Type 0
IsItem q c [] = ⊥
IsItem q c ((p, d) ∷ rest) = ((q ≡ p) × (c ≡ d)) ⊎ IsItem q c rest

-- No prefix of the mapping that the path has is longer than `n`.
abbrev pub NoneLonger : Text → ℕ → List (Text × RulesConfig) → Type 0
NoneLonger rel n [] = Unit
NoneLonger rel n ((p, d) ∷ rest) = (starts_with rel p ≡ true → length p ≤ n) × NoneLonger rel n rest

-- No prefix of the mapping is one of the path.
abbrev pub NoneMatches : Text → List (Text × RulesConfig) → Type 0
NoneMatches rel [] = Unit
NoneMatches rel ((p, d) ∷ rest) = (starts_with rel p ≡ false) × NoneMatches rel rest

abbrev Longest : Text → List (Text × RulesConfig) → Option (Text × RulesConfig) → Type 0
Longest rel m none = NoneMatches rel m
Longest rel m (some (q, c)) = NoneLonger rel (length q) m

abbrev AtLeast : Option (Text × RulesConfig) → Option (Text × RulesConfig) → Type 0
AtLeast none r = Unit
AtLeast (some (p, d)) none = ⊥
AtLeast (some (p, d)) (some (q, c)) = length p ≤ length q

AtLeast-trans : (a b c : Option (Text × RulesConfig)) → AtLeast a b → AtLeast b c → AtLeast a c
AtLeast-trans none b c h k = tt
AtLeast-trans (some (p, d)) none c h k = absurd h
AtLeast-trans (some (p, d)) (some (q, e)) none h k = absurd k
AtLeast-trans (some (p, d)) (some (q, e)) (some (r, f)) h k = omega arith

module _ (rel p : Text) (d : RulesConfig) where
  pick-AtLeast :
      (best : Option (Text × RulesConfig))
      → AtLeast best (pick_prefix rel p d best)
        × (starts_with rel p ≡ true → AtLeast (some (p, d)) (pick_prefix rel p d best))
  unfolding pick_prefix
  pick-AtLeast none = ground arith
  pick-AtLeast (some (q, c)) = ground arith

  Longest-cons :
      (rest : List (Text × RulesConfig)) (best r : Option (Text × RulesConfig))
      → AtLeast (pick_prefix rel p d best) r
      → Longest rel rest r
      → Longest rel ((p, d) ∷ rest) r
  Longest-cons rest best none h l = elim (Bool-cases (starts_with rel p)) [
    | inl yes' ↦ absurd (AtLeast-trans (some (p, d)) _ none ((pick-AtLeast best).1 yes') h)
    | inr no' ↦ (no', l)
  ]
  Longest-cons rest best (some (q, c)) h l =
      (λ m. AtLeast-trans (some (p, d)) _ (some (q, c)) ((pick-AtLeast best).1 m) h, l)

longest_prefix-Longest :
    (rel : Text) (m : List (Text × RulesConfig)) (best : Option (Text × RulesConfig))
    → AtLeast best (longest_prefix rel m best) × Longest rel m (longest_prefix rel m best)
unfolding longest_prefix
longest_prefix-Longest rel [] none = (tt, tt)
longest_prefix-Longest rel [] (some (q, c)) = (omega arith, tt)
longest_prefix-Longest rel ((p, d) ∷ rest) best =
    let (h, l) = longest_prefix-Longest rel rest (pick_prefix rel p d best) in
    (AtLeast-trans best _ _ (pick-AtLeast rel p d best).0 h, Longest-cons rel p d rest best _ h l)

pick-IsItem :
    (rel p : Text) (d : RulesConfig) (rest : List (Text × RulesConfig))
    (best : Option (Text × RulesConfig)) (q : Text) (c : RulesConfig)
    → pick_prefix rel p d best ≡ some (q, c)
    → (best ≡ some (q, c)) ⊎ (IsItem q c ((p, d) ∷ rest) × (starts_with rel q ≡ true))
unfolding pick_prefix
pick-IsItem rel p d rest none q c h = elim (Bool-cases (starts_with rel p)) [
  | inl m ↦ inr (inl (ground arith, ground arith), ground arith)
  | inr n ↦ ground arith
]
pick-IsItem rel p d rest (some (r, e)) q c h =
    elim (Bool-cases (starts_with rel p && ltb (length r) (length p))) [
      | inl m ↦ inr (inl (ground arith, ground arith), ground arith)
      | inr n ↦ inl (ground arith)
    ]

longest_prefix-IsItem :
    (rel : Text) (m : List (Text × RulesConfig)) (best : Option (Text × RulesConfig)) (q : Text)
    (c : RulesConfig)
    → longest_prefix rel m best ≡ some (q, c)
    → (best ≡ some (q, c)) ⊎ (IsItem q c m × (starts_with rel q ≡ true))
unfolding longest_prefix
longest_prefix-IsItem rel [] best q c e = inl e
longest_prefix-IsItem rel ((p, d) ∷ rest) best q c e =
    elim (longest_prefix-IsItem rel rest _ q c e) [
      | inr (item, match) ↦ inr (inr item, match)
      | inl picked ↦ pick-IsItem rel p d rest best q c picked
    ]

-- The rules of a path are those of a directory prefix of it that no other of its configured
-- prefixes is longer than, or those of the project if no configured prefix is one of the path.
pub rules_config_longest :
    (config : SlopSentinelConfig) (relative_path : Text)
    → let rel = replace_char b'\\' b'/' relative_path in
      let rules = rules_config_for config relative_path in
      let m = config.directory_overrides in
      (NoneMatches rel m × (rules ≡ config.rules))
      ⊎ ((q : Text) × IsItem q rules m × (starts_with rel q ≡ true) × NoneLonger rel (length q) m)
unfolding rules_config_for
rules_config_longest config relative_path =
    let rel = replace_char b'\\' b'/' relative_path in
    let m = config.directory_overrides in
    let (_, l) = longest_prefix-Longest rel m none in
    elim (Option-cases (longest_prefix rel m none)) [
      | inl e ↦ inl (rw e at l, rw (rules_config_for, e) refl)
      | inr ((q, c), e) ↦ elim (longest_prefix-IsItem rel m none q c e) [
        | inl absent ↦ cc
        | inr (item, match) ↦ inr (q, rw (rules_config_for, e) item, match, rw e at l)
      ]
    ]

-- Every violation of the list was raised under the rule's own id.
abbrev pub OwnIds : Rule → FileContext → Type 0
OwnIds r ctx = All (λ (v : Violation). v.rule_id ≡ r.meta.rule_id) (r.check_file ctx)

-- What holds of a reported violation: its rule is enabled, no directive suppresses it, and a
-- severity that is configured for the rule is the violation's.
abbrev pub IsReported : RulesConfig → List Text → FileContext → Violation → Type 0
IsReported rules enabled ctx v =
    (contains enabled v.rule_id ≡ true)
    × (suppressed_in ctx v ≡ false)
    × ((s : Severity) → override_severity rules v.rule_id ≡ some s → v.severity ≡ s)

module _ (rules : RulesConfig) (enabled : List Text) (ctx : FileContext) (r : Rule) where
  abbrev HasOverride : Violation → Type 0
  HasOverride v =
      (v.rule_id ≡ r.meta.rule_id)
      × ((s : Severity) → override_severity rules v.rule_id ≡ some s → v.severity ≡ s)

  with_severity-HasOverride :
      (o : Option Severity) (vs : List Violation)
      → override_severity rules r.meta.rule_id ≡ o
      → All (λ (v : Violation). v.rule_id ≡ r.meta.rule_id) vs
      → All HasOverride (with_severity o vs)
  unfolding with_severity
  with_severity-HasOverride none [] e own = tt
  with_severity-HasOverride (some s) [] e own = tt
  with_severity-HasOverride none (v ∷ vs) e own = (
    (own.0, λ t h. cc (ap (override_severity rules) own.0)),
    with_severity-HasOverride none vs e own.1,
  )
  with_severity-HasOverride (some s) (v ∷ vs) e own = (
    (own.0, λ t h. ground (arith, ap (override_severity rules) own.0)),
    with_severity-HasOverride (some s) vs e own.1,
  )

  apply_overrides-HasOverride :
      (vs : List Violation)
      → All (λ (v : Violation). v.rule_id ≡ r.meta.rule_id) vs
      → All HasOverride (apply_overrides rules r.meta.rule_id vs)
  unfolding apply_overrides
  apply_overrides-HasOverride vs own = with_severity-HasOverride _ vs refl own

  select-IsReported :
      (vs : List Violation)
      → contains enabled r.meta.rule_id ≡ true
      → All HasOverride vs
      → All (IsReported rules enabled ctx) (select (λ v. not (suppressed_in ctx v)) vs)
  select-IsReported [] e h = tt
  select-IsReported (v ∷ vs) e ((own, sev), h) = elim (Bool-cases (suppressed_in ctx v)) [
    | inl s ↦ rw s (select-IsReported vs e h)
    | inr s ↦ rw s ((rw own e, s, sev), select-IsReported vs e h)
  ]

check_rules-IsReported :
    (rules : RulesConfig) (enabled : List Text) (ctx : FileContext) (rs : List Rule)
    → All (λ r. OwnIds r ctx) rs
    → All (IsReported rules enabled ctx) (check_rules rules enabled ctx rs)
unfolding check_rules
check_rules-IsReported rules enabled ctx [] own = tt
check_rules-IsReported rules enabled ctx (r ∷ rs) own =
    let rest = check_rules-IsReported rules enabled ctx rs own.1 in
    elim (Bool-cases (contains enabled r.meta.rule_id)) [
      | inr off ↦ rw off rest
      | inl on ↦ rw on (
          All-append _ _ _
            (select-IsReported rules enabled ctx r _ on
              (apply_overrides-HasOverride rules enabled ctx r _ own.0))
            rest)
    ]

-- If every rule raises violations under its own id, a full detection reports only violations of rules
-- that are enabled for the file, that no directive suppresses, and that have the severity that
-- the file's configuration sets for the rule, if it sets one.
pub detect_file_full-IsReported :
    (config : SlopSentinelConfig) (rs : List Rule) (ctx : FileContext)
    → All (λ r. OwnIds r ctx) rs
    → let rules = rules_config_for config ctx.relative_path in
      All
        (IsReported rules (compute_enabled_rule_ids rules (some (rule_ids rs))) ctx)
        (detect_file_full config rs ctx)
unfolding detect_file_full
detect_file_full-IsReported config rs ctx own = check_rules-IsReported _ _ ctx rs own
