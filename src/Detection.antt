-- ===== src/Detection.antt =====
-- src/slopsentinel/engine/detection.py: rules over a project and its files. A rule is a parameter:
-- its metadata and its two checks. The cache is an interface, which Cache implements.
mod Overrides
mod Complete
mod Filters
mod Caching
pub mod Tests
use slopsentinel.Base.{
  ℕ, Text, text_eq, texts_eq, nat_eq, List, [], ◌∷◌, ◌++◌, Option, none, some, Bool, true, false,
  not, ◌&&◌, ◌||◌, ◌≡◌, if◌then◌else◌, ◌==◌, contains, select, map, ltb, leb, length, starts_with,
  replace_char, is_nil,
}
use slopsentinel.Types.{Severity, FilePath, Location, Violation, RuleMeta}
use slopsentinel.Config.{RuleOverride, RulesConfig, SlopSentinelConfig}
use slopsentinel.Config.Enabled.{compute_enabled_rule_ids}
use slopsentinel.Dict.{lookup}
use slopsentinel.Suppressions.{Suppressions, is_suppressed}

-- src/slopsentinel/engine/context.py, without the syntax trees, which only rules read
pub record FileContext : Type 0 where
  pub path : FilePath
  pub relative_path : Text
  pub language : Text
  pub text : Text
  pub lines : List Text
  pub suppressions : Suppressions

pub record ProjectContext : Type 0 where
  pub project_root : FilePath
  pub scan_path : FilePath
  pub files : List FilePath
  pub config : SlopSentinelConfig

-- A subclass of `BaseRule`.
pub record Rule : Type 0 where
  pub meta : RuleMeta
  pub check_project : ProjectContext → List Violation
  pub check_file : FileContext → List Violation

-- What the engine needs of a cache: `lookup` is the content that `get` reports.
pub record CacheOps : Type 1 where
  pub State : Type 0
  pub get : State → Text → Text → Option (List Violation) × State
  pub put : State → Text → Text → List Violation → State
  pub lookup : State → Text → Text → Option (List Violation)
  pub get_result : (s : State) (rel hash : Text) → (get s rel hash).0 ≡ lookup s rel hash
  pub lookup-get : (s : State) (rel hash r h : Text) → lookup (get s rel hash).1 r h ≡ lookup s r h
  pub lookup-put :
      (s : State) (rel hash : Text) (vs : List Violation) (r h : Text)
      → lookup (put s rel hash vs) r h
        ≡ (if rel == r then (if hash == h then some vs else none) else lookup s r h)

-- One round of the loop of `_rules_config_for_relative_path`. The best length is -1 before the first
-- match, which `none` stands for.
unfoldable pub pick_prefix :
    Text → Text → RulesConfig → Option (Text × RulesConfig) → Option (Text × RulesConfig)
pick_prefix rel prefix cfg none = if starts_with rel prefix then some (prefix, cfg) else none
pick_prefix rel prefix cfg (some (q, best)) =
    if starts_with rel prefix && ltb (length q) (length prefix)
    then some (prefix, cfg)
    else some (q, best)

unfoldable pub longest_prefix :
    Text → List (Text × RulesConfig) → Option (Text × RulesConfig) → Option (Text × RulesConfig)
unfolding pick_prefix
longest_prefix rel [] best = best
longest_prefix rel ((prefix, cfg) ∷ rest) best =
    longest_prefix rel rest (pick_prefix rel prefix cfg best)

unfoldable pub rules_config_for : SlopSentinelConfig → Text → RulesConfig
unfolding longest_prefix replace_char
rules_config_for config relative_path =
    elim (longest_prefix (replace_char b'\\' b'/' relative_path) (config.directory_overrides)
      none) [ none ↦ config.rules | some (q, cfg) ↦ cfg ]

-- The severity that the configuration sets for a rule, if any.
unfoldable pub override_severity : RulesConfig → Text → Option Severity
unfolding lookup
override_severity rules rule_id = elim (lookup rule_id (rules.overrides)) [
  | none ↦ lookup rule_id (rules.severity_overrides)
  | some o ↦ elim (o.severity) [
    | none ↦ lookup rule_id (rules.severity_overrides)
    | some s ↦ some s
  ]
]

-- The loop of `_apply_overrides`, if there is a severity.
unfoldable pub with_severity : Option Severity → List Violation → List Violation
with_severity none violations = violations
with_severity (some s) [] = []
with_severity (some s) (v ∷ vs) = record v { severity = s } ∷ with_severity (some s) vs

unfoldable pub apply_overrides : RulesConfig → Text → List Violation → List Violation
unfolding override_severity with_severity
apply_overrides rules rule_id violations =
    with_severity (override_severity rules rule_id) violations

abbrev start_line_of : Violation → Option ℕ
start_line_of v = elim (v.location) [ none ↦ none | some l ↦ l.start_line ]

-- `_is_suppressed`
unfoldable pub suppressed_in : FileContext → Violation → Bool
suppressed_in ctx v = is_suppressed ctx.suppressions v.rule_id (start_line_of v)

abbrev pub rule_ids : List Rule → List Text
rule_ids = map (λ (r : Rule). r.meta.rule_id)

-- The loop of `_detect_file_full` over the rules, with the enabled ids.
unfoldable pub check_rules : RulesConfig → List Text → FileContext → List Rule → List Violation
check_rules rules enabled ctx [] = []
check_rules rules enabled ctx (r ∷ rs) =
    let rest = check_rules rules enabled ctx rs in
    if contains enabled r.meta.rule_id
    then (select (λ v. not (suppressed_in ctx v))
          (apply_overrides rules r.meta.rule_id (r.check_file ctx))
        ++ rest)
    else rest

unfoldable pub detect_file_full : SlopSentinelConfig → List Rule → FileContext → List Violation
unfolding check_rules rules_config_for
detect_file_full config rules ctx =
    let effective = rules_config_for config ctx.relative_path in
    check_rules effective (compute_enabled_rule_ids effective (some (rule_ids rules))) ctx rules

-- dict[Path, set[int]]
abbrev pub ChangedLines : Type 0
ChangedLines = List (FilePath × List ℕ)

unfoldable pub lines_of : FilePath → ChangedLines → List ℕ
lines_of p [] = []
lines_of p ((q, ns) ∷ rest) = if q == p then ns else lines_of p rest

-- The project-level checks, which a diff skips.
unfoldable pub check_projects : ProjectContext → List Text → List Rule → List Violation
check_projects project enabled [] = []
check_projects project enabled (r ∷ rs) =
    let rest = check_projects project enabled rs in
    if contains enabled r.meta.rule_id
    then (apply_overrides project.config.rules r.meta.rule_id (r.check_project project) ++ rest)
    else rest

-- The union of the enabled ids of the project and of every directory.
unfoldable pub enabled_in_files : List Text → List (Text × RulesConfig) → List Text → List Text
enabled_in_files available [] ids = ids
enabled_in_files available ((prefix, rules) ∷ rest) ids =
    enabled_in_files available rest (ids ++ compute_enabled_rule_ids rules (some available))

-- `enabled_rules_files`: a superset of the rules that any file may need
unfoldable pub file_rules : List Rule → SlopSentinelConfig → List Rule
unfolding enabled_in_files
file_rules available config =
    let ids = rule_ids available in
    let enabled = compute_enabled_rule_ids config.rules (some ids) in
    let in_files = enabled_in_files ids config.directory_overrides enabled in
    select (λ (r : Rule). contains in_files r.meta.rule_id) available

unfoldable pub project_violations :
    List Rule → ProjectContext → Option ChangedLines → List Violation
unfolding check_projects
project_violations available project (some changed) = []
project_violations available project none =
    check_projects project
      (compute_enabled_rule_ids project.config.rules (some (rule_ids available))) available

module _ (resolve : FilePath → FilePath) where
  -- A location without a path or a line counts as changed.
  unfoldable pub is_on_changed_line : ChangedLines → Violation → Bool
  unfolding lines_of
  is_on_changed_line changed v = elim (v.location) [
    | none ↦ true
    | some l ↦ elim (l.path) [
      | none ↦ true
      | some p ↦ elim (l.start_line) [
        | none ↦ true
        | some n ↦ contains (lines_of (resolve p) changed) n
      ]
    ]
  ]

  -- `full if changed_lines is None else [v for v in full if …]`
  unfoldable pub keep_changed : Option ChangedLines → List Violation → List Violation
  unfolding is_on_changed_line
  keep_changed none full = full
  keep_changed (some changed) full = select (is_on_changed_line changed) full

  module _ (ops : CacheOps) (content_hash : Text → Text) where
    -- A hit is the result; a miss is a full detection that is put.
    unfoldable pub after_lookup :
        SlopSentinelConfig
        → List Rule
        → FileContext
        → Option (List Violation)
        → ops.State
        → List Violation × Option ops.State
    after_lookup config rules ctx (some vs) s = (vs, some s)
    after_lookup config rules ctx none s =
        let full = detect_file_full config rules ctx in
        (full, some (ops.put s ctx.relative_path (content_hash ctx.text) full))

    -- A file's violations, through the cache if there is one.
    unfoldable pub cached_full :
        SlopSentinelConfig
        → List Rule
        → FileContext
        → Option ops.State
        → List Violation × Option ops.State
    unfolding after_lookup
    cached_full config rules ctx none = (detect_file_full config rules ctx, none)
    cached_full config rules ctx (some s) =
        let (found, s') = ops.get s ctx.relative_path (content_hash ctx.text) in
        after_lookup config rules ctx found s'

    -- `_detect_file`
    unfoldable pub detect_file :
        SlopSentinelConfig
        → List Rule
        → Option ChangedLines
        → FileContext
        → Option ops.State
        → List Violation × Option ops.State
    unfolding cached_full keep_changed
    detect_file config rules changed ctx cache =
        let (full, cache') = cached_full config rules ctx cache in
        (keep_changed changed full, cache')

    -- The loop over the files, in their order.
    unfoldable pub detect_files :
        SlopSentinelConfig
        → List Rule
        → Option ChangedLines
        → List FileContext
        → Option ops.State
        → List Violation × Option ops.State
    unfolding detect_file
    detect_files config rules changed [] cache = ([], cache)
    detect_files config rules changed (ctx ∷ ctxs) cache =
        let (vs, cache') = detect_file config rules changed ctx cache in
        let (rest, cache'') = detect_files config rules changed ctxs cache' in (vs ++ rest, cache'')

    -- Several workers yield the files' results in the order of the files, as the loop does.
    unfoldable pub detect :
        List Rule
        → ProjectContext
        → List FileContext
        → Option ChangedLines
        → Option ops.State
        → List Violation × Option ops.State
    unfolding detect_files file_rules project_violations
    detect available project ctxs changed cache =
        let (of_files, cache') =
          detect_files project.config (file_rules available project.config) changed ctxs cache in
        (project_violations available project changed ++ of_files, cache')
