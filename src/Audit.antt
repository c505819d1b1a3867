-- ===== src/Audit.antt =====
-- src/slopsentinel/audit.py: one run over a project, from the detection to the files that it writes.
-- The rules are those of the registry after the plugins are registered; the contexts of the files
-- are built before.
mod Composed
mod Tests
use slopsentinel.Base.{
  ℕ, Text, codes, text_eq, texts_eq, List, [], ◌∷◌, ◌++◌, Option, none, some, Bool, true, false,
  ◌&&◌, ◌||◌, not, ◌==◌, if◌then◌else◌, map, select, contains, is_nil, length, sort, text_leb,
  texts_leb, starts_with, join,
}
use slopsentinel.Types.{FilePath, Violation, RuleMeta, ScanSummary}
use slopsentinel.Config.{
  RuleSpec, one, many, RuleOverride, RulesConfig, SlopSentinelConfig, HistoryConfig,
}
use slopsentinel.Config.Enabled.{compute_enabled_rule_ids}
use slopsentinel.Json.{Json, str, arr, obj, Fields, end, field, items_of}
use slopsentinel.Dict.{Dict, insert}
use slopsentinel.Paths.{relative_to}
use slopsentinel.Scoring.{Floats, summarize}
use slopsentinel.Baseline
use slopsentinel.Baseline.{Machine, filter_violations}
use slopsentinel.Baseline.File.{load_baseline, Loaded, LoadError, baseline_error, type_error}
use slopsentinel.Cache.Serial.{parse_path, severity_name}
use slopsentinel.Autofix.Merge.{distinct}
use slopsentinel.Detection.{
  Rule, rule_ids, FileContext, ProjectContext, CacheOps, ChangedLines, detect, override_severity,
}
use slopsentinel.History
use slopsentinel.History.{Convert, Outcome, record_entry, append_history}

-- The JSON files of the disk, by their resolved paths.
abbrev pub Disk : Type 0
Disk = List (FilePath × Json)

unfoldable pub read_file : FilePath → Disk → Option Json
unfolding texts_eq
read_file path [] = none
read_file path ((p, json) ∷ disk) = if p == path then some json else read_file path disk

unfoldable pub write_file : FilePath → Json → Disk → Disk
unfolding texts_eq
write_file path json [] = (path, json) ∷ []
write_file path json ((p, old) ∷ disk) =
    if p == path then (path, json) ∷ disk else (p, old) ∷ write_file path json disk

-- The cache of a run: the interface of the engine, and the two directions of its file.
pub record CacheFile : Type 1 where
  pub ops : CacheOps
  pub load : Option Json → Text → ops.State
  pub save : ops.State → Option Json

-- `effective_severity_overrides`, for the ids in their order
unfoldable pub severities_of : RulesConfig → List Text → Dict Text
unfolding override_severity
severities_of rules [] = []
severities_of rules (rule_id ∷ ids) =
    let rest = severities_of rules ids in
    elim (override_severity rules rule_id) [
      | none ↦ rest
      | some s ↦ (rule_id, severity_name s) ∷ rest
    ]

unfoldable pub effective_severity_overrides : RulesConfig → Dict Text
unfolding severities_of distinct sort text_leb
effective_severity_overrides rules = severities_of rules (
    sort text_leb (
      distinct (
        map (λ (o : Text × RuleOverride). o.0) rules.overrides
        ++ map (λ o. o.0) rules.severity_overrides)))

-- `overrides.update(…)`, with a prefix before each key
unfoldable pub update_all : Text → Dict Text → Dict Text → Dict Text
unfolding insert
update_all prefix [] overrides = overrides
update_all prefix ((k, v) ∷ rest) overrides =
    update_all prefix rest (insert (prefix ++ k) v overrides)

abbrev enable_text : RuleSpec → Text
unfolding join
enable_text (one t) = t
enable_text (many ts) = join (codes ",") ts

-- What one directory adds to `overrides`.
unfoldable pub directory_overrides_of : Text × RulesConfig → Dict Text → Dict Text
unfolding insert enable_text join sort text_leb update_all effective_severity_overrides
directory_overrides_of (prefix, rules) overrides =
    let key = λ (rest : Text). codes "dir:" ++ (prefix ++ rest) in
    update_all (key (codes ":severity:")) (effective_severity_overrides rules) (
      insert (key (codes ":disable")) (join (codes ",") (sort text_leb rules.disable))
        (insert (key (codes ":enable")) (enable_text rules.enable) overrides))

unfoldable pub add_directories : List (Text × RulesConfig) → Dict Text → Dict Text
unfolding directory_overrides_of
add_directories [] overrides = overrides
add_directories (dir ∷ dirs) overrides = add_directories dirs (directory_overrides_of dir overrides)

-- `overrides`
unfoldable pub cache_overrides : SlopSentinelConfig → Dict Text
unfolding add_directories update_all effective_severity_overrides sort text_leb
cache_overrides config =
    add_directories
      (sort (λ (a : Text × RulesConfig) b. text_leb a.0 b.0) config.directory_overrides)
      (update_all [] (effective_severity_overrides config.rules) [])

unfoldable pub enabled_anywhere : List (Text × RulesConfig) → List Text → List Text
unfolding compute_enabled_rule_ids
enabled_anywhere [] available = []
enabled_anywhere ((prefix, rules) ∷ dirs) available =
    compute_enabled_rule_ids rules (some available) ++ enabled_anywhere dirs available

abbrev dict_json : Dict Text → Fields
dict_json [] = end
dict_json ((k, v) ∷ d) = field k (str v) (dict_json d)

-- The payload whose digest is `config_fingerprint`, with the tool's version
unfoldable pub fingerprint_payload : Text → List Text → Dict Text → List Text → Json
unfolding sort text_leb distinct
fingerprint_payload version enabled overrides plugins = obj (
    field (codes "tool_version") (str version) (
      field (codes "enabled_rule_ids") (arr (items_of (map str (sort text_leb (distinct enabled)))))
        (field (codes "overrides")
          (obj (dict_json (sort (λ (a : Text × Text) b. text_leb a.0 b.0) overrides)))
          (field (codes "plugins") (arr (items_of (map str plugins))) end))))

-- The run's result and the disk after it, or an exception that ends the run.
pub data AuditOutcome (A : Type 0) : Type 0 where
  done : A → AuditOutcome A
  raised : AuditOutcome A

infixl 5 ◌>>=◌
unfoldable pub ◌>>=◌ : {A B : Type 0} → AuditOutcome A → (A → AuditOutcome B) → AuditOutcome B
done a >>= f = f a
raised >>= f = raised

-- What a run takes from its surroundings.
pub record Setting : Type 1 where
  pub floats : Floats
  pub bits : floats.F → ℕ
  pub meta : Text → Option RuleMeta
  pub machine : Machine
  pub convert : Convert
  pub now : Text
  pub head : Option Text
  pub version : Text
  pub resolve : FilePath → FilePath
  pub content_hash : Text → Text
  pub payload_hash : Json → Text
  pub cache_file : CacheFile

module _ (s : Setting) where
  -- `_resolve_project_file`
  unfoldable pub resolve_project_file : FilePath → Text → Option FilePath
  unfolding parse_path relative_to starts_with
  resolve_project_file root spec =
      let candidate =
        if starts_with spec (codes "/") then parse_path spec else root ++ parse_path spec in
      elim (s.machine.resolve root) [
        | none ↦ none
        | some base ↦ elim (s.machine.resolve candidate) [
          | none ↦ none
          | some resolved ↦ elim (relative_to resolved base) [
            | none ↦ none
            | some rel ↦ some resolved
          ]
        ]
      ]

  unfoldable pub run_fingerprint : SlopSentinelConfig → List Text → Text
  unfolding fingerprint_payload enabled_anywhere cache_overrides compute_enabled_rule_ids
  run_fingerprint config available = s.payload_hash (
      fingerprint_payload s.version
        (compute_enabled_rule_ids config.rules (some available)
          ++ enabled_anywhere config.directory_overrides available)
        (cache_overrides config) config.plugins)

  -- `cache`, with the path of its file
  unfoldable pub open_cache :
      FilePath → SlopSentinelConfig → List Text → Disk → Option (FilePath × s.cache_file.ops.State)
  unfolding resolve_project_file run_fingerprint read_file
  open_cache root config available disk =
      if not config.cache.enabled
      then none
      else elim (resolve_project_file root config.cache.path) [
        | none ↦ none
        | some path ↦
            some (path, s.cache_file.load (read_file path disk) (run_fingerprint config available))
      ]

  abbrev pub cache_state :
      Option (FilePath × s.cache_file.ops.State) → Option s.cache_file.ops.State
  cache_state none = none
  cache_state (some (path, state)) = some state

  abbrev stored : FilePath → Option Json → Disk → Disk
  unfolding write_file
  stored path none disk = disk
  stored path (some json) disk = write_file path json disk

  -- `cache.save()`, which writes nothing where nothing has changed
  abbrev pub save_cache_file :
      Option (FilePath × s.cache_file.ops.State) → Option s.cache_file.ops.State → Disk → Disk
  unfolding write_file
  save_cache_file (some (path, old)) (some state) disk = stored path (s.cache_file.save state) disk
  save_cache_file opened state disk = disk

  -- A baseline that cannot be read is left out; another exception ends the run.
  unfoldable pub with_baseline :
      FilePath → Loaded Baseline.Baseline → List Violation → AuditOutcome (List Violation)
  unfolding filter_violations
  with_baseline root (Loaded.ok b) violations = done (filter_violations s.machine root violations b)
  with_baseline root (Loaded.raise baseline_error) violations = done violations
  with_baseline root (Loaded.raise type_error) violations = raised

  unfoldable pub baseline_at :
      FilePath → Option FilePath → Disk → List Violation → AuditOutcome (List Violation)
  unfolding with_baseline load_baseline read_file
  baseline_at root none disk violations = done violations
  baseline_at root (some path) disk violations = elim (read_file path disk) [
    | none ↦ done violations
    | some json ↦ with_baseline root (load_baseline (some json)) violations
  ]

  -- The baseline of a full scan.
  unfoldable pub apply_baseline_file :
      FilePath
      → Option Text
      → Bool
      → Option ChangedLines
      → Disk
      → List Violation
      → AuditOutcome (List Violation)
  unfolding baseline_at resolve_project_file
  apply_baseline_file root (some spec) true none disk violations =
      if is_nil spec
      then done violations
      else baseline_at root (resolve_project_file root spec) disk violations
  apply_baseline_file root spec apply_baseline changed disk violations = done violations

  unfoldable pub bit_summary : ScanSummary s.floats.F → ScanSummary ℕ
  bit_summary r = record {
    files_scanned = r.files_scanned;
    violations = r.violations;
    score = r.score;
    breakdown = r.breakdown;
    dominant_fingerprints = r.dominant_fingerprints;
    ai_confidence = r.ai_confidence;
    violation_density = s.bits r.violation_density;
    violation_clustering = s.bits r.violation_clustering;
    scoring_profile = r.scoring_profile;
  }

  unfoldable pub written : FilePath → Outcome Json → Disk → AuditOutcome Disk
  unfolding write_file
  written path (Outcome.ok json) disk = done (write_file path json disk)
  written path (Outcome.raise e) disk = raised

  unfoldable pub history_at :
      Option FilePath → HistoryConfig → ScanSummary s.floats.F → Disk → AuditOutcome Disk
  unfolding written append_history record_entry bit_summary read_file
  history_at none history summary disk = done disk
  history_at (some path) history summary disk =
      written path
        (append_history s.convert (read_file path disk)
          (record_entry (bit_summary summary) s.now s.head) history.max_entries)
        disk

  -- The entry of a full scan in the history.
  unfoldable pub record_history_file :
      FilePath
      → HistoryConfig
      → Bool
      → Option ChangedLines
      → ScanSummary s.floats.F
      → Disk
      → AuditOutcome Disk
  unfolding history_at resolve_project_file
  record_history_file root history true none summary disk =
      if history.enabled
      then history_at (resolve_project_file root history.path) history summary disk
      else done disk
  record_history_file root history record_history changed summary disk = done disk

  -- What follows the detection: baseline, score and history.
  unfoldable pub finish_audit :
      ProjectContext
      → ℕ
      → Option ChangedLines
      → Bool
      → Bool
      → List Violation
      → Disk
      → AuditOutcome (ScanSummary s.floats.F × Disk)
  unfolding apply_baseline_file record_history_file summarize
  finish_audit project files_scanned changed apply_baseline record_history violations disk = do
    kept ←
        apply_baseline_file project.project_root project.config.baseline apply_baseline changed disk
          violations
    let summary = summarize s.floats s.meta files_scanned kept (some project.config.scoring)
    after ←
        record_history_file project.project_root project.config.history record_history changed
          summary disk
    done (summary, after)

  -- `audit_files`
  unfoldable pub audit_files :
      List Rule
      → ProjectContext
      → List FileContext
      → Option ChangedLines
      → Bool
      → Bool
      → Disk
      → AuditOutcome (ScanSummary s.floats.F × Disk)
  unfolding finish_audit open_cache detect
  audit_files available project ctxs changed apply_baseline record_history disk =
      let opened = open_cache project.project_root project.config (rule_ids available) disk in
      let found =
        detect s.resolve s.cache_file.ops s.content_hash available project ctxs changed
          (cache_state opened) in
      finish_audit project (length ctxs) changed apply_baseline record_history found.0
        (save_cache_file opened found.1 disk)
