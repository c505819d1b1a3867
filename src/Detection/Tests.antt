-- ===== src/Detection/Tests.antt =====
-- A project of one file, one rule and a cache.
use slopsentinel.Base.{
  ℕ, Text, codes, text_eq, nat_eq, texts_eq, [], ◌∷◌, Option, none, some, true, false, ◌≡◌, refl,
  All, contains, select, length, splitlines, lower, strip, upper, ◌&&◌, not, map, ◌⊎◌, starts_with,
  replace_char,
}
use mathlib.Core.Option.{none-ne-some}
use slopsentinel.Types.{FilePath, warn, error, quality, Severity, Violation}
use slopsentinel.Config.{many, one, RulesConfig, SlopSentinelConfig}
use slopsentinel.Config.Enabled.{
  compute_enabled_rule_ids, token_ids, enabled_exactly, is_selected, spec_tokens,
}
use slopsentinel.Suppressions.{
  parse_suppressions, is_suppressed, search_re, disable_file_at, disable_next_at, disable_at,
  parse_ids,
}
use slopsentinel.Dict.{lookup}
use slopsentinel.Cache.Serial.{parse_path}
use slopsentinel.Languages.{detect_language, suffix}
use slopsentinel.Cache.{CacheMachine, FileViolationCache, new_cache}
use slopsentinel.Cache.Laws.{file_cache}
use slopsentinel.Detection.{
  FileContext, ProjectContext, Rule, CacheOps, ChangedLines, rules_config_for, rule_ids,
  detect_file_full, suppressed_in, apply_overrides, detect_files, detect, file_rules,
}
use slopsentinel.Detection.Overrides.{
  IsItem, NoneMatches, NoneLonger, rules_config_longest, IsReported, detect_file_full-IsReported,
}
use slopsentinel.Detection.{override_severity}
use slopsentinel.Base.{inl, inr}
use slopsentinel.Detection.Complete.{Occurs, adjusted, detect_file_full-Occurs}
use slopsentinel.Detection.Filters.{has_changed, detect_files-changed}
use slopsentinel.Detection.Caching.{Files, IsBuilt, IsCoherent, CoherentOption, detect_cached}

abbrev pub file : FilePath
file = codes "/" ∷ codes "repo" ∷ codes "a.py" ∷ []

abbrev found_at : ℕ → Violation
found_at n = record {
  rule_id = codes "A01";
  severity = warn;
  message = codes "m";
  dimension = quality;
  suggestion = none;
  location = some (record {
    path = some file;
    start_line = some n;
    start_col = none;
    end_line = none;
    end_col = none;
  });
}

-- It finds something in lines 1 and 2 of any file.
abbrev pub rule : Rule
rule = record {
  meta = record {
    rule_id = codes "A01";
    title = [];
    description = [];
    default_severity = warn;
    score_dimension = quality;
    fingerprint_model = none;
  };
  check_project = λ project. [];
  check_file = λ ctx. found_at 1 ∷ found_at 2 ∷ [];
}

abbrev strict_rules : RulesConfig
strict_rules = record {
  enable = many (codes "claude" ∷ codes "E04" ∷ []);
  disable = codes "A02" ∷ [];
  overrides = [];
  severity_overrides = (codes "A01", error) ∷ [];
}

abbrev default_rules : RulesConfig
default_rules = record {
  enable = one (codes "all");
  disable = [];
  overrides = [];
  severity_overrides = [];
}

abbrev pub config : SlopSentinelConfig
config = record {
  threshold = 60;
  fail_on_slop = false;
  languages = codes "python" ∷ [];
  rules = default_rules;
  directory_overrides = (codes "src/", strict_rules) ∷ (codes "src/old/", default_rules) ∷ [];
  ignore_paths = [];
  baseline = none;
  cache = record { enabled = true; path = codes "c" };
  history = record { enabled = false; path = codes "h"; max_entries = 200 };
  scoring = record { profile = codes "default"; penalties = [] };
  plugins = [];
}

abbrev text : Text
text = codes "x = 1  # slop: disable=A01\ny = 2\n"

context : FileContext
context = record {
  path = file;
  relative_path = codes "src/a.py";
  language = codes "python";
  text = text;
  lines = splitlines text;
  suppressions = parse_suppressions (splitlines text);
}

line_of : Violation → Severity × Option ℕ
line_of v = (v.severity, elim (v.location) [ none ↦ none | some l ↦ l.start_line ])

-- Line 1 is suppressed; the directory sets the severity.
context_reported : map line_of (detect_file_full config (rule ∷ []) context) ≡ (error, some 2) ∷ []
unfolding detect_file_full line_of context splitlines parse_suppressions text_eq nat_eq
    compute_enabled_rule_ids starts_with token_ids lower strip upper apply_overrides suppressed_in
    is_suppressed search_re disable_file_at disable_next_at disable_at parse_ids
context_reported = refl

enabled_exactly_example :
    contains
      (compute_enabled_rule_ids strict_rules (some (codes "A01" ∷ codes "A02" ∷ [])))
      (codes "A01")
    ≡ (contains (codes "A01" ∷ codes "A02" ∷ []) (codes "A01")
        && (is_selected
              (some (codes "A01" ∷ codes "A02" ∷ []))
              (spec_tokens strict_rules.enable)
              (codes "A01")
            && not (
                is_selected
                  (some (codes "A01" ∷ codes "A02" ∷ []))
                  strict_rules.disable
                  (codes "A01"))))
enabled_exactly_example =
    enabled_exactly strict_rules (codes "A01" ∷ codes "A02" ∷ []) (codes "A01")

rules_config_longest_example :
    let rel = replace_char b'\\' b'/' (codes "src\\old\\a.py") in
    let rules = rules_config_for config (codes "src\\old\\a.py") in
    let m = config.directory_overrides in
    (NoneMatches rel m × (rules ≡ config.rules))
    ⊎ ((q : Text) × IsItem q rules m × (starts_with rel q ≡ true) × NoneLonger rel (length q) m)
rules_config_longest_example = rules_config_longest config (codes "src\\old\\a.py")

detect_file_full-IsReported_example :
    let rules = rules_config_for config context.relative_path in
    All
      (IsReported rules (compute_enabled_rule_ids rules (some (rule_ids (rule ∷ [])))) context)
      (detect_file_full config (rule ∷ []) context)
detect_file_full-IsReported_example =
    detect_file_full-IsReported config (rule ∷ []) context ((refl, (refl, tt)), tt)

abbrev machine : CacheMachine
machine = record {
  project_root = [];
  resolved_root = [];
  resolve = λ p. some p;
  resolve_root = refl;
  to_str = λ j. [];
}

abbrev pub ops : CacheOps
ops = file_cache machine

abbrev pub same : FilePath → FilePath
same p = p

abbrev pub hash : Text → Text
hash t = t

abbrev on_line_2 : ChangedLines
on_line_2 = (file, 2 ∷ []) ∷ []

detect_files-changed_example :
    let diff = detect_files same ops hash config (rule ∷ []) (some on_line_2) (context ∷ []) none in
    let full = detect_files same ops hash config (rule ∷ []) none (context ∷ []) none in
    (diff.0 ≡ select (has_changed same on_line_2) full.0) × (diff.1 ≡ full.1)
detect_files-changed_example =
    detect_files-changed same ops hash config (rule ∷ []) on_line_2 (context ∷ []) none (tt, tt)

abbrev pub project : ProjectContext
project = record {
  project_root = codes "/" ∷ codes "repo" ∷ [];
  scan_path = codes "/" ∷ codes "repo" ∷ [];
  files = file ∷ [];
  config = config;
}

abbrev empty : FileViolationCache
empty = new_cache (codes "v1")

abbrev files : Files
files = record { path_at = λ rel. codes "/" ∷ codes "repo" ∷ parse_path rel; Read = λ t. t ≡ text }

abbrev old_file : FileContext
old_file = record context { path = files.path_at (codes "src/a.py") }

-- It names the file that it looks at.
abbrev by_file : Rule
by_file = record {
  meta = rule.meta;
  check_project = λ project. [];
  check_file = λ ctx.
      record (found_at 2) {
        message = ctx.language;
        location = some (record {
          path = some ctx.path;
          start_line = some 2;
          start_col = none;
          end_line = none;
          end_col = none;
        });
      }
      ∷ [];
}

old_file-IsBuilt : IsBuilt files old_file
unfolding context detect_language parse_path lower suffix text_eq lookup
old_file-IsBuilt = (refl, refl, refl, refl, refl)

empty-IsCoherent : IsCoherent same ops hash config (file_rules (by_file ∷ []) config) files empty
unfolding new_cache lookup
empty-IsCoherent c vs is e = absurd (none-ne-some vs e)

detect_cached_example :
    let run = detect same ops hash (by_file ∷ []) project (old_file ∷ old_file ∷ []) none in
    ((run (some empty)).0 ≡ (run none).0)
    × CoherentOption same ops hash config
        (file_rules (by_file ∷ []) config)
        files
        (run (some empty)).1
detect_cached_example =
    detect_cached same ops hash (by_file ∷ []) project files (old_file ∷ old_file ∷ []) none empty
      (old_file-IsBuilt, (old_file-IsBuilt, tt)) (λ t u read read' e. e) empty-IsCoherent

rule_on :
    contains
      (compute_enabled_rule_ids
        (rules_config_for config context.relative_path)
        (some (rule_ids (rule ∷ []))))
      rule.meta.rule_id
    ≡ true
unfolding rules_config_for context compute_enabled_rule_ids token_ids text_eq lower strip upper
    starts_with replace_char
rule_on = refl

line_2_shown : suppressed_in context (found_at 2) ≡ false
unfolding suppressed_in context splitlines parse_suppressions text_eq nat_eq is_suppressed search_re
    disable_file_at disable_next_at disable_at parse_ids upper strip lower
line_2_shown = refl

detect_file_full-Occurs_example :
    Occurs
      (adjusted
        (override_severity (rules_config_for config context.relative_path) (codes "A01"))
        (found_at 2))
      (detect_file_full config (rule ∷ []) context)
detect_file_full-Occurs_example =
    detect_file_full-Occurs config (rule ∷ []) context rule (found_at 2) (inl refl) rule_on
      (inr (inl refl)) line_2_shown
