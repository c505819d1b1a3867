-- ===== src/Audit/Tests.antt =====
-- Runs over a project with a cache and with a baseline.
use slopsentinel.Base.{
  if◌then◌else◌, codes, text_eq, texts_eq, int_eq, nat_eq, List, [], ◌∷◌, none, some, true, false,
  strip, upper, lower, starts_with, replace_char, ◌≡◌, refl,
}
use slopsentinel.Types.{FilePath, Violation, warn, quality}
use slopsentinel.Config.Enabled.{compute_enabled_rule_ids, token_ids}
use slopsentinel.Json.{null}
use slopsentinel.Scoring.{summarize}
use slopsentinel.Scoring.Tests.{milli}
use slopsentinel.Baseline.{build_baseline}
use slopsentinel.Baseline.File.{save_baseline}
use slopsentinel.Baseline.RoundTrip.{IsSavable}
use slopsentinel.Baseline.Tests.{machine}
use slopsentinel.Detection.{
  Rule, ProjectContext, detect, detect_files, project_violations, apply_overrides,
}
use slopsentinel.Detection.Tests.{rule, project, ops, same, hash}
use slopsentinel.History.Tests.{convert}
use slopsentinel.Audit.{
  record_history_file, ◌>>=◌, Disk, Setting, done, audit_files, open_cache, read_file,
  resolve_project_file, save_cache_file,
}
use slopsentinel.Audit.Composed.{found, with_cache, HoldsBaseline, audit_files-baseline}

abbrev setting : Setting
setting = record {
  floats = milli;
  bits = λ n. n;
  meta = λ id. none;
  machine = machine (codes "a" ∷ codes "b" ∷ []);
  convert = convert;
  now = codes "now";
  head = none;
  version = codes "1";
  resolve = same;
  content_hash = hash;
  payload_hash = λ j. [];
  cache_file = record {
    ops = ops;
    load = λ json fingerprint. record {
      files = [];
      fingerprint = fingerprint;
      hits = 0;
      misses = 0;
      dirty = false;
    };
    save = λ cache. if cache.dirty then some null else none;
  };
}

abbrev in_repo : Violation
in_repo = record {
  rule_id = codes "A01";
  severity = warn;
  message = codes "m";
  dimension = quality;
  suggestion = none;
  location = none;
}

abbrev project_rule : Rule
project_rule = record {
  meta = rule.meta;
  check_project = λ project. in_repo ∷ [];
  check_file = λ ctx. [];
}

abbrev given : ProjectContext
given = record project {
  config = record project.config {
    baseline = some (codes "b.json");
    cache = record { enabled = false; path = [] };
    history = record { enabled = true; path = codes "h.json"; max_entries = 200 };
  };
}

abbrev path : FilePath
path = codes "/" ∷ codes "repo" ∷ codes "b.json" ∷ []

-- What a full scan finds, which the baseline's file holds.
abbrev known : List Violation
known = (found setting (project_rule ∷ []) given [] [] none).0

abbrev disk : Disk
disk =
    (
      path,
      save_baseline (codes "2026-01-01") (build_baseline setting.machine given.project_root known),
    )
    ∷ []

found_one : known ≡ in_repo ∷ []
unfolding open_cache detect_files detect project_violations compute_enabled_rule_ids token_ids
    text_eq lower strip upper apply_overrides replace_char
found_one = refl

known_IsSavable : IsSavable (build_baseline setting.machine given.project_root known)
unfolding open_cache detect_files detect project_violations compute_enabled_rule_ids token_ids
    text_eq lower strip upper apply_overrides replace_char build_baseline
known_IsSavable = (tt, ((refl, refl), tt))

disk-HoldsBaseline :
    HoldsBaseline setting
      (project_rule ∷ [])
      given
      []
      disk
      (codes "b.json")
      path
      (codes "2026-01-01")
unfolding resolve_project_file read_file open_cache texts_eq text_eq starts_with strip upper
    save_cache_file
disk-HoldsBaseline = (refl, refl, refl, refl)

audit_files-baseline_example :
    let summary = summarize milli setting.meta 0 [] (some given.config.scoring) in
    audit_files setting (project_rule ∷ []) given [] none true true disk ≡ (
      record_history_file setting given.project_root given.config.history true none summary
        (with_cache setting (project_rule ∷ []) given [] disk none)
      >>= λ after. done (summary, after))
unfolding open_cache
audit_files-baseline_example =
    audit_files-baseline setting (project_rule ∷ []) given [] disk (codes "b.json") path
      (codes "2026-01-01") true disk-HoldsBaseline known_IsSavable
