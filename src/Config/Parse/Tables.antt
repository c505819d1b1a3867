-- ===== src/Config/Parse/Tables.antt =====
-- The other tables, and the whole configuration.
use slopsentinel.Base.{
  ℕ, Text, codes, text_eq, List, [], ◌∷◌, Option, none, some, Bool, false, if◌then◌else◌, contains,
  is_nil, strip, lower, ℤ, pos, leb,
}
use slopsentinel.Json.{Json, nil, null, bool, num, str, arr, obj, Fields, end, field, get, as_int}
use slopsentinel.Dict.{Dict, insert}
use slopsentinel.Scoring.Penalty.{ScoringConfig}
use slopsentinel.Config.{CacheConfig, HistoryConfig, SlopSentinelConfig}
use slopsentinel.Config.Parse.{
  Parsed, ok, config_error, ◌>>=◌, require, get_or, texts_of, validate_str_list,
}
use slopsentinel.Config.Parse.Rules.{default_rules, parse_rules_config}
use slopsentinel.Config.Parse.Overrides.{parse_directory_overrides}

-- `isinstance(value, bool)`
abbrev pub bool_field : Text → Json → Parsed Bool
bool_field at (bool b) = ok b
bool_field at _ = config_error at

abbrev pub text_field : Text → Json → Parsed Text
text_field at (str t) = ok t
text_field at _ = config_error at

abbrev pub natural_of : Text → Option ℤ → Parsed ℕ
natural_of at (some (pos n)) = ok n
natural_of at _ = config_error at

-- An integer of at least 0; a `bool` is an `int`.
abbrev pub natural_field : Text → Json → Parsed ℕ
natural_field at j = natural_of at (as_int j)

-- `path.strip() or default`
abbrev pub path_or : Text → Text → Text
path_or default path = let s = strip path in if is_nil s then default else s

abbrev pub cache_path : Text
cache_path = codes ".slopsentinel/cache.json"

abbrev pub history_path : Text
history_path = codes ".slopsentinel/history.json"

-- `_parse_ignore_config`
unfoldable pub parse_ignore_config : Json → Parsed (List Text)
unfolding get_or validate_str_list
parse_ignore_config null = ok []
parse_ignore_config (obj value) =
    validate_str_list (codes "ignore.paths") (get_or (codes "paths") value (arr nil))
parse_ignore_config _ = config_error (codes "ignore")

-- `_parse_baseline_path`
unfoldable pub parse_baseline_path : Json → Parsed (Option Text)
unfolding strip
parse_baseline_path null = ok none
parse_baseline_path (str value) =
    let path = strip value in ok (if is_nil path then none else some path)
parse_baseline_path _ = config_error (codes "baseline")

-- `_parse_cache_config`
unfoldable pub parse_cache_config : Json → Parsed CacheConfig
unfolding get_or strip
parse_cache_config null = ok (record { enabled = false; path = cache_path })
parse_cache_config (obj value) =
    bool_field (codes "cache.enabled") (get_or (codes "enabled") value (bool false)) >>= λ enabled.
    text_field (codes "cache.path") (get_or (codes "path") value (str cache_path)) >>= λ path.
    ok (record { enabled = enabled; path = path_or cache_path path })
parse_cache_config _ = config_error (codes "cache")

-- `_parse_history_config`
unfoldable pub parse_history_config : Json → Parsed HistoryConfig
unfolding get_or strip
parse_history_config null = ok (record { enabled = false; path = history_path; max_entries = 200 })
parse_history_config (obj value) =
    bool_field (codes "history.enabled") (get_or (codes "enabled") value (bool false))
    >>= λ enabled.
        text_field (codes "history.path") (get_or (codes "path") value (str history_path))
        >>= λ path.
            natural_field (codes "history.max-entries") (
              get_or (codes "max-entries") value
                (get_or (codes "max_entries") value (num (pos 200))))
            >>= λ max_entries. require (leb 1 max_entries) (codes "history.max-entries") (
                ok (record {
                  enabled = enabled;
                  path = path_or history_path path;
                  max_entries = max_entries;
                }))
parse_history_config _ = config_error (codes "history")

abbrev pub profiles : List Text
profiles = codes "default" ∷ codes "strict" ∷ codes "lenient" ∷ []

abbrev dimensions : List Text
dimensions =
    codes "fingerprint"
    ∷ codes "quality"
    ∷ codes "hallucination"
    ∷ codes "maintainability"
    ∷ codes "security"
    ∷ []

abbrev severities : List Text
severities = codes "info" ∷ codes "warn" ∷ codes "error" ∷ []

-- The loop over the severities of one dimension
unfoldable pub parse_dim_penalties : Fields → Dict ℕ → Parsed (Dict ℕ)
unfolding strip lower text_eq insert
parse_dim_penalties end penalties = ok penalties
parse_dim_penalties (field severity_key raw_value rest) penalties =
    let sev = lower (strip severity_key) in
    require (contains severities sev) (codes "scoring.penalties") (
      natural_field (codes "scoring.penalties") raw_value >>= λ n.
      parse_dim_penalties rest (insert sev n penalties))

abbrev parse_dim : Json → Parsed (Dict ℕ)
parse_dim (obj table) = parse_dim_penalties table []
parse_dim _ = config_error (codes "scoring.penalties")

-- The loop over the dimensions
unfoldable pub parse_penalties : Fields → Dict (Dict ℕ) → Parsed (Dict (Dict ℕ))
unfolding strip lower text_eq insert parse_dim_penalties
parse_penalties end penalties = ok penalties
parse_penalties (field dim_key dim_table rest) penalties =
    let dim = lower (strip dim_key) in
    require (contains dimensions dim) (codes "scoring.penalties")
      (parse_dim dim_table >>= λ table. parse_penalties rest (insert dim table penalties))

abbrev pub penalty_table : Json → Parsed (Dict (Dict ℕ))
penalty_table null = ok []
penalty_table (obj table) = parse_penalties table []
penalty_table _ = config_error (codes "scoring.penalties")

abbrev pub profile_of : Text → Text
profile_of raw = let s = lower (strip raw) in if is_nil s then codes "default" else s

-- `_parse_scoring_config`
unfoldable pub parse_scoring_config : Json → Parsed ScoringConfig
unfolding get_or strip lower text_eq parse_penalties
parse_scoring_config null = ok (record { profile = codes "default"; penalties = [] })
parse_scoring_config (obj value) =
    text_field (codes "scoring.profile") (get_or (codes "profile") value (str (codes "default")))
    >>= λ raw. require (contains profiles (profile_of raw)) (codes "scoring.profile") (
        penalty_table (
          get_or (codes "penalties") value (
            get_or (codes "severity-penalty") value (get_or (codes "severity_penalty") value null)))
        >>= λ penalties. ok (record { profile = profile_of raw; penalties = penalties }))
parse_scoring_config _ = config_error (codes "scoring")

abbrev default_languages : List Text
default_languages =
    codes "python"
    ∷ codes "typescript"
    ∷ codes "javascript"
    ∷ codes "go"
    ∷ codes "rust"
    ∷ codes "java"
    ∷ codes "kotlin"
    ∷ codes "ruby"
    ∷ codes "php"
    ∷ []

abbrev languages_or : Option (List Text) → Parsed (List Text)
languages_or none = config_error (codes "languages")
languages_or (some ts) = ok ts

-- Kept as they are written.
abbrev pub languages_field : Option Json → Parsed (List Text)
languages_field none = ok default_languages
languages_field (some (arr items)) = languages_or (texts_of items)
languages_field (some _) = config_error (codes "languages")

-- `_parse_slopsentinel_table`
unfoldable pub parse_slopsentinel_table : Fields → Parsed SlopSentinelConfig
unfolding get get_or
parse_slopsentinel_table table =
    natural_field (codes "threshold") (get_or (codes "threshold") table (num (pos 60)))
    >>= λ threshold. require (leb threshold 100) (codes "threshold") (
        bool_field (codes "fail-on-slop")
          (get_or (codes "fail-on-slop") table (get_or (codes "fail_on_slop") table (bool false)))
        >>= λ fail_on_slop. languages_field (get (codes "languages") table) >>= λ languages.
            parse_rules_config (get_or (codes "rules") table (obj end)) >>= λ rules.
            parse_directory_overrides rules (get_or (codes "overrides") table (obj end))
            >>= λ directory_overrides.
                parse_ignore_config (get_or (codes "ignore") table (obj end)) >>= λ ignore_paths.
                parse_baseline_path (get_or (codes "baseline") table null) >>= λ baseline.
                parse_cache_config (get_or (codes "cache") table (obj end)) >>= λ cache.
                parse_history_config (get_or (codes "history") table (obj end)) >>= λ history.
                parse_scoring_config (get_or (codes "scoring") table (obj end)) >>= λ scoring.
                validate_str_list (codes "plugins") (get_or (codes "plugins") table (arr nil))
                >>= λ plugins. ok (record {
                  threshold = threshold;
                  fail_on_slop = fail_on_slop;
                  languages = languages;
                  rules = rules;
                  directory_overrides = directory_overrides;
                  ignore_paths = ignore_paths;
                  baseline = baseline;
                  cache = cache;
                  history = history;
                  scoring = scoring;
                  plugins = plugins;
                }))

abbrev pub default_config : SlopSentinelConfig
default_config = record {
  threshold = 60;
  fail_on_slop = false;
  languages = default_languages;
  rules = default_rules;
  directory_overrides = [];
  ignore_paths = [];
  baseline = none;
  cache = record { enabled = false; path = cache_path };
  history = record { enabled = false; path = history_path; max_entries = 200 };
  scoring = record { profile = codes "default"; penalties = [] };
  plugins = [];
}

abbrev pub of_table : Json → Parsed SlopSentinelConfig
of_table (obj (field key value rest)) = parse_slopsentinel_table (field key value rest)
of_table _ = ok default_config

abbrev pub of_tool : Json → Parsed SlopSentinelConfig
of_tool (obj tool) = of_table (get_or (codes "slopsentinel") tool (obj end))
of_tool _ = ok default_config

-- `load_config`: `none` is a file that does not exist, `some none` one that is no TOML.
unfoldable pub load_config : Option (Option Fields) → Parsed SlopSentinelConfig
unfolding get_or parse_slopsentinel_table
load_config none = ok default_config
load_config (some none) = config_error (codes "pyproject.toml")
load_config (some (some content)) = of_tool (get_or (codes "tool") content (obj end))
