-- ===== src/Config/Parse/Overrides.antt =====
-- The overrides of directories: their prefixes, and the rules of each.
use slopsentinel.Base.{
  Text, codes, text_eq, nat_eq, [], ◌++◌, Option, none, some, Bool, true, false, not, if◌then◌else◌,
  contains, is_nil, strip, replace_char, starts_with, ends_with, drop,
}
use slopsentinel.Json.{Json, null, obj, Fields, end, field, get}
use slopsentinel.Dict.{Dict, lookup, insert}
use slopsentinel.Cache.{parse_path}
use slopsentinel.Config.{RulesConfig}
use slopsentinel.Config.Parse.{Parsed, ok, config_error, ◌>>=◌, require}
use slopsentinel.Config.Parse.Rules.{parse_rules_config_patch, apply_rules_patch}

-- `_normalize_override_prefix`
unfoldable pub normalize_override_prefix : Text → Text → Parsed Text
unfolding strip replace_char starts_with ends_with parse_path text_eq
normalize_override_prefix at value =
    let slashed = replace_char b'\\' b'/' (strip value) in
    let prefix = if starts_with slashed (codes "./") then drop 2 slashed else slashed in
    require (not (starts_with prefix (codes "/"))) at (
      require (not (is_nil prefix)) at (
        require (not (contains (parse_path prefix) (codes ".."))) at
          (ok (if not (ends_with prefix (codes "/")) then prefix ++ codes "/" else prefix))))

abbrev pub is_new : Option RulesConfig → Bool
is_new none = true
is_new (some r) = false

abbrev pub parse_prefix :
    RulesConfig
    → Text
    → Json
    → Dict RulesConfig
    → (Dict RulesConfig → Parsed (Dict RulesConfig))
    → Parsed (Dict RulesConfig)
parse_prefix base raw_prefix rules_table out rest =
    normalize_override_prefix raw_prefix raw_prefix >>= λ prefix.
    require (is_new (lookup prefix out)) raw_prefix (
      parse_rules_config_patch raw_prefix rules_table >>= λ patch.
      rest (insert prefix (apply_rules_patch base patch) out))

abbrev pub parse_entry :
    RulesConfig
    → Text
    → Option Json
    → Dict RulesConfig
    → (Dict RulesConfig → Parsed (Dict RulesConfig))
    → Parsed (Dict RulesConfig)
parse_entry base raw_prefix none out rest = rest out
parse_entry base raw_prefix (some null) out rest = rest out
parse_entry base raw_prefix (some j) out rest = parse_prefix base raw_prefix j out rest

-- The loop over the override tables
unfoldable pub parse_prefixes : RulesConfig → Fields → Dict RulesConfig → Parsed (Dict RulesConfig)
unfolding get normalize_override_prefix lookup insert parse_rules_config_patch apply_rules_patch
parse_prefixes base end out = ok out
parse_prefixes base (field raw_prefix (obj raw_table) rest) out =
    parse_entry base raw_prefix (get (codes "rules") raw_table) out (parse_prefixes base rest)
parse_prefixes base (field raw_prefix _ rest) out = config_error raw_prefix

-- `_parse_directory_overrides`
unfoldable pub parse_directory_overrides : RulesConfig → Json → Parsed (Dict RulesConfig)
unfolding parse_prefixes
parse_directory_overrides base null = ok []
parse_directory_overrides base (obj value) = parse_prefixes base value []
parse_directory_overrides base _ = config_error (codes "overrides")
