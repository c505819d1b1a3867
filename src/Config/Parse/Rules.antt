-- ===== src/Config/Parse/Rules.antt =====
-- The tables of rules: `_parse_rules_config` and its patch form.
use slopsentinel.Base.{
  Text, codes, text_eq, nat_eq, List, [], ◌∷◌, ◌++◌, Option, none, some, Bool, true, false, not,
  ◌||◌, ◌==◌, if◌then◌else◌, map, select, all, contains, is_nil, strip, replace_char, split_at,
}
use slopsentinel.Types.{Severity}
use slopsentinel.Json.{Json, nil, null, str, arr, obj, Fields, end, field, get}
use slopsentinel.Dict.{Dict, insert}
use slopsentinel.Registry.{is_rule_id}
use slopsentinel.Config.{RuleSpec, one, many, RuleOverride, RulesConfig, RulesConfigPatch}
use slopsentinel.Config.Groups.{rule_group}
use slopsentinel.Config.Enabled.{normalize_group, normalize_rule_id, spec_tokens}
use slopsentinel.Config.Parse.{
  Parsed, ok, config_error, ◌>>=◌, require, get_or, texts_of, validate_str_list, validate_severity,
}

-- `_split_rule_tokens`
unfoldable pub split_rule_tokens : Text → List Text
unfolding strip split_at replace_char
split_rule_tokens value =
    select (λ token. not (is_nil token)) (map strip (split_at b',' (replace_char b';' b',' value)))

-- `_split_rule_list`
unfoldable pub split_rule_list : List Text → List Text
unfolding split_rule_tokens
split_rule_list [] = []
split_rule_list (raw ∷ values) = split_rule_tokens raw ++ split_rule_list values

abbrev pub is_group : Option (List Text) → Bool
is_group none = false
is_group (some ids) = true

-- A token that `_validate_rule_tokens` accepts.
unfoldable pub token_known : Text → Bool
unfolding strip rule_group normalize_group normalize_rule_id is_rule_id text_eq
token_known token =
    let stripped = strip token in
    let group = normalize_group stripped in
    is_nil stripped
    || (group == codes "all" || is_group (rule_group group))
    || is_rule_id (normalize_rule_id stripped)

abbrev pub many_or : Text → Option (List Text) → Parsed RuleSpec
many_or at none = config_error at
many_or at (some values) = ok (many (split_rule_list values))

-- The value of `enable`
unfoldable pub parse_enable : Text → Json → Parsed RuleSpec
unfolding strip split_rule_tokens split_rule_list nat_eq
parse_enable at (str raw) =
    let stripped = strip raw in
    ok (
      if contains stripped b',' || contains stripped b';'
      then many (split_rule_tokens stripped)
      else one (if is_nil stripped then codes "all" else stripped))
parse_enable at (arr items) = many_or at (texts_of items)
parse_enable at _ = config_error at

-- The loop over the severity overrides
unfoldable pub parse_severities : Text → Fields → Dict Severity → Parsed (Dict Severity)
unfolding normalize_rule_id is_rule_id validate_severity insert
parse_severities at end overrides = ok overrides
parse_severities at (field raw_rule_id raw_severity rest) overrides =
    require (is_rule_id (normalize_rule_id raw_rule_id)) at (
      validate_severity at raw_severity >>= λ severity.
      parse_severities at rest (insert (normalize_rule_id raw_rule_id) severity overrides))

abbrev pub parse_severity_table : Text → Json → Parsed (Dict Severity)
parse_severity_table at null = ok []
parse_severity_table at (obj fs) = parse_severities at fs []
parse_severity_table at _ = config_error at

abbrev pub reserved_keys : List Text
reserved_keys =
    codes "enable" ∷ codes "disable" ∷ codes "severity_overrides" ∷ codes "severity-overrides" ∷ []

abbrev pub override_severity : Text → Option Json → Parsed RuleOverride
override_severity at none = ok (record { severity = none })
override_severity at (some null) = ok (record { severity = none })
override_severity at (some j) =
    validate_severity at j >>= λ severity. ok (record { severity = some severity })

-- The loop over the tables of single rules: a key of any other value is passed over.
unfoldable pub parse_overrides : Text → Fields → Dict RuleOverride → Parsed (Dict RuleOverride)
unfolding normalize_rule_id is_rule_id insert text_eq get validate_severity
parse_overrides at end overrides = ok overrides
parse_overrides at (field key (obj sub) rest) overrides =
    let skipped = parse_overrides at rest overrides in
    if contains reserved_keys key
    then skipped
    else require (is_rule_id (normalize_rule_id key)) at (
        override_severity at (get (codes "severity") sub) >>= λ override.
        parse_overrides at rest (insert (normalize_rule_id key) override overrides))
parse_overrides at (field key _ rest) overrides = parse_overrides at rest overrides

abbrev pub severity_item : Fields → Json
severity_item fs =
    get_or (codes "severity_overrides") fs (get_or (codes "severity-overrides") fs null)

abbrev pub default_rules : RulesConfig
default_rules = record {
  enable = one (codes "all");
  disable = [];
  overrides = [];
  severity_overrides = [];
}

-- `_parse_rules_config`
unfoldable pub parse_rules_config : Json → Parsed RulesConfig
unfolding get_or parse_enable validate_str_list split_rule_list token_known parse_severities
    parse_overrides
parse_rules_config null = ok default_rules
parse_rules_config (obj value) =
    parse_enable (codes "rules.enable") (get_or (codes "enable") value (str (codes "all")))
    >>= λ enable.
        validate_str_list (codes "rules.disable") (get_or (codes "disable") value (arr nil))
        >>= λ disable_raw. require (all token_known (spec_tokens enable)) (codes "rules.enable") (
            require (all token_known (split_rule_list disable_raw)) (codes "rules.disable") (
              parse_severity_table (codes "rules.severity_overrides") (severity_item value)
              >>= λ severities. parse_overrides (codes "rules") value [] >>= λ overrides.
                  ok (record {
                    enable = enable;
                    disable = split_rule_list disable_raw;
                    overrides = overrides;
                    severity_overrides = severities;
                  })))
parse_rules_config _ = config_error (codes "rules")

abbrev pub patch_enable : Text → Option Json → Parsed (Option RuleSpec)
patch_enable at none = ok none
patch_enable at (some j) = parse_enable at j >>= λ enable.
    require (all token_known (spec_tokens enable)) at (ok (some enable))

abbrev pub patch_disable : Text → Option Json → Parsed (Option (List Text))
patch_disable at none = ok none
patch_disable at (some j) = validate_str_list at j >>= λ raw.
    require (all token_known (split_rule_list raw)) at (ok (some (split_rule_list raw)))

abbrev pub has_key : Option Json → Bool
has_key none = false
has_key (some j) = true

abbrev pub patch_severities : Text → Fields → Parsed (Option (Dict Severity))
patch_severities at fs =
    if has_key (get (codes "severity_overrides") fs)
      || has_key (get (codes "severity-overrides") fs)
    then (parse_severity_table at (severity_item fs) >>= λ severities. ok (some severities))
    else ok none

abbrev pub none_if_empty : Dict RuleOverride → Option (Dict RuleOverride)
none_if_empty [] = none
none_if_empty (e ∷ d) = some (e ∷ d)

-- `_parse_rules_config_patch`
unfoldable pub parse_rules_config_patch : Text → Json → Parsed RulesConfigPatch
unfolding get get_or parse_enable validate_str_list split_rule_list token_known parse_severities
    parse_overrides
parse_rules_config_patch at null =
    ok (record { enable = none; disable = none; overrides = none; severity_overrides = none })
parse_rules_config_patch at (obj value) = patch_enable at (get (codes "enable") value) >>= λ enable.
    patch_disable at (get (codes "disable") value) >>= λ disable.
    patch_severities at value >>= λ severities. parse_overrides at value [] >>= λ overrides.
    ok (record {
      enable = enable;
      disable = disable;
      overrides = none_if_empty overrides;
      severity_overrides = severities;
    })
parse_rules_config_patch at _ = config_error at

-- `dict.update`
unfoldable pub update {ℓ} : {V : Type ℓ} → Dict V → Dict V → Dict V
unfolding insert
update d [] = d
update d ((k, v) ∷ new) = update (insert k v d) new

abbrev pub or_base {ℓ} : {A : Type ℓ} → Option A → A → A
or_base none a = a
or_base (some b) a = b

abbrev pub updated {ℓ} : {V : Type ℓ} → Dict V → Option (Dict V) → Dict V
updated d none = d
updated d (some new) = update d new

-- `_apply_rules_patch`
unfoldable pub apply_rules_patch : RulesConfig → RulesConfigPatch → RulesConfig
unfolding update
apply_rules_patch base patch = record {
  enable = or_base patch.enable base.enable;
  disable = or_base patch.disable base.disable;
  overrides = updated base.overrides patch.overrides;
  severity_overrides = updated base.severity_overrides patch.severity_overrides;
}
