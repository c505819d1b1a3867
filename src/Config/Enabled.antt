-- ===== src/Config/Enabled.antt =====
-- `compute_enabled_rule_ids` of src/slopsentinel/config.py, and what it selects.
use slopsentinel.Base.{
  Text, codes, text_eq, List, [], ◌∷◌, ◌++◌, Option, none, some, Bool, not, ◌&&◌, ◌||◌, ◌≡◌, refl,
  arith, if◌then◌else◌, ◌==◌, contains, contains-append, contains-select, select, any, strip, lower,
  upper, replace_char,
}
use slopsentinel.Config.{RuleSpec, one, many, RulesConfig}
use slopsentinel.Config.Groups.{all_ids, rule_group}

-- `_normalize_group`
unfoldable pub normalize_group : Text → Text
normalize_group value = replace_char b'-' b'_' (lower (strip value))

-- `_normalize_rule_id`
unfoldable pub normalize_rule_id : Text → Text
normalize_rule_id value = upper (strip value)

-- `available if available is not None else DEFAULT_RULE_GROUPS["all"]`
abbrev pub or_all : Option (List Text) → List Text
or_all none = all_ids
or_all (some ids) = ids

-- The ids that one token adds or removes: all of them, those of a group, or one.
unfoldable pub token_ids : Option (List Text) → Text → List Text
unfolding rule_group normalize_group normalize_rule_id
token_ids available token =
    let stripped = strip token in
    let group = normalize_group stripped in
    if group == codes "all"
    then or_all available
    else elim (rule_group group) [ some ids ↦ ids | none ↦ normalize_rule_id stripped ∷ [] ]

-- The loop over `rules.enable`.
unfoldable pub enable_tokens : Option (List Text) → List Text → List Text → List Text
enable_tokens available [] enabled = enabled
enable_tokens available (token ∷ tokens) enabled =
    enable_tokens available tokens (enabled ++ token_ids available token)

-- The loop over `rules.disable`.
unfoldable pub disable_tokens : Option (List Text) → List Text → List Text → List Text
disable_tokens available [] enabled = enabled
disable_tokens available (token ∷ tokens) enabled =
    disable_tokens available tokens
      (select (λ id. not (contains (token_ids available token) id)) enabled)

abbrev pub spec_tokens : RuleSpec → List Text
spec_tokens (one token) = token ∷ []
spec_tokens (many tokens) = tokens

-- `enabled.intersection_update(available)`
abbrev intersect : Option (List Text) → List Text → List Text
intersect none ids = ids
intersect (some available) ids = select (contains available) ids

unfoldable pub compute_enabled_rule_ids : RulesConfig → Option (List Text) → List Text
unfolding enable_tokens disable_tokens
compute_enabled_rule_ids rules available =
    intersect available (
      disable_tokens available rules.disable
        (enable_tokens available (spec_tokens rules.enable) []))

-- A rule is selected by a list of tokens if one of them stands for it.
abbrev pub is_selected : Option (List Text) → List Text → Text → Bool
is_selected available tokens id = any (λ token. contains (token_ids available token) id) tokens

contains-enable_tokens :
    (available : Option (List Text)) (tokens enabled : List Text) (id : Text)
    → contains (enable_tokens available tokens enabled) id
      ≡ (contains enabled id || is_selected available tokens id)
unfolding enable_tokens
contains-enable_tokens available [] enabled id = ground arith
contains-enable_tokens available (t ∷ ts) enabled id = ground (
  arith,
  contains-enable_tokens available ts (enabled ++ token_ids available t) id,
  contains-append enabled (token_ids available t) id,
)

contains-disable_tokens :
    (available : Option (List Text)) (tokens enabled : List Text) (id : Text)
    → contains (disable_tokens available tokens enabled) id
      ≡ (contains enabled id && not (is_selected available tokens id))
unfolding disable_tokens
contains-disable_tokens available [] enabled id = ground arith
contains-disable_tokens available (t ∷ ts) enabled id = ground (
  arith,
  contains-disable_tokens available ts
      (select (λ id. not (contains (token_ids available t) id)) enabled) id,
  contains-select (λ id. not (contains (token_ids available t) id)) enabled id,
)

-- For a given set of available rules, a rule is enabled exactly if it is available, a token of
-- `enable` stands for it and no token of `disable` does.
pub enabled_exactly :
    (rules : RulesConfig) (available : List Text) (id : Text)
    → contains (compute_enabled_rule_ids rules (some available)) id ≡ (
        contains available id
        && (is_selected (some available) (spec_tokens rules.enable) id
            && not (is_selected (some available) rules.disable id)))
unfolding compute_enabled_rule_ids
enabled_exactly rules available id =
    rw (contains-select, contains-disable_tokens, contains-enable_tokens) refl
