-- ===== src/Config/Parse/Valid.antt =====
-- What holds of a configuration that parsing accepts.
pub mod Prefixes
pub mod Whole
use slopsentinel.Base.{
  codes, ◌||◌, if◌then◌else◌, Text, List, [], ◌∷◌, Bool, true, false, ◌≡◌, ◌≢◌, refl, sym, ap,
  subst, all, Option, none, some,
}
use slopsentinel.Config.{RuleOverride, RuleSpec, RulesConfig, RulesConfigPatch}
use slopsentinel.Config.Enabled.{spec_tokens}
use slopsentinel.Config.Parse.{get_or, Parsed, ok, config_error, ◌>>=◌, require}
use slopsentinel.Config.Parse.Outcomes.{not_error, ok_injective, bind_ok, require_ok}
use slopsentinel.Config.Parse.Ids.{
  is_token, HasRuleIds, all-is_token, enable-named, list-named, update-HasRuleIds, table-HasRuleIds,
  overrides-HasRuleIds,
}
use slopsentinel.Dict.{Dict}
use slopsentinel.Types.{Severity}
use slopsentinel.Config.Parse.Rules.{
  patch_severities, has_key, severity_item, parse_severity_table, none_if_empty, updated,
  token_known, parse_rules_config, parse_rules_config_patch, apply_rules_patch, patch_enable,
  patch_disable, or_base, split_rule_list,
}
use slopsentinel.Json.{Json, null, bool, num, float, str, arr, obj, Fields, get}

-- Every token of the rules is not empty and stands for a group or a rule id, and what is said of
-- single rules is said of rule ids.
abbrev pub AreKnown : RulesConfig → Type 0
AreKnown rules =
    (all is_token (spec_tokens rules.enable) ≡ true)
    × (all is_token rules.disable ≡ true)
    × HasRuleIds rules.overrides
    × HasRuleIds rules.severity_overrides

pub parse_rules_config-AreKnown :
    (j : Json) (rules : RulesConfig) → parse_rules_config j ≡ ok rules → AreKnown rules
unfolding parse_rules_config token_known
parse_rules_config-AreKnown null rules p = subst AreKnown (ok_injective _ _ p) (refl, refl, tt, tt)
parse_rules_config-AreKnown (obj value) rules p =
    let (enable, e, p1) = bind_ok _ _ _ p in
    let (disable, _, p2) = bind_ok _ _ _ p1 in
    let (known, p3) = require_ok _ _ _ _ p2 in
    let (known', p4) = require_ok _ _ _ _ p3 in
    let (severities, s, p5) = bind_ok _ _ _ p4 in
    let (overrides, o, p6) = bind_ok _ _ _ p5 in
    subst AreKnown (ok_injective _ _ p6) (
      all-is_token (spec_tokens enable)
          (enable-named (codes "rules.enable") (get_or (codes "enable") value (str (codes "all")))
            enable e)
          known,
      all-is_token (split_rule_list disable) (list-named disable) known',
      overrides-HasRuleIds _ value [] overrides tt o,
      table-HasRuleIds _ _ severities s,
    )
parse_rules_config-AreKnown (bool b) rules p = absurd (not_error _ _ p)
parse_rules_config-AreKnown (num n) rules p = absurd (not_error _ _ p)
parse_rules_config-AreKnown (float n) rules p = absurd (not_error _ _ p)
parse_rules_config-AreKnown (str t) rules p = absurd (not_error _ _ p)
parse_rules_config-AreKnown (arr items) rules p = absurd (not_error _ _ p)

abbrev pub IsKnownSpec : Option RuleSpec → Type 0
IsKnownSpec none = Unit
IsKnownSpec (some spec) = all is_token (spec_tokens spec) ≡ true

abbrev pub IsKnownList : Option (List Text) → Type 0
IsKnownList none = Unit
IsKnownList (some tokens) = all is_token tokens ≡ true

abbrev IsKnownDict : {V : Type 0} → Option (Dict V) → Type 0
IsKnownDict none = Unit
IsKnownDict (some d) = HasRuleIds d

patch_enable-known :
    (at : Text) (o : Option Json) (e : Option RuleSpec) → patch_enable at o ≡ ok e → IsKnownSpec e
patch_enable-known at none e p = subst IsKnownSpec (ok_injective _ _ p) tt
patch_enable-known at (some j) e p =
    let (enable, parsed, p1) = bind_ok _ _ _ p in
    let (known, p2) = require_ok _ _ _ _ p1 in
    subst IsKnownSpec (ok_injective _ _ p2)
      (all-is_token (spec_tokens enable) (enable-named at j enable parsed) known)

patch_disable-known :
    (at : Text) (o : Option Json) (e : Option (List Text))
    → patch_disable at o ≡ ok e
    → IsKnownList e
patch_disable-known at none e p = subst IsKnownList (ok_injective _ _ p) tt
patch_disable-known at (some j) e p =
    let (raw, _, p1) = bind_ok _ _ _ p in
    let (known, p2) = require_ok _ _ _ _ p1 in
    subst IsKnownList (ok_injective _ _ p2)
      (all-is_token (split_rule_list raw) (list-named raw) known)

patch_severities-known :
    (at : Text) (fs : Fields) (s : Option (Dict Severity))
    → patch_severities at fs ≡ ok s
    → IsKnownDict s
patch_severities-known at fs s p =
    go
      (has_key (get (codes "severity_overrides") fs)
        || has_key (get (codes "severity-overrides") fs))
      p
  where
    go :
        (given : Bool)
        → (if given
            then (parse_severity_table at (severity_item fs) >>= λ severities. ok (some severities))
            else ok none)
          ≡ ok s
        → IsKnownDict s
    go true p =
        let (severities, parsed, p1) = bind_ok _ _ _ p in
        subst IsKnownDict (ok_injective _ _ p1) (table-HasRuleIds at _ severities parsed)
    go false p = subst IsKnownDict (ok_injective _ _ p) tt

overrides-known : (d : Dict RuleOverride) → HasRuleIds d → IsKnownDict (none_if_empty d)
overrides-known [] h = tt
overrides-known (e ∷ d) h = h

abbrev IsKnownPatch : RulesConfigPatch → Type 0
IsKnownPatch patch =
    IsKnownSpec patch.enable
    × IsKnownList patch.disable
    × IsKnownDict patch.overrides
    × IsKnownDict patch.severity_overrides

parse_patch-known :
    (at : Text) (j : Json) (patch : RulesConfigPatch)
    → parse_rules_config_patch at j ≡ ok patch
    → IsKnownPatch patch
unfolding parse_rules_config_patch
parse_patch-known at null patch p = subst IsKnownPatch (ok_injective _ _ p) (tt, tt, tt, tt)
parse_patch-known at (obj value) patch p =
    let (enable, e, p1) = bind_ok _ _ _ p in
    let (disable, d, p2) = bind_ok _ _ _ p1 in
    let (severities, s, p3) = bind_ok _ _ _ p2 in
    let (overrides, o, p4) = bind_ok _ _ _ p3 in
    subst IsKnownPatch (ok_injective _ _ p4) (
      patch_enable-known at _ enable e,
      patch_disable-known at _ disable d,
      overrides-known overrides (overrides-HasRuleIds at value [] overrides tt o),
      patch_severities-known at value severities s,
    )
parse_patch-known at (bool b) patch p = absurd (not_error _ _ p)
parse_patch-known at (num n) patch p = absurd (not_error _ _ p)
parse_patch-known at (float n) patch p = absurd (not_error _ _ p)
parse_patch-known at (str t) patch p = absurd (not_error _ _ p)
parse_patch-known at (arr items) patch p = absurd (not_error _ _ p)

spec_or_base :
    (o : Option RuleSpec) (spec : RuleSpec)
    → IsKnownSpec o
    → all is_token (spec_tokens spec) ≡ true
    → all is_token (spec_tokens (or_base o spec)) ≡ true
spec_or_base none spec h k = k
spec_or_base (some s) spec h k = h

list_or_base :
    (o : Option (List Text)) (tokens : List Text)
    → IsKnownList o
    → all is_token tokens ≡ true
    → all is_token (or_base o tokens) ≡ true
list_or_base none tokens h k = k
list_or_base (some s) tokens h k = h

dict_updated :
    {V : Type 0} (d : Dict V) (o : Option (Dict V))
    → HasRuleIds d
    → IsKnownDict o
    → HasRuleIds (updated d o)
dict_updated d none h k = h
dict_updated d (some new) h k = update-HasRuleIds d new h k

-- Rules of a directory, made from known rules and an accepted patch, are known.
pub apply_rules_patch-AreKnown :
    (at : Text) (j : Json) (base : RulesConfig) (patch : RulesConfigPatch)
    → AreKnown base
    → parse_rules_config_patch at j ≡ ok patch
    → AreKnown (apply_rules_patch base patch)
unfolding apply_rules_patch
apply_rules_patch-AreKnown at j base patch (e, d, o, s) p =
    let (ep, dp, op, sp) = parse_patch-known at j patch p in
    (
      spec_or_base patch.enable base.enable ep e,
      list_or_base patch.disable base.disable dp d,
      dict_updated base.overrides patch.overrides o op,
      dict_updated base.severity_overrides patch.severity_overrides s sp,
    )
