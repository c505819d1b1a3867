-- ===== src/Config/Parse/Ids.antt =====
-- The tokens and the rule ids of the rules that parsing accepts.
use slopsentinel.Base.{
  Text, text_eq, List, [], ◌∷◌, ◌++◌, Bool, true, false, ◌&&◌, ◌||◌, not, if◌then◌else◌, all, All,
  select, map, is_nil, strip, split_at, replace_char, contains, codes, nat_eq, Option, none, some,
  ◌≡◌, refl, subst, arith,
}
use slopsentinel.Types.{Severity}
use slopsentinel.Config.{RuleSpec, one, many, RuleOverride}
use slopsentinel.Config.Enabled.{spec_tokens, normalize_rule_id}
use slopsentinel.Config.Parse.{ok, ◌>>=◌, require, texts_of}
use slopsentinel.Config.Parse.Outcomes.{not_error, ok_injective, bind_ok, require_ok}
use slopsentinel.Config.Parse.Rules.{
  token_known, split_rule_tokens, split_rule_list, parse_enable, parse_severities,
  parse_severity_table, parse_overrides, override_severity, reserved_keys, many_or, update,
}
use slopsentinel.Registry.{is_rule_id}
use slopsentinel.Dict.{Dict, insert}
use slopsentinel.Json.{Json, null, bool, num, float, str, arr, obj, Fields, end, field, get}

abbrev pub named : Text → Bool
named token = not (is_nil token)

-- A token that is not empty and stands for a group or a rule id.
abbrev pub is_token : Text → Bool
is_token token = named token && token_known token

abbrev pub HasRuleIds : {V : Type 0} → Dict V → Type 0
HasRuleIds d = All (λ e. is_rule_id e.0 ≡ true) d

pub all-is_token :
    (ts : List Text) → all named ts ≡ true → all token_known ts ≡ true → all is_token ts ≡ true
all-is_token [] h k = refl
all-is_token (t ∷ ts) h k = ground (arith, all-is_token ts)

all-select : (ts : List Text) → all named (select named ts) ≡ true
all-select [] = refl
all-select (t ∷ ts) = ground (arith, all-select ts)

all-append :
    (ts us : List Text) → all named ts ≡ true → all named us ≡ true → all named (ts ++ us) ≡ true
all-append [] us h k = k
all-append (t ∷ ts) us h k = ground (arith, all-append ts us)

tokens-named : (value : Text) → all named (split_rule_tokens value) ≡ true
unfolding split_rule_tokens
tokens-named value = all-select (map strip (split_at b',' (replace_char b';' b',' value)))

pub list-named : (values : List Text) → all named (split_rule_list values) ≡ true
unfolding split_rule_list
list-named [] = refl
list-named (raw ∷ values) =
    all-append (split_rule_tokens raw) (split_rule_list values) (tokens-named raw)
      (list-named values)

either :
    (several : Bool) (ts : List Text) (t : Text)
    → all named ts ≡ true
    → named t ≡ true
    → all named (spec_tokens (if several then many ts else one t)) ≡ true
either true ts t h k = h
either false ts t h k = rw k refl

or_all-named : (s : Text) → named (if is_nil s then codes "all" else s) ≡ true
or_all-named [] = refl
or_all-named (c ∷ s) = refl

many-named :
    (at : Text) (o : Option (List Text)) (spec : RuleSpec)
    → many_or at o ≡ ok spec
    → all named (spec_tokens spec) ≡ true
many-named at none spec p = absurd (not_error _ _ p)
many-named at (some values) spec p =
    subst (λ e. all named (spec_tokens e) ≡ true) (ok_injective _ _ p) (list-named values)

pub enable-named :
    (at : Text) (j : Json) (spec : RuleSpec)
    → parse_enable at j ≡ ok spec
    → all named (spec_tokens spec) ≡ true
unfolding parse_enable
enable-named at (str raw) spec p =
    let s = strip raw in
    subst (λ e. all named (spec_tokens e) ≡ true) (ok_injective _ _ p)
      (either (contains s b',' || contains s b';') _ _ (tokens-named s) (or_all-named s))
enable-named at (arr items) spec p = many-named at (texts_of items) spec p
enable-named at null spec p = absurd (not_error _ _ p)
enable-named at (bool b) spec p = absurd (not_error _ _ p)
enable-named at (num n) spec p = absurd (not_error _ _ p)
enable-named at (float n) spec p = absurd (not_error _ _ p)
enable-named at (obj fs) spec p = absurd (not_error _ _ p)

module _ {V : Type 0} where
  insert-HasRuleIds :
      (k : Text) (v : V) (d : Dict V)
      → is_rule_id k ≡ true
      → HasRuleIds d
      → HasRuleIds (insert k v d)
  unfolding insert
  insert-HasRuleIds k v [] h hs = (h, tt)
  insert-HasRuleIds k v ((j, w) ∷ d) h (g, hs) = ground (arith, insert-HasRuleIds k v d h hs)

  pub update-HasRuleIds :
      (d new : Dict V) → HasRuleIds d → HasRuleIds new → HasRuleIds (update d new)
  unfolding update
  update-HasRuleIds d [] h k = h
  update-HasRuleIds d ((j, w) ∷ new) h (k, ks) =
      update-HasRuleIds (insert j w d) new (insert-HasRuleIds j w d k h) ks

severities-HasRuleIds :
    (at : Text) (fs : Fields) (acc out : Dict Severity)
    → HasRuleIds acc
    → parse_severities at fs acc ≡ ok out
    → HasRuleIds out
unfolding parse_severities
severities-HasRuleIds at end acc out h p = subst HasRuleIds (ok_injective _ _ p) h
severities-HasRuleIds at (field raw j rest) acc out h p =
    let (id, p1) = require_ok _ _ _ _ p in
    let (severity, _, p2) = bind_ok _ _ _ p1 in
    severities-HasRuleIds at rest _ out (insert-HasRuleIds _ severity acc id h) p2

pub table-HasRuleIds :
    (at : Text) (j : Json) (out : Dict Severity)
    → parse_severity_table at j ≡ ok out
    → HasRuleIds out
table-HasRuleIds at null out p = subst HasRuleIds (ok_injective _ _ p) tt
table-HasRuleIds at (obj fs) out p = severities-HasRuleIds at fs [] out tt p
table-HasRuleIds at (bool b) out p = absurd (not_error _ _ p)
table-HasRuleIds at (num n) out p = absurd (not_error _ _ p)
table-HasRuleIds at (float n) out p = absurd (not_error _ _ p)
table-HasRuleIds at (str t) out p = absurd (not_error _ _ p)
table-HasRuleIds at (arr items) out p = absurd (not_error _ _ p)

pub overrides-HasRuleIds :
    (at : Text) (fs : Fields) (acc out : Dict RuleOverride)
    → HasRuleIds acc
    → parse_overrides at fs acc ≡ ok out
    → HasRuleIds out
unfolding parse_overrides
overrides-HasRuleIds at end acc out h p = subst HasRuleIds (ok_injective _ _ p) h
overrides-HasRuleIds at (field key null rest) acc out h p = overrides-HasRuleIds at rest acc out h p
overrides-HasRuleIds at (field key (bool b) rest) acc out h p =
    overrides-HasRuleIds at rest acc out h p
overrides-HasRuleIds at (field key (num n) rest) acc out h p =
    overrides-HasRuleIds at rest acc out h p
overrides-HasRuleIds at (field key (float n) rest) acc out h p =
    overrides-HasRuleIds at rest acc out h p
overrides-HasRuleIds at (field key (str t) rest) acc out h p =
    overrides-HasRuleIds at rest acc out h p
overrides-HasRuleIds at (field key (arr items) rest) acc out h p =
    overrides-HasRuleIds at rest acc out h p
overrides-HasRuleIds at (field key (obj sub) rest) acc out h p =
    go (contains reserved_keys key) (λ a g q. overrides-HasRuleIds at rest a out g q) p
  where
    go :
        (reserved : Bool)
        → ((a : Dict RuleOverride)
            → HasRuleIds a
            → parse_overrides at rest a ≡ ok out
            → HasRuleIds out)
        → (if reserved
            then parse_overrides at rest acc
            else require (is_rule_id (normalize_rule_id key)) at (
                override_severity at (get (codes "severity") sub) >>= λ override.
                parse_overrides at rest (insert (normalize_rule_id key) override acc)))
          ≡ ok out
        → HasRuleIds out
    go true later p = later acc h p
    go false later p =
        let (id, p1) = require_ok _ _ _ _ p in
        let (override, _, p2) = bind_ok _ _ _ p1 in
        later _ (insert-HasRuleIds _ override acc id h) p2
