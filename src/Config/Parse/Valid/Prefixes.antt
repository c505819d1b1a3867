-- ===== src/Config/Parse/Valid/Prefixes.antt =====
-- The keys of the directory overrides.
use slopsentinel.Base.{
  Text, codes, text_eq, [], ◌∷◌, ◌++◌, Bool, true, false, not, ==_refl, if◌then◌else◌, ◌≡◌, subst,
  All, Option, none, some, starts_with, ends_with, is_nil, arith, Bool-cases, inl, inr,
}
use slopsentinel.Json.{Json, null, bool, num, float, str, arr, obj, Fields, end, field}
use slopsentinel.Dict.{Dict, insert}
use slopsentinel.Config.{RulesConfig}
use slopsentinel.Config.Parse.{Parsed, ok}
use slopsentinel.Config.Parse.Rules.{apply_rules_patch}
use slopsentinel.Config.Parse.Overrides.{
  normalize_override_prefix, parse_prefixes, parse_entry, parse_prefix, parse_directory_overrides,
}
use slopsentinel.Config.Parse.Outcomes.{not_error, ok_injective, bind_ok, require_ok}
use slopsentinel.Config.Parse.Valid.{AreKnown, apply_rules_patch-AreKnown}

ends_with-append : (s : Text) → ends_with (s ++ codes "/") (codes "/") ≡ true
unfolding ends_with
ends_with-append [] = ground (arith, ==_refl (codes "/"))
ends_with-append (c ∷ s) = ground (arith, ends_with-append s)

starts_with-append :
    (s : Text)
    → is_nil s ≡ false
    → starts_with s (codes "/") ≡ false
    → starts_with (s ++ codes "/") (codes "/") ≡ false
unfolding starts_with
starts_with-append [] n h = ground arith
starts_with-append (c ∷ s) n h = h

-- A relative prefix that names a directory.
abbrev pub IsPrefix : Text → Type 0
IsPrefix prefix = (starts_with prefix (codes "/") ≡ false) × (ends_with prefix (codes "/") ≡ true)

with_slash-IsPrefix :
    (s : Text)
    → is_nil s ≡ false
    → starts_with s (codes "/") ≡ false
    → IsPrefix (if not (ends_with s (codes "/")) then s ++ codes "/" else s)
with_slash-IsPrefix s n h = elim (Bool-cases (ends_with s (codes "/"))) [
  | inl e ↦ rw e (h, e)
  | inr e ↦ rw e (starts_with-append s n h, ends_with-append s)
]

not-true : (b : Bool) → not b ≡ true → b ≡ false
not-true b h = ground arith

-- Whatever the key, `_normalize_override_prefix` refuses it or gives a relative prefix that ends
-- with a slash.
pub normalize_override_prefix-IsPrefix :
    (at value prefix : Text) → normalize_override_prefix at value ≡ ok prefix → IsPrefix prefix
unfolding normalize_override_prefix
normalize_override_prefix-IsPrefix at value prefix p =
    let (relative, p1) = require_ok _ _ _ _ p in
    let (not_empty, p2) = require_ok _ _ _ _ p1 in
    let (inside, p3) = require_ok _ _ _ _ p2 in
    subst IsPrefix (ok_injective _ _ p3)
      (with_slash-IsPrefix _ (not-true _ not_empty) (not-true _ relative))

abbrev pub AreOverrides : Dict RulesConfig → Type 0
AreOverrides = All (λ e. IsPrefix e.0 × AreKnown e.1)

All-insert :
    (P : Text × RulesConfig → Type 0) (k : Text) (v : RulesConfig) (d : Dict RulesConfig)
    → P (k, v)
    → All P d
    → All P (insert k v d)
unfolding insert
All-insert P k v [] h hs = (h, tt)
All-insert P k v ((j, w) ∷ d) h (g, hs) = ground (arith, All-insert P k v d h hs)

parse_prefix-AreOverrides :
    (base : RulesConfig) (raw : Text) (j : Json) (out overrides : Dict RulesConfig)
    (rest : Dict RulesConfig → Parsed (Dict RulesConfig))
    → AreKnown base
    → AreOverrides out
    → ((d : Dict RulesConfig) → AreOverrides d → rest d ≡ ok overrides → AreOverrides overrides)
    → parse_prefix base raw j out rest ≡ ok overrides
    → AreOverrides overrides
parse_prefix-AreOverrides base raw j out overrides rest known h later p =
    let (prefix, e, p1) = bind_ok _ _ _ p in
    let (fresh, p2) = require_ok _ _ _ _ p1 in
    let (patch, accepted, p3) = bind_ok _ _ _ p2 in
    later (insert prefix (apply_rules_patch base patch) out)
      (All-insert _ prefix (apply_rules_patch base patch) out
        (
          normalize_override_prefix-IsPrefix raw raw prefix e,
          apply_rules_patch-AreKnown raw j base patch known accepted,
        )
        h)
      p3

parse_entry-AreOverrides :
    (base : RulesConfig) (raw : Text) (o : Option Json) (out overrides : Dict RulesConfig)
    (rest : Dict RulesConfig → Parsed (Dict RulesConfig))
    → AreKnown base
    → AreOverrides out
    → ((d : Dict RulesConfig) → AreOverrides d → rest d ≡ ok overrides → AreOverrides overrides)
    → parse_entry base raw o out rest ≡ ok overrides
    → AreOverrides overrides
parse_entry-AreOverrides base raw none out overrides rest known h later p = later out h p
parse_entry-AreOverrides base raw (some null) out overrides rest known h later p = later out h p
parse_entry-AreOverrides base raw (some (obj fs)) out overrides rest known h later p =
    parse_prefix-AreOverrides base raw (obj fs) out overrides rest known h later p
parse_entry-AreOverrides base raw (some (bool b)) out overrides rest known h later p =
    parse_prefix-AreOverrides base raw (bool b) out overrides rest known h later p
parse_entry-AreOverrides base raw (some (num n)) out overrides rest known h later p =
    parse_prefix-AreOverrides base raw (num n) out overrides rest known h later p
parse_entry-AreOverrides base raw (some (float n)) out overrides rest known h later p =
    parse_prefix-AreOverrides base raw (float n) out overrides rest known h later p
parse_entry-AreOverrides base raw (some (str t)) out overrides rest known h later p =
    parse_prefix-AreOverrides base raw (str t) out overrides rest known h later p
parse_entry-AreOverrides base raw (some (arr items)) out overrides rest known h later p =
    parse_prefix-AreOverrides base raw (arr items) out overrides rest known h later p

parse_prefixes-AreOverrides :
    (base : RulesConfig) (fs : Fields) (out overrides : Dict RulesConfig)
    → AreKnown base
    → AreOverrides out
    → parse_prefixes base fs out ≡ ok overrides
    → AreOverrides overrides
unfolding parse_prefixes
parse_prefixes-AreOverrides base end out overrides known h p =
    subst AreOverrides (ok_injective _ _ p) h
parse_prefixes-AreOverrides base (field raw (obj table) fs) out overrides known h p =
    parse_entry-AreOverrides base raw _ out overrides _ known h
      (λ d g q. parse_prefixes-AreOverrides base fs d overrides known g q) p
parse_prefixes-AreOverrides base (field raw null fs) out overrides known h p =
    absurd (not_error _ _ p)
parse_prefixes-AreOverrides base (field raw (bool b) fs) out overrides known h p =
    absurd (not_error _ _ p)
parse_prefixes-AreOverrides base (field raw (num n) fs) out overrides known h p =
    absurd (not_error _ _ p)
parse_prefixes-AreOverrides base (field raw (float n) fs) out overrides known h p =
    absurd (not_error _ _ p)
parse_prefixes-AreOverrides base (field raw (str t) fs) out overrides known h p =
    absurd (not_error _ _ p)
parse_prefixes-AreOverrides base (field raw (arr items) fs) out overrides known h p =
    absurd (not_error _ _ p)

pub parse_directory_overrides-AreOverrides :
    (base : RulesConfig) (j : Json) (overrides : Dict RulesConfig)
    → AreKnown base
    → parse_directory_overrides base j ≡ ok overrides
    → AreOverrides overrides
unfolding parse_directory_overrides
parse_directory_overrides-AreOverrides base null overrides known p =
    subst AreOverrides (ok_injective _ _ p) tt
parse_directory_overrides-AreOverrides base (obj fs) overrides known p =
    parse_prefixes-AreOverrides base fs [] overrides known tt p
parse_directory_overrides-AreOverrides base (bool b) overrides known p = absurd (not_error _ _ p)
parse_directory_overrides-AreOverrides base (num n) overrides known p = absurd (not_error _ _ p)
parse_directory_overrides-AreOverrides base (float n) overrides known p = absurd (not_error _ _ p)
parse_directory_overrides-AreOverrides base (str t) overrides known p = absurd (not_error _ _ p)
parse_directory_overrides-AreOverrides base (arr items) overrides known p = absurd (not_error _ _ p)
