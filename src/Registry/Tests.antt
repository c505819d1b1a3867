-- ===== src/Registry/Tests.antt =====
-- A registry of two rules, and a registration.
use slopsentinel.Base.{
  ◌+◌, Text, codes, text_eq, nat_eq, List, [], ◌∷◌, none, some, false, ◌≡◌, refl, All, contains,
  map,
}
use slopsentinel.Types.{RuleMeta, warn, quality}
use slopsentinel.Dict.{lookup}
use slopsentinel.Registry.{
  Registry, initial, ok, set_extra_rules, all_rules, rule_meta_by_id, rule_by_id, id_of,
  index_by_id, index_meta,
}
use slopsentinel.Registry.Register.{IsRegistrable, set_extra_rules_lem}
use slopsentinel.Registry.Coherent.{
  Reachable, started, registered, asked_all, current, views_current,
}

abbrev of_id : Text → RuleMeta
of_id id = record {
  rule_id = id;
  title = [];
  description = [];
  default_severity = warn;
  score_dimension = quality;
  fingerprint_model = none;
}

abbrev same : RuleMeta → RuleMeta
same m = m

abbrev first : Registry RuleMeta
first = initial (of_id (codes "B01") ∷ of_id (codes "A01") ∷ [])

abbrev asked : Registry RuleMeta
asked = (all_rules same first).1

abbrev extra : List RuleMeta
extra = of_id (codes "Z10") ∷ of_id (codes "Z02") ∷ []

abbrev second : Registry RuleMeta
second = record asked {
  extra_rules = (codes "Z10", of_id (codes "Z10")) ∷ (codes "Z02", of_id (codes "Z02")) ∷ [];
  extra_generation = 1;
}

accepted : set_extra_rules same asked extra ≡ ok second
unfolding set_extra_rules all_rules initial lookup
accepted = refl

set_extra_rules_lem_example :
    All
      (λ r.
        IsRegistrable same (map (id_of same) asked.builtin) r
        × (lookup (id_of same r) second.extra_rules ≡ some r))
      extra
    × ((k : Text)
        → contains (map (id_of same) extra) k ≡ false
        → lookup k second.extra_rules ≡ none)
    × (second.builtin ≡ asked.builtin)
    × (second.extra_generation ≡ asked.extra_generation + 1)
set_extra_rules_lem_example = set_extra_rules_lem same asked second extra accepted

second-Reachable : Reachable same second
second-Reachable =
    registered asked second extra
      (asked_all first (started (of_id (codes "B01") ∷ of_id (codes "A01") ∷ []))) accepted

views_current_example :
    ((all_rules same second).0 ≡ current same second)
    × ((rule_meta_by_id same second).0 ≡ index_meta same (current same second) [])
    × ((rule_by_id same second (codes "Z02")).0
        ≡ lookup (codes "Z02") (index_by_id same (current same second) []))
views_current_example = views_current same second (codes "Z02") second-Reachable
