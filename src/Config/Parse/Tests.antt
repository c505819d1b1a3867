-- ===== src/Config/Parse/Tests.antt =====
-- A table of a project.
use slopsentinel.Base.{codes, nat_eq, [], ◌∷◌, ◌≡◌, refl, pos}
use slopsentinel.Json.{num, str, arr, obj, Fields, field, end, cons, nil}
use slopsentinel.Config.{SlopSentinelConfig}
use slopsentinel.Config.Parse.{ok, config_error, require}
use slopsentinel.Config.Parse.Rules.{default_rules}
use slopsentinel.Config.Parse.Overrides.{normalize_override_prefix}
use slopsentinel.Config.Parse.Tables.{default_config}

backslashes : normalize_override_prefix [] (codes " .\\src\\gen") ≡ ok (codes "src/gen/")
unfolding normalize_override_prefix require
backslashes = refl

parents : normalize_override_prefix (codes "at") (codes "src/../x") ≡ config_error (codes "at")
unfolding normalize_override_prefix require
parents = refl

abbrev table : Fields
table = field (codes "threshold") (num (pos 80)) (
    field (codes "overrides")
      (obj (
        field (codes "src")
          (obj (
            field (codes "rules")
              (obj (field (codes "disable") (arr (cons (str (codes "a02; claude")) nil)) end)) end))
          end))
      (field (codes "scoring") (obj (field (codes "profile") (str (codes "Strict")) end)) end))

abbrev config : SlopSentinelConfig
config = record default_config {
  threshold = 80;
  directory_overrides =
      (codes "src/", record default_rules { disable = codes "a02" ∷ codes "claude" ∷ [] }) ∷ [];
  scoring = record { profile = codes "strict"; penalties = [] };
}
