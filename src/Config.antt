-- ===== src/Config.antt =====
-- src/slopsentinel/config.py: the configuration, its validation and the enabled rules.
pub mod Groups
pub mod Enabled
pub mod Parse
use slopsentinel.Base.{ℕ, Text, Bool, Option, List}
use slopsentinel.Types.{Severity}
use slopsentinel.Scoring.Penalty.{ScoringConfig}

-- `str | tuple[str, ...]`
pub data RuleSpec : Type 0 where
  one : Text → RuleSpec
  many : List Text → RuleSpec

pub record RuleOverride : Type 0 where
  pub severity : Option Severity

pub record RulesConfig : Type 0 where
  pub enable : RuleSpec
  pub disable : List Text
  pub overrides : List (Text × RuleOverride)
  pub severity_overrides : List (Text × Severity)

-- A field `none` inherits from the base.
pub record RulesConfigPatch : Type 0 where
  pub enable : Option RuleSpec
  pub disable : Option (List Text)
  pub overrides : Option (List (Text × RuleOverride))
  pub severity_overrides : Option (List (Text × Severity))

pub record CacheConfig : Type 0 where
  pub enabled : Bool
  pub path : Text

pub record HistoryConfig : Type 0 where
  pub enabled : Bool
  pub path : Text
  pub max_entries : ℕ

pub record SlopSentinelConfig : Type 0 where
  pub threshold : ℕ
  pub fail_on_slop : Bool
  pub languages : List Text
  pub rules : RulesConfig
  pub directory_overrides : List (Text × RulesConfig)
  pub ignore_paths : List Text
  pub baseline : Option Text
  pub cache : CacheConfig
  pub history : HistoryConfig
  pub scoring : ScoringConfig
  pub plugins : List Text
