-- ===== src/Config/Parse/Valid/Whole.antt =====
-- The whole configuration: what the rest of the program may rely on.
use slopsentinel.Base.{◌≤◌, ◌<◌, text_eq, true, false, is_nil, contains, ◌≡◌}
use slopsentinel.Json.{Json}
use slopsentinel.Scoring.Penalty.{ScoringConfig}
use slopsentinel.Config.{HistoryConfig, CacheConfig, SlopSentinelConfig}
use slopsentinel.Config.Parse.Tables.{profiles}
use slopsentinel.Config.Parse.Valid.{AreKnown}
use slopsentinel.Config.Parse.Valid.Prefixes.{AreOverrides}

abbrev pub IsHistory : HistoryConfig → Type 0
IsHistory history = (0 < history.max_entries) × (is_nil history.path ≡ false)

abbrev pub IsCache : CacheConfig → Type 0
IsCache cache = is_nil cache.path ≡ false

abbrev pub IsScoring : ScoringConfig → Type 0
IsScoring scoring = contains profiles scoring.profile ≡ true

-- A configuration that the program can work with.
pub record IsValid (config : SlopSentinelConfig) : Type 0 where
  pub in_range : config.threshold ≤ 100
  pub known : AreKnown config.rules
  pub overrides : AreOverrides config.directory_overrides
  pub cache : IsCache config.cache
  pub history : IsHistory config.history
  pub scoring : IsScoring config.scoring
