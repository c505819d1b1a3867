-- ===== src/Types.antt =====
-- src/slopsentinel/engine/types.py: the values that rules, engine and reports exchange.
use slopsentinel.Base.{ℕ, ℤ, Text, Option, List, Eq}

pub data Severity : Type 0 where
  info warn error : Severity

pub data Dimension : Type 0 where
  fingerprint quality hallucination maintainability security : Dimension

pub data AiConfidence : Type 0 where
  low medium high : AiConfidence

-- A `pathlib.Path`, by its `parts`: an absolute path begins with the part "/".
abbrev pub FilePath : Type 0
FilePath = List Text

-- Lines and columns count from 1.
pub record Location : Type 0 where
  pub path : Option FilePath
  pub start_line : Option ℕ
  pub start_col : Option ℕ
  pub end_line : Option ℤ
  pub end_col : Option ℤ

pub record Violation : Type 0 where
  pub rule_id : Text
  pub severity : Severity
  pub message : Text
  pub dimension : Dimension
  pub suggestion : Option Text
  pub location : Option Location

pub record DimensionBreakdown : Type 0 where
  pub fingerprint : ℕ
  pub quality : ℕ
  pub hallucination : ℕ
  pub maintainability : ℕ
  pub security : ℕ

severity_dec : Discrete Severity
severity_dec = hlevel

dimension_dec : Discrete Dimension
dimension_dec = hlevel

instance unfoldable pub severity_eq : Eq Severity
unfolding severity_dec
severity_eq = record { dec = severity_dec }

instance unfoldable pub dimension_eq : Eq Dimension
unfolding dimension_dec
dimension_eq = record { dec = dimension_dec }

-- src/slopsentinel/rules/base.py
pub record RuleMeta : Type 0 where
  pub rule_id : Text
  pub title : Text
  pub description : Text
  pub default_severity : Severity
  pub score_dimension : Dimension
  pub fingerprint_model : Option Text

-- src/slopsentinel/engine/types.py, with the type of its two densities as a parameter
pub record ScanSummary (F : Type 0) : Type 0 where
  pub files_scanned : ℕ
  pub violations : List Violation
  pub score : ℕ
  pub breakdown : DimensionBreakdown
  pub dominant_fingerprints : List Text
  pub ai_confidence : AiConfidence
  pub violation_density : F
  pub violation_clustering : F
  pub scoring_profile : Text
