-- ===== src/Scoring/Tests.antt =====
-- The scoring theorems at concrete data, with thousandths for floats.
use mathlib.Core.List.{perm_append_comm}
use slopsentinel.Base.{
  ◌+◌, ◌≢◌, ℕ, ◌-◌, ◌*◌, ◌/◌, ◌≤◌, ◌<◌, ◌≡◌, refl, Text, codes, text_eq, nat_eq, option_eq,
  texts_eq, List, [], ◌∷◌, ◌++◌, Option, none, some, false, length, arith, if◌then◌else◌, ltb, leb,
  pos, All, contains, strip, lower, ◌==◌,
}
use Prim.Native.Nat.{◌^◌}
use slopsentinel.Types.{
  Severity, info, warn, error, Dimension, fingerprint, quality, hallucination, security, Violation,
  RuleMeta, severity_eq, dimension_eq,
}
use slopsentinel.Scoring.{
  Floats, compute_breakdown, points, total_points, model_of, compute_dominant_fingerprints,
  summarize,
}
use slopsentinel.Scoring.Penalty.{ScoringConfig, resolve_severity_penalty}
use slopsentinel.Scoring.Penalty.{default_penalty}
use slopsentinel.Scoring.Bounds.{unspent, summarize-score_bounds}
use slopsentinel.Scoring.Order.{breakdown-perm, points-append_le}
use slopsentinel.Scoring.Dominant.{occurrences, dominant_most_frequent}

abbrev pub milli : Floats
milli = record {
  F = ℕ;
  decimal = λ n k. n * 1000 / 10 ^ k;
  of_nat = λ n. n * 1000;
  div = λ a b. a * 1000 / b;
  sub = λ a b. a - b;
  mul = λ a b. a * b / 1000;
  gt = λ a b. ltb b a;
  ge = λ a b. leb b a;
  round3 = λ a. a;
  int = λ a. pos (a / 1000);
  IsNonneg = λ a. Unit {0};
  decimal-IsNonneg = λ n k. tt;
  sub-IsNonneg = λ x y h. tt;
  mul-IsNonneg = λ x y h k. tt;
  int_nonneg = λ x h. refl;
}

abbrev by_rule : Text → Severity → Dimension → Violation
by_rule id s d = record {
  rule_id = id;
  severity = s;
  message = [];
  dimension = d;
  suggestion = none;
  location = none;
}

abbrev sample : List Violation
sample =
    by_rule (codes "A01") warn fingerprint
    ∷ by_rule (codes "C03") error hallucination
    ∷ by_rule (codes "A03") error security
    ∷ []

abbrev clean : List Violation
clean = by_rule (codes "E04") info quality ∷ by_rule (codes "E09") error security ∷ []

abbrev model : Text → Option Text
model id =
    if id == codes "B01"
    then some (codes "cursor")
    else if id == codes "C03"
    then some (codes "copilot")
    else some (codes "claude")

meta : Text → Option RuleMeta
unfolding text_eq
meta id = some (record {
  rule_id = id;
  title = [];
  description = [];
  default_severity = warn;
  score_dimension = fingerprint;
  fingerprint_model = model id;
})

sample_score : (summarize milli meta 2 sample none).score ≡ 73
unfolding summarize meta text_eq texts_eq nat_eq dimension_eq severity_eq
sample_score = refl

summarize-score_bounds_example :
    let s = summarize milli meta 2 sample none in
    (s.score ≤ 100)
    × (s.score ≡ total_points s.breakdown)
    × ((d : Dimension) → d ≢ quality → points s.breakdown d ≡ unspent none sample d)
    × (s.breakdown.quality ≤ unspent none sample quality)
    × (unspent none sample quality ≤ s.breakdown.quality + 10)
summarize-score_bounds_example = summarize-score_bounds milli meta 2 sample none

breakdown-perm_example :
    compute_breakdown milli default_penalty (sample ++ clean) 1500 0
    ≡ compute_breakdown milli default_penalty (clean ++ sample) 1500 0
breakdown-perm_example =
    breakdown-perm milli default_penalty 1500 0 (sample ++ clean) (clean ++ sample)
      (perm_append_comm sample clean)

points-append_le_example :
    points (compute_breakdown milli default_penalty (sample ++ clean) 2500 900) quality
    ≤ points (compute_breakdown milli default_penalty sample 2500 900) quality
points-append_le_example = points-append_le milli default_penalty 2500 900 sample clean quality

abbrev tuned : ScoringConfig
tuned = record {
  profile = codes " Strict ";
  penalties =
      (codes "Quality", (codes "WARN", 9) ∷ (codes "fatal", 1) ∷ []) ∷ (codes "style", []) ∷ [];
}

tuned_quality : resolve_severity_penalty (some tuned) quality warn ≡ 9
unfolding resolve_severity_penalty text_eq severity_eq dimension_eq strip lower
tuned_quality = refl

abbrev mixed : List Violation
mixed =
    by_rule (codes "B01") warn fingerprint
    ∷ by_rule (codes "A03") warn fingerprint
    ∷ by_rule (codes "A06") warn fingerprint
    ∷ by_rule (codes "C03") warn hallucination
    ∷ by_rule (codes "C09") warn quality
    ∷ by_rule (codes "C03") warn hallucination
    ∷ []

mixed_top : compute_dominant_fingerprints meta mixed ≡ codes "claude" ∷ codes "copilot" ∷ []
unfolding compute_dominant_fingerprints meta text_eq
mixed_top = refl

cursor_occurs : ◌<◌ 0 (occurrences meta (codes "cursor") mixed)
unfolding occurrences model_of meta text_eq option_eq
cursor_occurs = omega arith

cursor_out : contains (compute_dominant_fingerprints meta mixed) (codes "cursor") ≡ false
unfolding compute_dominant_fingerprints meta text_eq
cursor_out = refl

dominant_most_frequent_example :
    let top = compute_dominant_fingerprints meta mixed in
    (length top ≡ 2)
    × All (λ d. occurrences meta (codes "cursor") mixed ≤ occurrences meta d mixed) top
dominant_most_frequent_example =
    dominant_most_frequent meta mixed (codes "cursor") cursor_occurs cursor_out
