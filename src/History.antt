-- ===== src/History.antt =====
-- src/slopsentinel/history.py: the record of past runs. Python's conversions between numbers and
-- texts are parameters; the renderings of the trend are not modelled.
mod Laws
pub mod Tests
use slopsentinel.Base.{
  ℕ, zero, suc, ◌+◌, ◌-◌, Text, codes, text_eq, List, [], ◌∷◌, ◌++◌, Option, none, some, Bool, true,
  false, ◌==◌, if◌then◌else◌, ℤ, pos, int_eq, map, length, drop, eqb,
}
use slopsentinel.Types.{DimensionBreakdown, ScanSummary, AiConfidence, low, medium, high}
use slopsentinel.Json.{
  Json, null, bool, num, float, str, arr, obj, Fields, end, field, Items, nil, cons, get, to_list,
  items_of,
}

-- The exceptions that reading an entry can raise.
pub data Exception : Type 0 where
  type_error value_error key_error overflow_error : Exception

pub data Outcome (A : Type 0) : Type 0 where
  ok : A → Outcome A
  raise : Exception → Outcome A

infixl 5 ◌>>=◌
abbrev pub ◌>>=◌ : {A B : Type 0} → Outcome A → (A → Outcome B) → Outcome B
ok a >>= f = f a
raise e >>= f = raise e

-- `int(x)` of a float and of a text, `float(n)` of an integer, and `str(x)` of what is no text.
pub record Convert : Type 0 where
  pub float_to_int : ℕ → Outcome ℤ
  pub text_to_int : Text → Outcome ℤ
  pub int_to_float : ℤ → Outcome ℕ
  pub to_str : Json → Text

pub record Breakdown : Type 0 where
  pub fingerprint : ℤ
  pub quality : ℤ
  pub hallucination : ℤ
  pub maintainability : ℤ
  pub security : ℤ

pub record HistoryEntry : Type 0 where
  pub timestamp : Text
  pub score : ℤ
  pub files_scanned : ℤ
  pub violations : ℤ
  pub breakdown : Breakdown
  pub dominant_fingerprints : List Json
  pub ai_confidence : Option Text
  pub violation_density : Option ℕ
  pub violation_clustering : Option ℕ
  pub git_head : Option Text

abbrev confidence_name : AiConfidence → Text
confidence_name low = codes "low"
confidence_name medium = codes "medium"
confidence_name high = codes "high"

abbrev of_points : DimensionBreakdown → Breakdown
of_points b = record {
  fingerprint = pos b.fingerprint;
  quality = pos b.quality;
  hallucination = pos b.hallucination;
  maintainability = pos b.maintainability;
  security = pos b.security;
}

-- `record_entry`, with the time and the head of the repository as arguments
unfoldable pub record_entry : ScanSummary ℕ → Text → Option Text → HistoryEntry
record_entry summary now head = record {
  timestamp = now;
  score = pos summary.score;
  files_scanned = pos summary.files_scanned;
  violations = pos (length summary.violations);
  breakdown = of_points summary.breakdown;
  dominant_fingerprints = map str summary.dominant_fingerprints;
  ai_confidence = some (confidence_name summary.ai_confidence);
  violation_density = some summary.violation_density;
  violation_clustering = some summary.violation_clustering;
  git_head = head;
}

-- `d[key]`
unfoldable pub get_item : Text → Fields → Outcome Json
unfolding get
get_item key fs = elim (get key fs) [ none ↦ raise key_error | some j ↦ ok j ]

abbrev or_null : Option Text → Json
or_null none = null
or_null (some t) = str t

abbrev float_or_null : Option ℕ → Json
float_or_null none = null
float_or_null (some bits) = float bits

-- A text, or `None` for what is none.
abbrev text_or_none : Option Json → Option Text
text_or_none (some (str t)) = some t
text_or_none _ = none

-- `tuple(dominant) if isinstance(dominant, list) else ()`
abbrev list_or_empty : Option Json → List Json
list_or_empty (some (arr items)) = to_list items
list_or_empty _ = []

module _ (convert : Convert) where
  -- `int(x)`
  unfoldable pub to_int : Json → Outcome ℤ
  to_int (num n) = ok n
  to_int (bool true) = ok (pos 1)
  to_int (bool false) = ok (pos 0)
  to_int (float bits) = convert.float_to_int bits
  to_int (str t) = convert.text_to_int t
  to_int _ = raise type_error

  -- `str(x)`
  abbrev as_text : Json → Text
  as_text (str t) = t
  as_text j = convert.to_str j

  abbrev some_float : Outcome ℕ → Outcome (Option ℕ)
  some_float (ok bits) = ok (some bits)
  some_float (raise e) = raise e

  -- `float(x)` of a number; `None` for what is none
  unfoldable pub float_of : Option Json → Outcome (Option ℕ)
  float_of (some (float bits)) = ok (some bits)
  float_of (some (num n)) = some_float (convert.int_to_float n)
  float_of (some (bool true)) = some_float (convert.int_to_float (pos 1))
  float_of (some (bool false)) = some_float (convert.int_to_float (pos 0))
  float_of _ = ok none

  unfoldable pub int_item : Text → Fields → Outcome ℤ
  unfolding get_item to_int
  int_item key fs = do j ← get_item key fs; to_int j

  unfoldable pub parse_breakdown : Json → Outcome Breakdown
  unfolding int_item
  parse_breakdown (obj bd) = do
    fingerprint ← int_item (codes "fingerprint") bd
    quality ← int_item (codes "quality") bd
    hallucination ← int_item (codes "hallucination") bd
    maintainability ← int_item (codes "maintainability") bd
    security ← int_item (codes "security") bd
    ok (record {
      fingerprint = fingerprint;
      quality = quality;
      hallucination = hallucination;
      maintainability = maintainability;
      security = security;
    })
  parse_breakdown _ = raise type_error

  -- `_parse_entry`
  unfoldable pub parse_entry : Fields → Outcome HistoryEntry
  unfolding int_item get_item parse_breakdown float_of get
  parse_entry item = do
    timestamp ← get_item (codes "timestamp") item
    score ← int_item (codes "score") item
    files_scanned ← int_item (codes "files_scanned") item
    violations ← int_item (codes "violations") item
    bd ← get_item (codes "breakdown") item
    breakdown ← parse_breakdown bd
    density ← float_of (get (codes "violation_density") item)
    clustering ← float_of (get (codes "violation_clustering") item)
    ok (record {
      timestamp = as_text timestamp;
      score = score;
      files_scanned = files_scanned;
      violations = violations;
      breakdown = breakdown;
      dominant_fingerprints = list_or_empty (get (codes "dominant_fingerprints") item);
      ai_confidence = text_or_none (get (codes "ai_confidence") item);
      violation_density = density;
      violation_clustering = clustering;
      git_head = text_or_none (get (codes "git_head") item);
    })

  -- One round of the loop of `load_history`: `TypeError` and `ValueError` skip the item.
  abbrev keep_entry :
      Outcome HistoryEntry → Outcome (List HistoryEntry) → Outcome (List HistoryEntry)
  keep_entry (ok e) rest = do es ← rest; ok (e ∷ es)
  keep_entry (raise type_error) rest = rest
  keep_entry (raise value_error) rest = rest
  keep_entry (raise key_error) rest = raise key_error
  keep_entry (raise overflow_error) rest = raise overflow_error

  unfoldable pub load_items : List Json → Outcome (List HistoryEntry)
  unfolding parse_entry
  load_items [] = ok []
  load_items (obj item ∷ items) = keep_entry (parse_entry item) (load_items items)
  load_items (_ ∷ items) = load_items items

  -- `data.get("version") != HISTORY_VERSION`, also for `True` and 1.0
  abbrev is_version_one : Option Json → Bool
  is_version_one (some (num n)) = n == pos 1
  is_version_one (some (bool b)) = b
  is_version_one (some (float bits)) = eqb bits 0x3ff0000000000000
  is_version_one _ = false

  abbrev load_list : Option Json → Outcome (List HistoryEntry)
  load_list (some (arr items)) = load_items (to_list items)
  load_list _ = ok []

  -- `none` is a file that is not there, cannot be read or is no JSON.
  unfoldable pub load_history : Option Json → Outcome (List HistoryEntry)
  unfolding load_items get
  load_history (some (obj fs)) =
      if is_version_one (get (codes "version") fs)
      then load_list (get (codes "entries") fs)
      else ok []
  load_history _ = ok []

abbrev breakdown_fields : Breakdown → Fields
breakdown_fields b = field (codes "fingerprint") (num b.fingerprint) (
    field (codes "quality") (num b.quality) (
      field (codes "hallucination") (num b.hallucination) (
        field (codes "maintainability") (num b.maintainability)
          (field (codes "security") (num b.security) end))))

abbrev entry_fields : HistoryEntry → Fields
entry_fields e = field (codes "timestamp") (str e.timestamp) (
    field (codes "score") (num e.score) (
      field (codes "files_scanned") (num e.files_scanned) (
        field (codes "violations") (num e.violations) (
          field (codes "breakdown") (obj (breakdown_fields e.breakdown)) (
            field (codes "dominant_fingerprints") (arr (items_of e.dominant_fingerprints)) (
              field (codes "ai_confidence") (or_null e.ai_confidence) (
                field (codes "violation_density") (float_or_null e.violation_density) (
                  field (codes "violation_clustering") (float_or_null e.violation_clustering)
                    (field (codes "git_head") (or_null e.git_head) end)))))))))

-- `_entry_to_json`
unfoldable pub entry_to_json : HistoryEntry → Json
entry_to_json e = obj (entry_fields e)

-- The JSON value that `save_history` writes.
unfoldable pub save_history : List HistoryEntry → Json
unfolding entry_to_json
save_history entries = obj (
    field (codes "version") (num (pos 1))
      (field (codes "entries") (arr (items_of (map entry_to_json entries))) end))

-- `entries[-n:]`, which is the whole list at n = 0
unfoldable pub last_entries {ℓ} : {A : Type ℓ} → ℕ → List A → List A
last_entries zero entries = entries
last_entries (suc n) entries = drop (length entries - suc n) entries

-- `append_history`: the file's new content.
unfoldable pub append_history : Convert → Option Json → HistoryEntry → ℕ → Outcome Json
unfolding load_history save_history last_entries
append_history convert file entry max_entries = do
  entries ← load_history convert file
  ok (save_history (last_entries max_entries (entries ++ entry ∷ [])))
