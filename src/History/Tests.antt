-- ===== src/History/Tests.antt =====
-- A history of two runs.
use slopsentinel.Base.{
  ℕ, suc, Text, codes, text_eq, List, [], ◌∷◌, ◌++◌, none, some, ◌≡◌, refl, pos, length, map, arith,
  min, drop, ◌-◌,
}
use slopsentinel.Json.{str, num, arr, obj, field, end, get, items_of}
use slopsentinel.History.{
  Convert, HistoryEntry, ok, raise, key_error, ◌>>=◌, load_history, save_history, append_history,
  entry_to_json,
}
use slopsentinel.History.Laws.{load_history-save_history, append_history_lem, load_history-raise}

abbrev pub convert : Convert
convert = record {
  float_to_int = λ bits. ok (pos 0);
  text_to_int = λ t. ok (pos (length t));
  int_to_float = λ n. ok 0;
  to_str = λ j. [];
}

abbrev run : Text → ℕ → HistoryEntry
run now score = record {
  timestamp = now;
  score = pos score;
  files_scanned = pos 3;
  violations = pos 1;
  breakdown = record {
    fingerprint = pos 35;
    quality = pos 25;
    hallucination = pos 20;
    maintainability = pos 15;
    security = pos 5;
  };
  dominant_fingerprints = str (codes "claude") ∷ [];
  ai_confidence = some (codes "low");
  violation_density = some 0;
  violation_clustering = none;
  git_head = none;
}

abbrev two : List HistoryEntry
two = run (codes "t1") 100 ∷ run (codes "t2") 90 ∷ []

load_history-save_history_example : load_history convert (some (save_history two)) ≡ ok two
load_history-save_history_example = load_history-save_history convert two

append_history_lem_example :
    ((append_history convert (some (save_history two)) (run (codes "t3") 80) 2 >>= λ written.
    load_history convert (some written))
      ≡ ok (drop (suc (length two) - 2) two ++ run (codes "t3") 80 ∷ []))
    × (length (drop (suc (length two) - 2) two ++ run (codes "t3") 80 ∷ [])
        ≡ min 2 (suc (length two)))
append_history_lem_example =
    append_history_lem convert (some (save_history two)) two (run (codes "t3") 80) 2 (omega arith)
      (load_history-save_history convert two)

no_timestamp : get (codes "timestamp") (field (codes "score") (num (pos 1)) end) ≡ none
unfolding get text_eq
no_timestamp = refl

load_history-raise_example :
    load_history convert (
      some (
        obj (
          field (codes "version") (num (pos 1)) (
            field
              (codes "entries")
              (arr (
                items_of
                  (map entry_to_json two ++ obj (field (codes "score") (num (pos 1)) end) ∷ [])))
              end))))
    ≡ raise key_error
load_history-raise_example =
    load_history-raise convert two (field (codes "score") (num (pos 1)) end) [] no_timestamp
