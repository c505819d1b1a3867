-- ===== src/Baseline/Tests.antt =====
-- A small project with a baseline.
use slopsentinel.Base.{
  Text, codes, text_eq, nat_eq, int_eq, List, [], ◌∷◌, none, some, ◌≡◌, refl, strip, upper, sort, ℕ,
  pos,
}
use slopsentinel.Types.{FilePath, warn, quality, Violation}
use slopsentinel.Baseline.{
  Machine, Baseline, build_baseline, filter_violations, place_of, fingerprint_at, canonical,
}
use slopsentinel.Baseline.File.{ok, load_baseline, save_baseline, entry_leb, message_leb}
use slopsentinel.Baseline.Filtering.{filter-build, filter_moved}
use slopsentinel.Base.{contains, false}
use slopsentinel.Baseline.Fresh.{ids, filter_fresh}
use slopsentinel.Baseline.RoundTrip.{IsSavable, load-save}

abbrev pub machine : List Text → Machine
machine lines = record {
  file_lines = λ p. lines;
  resolve = λ p. some p;
  digest = λ rule path snippet. b'd' ∷ snippet;
  digest_not_empty = λ rule path snippet. refl;
}

abbrev root : FilePath
root = codes "/" ∷ codes "repo" ∷ []

abbrev file : FilePath
file = codes "/" ∷ codes "repo" ∷ codes "a.py" ∷ []

abbrev at_line : Text → ℕ → Violation
at_line rule n = record {
  rule_id = rule;
  severity = warn;
  message = codes "m";
  dimension = quality;
  suggestion = none;
  location = some (record {
    path = some file;
    start_line = some n;
    start_col = none;
    end_line = none;
    end_col = none;
  });
}

abbrev in_repo : Violation
in_repo = record {
  rule_id = codes "E10";
  severity = warn;
  message = codes "no tests";
  dimension = quality;
  suggestion = none;
  location = none;
}

abbrev old_lines : List Text
old_lines = codes "a" ∷ codes "b" ∷ codes "c" ∷ []

abbrev new_lines : List Text
new_lines = codes "z" ∷ codes "a" ∷ codes "b " ∷ codes "c" ∷ []

filter-build_example :
    let b = build_baseline (machine old_lines) root (at_line (codes "A01") 2 ∷ in_repo ∷ []) in
    let more = at_line (codes "A02") 1 ∷ [] in
    (filter_violations (machine old_lines) root (at_line (codes "A01") 2 ∷ in_repo ∷ more) b
      ≡ filter_violations (machine old_lines) root more b)
    × (filter_violations (machine old_lines) root (at_line (codes "A01") 2 ∷ in_repo ∷ []) b ≡ [])
filter-build_example =
    filter-build (machine old_lines) root (at_line (codes "A01") 2 ∷ in_repo ∷ [])
      (at_line (codes "A02") 1 ∷ [])

place : (rule : Text) (n : ℕ) → place_of (at_line rule n) ≡ some (file, n)
unfolding place_of
place rule n = refl

abbrev mark : Text
mark = codes "da\nb\nc"

old_mark : fingerprint_at (machine old_lines) root (codes "a01") file 2 ≡ some mark
unfolding fingerprint_at
old_mark = refl

new_mark : fingerprint_at (machine new_lines) root (codes "A01") file 3 ≡ some mark
unfolding fingerprint_at
new_mark = refl

same_rule : canonical (codes "A01") ≡ canonical (codes "a01")
unfolding upper strip
same_rule = refl

filter_moved_example :
    let b = build_baseline (machine old_lines) root (in_repo ∷ at_line (codes "a01") 2 ∷ []) in
    filter_violations (machine new_lines) root (at_line (codes "A01") 3 ∷ in_repo ∷ []) b
    ≡ filter_violations (machine new_lines) root (in_repo ∷ []) b
filter_moved_example =
    filter_moved (machine old_lines) (machine new_lines) root (in_repo ∷ []) [] (in_repo ∷ [])
      (at_line (codes "a01") 2) (at_line (codes "A01") 3) file file 2 3 mark (place (codes "a01") 2)
      (place (codes "A01") 3) same_rule refl old_mark new_mark

abbrev saved : Baseline
saved = record {
  file_entries =
      record { rule_id = codes "C01"; path = codes "b.py"; line = pos 4; fingerprint = [] }
      ∷ record {
        rule_id = codes "A01";
        path = codes "a.py";
        line = pos 2;
        fingerprint = codes "ab";
      }
      ∷ [];
  repo_entries = record { rule_id = codes "E10"; message = codes "no tests" } ∷ [];
}

saved-IsSavable : IsSavable saved
unfolding upper strip
saved-IsSavable = ((((refl, refl), refl), (((refl, refl), refl), tt)), ((refl, refl), tt))

load-save_example :
    load_baseline (some (save_baseline (codes "2026-01-01") saved))
    ≡ ok (record {
      file_entries = sort entry_leb saved.file_entries;
      repo_entries = sort message_leb saved.repo_entries;
    })
load-save_example = load-save (codes "2026-01-01") saved saved-IsSavable

fresh_rule :
    contains
      (ids (machine old_lines) (machine new_lines) root (at_line (codes "a01") 2 ∷ in_repo ∷ []))
      (canonical (codes "A02 "))
    ≡ false
unfolding upper strip text_eq
fresh_rule = refl

filter_fresh_example :
    filter_violations
      (machine new_lines)
      root
      (at_line (codes "A02 ") 3 ∷ [])
      (build_baseline (machine old_lines) root (at_line (codes "a01") 2 ∷ in_repo ∷ []))
    ≡ at_line (codes "A02 ") 3 ∷ []
filter_fresh_example =
    filter_fresh (machine old_lines) (machine new_lines) root
      (at_line (codes "a01") 2 ∷ in_repo ∷ []) (at_line (codes "A02 ") 3 ∷ []) (fresh_rule, tt)
