-- ===== src/Baseline.antt =====
-- src/slopsentinel/baseline.py: known violations, by fingerprint or by line. The file system and
-- SHA-256 are parameters; sets are lists, of which only the members matter.
pub mod File
pub mod Filtering
mod Fresh
pub mod RoundTrip
pub mod Tests
use slopsentinel.Base.{
  ℕ, zero, suc, ◌+◌, ◌-◌, ◌<◌, Text, codes, text_eq, List, [], ◌∷◌, ◌++◌, Option, none, some, Bool,
  true, false, not, ◌&&◌, ◌≡◌, ◌≢◌, if◌then◌else◌, ◌==◌, ℤ, pos, any, select, map, take, drop, eqb,
  ◌||◌, int_eq, leb, min, length, is_nil, is_space, split_on, join, strip, upper,
}
use slopsentinel.Types.{FilePath, Location, Violation}
use slopsentinel.Paths.{safe_relpath}

-- (rule_id, relative_path, line_no, fingerprint)
pub record FileEntry : Type 0 where
  pub rule_id : Text
  pub path : Text
  pub line : ℤ
  pub fingerprint : Text

pub record RepoEntry : Type 0 where
  pub rule_id : Text
  pub message : Text

pub record Baseline : Type 0 where
  pub file_entries : List FileEntry
  pub repo_entries : List RepoEntry

-- What the module takes from the machine: the lines of a file, none if it cannot be read; path
-- resolution; and the hex digest of a payload, of which it uses that it is no empty text.
pub record Machine : Type 0 where
  pub file_lines : FilePath → List Text
  pub resolve : FilePath → Option FilePath
  pub digest : Text → Text → Text → Text
  pub digest_not_empty : (rule path snippet : Text) → is_nil (digest rule path snippet) ≡ false

abbrev pub canonical : Text → Text
canonical rule_id = upper (strip rule_id)

-- `_normalize_line`
unfoldable pub normalize_line : Text → Text
unfolding join split_on
normalize_line line = join (codes " ") (split_on is_space line)

-- The snippet around line `start_line`, which has index `idx`: `lines[start:end]`, normalized.
unfoldable pub snippet_of : List Text → ℕ → Text
unfolding normalize_line
snippet_of lines idx =
    let start = idx - 1 in
    let stop = min (length lines) (idx + 2) in
    join (codes "\n") (map normalize_line (take (stop - start) (drop start lines)))

-- A file-level violation: its path and its line.
unfoldable pub place_of : Violation → Option (FilePath × ℕ)
place_of v = elim (v.location) [
  | none ↦ none
  | some l ↦ elim (l.path) [
    | none ↦ none
    | some p ↦ elim (l.start_line) [ none ↦ none | some n ↦ some (p, n) ]
  ]
]

-- `fingerprint or ""`
abbrev pub or_empty : Option Text → Text
or_empty none = []
or_empty (some t) = t

-- `(rule_id, rel, fingerprint) in fingerprint_keys`
unfoldable pub has_fingerprint : List FileEntry → Text → Text → Text → Bool
has_fingerprint entries rule rel fp =
    any
      (λ (e : FileEntry).
        not (is_nil e.fingerprint) && (e.rule_id == rule && (e.path == rel && e.fingerprint == fp)))
      entries

-- `(rule_id, rel, line) in line_keys`
unfoldable pub has_line : List FileEntry → Text → Text → ℤ → Bool
has_line entries rule rel line =
    any
      (λ (e : FileEntry).
        is_nil e.fingerprint && (e.rule_id == rule && (e.path == rel && e.line == line)))
      entries

unfoldable pub has_message : List RepoEntry → Text → Text → Bool
has_message entries rule message =
    any (λ (e : RepoEntry). e.rule_id == rule && e.message == message) entries

-- The fingerprint is known, or the line is.
unfoldable pub is_known_at : Baseline → Text → Text → Option Text → ℕ → Bool
unfolding has_fingerprint has_line
is_known_at b rule rel none n = has_line b.file_entries rule rel (pos n)
is_known_at b rule rel (some fp) n =
    has_fingerprint b.file_entries rule rel fp || has_line b.file_entries rule rel (pos n)

module _ (m : Machine) (project_root : FilePath) where
  abbrev pub rel_of : FilePath → Text
  rel_of p = safe_relpath m.resolve p project_root

  -- `_fingerprint_violation`, for a violation at a path and a line
  unfoldable pub fingerprint_at : Text → FilePath → ℕ → Option Text
  unfolding snippet_of
  fingerprint_at rule_id path line =
      let lines = m.file_lines path in
      if is_nil lines || eqb line 0 || leb (length lines) (line - 1)
      then none
      else some (m.digest (canonical rule_id) (rel_of path) (snippet_of lines (line - 1)))

  -- One round of the loop of `build_baseline`.
  unfoldable pub add_violation : Violation → Option (FilePath × ℕ) → Baseline → Baseline
  add_violation v (some (p, n)) b = record b {
    file_entries =
        record {
          rule_id = canonical v.rule_id;
          path = rel_of p;
          line = pos n;
          fingerprint = or_empty (fingerprint_at v.rule_id p n);
        }
        ∷ b.file_entries;
  }
  add_violation v none b = record b {
    repo_entries = record { rule_id = canonical v.rule_id; message = v.message } ∷ b.repo_entries;
  }

  unfoldable pub build_baseline : List Violation → Baseline
  unfolding add_violation place_of
  build_baseline [] = record { file_entries = []; repo_entries = [] }
  build_baseline (v ∷ vs) = add_violation v (place_of v) (build_baseline vs)

  -- Whether the loop of `filter_violations` drops a violation.
  unfoldable pub is_known : Baseline → Violation → Option (FilePath × ℕ) → Bool
  unfolding is_known_at has_message
  is_known b v none = has_message b.repo_entries (canonical v.rule_id) v.message
  is_known b v (some (p, n)) =
      is_known_at b (canonical v.rule_id) (rel_of p) (fingerprint_at v.rule_id p n) n

  unfoldable pub filter_violations : List Violation → Baseline → List Violation
  unfolding is_known place_of
  filter_violations [] b = []
  filter_violations (v ∷ vs) b =
      let rest = filter_violations vs b in if is_known b v (place_of v) then rest else v ∷ rest
