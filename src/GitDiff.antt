-- ===== src/GitDiff.antt =====
-- src/slopsentinel/gitdiff.py: the lines that a diff adds, by file. Git and the file system are
-- parameters; `\d` is read as the ASCII digits, which are what git writes.
mod Sections
mod Tests
use slopsentinel.Base.{
  ℕ, zero, suc, ◌+◌, ◌-◌, ◌*◌, Text, codes, text_eq, texts_eq, nat_eq, List, [], ◌∷◌, ◌++◌, Option,
  none, some, Bool, true, false, ◌||◌, ◌&&◌, not, ◌==◌, if◌then◌else◌, leb, is_nil, strip,
  starts_with, drop, splitlines, contains,
}
use slopsentinel.Types.{FilePath}
use slopsentinel.Paths.{relative_to, as_posix}
use slopsentinel.Cache.{parse_path}

infixl 5 ◌>>=◌
abbrev ◌>>=◌ : {A B : Type 0} → Option A → (A → Option B) → Option B
none >>= f = none
some a >>= f = f a

-- What is left behind a literal.
unfoldable pub literal : Text → Text → Option Text
literal [] s = some s
literal (d ∷ p) [] = none
literal (d ∷ p) (c ∷ s) = let rest = literal p s in if d == c then rest else none

abbrev pub is_digit : ℕ → Bool
is_digit c = leb b'0' c && leb c b'9'

-- `\d+` read by `int`: the number and what is left, from the value of the digits before.
unfoldable pub digits : ℕ → Text → ℕ × Text
digits value [] = (value, [])
digits value (c ∷ s) =
    let rest = digits (value * 10 + (c - b'0')) s in if is_digit c then rest else (value, c ∷ s)

unfoldable pub number : Text → Option (ℕ × Text)
unfolding digits
number [] = none
number (c ∷ s) = if is_digit c then some (digits 0 (c ∷ s)) else none

abbrev with_count : Text → Option (ℕ × Text) → Option ℕ × Text
with_count s none = (none, s)
with_count s (some (n, rest)) = (some n, rest)

-- `(?:,(\d+))?`
unfoldable pub optional_count : Text → Option ℕ × Text
unfolding number
optional_count [] = (none, [])
optional_count (c ∷ s) = if c == b',' then with_count (c ∷ s) (number s) else (none, c ∷ s)

abbrev count_or_one : Option ℕ → ℕ
count_or_one none = 1
count_or_one (some n) = n

-- `_HUNK_RE.match`, and from it `new_start` and `new_count`
unfoldable pub parse_hunk : Text → Option (ℕ × ℕ)
unfolding literal number optional_count
parse_hunk line = do
  s1 ← literal (codes "@@ -") line
  old_start ← number s1
  s2 ← literal (codes " +") (optional_count old_start.1).1
  new_start ← number s2
  _ ← literal (codes " @@") (optional_count new_start.1).1
  some (new_start.0, count_or_one (optional_count new_start.1).0)

-- The lines of each file that has one, as a set.
abbrev pub Changed : Type 0
Changed = List (FilePath × List ℕ)

-- `range(start, start + count)`
abbrev pub range : ℕ → ℕ → List ℕ
range start zero = []
range start (suc count) = start ∷ range (suc start) count

-- `result.setdefault(path, set())`, and the lines added to that set
unfoldable pub add_lines : FilePath → List ℕ → Changed → Changed
add_lines path new [] = (path, new) ∷ []
add_lines path new ((p, lines) ∷ result) =
    if p == path then (p, lines ++ new) ∷ result else (p, lines) ∷ add_lines path new result

-- `result.get(path)`
unfoldable pub lines_of : FilePath → Changed → Option (List ℕ)
lines_of path [] = none
lines_of path ((p, lines) ∷ result) = if p == path then some lines else lines_of path result

-- `plus_path`, `none` for /dev/null
unfoldable pub plus_path : Text → Option Text
unfolding strip starts_with text_eq
plus_path raw_line =
    let path = strip (drop 4 raw_line) in
    if path == codes "/dev/null"
    then none
    else some (if starts_with path (codes "b/") then drop 2 path else path)

-- `locate` is `(root / plus_path).resolve()`.
module _ (locate : Text → FilePath) where
  abbrev pub current_of : Option Text → Option FilePath
  current_of none = none
  current_of (some path) = some (locate path)

  abbrev pub add_hunk : Option FilePath → Option (ℕ × ℕ) → Changed → Changed
  add_hunk none hunk result = result
  add_hunk (some path) none result = result
  add_hunk (some path) (some (start, zero)) result = result
  add_hunk (some path) (some (start, suc n)) result = add_lines path (range start (suc n)) result

  -- One round of the loop over the lines of the diff.
  unfoldable pub diff_step : Option FilePath × Changed → Text → Option FilePath × Changed
  unfolding starts_with plus_path parse_hunk add_lines
  diff_step (current_path, result) raw_line =
      if starts_with raw_line (codes "+++ ")
      then (current_of (plus_path raw_line), result)
      else (current_path, add_hunk current_path (parse_hunk raw_line) result)

  unfoldable pub run_diff : Option FilePath × Changed → List Text → Option FilePath × Changed
  unfolding diff_step
  run_diff s [] = s
  run_diff s (raw_line ∷ lines) = run_diff (diff_step s raw_line) lines

  unfoldable pub parse_diff : Text → Changed
  unfolding run_diff splitlines
  parse_diff diff_text = (run_diff (none, []) (splitlines diff_text)).1

pub data GitOutcome (A : Type 0) : Type 0 where
  ok : A → GitOutcome A
  git_error : Text → GitOutcome A

-- `git_check_output(args, cwd=cwd)`, and `resolve`, `none` where it raises
pub record GitMachine : Type 0 where
  pub run : FilePath → List Text → GitOutcome Text
  pub resolve : FilePath → Option FilePath
  pub locate : FilePath → Text → FilePath

module _ (m : GitMachine) where
  abbrev rel_of : Option FilePath → Option FilePath → Option FilePath
  rel_of none root = none
  rel_of (some p) none = none
  rel_of (some p) (some root) = relative_to p root

  abbrev spec_of : Option FilePath → Option Text
  spec_of none = none
  spec_of (some rel) = let p = as_posix rel in if p == [] || p == codes "." then none else some p

  -- `pathspec`
  unfoldable pub pathspec : FilePath → Option FilePath → Option Text
  unfolding relative_to as_posix text_eq
  pathspec root none = none
  pathspec root (some scope) = spec_of (rel_of (m.resolve scope) (m.resolve root))

  abbrev with_spec : List Text → Option Text → List Text
  with_spec args none = args
  with_spec args (some p) = args ++ p ∷ []

  -- `msg or default`
  abbrev message_or : Text → Text → Text
  message_or default msg = let s = strip msg in if is_nil s then default else s

  abbrev parsed : FilePath → Text → GitOutcome Text → GitOutcome Changed
  parsed root default (git_error msg) = git_error (message_or default msg)
  parsed root default (ok diff_text) = ok (parse_diff (m.locate root) diff_text)

  -- The arguments of git and the message for an empty error are the callers' only difference.
  unfoldable pub changed_lines :
      List Text → Text → FilePath → Option FilePath → GitOutcome Text → GitOutcome Changed
  unfolding pathspec strip parse_path
  changed_lines args default cwd scope (git_error msg) = git_error msg
  changed_lines args default cwd scope (ok out) =
      let root = parse_path (strip out) in
      parsed root default (m.run root (with_spec args (pathspec root scope)))

  -- `git_root`
  unfoldable pub git_root : FilePath → GitOutcome Text
  git_root cwd = m.run cwd (codes "rev-parse" ∷ codes "--show-toplevel" ∷ [])

  unfoldable pub changed_lines_staged : FilePath → Option FilePath → GitOutcome Changed
  unfolding changed_lines git_root
  changed_lines_staged cwd scope =
      changed_lines
        (codes "diff"
          ∷ codes "--cached"
          ∷ codes "--unified=0"
          ∷ codes "--no-color"
          ∷ codes "--"
          ∷ [])
        (codes "git diff --cached failed") cwd scope (git_root cwd)

  -- `failed base head` is the message with the two names in Python's `repr`.
  unfoldable pub changed_lines_between :
      (Text → Text → Text) → Text → Text → FilePath → Option FilePath → GitOutcome Changed
  unfolding changed_lines git_root
  changed_lines_between failed base head cwd scope =
      changed_lines
        (codes "diff"
          ∷ codes "--unified=0"
          ∷ codes "--no-color"
          ∷ (base ++ (codes "..." ++ head))
          ∷ codes "--"
          ∷ [])
        (failed base head) cwd scope (git_root cwd)

  unfoldable pub changed_lines_since :
      (Text → Text → Text) → Text → FilePath → Option FilePath → GitOutcome Changed
  unfolding changed_lines_between
  changed_lines_since failed base cwd scope =
      changed_lines_between failed base (codes "HEAD") cwd scope
