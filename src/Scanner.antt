-- ===== src/Scanner.antt =====
-- src/slopsentinel/scanner.py: the number of workers and the discovery of files; and
-- `path_is_ignored` of src/slopsentinel/config.py. A directory is given as a tree, what `os.walk`
-- sees; `fnmatch` and the file system's `resolve` are parameters.
pub mod Discovered
mod Tests
use slopsentinel.Base.{
  ℕ, zero, suc, ◌*◌, min, max, Text, codes, text_eq, texts_eq, List, [], ◌∷◌, ◌++◌, Option, none,
  some, Bool, true, false, not, ◌&&◌, ◌||◌, ◌==◌, if◌then◌else◌, map, contains, select, strip,
  lower, is_nil, ℤ, pos, negsuc, starts_with, ends_with, has_infix, replace_char, drop, any, sort,
  texts_leb,
}
use slopsentinel.Types.{FilePath}
use slopsentinel.Paths.{relative_to, as_posix}
use slopsentinel.Languages.{detect_language, allowed_extensions, suffix}

abbrev clamped : ℕ → ℕ → Option ℤ → ℕ
clamped default max_workers (some (pos (suc n))) = min (suc n) max_workers
clamped default max_workers _ = min default max_workers

abbrev or_cpu : ℕ → Option ℕ → ℕ
or_cpu cpu none = cpu * 2
or_cpu cpu (some n) = n

-- `os.cpu_count() or 1`
abbrev cpu_or_one : Option ℕ → ℕ
cpu_or_one none = 1
cpu_or_one (some zero) = 1
cpu_or_one (some (suc n)) = suc n

-- `resolve_worker_count`: `read_int` is `int(text)`, `none` for its `ValueError`; a default below
-- 1 counts as 1.
unfoldable pub resolve_worker_count : (Text → Option ℤ) → Option ℕ → Option Text → Option ℕ → ℕ → ℕ
unfolding strip lower text_eq
resolve_worker_count read_int cpu_count none default max_workers =
    min (max 1 (or_cpu (cpu_or_one cpu_count) default)) max_workers
resolve_worker_count read_int cpu_count (some raw_value) default max_workers =
    let resolved_default = max 1 (or_cpu (cpu_or_one cpu_count) default) in
    let normalized = lower (strip raw_value) in
    if is_nil normalized || contains (codes "auto" ∷ codes "default" ∷ []) normalized
    then min resolved_default max_workers
    else clamped resolved_default max_workers (read_int normalized)

-- `fnmatch.fnmatch` and `Path.resolve`, `none` where it raises
pub record ScanMachine : Type 0 where
  pub fnmatch : Text → Text → Bool
  pub resolve : FilePath → Option FilePath

-- `relative.name`
unfoldable pub name_of : FilePath → Text
name_of [] = []
name_of (part ∷ []) = part
name_of (part ∷ next ∷ parts) = name_of (next ∷ parts)

module _ (m : ScanMachine) where
  -- The test of one pattern.
  unfoldable pub matches : Text → Text → Text → Bool
  unfolding strip replace_char starts_with ends_with has_infix
  matches rel_posix basename raw_pattern =
      let slashed = replace_char b'\\' b'/' (strip raw_pattern) in
      let pattern = if starts_with slashed (codes "./") then drop 2 slashed else slashed in
      if is_nil slashed
      then false
      else if ends_with pattern (codes "/")
      then starts_with rel_posix pattern
      else if has_infix pattern (codes "/")
      then m.fnmatch rel_posix pattern
      else m.fnmatch basename pattern || m.fnmatch rel_posix pattern

  abbrev ignored_at : Option FilePath → List Text → Bool
  ignored_at none patterns = false
  ignored_at (some relative) patterns =
      any (matches (as_posix relative) (name_of relative)) patterns

  abbrev relative_of : Option FilePath → Option FilePath → Option FilePath
  relative_of none root = none
  relative_of (some p) none = none
  relative_of (some p) (some root) = relative_to p root

  -- `path_is_ignored`
  unfoldable pub path_is_ignored : FilePath → FilePath → List Text → Bool
  unfolding relative_to as_posix name_of matches
  path_is_ignored path project_root ignore_patterns =
      ignored_at (relative_of (m.resolve path) (m.resolve project_root)) ignore_patterns

pub record ScanTarget : Type 0 where
  pub project_root : FilePath
  pub scan_path : FilePath
  pub languages : List Text
  pub ignore_paths : List Text

-- `DEFAULT_SKIP_DIRS`
abbrev pub skip_dirs : List Text
skip_dirs =
    codes ".git"
    ∷ codes ".hg"
    ∷ codes ".svn"
    ∷ codes ".idea"
    ∷ codes ".vscode"
    ∷ codes ".venv"
    ∷ codes "venv"
    ∷ codes "node_modules"
    ∷ codes "dist"
    ∷ codes "build"
    ∷ codes "__pycache__"
    ∷ []

-- A directory with the names of its files, and its directories.
mutual
  pub data Dir : Type 0 where
    dir : List Text → Subdirs → Dir

  pub data Subdirs : Type 0 where
    no_more : Subdirs
    sub : Text → Dir → Subdirs → Subdirs

-- What is at the scan path: `scan_path.is_file()`, or a directory to walk.
pub data Scanned : Type 0 where
  a_file : Scanned
  a_dir : Dir → Scanned

-- `base / filename` for each file that the walk meets.
unfoldable mutual
  unfolding text_eq

  pub walk : FilePath → Dir → List FilePath
  walk base (dir filenames subdirs) =
      map (λ filename. base ++ filename ∷ []) filenames ++ walk_subdirs base subdirs

  pub walk_subdirs : FilePath → Subdirs → List FilePath
  walk_subdirs base no_more = []
  walk_subdirs base (sub d tree subdirs) =
      let inside = walk (base ++ d ∷ []) tree in
      let rest = walk_subdirs base subdirs in if contains skip_dirs d then rest else inside ++ rest

-- `set(files)`. Paths are ordered by their parts.
unfoldable pub distinct : List FilePath → List FilePath
unfolding texts_eq
distinct [] = []
distinct (p ∷ ps) = let rest = distinct ps in if contains rest p then rest else p ∷ rest

abbrev pub is_some : Option Text → Bool
is_some none = false
is_some (some t) = true

module _ (m : ScanMachine) where
  -- The three tests of a file, which the two branches share.
  unfoldable pub is_candidate : ScanTarget → FilePath → Bool
  unfolding allowed_extensions lower suffix text_eq detect_language path_is_ignored
  is_candidate target path =
      contains (allowed_extensions target.languages) (lower (suffix path))
      && is_some (detect_language path)
      && not (path_is_ignored m path target.project_root target.ignore_paths)

  unfoldable pub discover_files : ScanTarget → Scanned → List FilePath
  unfolding is_candidate walk distinct sort texts_leb
  discover_files target a_file =
      if is_candidate target target.scan_path then target.scan_path ∷ [] else []
  discover_files target (a_dir tree) =
      sort texts_leb (distinct (select (is_candidate target) (walk target.scan_path tree)))
