-- ===== src/Scanner/Tests.antt =====
-- A tree with a file to find, a file of another kind and a directory to skip.
use slopsentinel.Base.{
  lower, not, texts_leb, Text, codes, text_eq, texts_eq, [], ◌∷◌, Option, some, false, ◌&&◌, ◌≡◌,
  refl, contains, ℤ, pos, IsSorted,
}
use slopsentinel.Types.{FilePath}
use slopsentinel.Paths.{relative_to}
use slopsentinel.Languages.{detect_language, allowed_extensions, suffix}
use slopsentinel.Scanner.{
  ScanMachine, ScanTarget, Dir, dir, no_more, sub, a_dir, path_is_ignored, is_some, discover_files,
}
use slopsentinel.Scanner.Discovered.{file_at, discovered_exactly}

abbrev machine : ScanMachine
machine = record { fnmatch = λ name pattern. false; resolve = λ p. some p }

abbrev target : ScanTarget
target = record {
  project_root = codes "/" ∷ [];
  scan_path = codes "/" ∷ [];
  languages = codes " Python" ∷ [];
  ignore_paths = codes "gen/" ∷ [];
}

abbrev tree : Dir
tree = dir (codes "b.PY" ∷ codes "readme.md" ∷ []) (
    sub (codes "venv") (dir (codes "v.py" ∷ []) no_more) (
      sub (codes "gen") (dir (codes "g.py" ∷ []) no_more)
        (sub (codes "a") (dir (codes "x.py" ∷ []) no_more) no_more)))

abbrev wanted : FilePath
wanted = codes "/" ∷ codes "a" ∷ codes "x.py" ∷ []

found : discover_files machine target (a_dir tree) ≡ wanted ∷ (codes "/" ∷ codes "b.PY" ∷ []) ∷ []
unfolding discover_files
found = refl

discovered_exactly_example :
    (contains (discover_files machine target (a_dir tree)) wanted ≡ (
      contains (allowed_extensions target.languages) (lower (suffix wanted))
      && is_some (detect_language wanted)
      && not (path_is_ignored machine wanted target.project_root target.ignore_paths)
      && file_at tree (relative_to wanted target.scan_path)))
    × IsSorted texts_leb (discover_files machine target (a_dir tree))
discovered_exactly_example = discovered_exactly machine target tree wanted

abbrev read_int : Text → Option ℤ
read_int t = some (pos 64)
