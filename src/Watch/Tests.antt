-- ===== src/Watch/Tests.antt =====
-- A batcher with natural numbers as times, and infinity as `none`.
use slopsentinel.Base.{
  ℕ, ◌-◌, max, leb, Text, codes, texts_eq, text_eq, List, [], ◌∷◌, Option, none, some, Bool, true,
  false, ◌||◌, ◌≡◌, refl, contains, is_nil,
}
use slopsentinel.Types.{FilePath}
use slopsentinel.Watch.{Clock, new_batcher, ready, add, drain}
use slopsentinel.Scanner.{ScanTarget, Dir, dir, sub, no_more, a_dir, discover_files}
use slopsentinel.Watch.Paths.{WatchMachine, should_watch_path, discovered_watched}
use slopsentinel.Watch.Drained.{Event, changed, drained, after, paths, no_path_lost}

abbrev before : Option ℕ → Option ℕ → Option ℕ
before (some a) (some b) = some (a - b)
before _ _ = none

abbrev later : Option ℕ → Option ℕ → Option ℕ
later (some a) (some b) = some (max a b)
later _ _ = none

abbrev at_most : Option ℕ → Option ℕ → Bool
at_most (some a) (some b) = leb a b
at_most (some a) none = true
at_most none _ = false

abbrev clock : Clock
clock = record {
  Time = Option ℕ;
  zero = some 0;
  inf = none;
  sub = before;
  maximum = later;
  le = at_most;
  inf_positive = refl;
}

abbrev file : Text → FilePath
file t = t ∷ []

abbrev events : List (Event clock)
events =
    changed (file (codes "a")) (some 10)
    ∷ changed (file (codes "b")) (some 11)
    ∷ drained
    ∷ changed (file (codes "a")) (some 20)
    ∷ []

waits : ready clock (after clock events (new_batcher clock (some 5))).1 (some 24) ≡ false
unfolding ready new_batcher add drain
waits = refl

no_path_lost_example :
    let (batches, b) = after clock events (new_batcher clock (some 5)) in
    ((contains batches (file (codes "a")) || contains b.pending (file (codes "a")))
      ≡ contains (paths clock events) (file (codes "a")))
    × (ready clock b (some 25) ≡ true → is_nil b.pending ≡ false)
no_path_lost_example = no_path_lost clock events (some 5) (some 25) (file (codes "a"))

abbrev below_root : FilePath → Bool
below_root (a ∷ b ∷ p) = true
below_root _ = false

abbrev machine : WatchMachine
machine = record {
  scan = record { fnmatch = λ name pattern. false; resolve = λ p. some p };
  is_file = below_root;
  exists = λ p. true;
}

abbrev target : ScanTarget
target = record {
  project_root = codes "/" ∷ [];
  scan_path = codes "/" ∷ [];
  languages = codes "python" ∷ [];
  ignore_paths = codes "gen/" ∷ [];
}

abbrev tree : Dir
tree =
    dir (codes "b.py" ∷ codes "c.md" ∷ [])
      (sub (codes "gen") (dir (codes "g.py" ∷ []) no_more) no_more)

abbrev wanted : FilePath
wanted = codes "/" ∷ codes "b.py" ∷ []

wanted_found : contains (discover_files machine.scan target (a_dir tree)) wanted ≡ true
unfolding discover_files texts_eq
wanted_found = refl

ignored_not_watched :
    should_watch_path machine target (codes "/" ∷ codes "gen" ∷ codes "g.py" ∷ []) ≡ false
unfolding should_watch_path text_eq
ignored_not_watched = refl

discovered_watched_example : should_watch_path machine target wanted ≡ true
discovered_watched_example =
    discovered_watched machine target tree wanted wanted_found refl refl refl refl refl
