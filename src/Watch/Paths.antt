-- ===== src/Watch/Paths.antt =====
-- `should_watch_path` of src/slopsentinel/watch.py, against the discovery of files.
use slopsentinel.Base.{
  Text, text_eq, texts_eq, List, [], ◌∷◌, ◌++◌, Option, none, some, Bool, true, false, ◌&&◌, ◌==◌,
  if◌then◌else◌, contains, map, contains-append, ◌≡◌, refl, sym, ◌∙◌, arith, Bool-cases, inl, inr,
}
use slopsentinel.Types.{FilePath}
use slopsentinel.Paths.{relative_to, relative_to-append}
use slopsentinel.Scanner.{
  ScanMachine, ScanTarget, Dir, dir, Subdirs, no_more, sub, a_dir, walk, walk_subdirs, is_candidate,
  discover_files,
}
use slopsentinel.Scanner.Discovered.{discovered_walked}

-- `is_file` and `exists`, beside what the scanner takes from the machine
pub record WatchMachine : Type 0 where
  pub scan : ScanMachine
  pub is_file : FilePath → Bool
  pub exists : FilePath → Bool

abbrev pub has_value : Option FilePath → Bool
has_value none = false
has_value (some p) = true

module _ (m : WatchMachine) where
  -- The scope of a scan of one file, or of a directory.
  unfoldable pub in_scope : FilePath → FilePath → Bool
  unfolding texts_eq relative_to
  in_scope resolved scan_resolved =
      if m.is_file scan_resolved
      then resolved == scan_resolved
      else has_value (relative_to resolved scan_resolved)

  abbrev pub watched : ScanTarget → Option FilePath → Option FilePath → Bool
  watched target none scan_path = false
  watched target (some resolved) none = false
  watched target (some resolved) (some scan_resolved) =
      in_scope resolved scan_resolved
      && ((m.exists resolved && m.is_file resolved) && is_candidate m.scan target resolved)

  unfoldable pub should_watch_path : ScanTarget → FilePath → Bool
  unfolding in_scope is_candidate
  should_watch_path target path =
      watched target (m.scan.resolve path) (m.scan.resolve target.scan_path)

both : (a b : Bool) → (a && b) ≡ true → (a ≡ true) × (b ≡ true)
both a b h = ground arith

has_value-append : (base rel : FilePath) → has_value (relative_to (base ++ rel) base) ≡ true
has_value-append base rel = rw (relative_to-append base rel) refl

contains-map :
    (base : FilePath) (files : List Text) (p : FilePath)
    → contains (map (λ filename. base ++ filename ∷ []) files) p ≡ true
    → has_value (relative_to p base) ≡ true
contains-map base [] p h = absurd (ground arith)
contains-map base (f ∷ files) p h = elim (Bool-cases (p == base ++ f ∷ [])) [
  | inl same ↦ let e : p ≡ base ++ f ∷ [] = ground arith in rw e (has_value-append base (f ∷ []))
  | inr other ↦ contains-map base files p (ground (arith, h, other))
]

has_value-shorter :
    (p base more : FilePath)
    → has_value (relative_to p (base ++ more)) ≡ true
    → has_value (relative_to p base) ≡ true
unfolding relative_to
has_value-shorter p [] more h = refl
has_value-shorter [] (b ∷ base) more h = absurd (ground arith)
has_value-shorter (q ∷ p) (b ∷ base) more h = elim (Bool-cases (q == b)) [
  | inr other ↦ absurd (ground (arith, h, other))
  | inl same ↦
      let rest : has_value (relative_to p (base ++ more)) ≡ true = ground (arith, h, same) in
      rw same (has_value-shorter p base more rest)
]

-- What the walk of a directory meets is below it.
mutual
  unfolding walk

  walk_below :
      (base : FilePath) (tree : Dir) (p : FilePath)
      → contains (walk base tree) p ≡ true
      → has_value (relative_to p base) ≡ true
  walk_below base (dir files subs) p h =
      elim (Bool-cases (contains (map (λ filename. base ++ filename ∷ []) files) p)) [
        | inl here ↦ contains-map base files p here
        | inr not_here ↦
            let deeper : contains (walk_subdirs base subs) p ≡ true = ground (
              arith,
              h,
              not_here,
              contains-append (map (λ filename. base ++ filename ∷ []) files)
                  (walk_subdirs base subs) p,
            ) in
            subdirs_below base subs p deeper
      ]

  subdirs_below :
      (base : FilePath) (subs : Subdirs) (p : FilePath)
      → contains (walk_subdirs base subs) p ≡ true
      → has_value (relative_to p base) ≡ true
  subdirs_below base no_more p h = absurd (ground arith)
  subdirs_below base (sub d tree subs) p h =
      elim (Bool-cases (contains (walk_subdirs base subs) p)) [
        | inl later ↦ subdirs_below base subs p later
        | inr not_later ↦
            let inside : contains (walk (base ++ d ∷ []) tree) p ≡ true = ground (
              arith,
              h,
              not_later,
              contains-append (walk (base ++ d ∷ []) tree) (walk_subdirs base subs) p,
            ) in
            has_value-shorter p base (d ∷ []) (walk_below (base ++ d ∷ []) tree p inside)
      ]

-- A file that discovery finds in the directory of a scan is watched, if it is still a file and
-- resolves to itself, as the directory does.
pub discovered_watched :
    (m : WatchMachine) (target : ScanTarget) (tree : Dir) (p : FilePath)
    → contains (discover_files m.scan target (a_dir tree)) p ≡ true
    → m.scan.resolve target.scan_path ≡ some target.scan_path
    → m.is_file target.scan_path ≡ false
    → m.scan.resolve p ≡ some p
    → m.is_file p ≡ true
    → m.exists p ≡ true
    → should_watch_path m target p ≡ true
unfolding should_watch_path in_scope
discovered_watched m target tree p found root dir_root self file there =
    let same = discovered_walked m.scan target tree p in
    let (good, met) =
      both (is_candidate m.scan target p) (contains (walk target.scan_path tree) p)
        (sym same ∙ found) in
    rw (root, self, dir_root, walk_below target.scan_path tree p met, there, file, good) refl
