-- ===== src/Scanner/Discovered.antt =====
-- What discovery returns, and the bounds of the number of workers.
use slopsentinel.Base.{
  codes, map, not, ◌++◌, contains-append, ℕ, zero, suc, ◌≤◌, min, max, Text, text_eq, texts_eq,
  List, [], ◌∷◌, Option, none, some, Bool, true, false, ◌&&◌, ◌||◌, ◌==◌, if◌then◌else◌, contains,
  select, contains-select, ℤ, pos, negsuc, texts_leb, texts_leb_total, texts_leb_trans, IsSorted,
  sort-IsSorted, contains-sort, ◌≡◌, refl, sym, ◌∙◌, arith, inl, inr, Bool-cases, lower, strip,
}
use slopsentinel.Types.{FilePath}
use slopsentinel.Paths.{relative_to}
use slopsentinel.Languages.{detect_language, allowed_extensions, suffix}
use slopsentinel.Scanner.{
  ScanMachine, ScanTarget, Dir, dir, Subdirs, no_more, sub, a_dir, walk, walk_subdirs, distinct,
  path_is_ignored, is_some, skip_dirs, is_candidate, discover_files, resolve_worker_count, clamped,
  or_cpu, cpu_or_one,
}

clamped_bounds :
    (default max_workers : ℕ) (o : Option ℤ)
    → 1 ≤ default
    → 1 ≤ max_workers
    → (1 ≤ clamped default max_workers o) × (clamped default max_workers o ≤ max_workers)
clamped_bounds d n none h k = (omega arith, omega arith)
clamped_bounds d n (some (pos zero)) h k = (omega arith, omega arith)
clamped_bounds d n (some (pos (suc i))) h k = (omega arith, omega arith)
clamped_bounds d n (some (negsuc i)) h k = (omega arith, omega arith)

bounds_if :
    (b : Bool) (x y n : ℕ)
    → (1 ≤ x) × (x ≤ n)
    → (1 ≤ y) × (y ≤ n)
    → (1 ≤ (if b then x else y)) × ((if b then x else y) ≤ n)
bounds_if true x y n h k = h
bounds_if false x y n h k = k

-- Whatever the environment variable says, the number of workers is at least 1 and at most the
-- greatest number allowed, if that is at least 1.
pub resolve_worker_count_bounds :
    (read_int : Text → Option ℤ) (cpu_count : Option ℕ) (raw_value : Option Text)
    (default : Option ℕ) (max_workers : ℕ)
    → 1 ≤ max_workers
    → let n = resolve_worker_count read_int cpu_count raw_value default max_workers in
      (1 ≤ n) × (n ≤ max_workers)
unfolding resolve_worker_count
resolve_worker_count_bounds read_int cpu none default n h = (omega arith, omega arith)
resolve_worker_count_bounds read_int cpu (some raw) default n h =
    bounds_if _ (min (max 1 (or_cpu (cpu_or_one cpu) default)) n) _ n (omega arith, omega arith)
      (clamped_bounds (max 1 (or_cpu (cpu_or_one cpu) default)) n (read_int (lower (strip raw)))
        (omega arith) h)

already :
    (ps : List FilePath) (q p : FilePath)
    → contains ps q ≡ true
    → contains ps p ≡ (p == q || contains ps p)
already ps q p there = elim (Bool-cases (p == q)) [
  | inr other ↦ rw other refl
  | inl same ↦ let e : p ≡ q = ground arith in rw (same, e) there
]

contains-distinct : (ps : List FilePath) (p : FilePath) → contains (distinct ps) p ≡ contains ps p
unfolding distinct
contains-distinct [] p = refl
contains-distinct (q ∷ ps) p = elim (Bool-cases (contains (distinct ps) q)) [
  | inr new ↦ rw (new, contains-distinct ps p) refl
  | inl there ↦
      rw there (contains-distinct ps p ∙ already ps q p (sym (contains-distinct ps q) ∙ there))
]

-- The directories that hold no source of a project.
abbrev pub never_entered : List Text
never_entered =
    codes ".git"
    ∷ codes ".hg"
    ∷ codes ".svn"
    ∷ codes ".idea"
    ∷ codes ".vscode"
    ∷ codes ".venv"
    ∷ codes "venv"
    ∷ codes "node_modules"
    ∷ codes "dist"
    ∷ codes "build"
    ∷ codes "__pycache__"
    ∷ []

abbrev is_name : List Text → List Text → Bool
is_name names (name ∷ []) = contains names name
is_name names parts = false

-- The tree has a file at these parts, below none of those directories.
unfoldable mutual
  unfolding text_eq

  pub has_file : Dir → List Text → Bool
  has_file (dir names subs) parts = is_name names parts || has_below subs parts

  pub has_below : Subdirs → List Text → Bool
  has_below no_more parts = false
  has_below (sub d tree subs) [] = has_below subs []
  has_below (sub d tree subs) (part ∷ parts) =
      (part == d && not (contains never_entered d) && has_file tree parts)
      || has_below subs (part ∷ parts)

-- What is left of a path behind one more part.
abbrev behind : Text → Option FilePath → Option FilePath
behind d (some (part ∷ parts)) = if part == d then some parts else none
behind d other = none

relative_to-part :
    (p base : FilePath) (d : Text) → relative_to p (base ++ d ∷ []) ≡ behind d (relative_to p base)
unfolding relative_to
relative_to-part [] [] d = refl
relative_to-part (q ∷ p) [] d = refl
relative_to-part [] (r ∷ base) d = refl
relative_to-part (q ∷ p) (r ∷ base) d = ground (arith, relative_to-part p base d)

abbrev is_part : Text → Option FilePath → Bool
is_part name (some (part ∷ [])) = part == name
is_part name other = false

abbrev name_at : List Text → Option FilePath → Bool
name_at names none = false
name_at names (some parts) = is_name names parts

abbrev pub file_at : Dir → Option FilePath → Bool
unfolding has_file
file_at tree none = false
file_at tree (some parts) = has_file tree parts

abbrev below_at : Subdirs → Option FilePath → Bool
unfolding has_below
below_at subs none = false
below_at subs (some parts) = has_below subs parts

same-part :
    (base p : FilePath) (name : Text)
    → (p == (base ++ name ∷ [])) ≡ is_part name (relative_to p base)
unfolding relative_to
same-part [] [] name = grind arith
same-part [] (q ∷ []) name = grind arith
same-part [] (q ∷ r ∷ p) name = grind arith
same-part (r ∷ base) [] name = grind arith
same-part (r ∷ base) (q ∷ p) name = grind (arith, same-part base p name)

name_at-nil : (o : Option FilePath) → false ≡ name_at [] o
name_at-nil none = refl
name_at-nil (some []) = refl
name_at-nil (some (part ∷ [])) = refl
name_at-nil (some (part ∷ next ∷ parts)) = refl

name_at-cons :
    (name : Text) (names : List Text) (o : Option FilePath)
    → (is_part name o || name_at names o) ≡ name_at (name ∷ names) o
name_at-cons name names none = refl
name_at-cons name names (some []) = refl
name_at-cons name names (some (part ∷ [])) = refl
name_at-cons name names (some (part ∷ next ∷ parts)) = refl

names-at :
    (base p : FilePath) (names : List Text)
    → contains (map (λ name. base ++ name ∷ []) names) p ≡ name_at names (relative_to p base)
names-at base p [] = name_at-nil (relative_to p base)
names-at base p (name ∷ names) =
    rw (same-part base p name, names-at base p names) (name_at-cons name names (relative_to p base))

file_at-dir :
    (names : List Text) (subs : Subdirs) (o : Option FilePath)
    → (name_at names o || below_at subs o) ≡ file_at (dir names subs) o
unfolding file_at below_at has_file
file_at-dir names subs none = refl
file_at-dir names subs (some parts) = refl

below_at-no_more : (o : Option FilePath) → false ≡ below_at no_more o
unfolding below_at has_below
below_at-no_more none = refl
below_at-no_more (some parts) = refl

below_at-sub :
    (d : Text) (tree : Dir) (subs : Subdirs) (o : Option FilePath)
    → ((not (contains never_entered d) && file_at tree (behind d o)) || below_at subs o)
      ≡ below_at (sub d tree subs) o
unfolding file_at below_at has_below
below_at-sub d tree subs none = ground arith
below_at-sub d tree subs (some []) = ground arith
below_at-sub d tree subs (some (part ∷ parts)) = choose (part == d) (not (contains never_entered d))
  where
    choose :
        (same enter : Bool)
        → ((enter && file_at tree (if same then some parts else none))
            || has_below subs (part ∷ parts))
          ≡ ((same && enter && has_file tree parts) || has_below subs (part ∷ parts))
    choose true enter = refl
    choose false true = refl
    choose false false = refl

contains-entered :
    (skipped : Bool) (inside rest : List FilePath) (p : FilePath)
    → contains (if skipped then rest else inside ++ rest) p
      ≡ ((not skipped && contains inside p) || contains rest p)
contains-entered true inside rest p = refl
contains-entered false inside rest p = contains-append inside rest p

mutual
  unfolding walk

  walk-at :
      (base p : FilePath) (tree : Dir)
      → contains (walk base tree) p ≡ file_at tree (relative_to p base)
  walk-at base p (dir names subs) =
      contains-append (map (λ name. base ++ name ∷ []) names) (walk_subdirs base subs) p
      ∙ rw (names-at base p names, subdirs-at base p subs)
          (file_at-dir names subs (relative_to p base))

  subdirs-at :
      (base p : FilePath) (subs : Subdirs)
      → contains (walk_subdirs base subs) p ≡ below_at subs (relative_to p base)
  subdirs-at base p no_more = below_at-no_more (relative_to p base)
  subdirs-at base p (sub d tree subs) =
      contains-entered (contains skip_dirs d) (walk (base ++ d ∷ []) tree) (walk_subdirs base subs)
        p
      ∙ rw (walk-at (base ++ d ∷ []) p tree, relative_to-part p base d, subdirs-at base p subs)
          (below_at-sub d tree subs (relative_to p base))

module _ (m : ScanMachine) where
  pub discovered_walked :
      (target : ScanTarget) (tree : Dir) (p : FilePath)
      → contains (discover_files m target (a_dir tree)) p
        ≡ (is_candidate m target p && contains (walk target.scan_path tree) p)
  unfolding discover_files
  discovered_walked target tree p = rw (contains-sort, contains-distinct, contains-select) refl

  -- Of a directory, discovery returns, sorted by path, exactly the paths below it at which its tree has
  -- a file, through no directory of the list of those never entered, that have an allowed suffix and
  -- a language and are not ignored.
  pub discovered_exactly :
      (target : ScanTarget) (tree : Dir) (p : FilePath)
      → (contains (discover_files m target (a_dir tree)) p ≡ (
          contains (allowed_extensions target.languages) (lower (suffix p))
          && is_some (detect_language p)
          && not (path_is_ignored m p target.project_root target.ignore_paths)
          && file_at tree (relative_to p target.scan_path)))
        × IsSorted texts_leb (discover_files m target (a_dir tree))
  unfolding discover_files is_candidate
  discovered_exactly target tree p = (
    rw (discovered_walked target tree p, walk-at target.scan_path p tree) (ground arith),
    sort-IsSorted texts_leb texts_leb_total texts_leb_trans
        (distinct (select (is_candidate m target) (walk target.scan_path tree))),
  )
