-- ===== src/Paths.antt =====
-- src/slopsentinel/utils.py and the methods of `pathlib.Path` that the program calls. Paths are
-- given by their parts; `resolve` is the file system's, `none` where it raises an `OSError`.
use slopsentinel.Base.{
  Text, codes, text_eq, [], ◌∷◌, ◌++◌, Option, none, some, ◌==◌, if◌then◌else◌, join, ◌≡◌, refl,
  arith,
}
use slopsentinel.Types.{FilePath}

-- `p.relative_to(root)`, `none` for its `ValueError`
unfoldable pub relative_to : FilePath → FilePath → Option FilePath
relative_to p [] = some p
relative_to [] (r ∷ root) = none
relative_to (q ∷ p) (r ∷ root) = let rest = relative_to p root in if q == r then rest else none

-- `p.as_posix()`
unfoldable pub as_posix : FilePath → Text
unfolding join
as_posix [] = codes "."
as_posix (r ∷ p) =
    if r == codes "/" then codes "/" ++ join (codes "/") p else join (codes "/") (r ∷ p)

abbrev or_self : Option FilePath → FilePath → FilePath
or_self none p = p
or_self (some q) p = q

unfoldable pub safe_relpath : (FilePath → Option FilePath) → FilePath → FilePath → Text
unfolding relative_to as_posix
safe_relpath resolve path root =
    elim (relative_to (or_self (resolve path) path) (or_self (resolve root) root)) [
      | some rel ↦ as_posix rel
      | none ↦ as_posix path
    ]

pub relative_to-append : (root rel : FilePath) → relative_to (root ++ rel) root ≡ some rel
unfolding relative_to
relative_to-append [] rel = refl
relative_to-append (r ∷ root) rel = ground (arith, relative_to-append root rel)
