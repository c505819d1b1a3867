-- ===== src/GitDiff/Tests.antt =====
-- A diff of two files.
use slopsentinel.Base.{
  Text, codes, text_eq, nat_eq, texts_eq, List, [], ◌∷◌, none, some, ◌≡◌, refl, any, starts_with,
  All, ◌++◌, false,
}
use slopsentinel.Types.{FilePath}
use slopsentinel.GitDiff.{run_diff, parse_hunk, plus_path, add_lines}
use slopsentinel.GitDiff.Sections.{Section, IsSection, render, changed, touches, changed_exactly}

abbrev at_root : Text → FilePath
at_root t = codes "/" ∷ t ∷ []

two_counts : parse_hunk (codes "@@ -3,0 +12,2 @@ def f():") ≡ some (12, 2)
unfolding parse_hunk nat_eq
two_counts = refl

one_line : parse_hunk (codes "@@ -3 +40 @@") ≡ some (40, 1)
unfolding parse_hunk nat_eq
one_line = refl

no_number : parse_hunk (codes "@@ -3 +x @@") ≡ none
unfolding parse_hunk nat_eq
no_number = refl

abbrev sections : List Section
sections =
    record {
      header = codes "+++ b/a.py";
      body = codes "@@ -1 +1,2 @@" ∷ codes "-x" ∷ codes "+y" ∷ codes "+z" ∷ codes "--- a/b.py" ∷ [];
    }
    ∷ record { header = codes "+++ /dev/null"; body = codes "@@ -1,2 +0,0 @@" ∷ [] }
    ∷ []

sections_lines :
    (run_diff at_root (none, []) (render sections)).1 ≡ (at_root (codes "a.py"), 1 ∷ 2 ∷ []) ∷ []
unfolding run_diff nat_eq texts_eq text_eq starts_with parse_hunk plus_path add_lines
sections_lines = refl

-- The added line "++ y" is read as the name of a file, and the second hunk is counted for it.
added_line_as_header :
    (run_diff at_root
      (none, [])
      (codes "+++ b/a.py"
        ∷ codes "@@ -0,0 +1 @@"
        ∷ codes "+++ y"
        ∷ codes "@@ -4,0 +6 @@"
        ∷ codes "+z"
        ∷ [])).1
    ≡ (at_root (codes "a.py"), 1 ∷ []) ∷ (at_root (codes "y"), 6 ∷ []) ∷ []
unfolding run_diff nat_eq texts_eq text_eq starts_with parse_hunk plus_path add_lines
added_line_as_header = refl

modified-IsSection : IsSection (record {
  header = codes "+++ b/a.py";
  body = codes "@@ -1 +1,2 @@" ∷ codes "-x" ∷ codes "+y" ∷ codes "+z" ∷ codes "--- a/b.py" ∷ [];
})
unfolding starts_with
modified-IsSection = (refl, (refl, (refl, (refl, (refl, (refl, tt))))))

deleted-IsSection :
    IsSection (record { header = codes "+++ /dev/null"; body = codes "@@ -1,2 +0,0 @@" ∷ [] })
unfolding starts_with
deleted-IsSection = (refl, (refl, tt))

-- What git writes before the first section.
abbrev before : List Text
before =
    codes "diff --git a/a.py b/a.py"
    ∷ codes "index 1e2f3a4..5b6c7d8 100644"
    ∷ codes "--- a/a.py"
    ∷ []

before-no_header : All (λ line. starts_with line (codes "+++ ") ≡ false) before
unfolding starts_with
before-no_header = (refl, (refl, (refl, tt)))

changed_exactly_example :
    changed (at_root (codes "a.py")) 2 (run_diff at_root (none, []) (before ++ render sections)).1
    ≡ any (touches at_root (at_root (codes "a.py")) 2) sections
changed_exactly_example =
    changed_exactly at_root before sections (at_root (codes "a.py")) 2 before-no_header
      (modified-IsSection, (deleted-IsSection, tt))
