-- ===== src/GitDiff/Sections.antt =====
-- A diff as sections, one for each file: the loop finds exactly the lines of the sections' hunks.
use slopsentinel.Base.{
  ℕ, zero, suc, ◌+◌, Text, codes, text_eq, texts_eq, nat_eq, List, [], ◌∷◌, ◌++◌, Option, none,
  some, Bool, true, false, ◌||◌, ◌&&◌, ◌==◌, leb, ltb, starts_with, contains, any, All, ◌≡◌, refl,
  ap, ◌∙◌, arith, contains-append,
}
use slopsentinel.Types.{FilePath}
use slopsentinel.GitDiff.{
  Changed, range, add_lines, lines_of, plus_path, parse_hunk, diff_step, run_diff, current_of,
  add_hunk,
}

-- A line number is among those of a file.
abbrev pub member : Option (List ℕ) → ℕ → Bool
member none n = false
member (some lines) n = contains lines n

abbrev pub changed : FilePath → ℕ → Changed → Bool
changed path n result = member (lines_of path result) n

-- A hunk header of `start` and `count` has the line.
abbrev pub in_hunk : ℕ → Option (ℕ × ℕ) → Bool
in_hunk n none = false
in_hunk n (some (start, count)) = leb start n && ltb n (start + count)

-- A section: its "+++ " line, and the lines up to the next one.
pub record Section : Type 0 where
  pub header : Text
  pub body : List Text

abbrev pub IsSection : Section → Type 0
IsSection s =
    (starts_with s.header (codes "+++ ") ≡ true)
    × All (λ line. starts_with line (codes "+++ ") ≡ false) s.body

abbrev pub render : List Section → List Text
render [] = []
render (s ∷ sections) = s.header ∷ (s.body ++ render sections)

contains-range :
    (start count n : ℕ) → contains (range start count) n ≡ in_hunk n (some (start, count))
contains-range start zero n = ground arith
contains-range start (suc count) n = ground (arith, contains-range (suc start) count n)

changed-add_lines :
    (path p : FilePath) (new : List ℕ) (result : Changed) (n : ℕ)
    → changed p n (add_lines path new result)
      ≡ (changed p n result || (path == p && contains new n))
unfolding add_lines lines_of
changed-add_lines path p new [] n = ground arith
changed-add_lines path p new ((q, lines) ∷ result) n =
    ground (arith, changed-add_lines path p new result n, contains-append lines new n)

module _ (locate : Text → FilePath) where
  changed-add_hunk :
      (path p : FilePath) (hunk : Option (ℕ × ℕ)) (result : Changed) (n : ℕ)
      → changed p n (add_hunk locate (some path) hunk result)
        ≡ (changed p n result || (path == p && in_hunk n hunk))
  changed-add_hunk path p none result n = ground arith
  changed-add_hunk path p (some (start, zero)) result n = ground arith
  changed-add_hunk path p (some (start, suc k)) result n =
      changed-add_lines path p (range start (suc k)) result n
      ∙ ap (λ b. changed p n result || (path == p && b)) (contains-range start (suc k) n)

  add_hunks : Option FilePath → List Text → Changed → Changed
  add_hunks current [] result = result
  add_hunks current (line ∷ body) result =
      add_hunks current body (add_hunk locate current (parse_hunk line) result)

  run_diff-body :
      (current : Option FilePath) (result : Changed) (body rest : List Text)
      → All (λ line. starts_with line (codes "+++ ") ≡ false) body
      → run_diff locate (current, result) (body ++ rest)
        ≡ run_diff locate (current, add_hunks current body result) rest
  unfolding run_diff diff_step add_hunks
  run_diff-body current result [] rest h = refl
  run_diff-body current result (line ∷ body) rest (h, hs) =
      rw (run_diff, diff_step, h)
        (run_diff-body current (add_hunk locate current (parse_hunk line) result) body rest hs)

  add_hunks-none : (body : List Text) (result : Changed) → add_hunks none body result ≡ result
  unfolding add_hunks
  add_hunks-none [] result = refl
  add_hunks-none (line ∷ body) result = add_hunks-none body result

  -- Some line of the body is the header of a hunk that has the number.
  abbrev pub has_hunk : ℕ → List Text → Bool
  has_hunk n body = any (λ line. in_hunk n (parse_hunk line)) body

  changed-add_hunks :
      (path p : FilePath) (body : List Text) (result : Changed) (n : ℕ)
      → changed p n (add_hunks (some path) body result)
        ≡ (changed p n result || (path == p && has_hunk n body))
  unfolding add_hunks
  changed-add_hunks path p [] result n = ground arith
  changed-add_hunks path p (line ∷ body) result n =
      changed-add_hunks path p body _ n
      ∙ ground (arith, changed-add_hunk path p (parse_hunk line) result n)

  abbrev pub touches_at : FilePath → ℕ → List Text → Option Text → Bool
  touches_at p n body none = false
  touches_at p n body (some q) = locate q == p && has_hunk n body

  -- The section is that of the file, and one of its hunks has the line.
  abbrev pub touches : FilePath → ℕ → Section → Bool
  touches p n s = touches_at p n s.body (plus_path s.header)

  changed-section :
      (o : Option Text) (body : List Text) (result : Changed) (p : FilePath) (n : ℕ)
      → changed p n (add_hunks (current_of locate o) body result)
        ≡ (changed p n result || touches_at p n body o)
  changed-section none body result p n = rw add_hunks-none (ground arith)
  changed-section (some q) body result p n = changed-add_hunks (locate q) p body result n

  run_diff-render :
      (sections : List Section) (current : Option FilePath) (result : Changed) (p : FilePath)
      (n : ℕ)
      → All IsSection sections
      → changed p n (run_diff locate (current, result) (render sections)).1
        ≡ (changed p n result || any (touches p n) sections)
  unfolding run_diff diff_step
  run_diff-render [] current result p n h = ground arith
  run_diff-render (s ∷ sections) current result p n ((head, body), hs) =
      rw
        (
          run_diff,
          diff_step,
          head,
          run_diff-body (current_of locate (plus_path s.header)) result s.body (render sections)
              body,
        )
        (run_diff-render sections (current_of locate (plus_path s.header))
            (add_hunks (current_of locate (plus_path s.header)) s.body result) p n hs
          ∙ ground (arith, changed-section (plus_path s.header) s.body result p n))

  -- In a diff of any lines before the first "+++ " line, as git's "diff --git" and "--- " lines are,
  -- and of sections, each a "+++ " line and lines that are none, a line number of a file counts as
  -- changed exactly if some section names the file and one of its hunks has the number; a section of
  -- a deleted file, /dev/null, counts for no file.
  pub changed_exactly :
      (before : List Text) (sections : List Section) (p : FilePath) (n : ℕ)
      → All (λ line. starts_with line (codes "+++ ") ≡ false) before
      → All IsSection sections
      → changed p n (run_diff locate (none, []) (before ++ render sections)).1
        ≡ any (touches p n) sections
  unfolding lines_of
  changed_exactly before sections p n k h =
      rw (run_diff-body none [] before (render sections) k, add_hunks-none before [])
        (run_diff-render sections none [] p n h)
