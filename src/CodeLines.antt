-- ===== src/CodeLines.antt =====
-- src/slopsentinel/rules/utils.py: which lines of a file are comments, which are code, and the runs
-- of consecutive line numbers.
pub mod Partition
mod Runs
mod Tests
use slopsentinel.Base.{
  ℕ, zero, suc, ◌+◌, Text, codes, text_eq, List, [], ◌∷◌, Bool, true, false, ◌||◌, not, ◌==◌,
  nat_eq, if◌then◌else◌, is_nil, lstrip, strip, starts_with, has_infix,
}

-- `stripped.startswith(_LINE_COMMENT_PREFIXES)`
abbrev pub starts_line_comment : Text → Bool
starts_line_comment s = starts_with s (codes "#") || starts_with s (codes "//")

-- `is_comment_line`
unfoldable pub is_comment_line : Text → Bool
unfolding lstrip starts_with
is_comment_line line =
    let stripped = lstrip line in
    if is_nil stripped
    then false
    else starts_line_comment stripped || starts_with stripped (codes "/*")

-- One round of the loop of `iter_comment_lines`: whether the line is yielded, and the new value of
-- `in_block_comment`.
unfoldable pub comment_step : Bool → Text → Bool × Bool
unfolding lstrip starts_with has_infix
comment_step in_block_comment line =
    let stripped = lstrip line in
    if is_nil stripped
    then (false, in_block_comment)
    else if in_block_comment
    then (true, (if has_infix stripped (codes "*/") then false else in_block_comment))
    else if starts_line_comment stripped
    then (true, in_block_comment)
    else if starts_with stripped (codes "/*")
    then (true, (if not (has_infix stripped (codes "*/")) then true else in_block_comment))
    else (false, in_block_comment)

-- One round of the loop of `iter_code_lines`.
unfoldable pub code_step : Bool → Text → Bool × Bool
unfolding lstrip strip starts_with has_infix
code_step in_block_comment line =
    let lstripped = lstrip line in
    if is_nil (strip line)
    then (false, in_block_comment)
    else if in_block_comment
    then (false, (if has_infix lstripped (codes "*/") then false else in_block_comment))
    else if starts_line_comment lstripped
    then (false, in_block_comment)
    else if starts_with lstripped (codes "/*")
    then (false, (if not (has_infix lstripped (codes "*/")) then true else in_block_comment))
    else (true, in_block_comment)

-- The lines that a step yields, with their numbers.
unfoldable pub yielded : (Bool → Text → Bool × Bool) → Bool → ℕ → List Text → List (ℕ × Text)
yielded step in_block_comment idx [] = []
yielded step in_block_comment idx (line ∷ lines) =
    let rest = yielded step (step in_block_comment line).1 (suc idx) lines in
    if (step in_block_comment line).0 then (idx, line) ∷ rest else rest

unfoldable pub iter_comment_lines : List Text → List (ℕ × Text)
unfolding yielded
iter_comment_lines = yielded comment_step false 1

unfoldable pub iter_code_lines : List Text → List (ℕ × Text)
unfolding yielded
iter_code_lines = yielded code_step false 1

-- The loop of `consecutive_runs`.
unfoldable pub runs_from : ℕ → ℕ → ℕ → List ℕ → List (ℕ × ℕ)
unfolding nat_eq
runs_from start prev length [] = (start, length) ∷ []
runs_from start prev length (v ∷ values) =
    let longer = runs_from start v (length + 1) values in
    let next = runs_from v v 1 values in if v == prev + 1 then longer else (start, length) ∷ next

unfoldable pub consecutive_runs : List ℕ → List (ℕ × ℕ)
unfolding runs_from
consecutive_runs [] = []
consecutive_runs (v ∷ values) = runs_from v v 1 values
