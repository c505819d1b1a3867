-- ===== src/Autofix.antt =====
-- src/slopsentinel/autofix.py: the values of the planner, the mask of the comment lines, and the
-- tests that guard a removal.
pub mod Lines
pub mod Merge
mod Blocks
mod Separated
pub mod Syntax
mod Imports
mod Boolean
mod Docstring
mod Credential
mod Constant
pub mod Plan
mod Covered
mod Code
mod Tests
use slopsentinel.Base.{
  ℕ, zero, suc, ◌+◌, ◌-◌, Text, codes, text_eq, List, [], ◌∷◌, ◌++◌, Option, none, some, Bool, true,
  false, ◌&&◌, ◌||◌, not, ◌==◌, if◌then◌else◌, map, contains, is_nil, lower, lstrip, starts_with,
  has_infix, nat_eq,
}
use slopsentinel.Types.{Violation, Location}
use slopsentinel.Patterns.{polite_re, banner_re, comprehensive_re, last_update_re, thinking_re}

-- A contiguous range of lines to delete, both ends included, counted from 1.
pub record LineRemoval : Type 0 where
  pub rule_ids : List Text
  pub start_line : ℕ
  pub end_line : ℕ

pub record LineReplacement : Type 0 where
  pub rule_ids : List Text
  pub line : ℕ
  pub content : Text

-- `_CommentMask`: the two flags of each line, element 0 a dummy.
pub record CommentMask : Type 0 where
  pub is_comment : List Bool
  pub in_block_comment : List Bool

-- `flags[line_no]`; every caller tests that the line exists.
abbrev pub flag_at : List Bool → ℕ → Bool
flag_at [] n = false
flag_at (b ∷ bs) zero = b
flag_at (b ∷ bs) (suc n) = flag_at bs n

-- `lines[line_no - 1]` for a line that exists
abbrev pub nth_line : List Text → ℕ → Text
nth_line [] n = []
nth_line (l ∷ ls) zero = l
nth_line (l ∷ ls) (suc n) = nth_line ls n

unfoldable pub line_at : List Text → ℕ → Text
line_at lines line_no = nth_line lines (line_no - 1)

-- The two flags of a line and the new value of `in_block`: a round of the loop of
-- `_build_comment_mask` for a language other than Python.
pub record MaskStep : Type 0 where
  pub comment : Bool
  pub block : Bool
  pub after : Bool

unfoldable pub mask_step : Bool → Text → MaskStep
unfolding lstrip starts_with has_infix
mask_step in_block line =
    let stripped = lstrip line in
    if in_block
    then record {
      comment = true;
      block = true;
      after = if has_infix stripped (codes "*/") then false else in_block;
    }
    else if starts_with stripped (codes "//")
    then record { comment = true; block = false; after = in_block }
    else if starts_with stripped (codes "/*")
    then record {
      comment = true;
      block = true;
      after = if not (has_infix stripped (codes "*/")) then true else in_block;
    }
    else record { comment = false; block = false; after = in_block }

unfoldable pub mask_from : Bool → List Text → List MaskStep
unfolding mask_step
mask_from in_block [] = []
mask_from in_block (line ∷ lines) =
    mask_step in_block line ∷ mask_from (mask_step in_block line).after lines

-- A line of Python is a comment if the tokenizer saw one there and the line begins with it.
unfoldable pub python_flags : List ℕ → ℕ → List Text → List Bool
unfolding lstrip starts_with nat_eq
python_flags comment_lines idx [] = []
python_flags comment_lines idx (line ∷ lines) =
    (contains comment_lines idx && starts_with (lstrip line) (codes "#"))
    ∷ python_flags comment_lines (suc idx) lines

-- `_build_comment_mask`, with the result of `_python_comment_lines`
unfoldable pub build_comment_mask : Text → List ℕ → List Text → CommentMask
unfolding python_flags mask_from text_eq
build_comment_mask language comment_lines lines =
    if language == codes "python"
    then record {
      is_comment = false ∷ python_flags comment_lines 1 lines;
      in_block_comment = false ∷ map (λ (line : Text). false) lines;
    }
    else let steps = mask_from false lines in
      record {
        is_comment = false ∷ map (λ (s : MaskStep). s.comment) steps;
        in_block_comment = false ∷ map (λ (s : MaskStep). s.block) steps;
      }

-- `_line_matches_rule`
unfoldable pub line_matches_rule : Text → Text → Bool
unfolding polite_re banner_re comprehensive_re last_update_re thinking_re text_eq
line_matches_rule rule_id line =
    if rule_id == codes "A03"
    then polite_re line
    else if rule_id == codes "A10"
    then banner_re line
    else if rule_id == codes "D01"
    then comprehensive_re line
    else if rule_id == codes "C09"
    then last_update_re line
    else if rule_id == codes "A06"
    then thinking_re line
    else false

-- `"slop:" in line.lower()`
unfoldable pub is_directive : Text → Bool
unfolding has_infix lower
is_directive line = has_infix (lower line) (codes "slop:")

-- `_should_remove_line` with `allow_block_interior=True`, as every caller has it
unfoldable pub should_remove_line : Text → ℕ → Text → CommentMask → Bool
unfolding is_directive lstrip starts_with has_infix line_matches_rule
should_remove_line rule_id line_no line mask =
    let stripped = lstrip line in
    if not (flag_at mask.is_comment line_no)
    then false
    else if is_directive line
    then false
    else if starts_with stripped (codes "#") || starts_with stripped (codes "//")
    then line_matches_rule rule_id line
    else if flag_at mask.in_block_comment line_no
    then if has_infix stripped (codes "/*") || has_infix stripped (codes "*/")
      then if starts_with stripped (codes "/*") && has_infix stripped (codes "*/")
        then line_matches_rule rule_id line
        else false
      else line_matches_rule rule_id line
    else false

-- `_is_safe_any_comment_deletion`
unfoldable pub is_safe_any_comment_deletion : ℕ → Text → CommentMask → Bool
unfolding is_directive lstrip starts_with has_infix
is_safe_any_comment_deletion line_no line mask =
    let stripped = lstrip line in
    if is_directive line
    then false
    else if starts_with stripped (codes "#") || starts_with stripped (codes "//")
    then true
    else if flag_at mask.in_block_comment line_no
    then if has_infix stripped (codes "/*") || has_infix stripped (codes "*/")
      then starts_with stripped (codes "/*") && has_infix stripped (codes "*/")
      else true
    else false
