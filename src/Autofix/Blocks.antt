-- ===== src/Autofix/Blocks.antt =====
-- src/slopsentinel/autofix.py: the <thinking> blocks within comments.
use slopsentinel.Base.{
  ℕ, suc, Text, codes, List, [], ◌∷◌, ◌++◌, Option, none, some, Bool, true, false, ◌&&◌, ◌||◌, not,
  if◌then◌else◌, all, length, leb, ltb, lower, has_infix,
}
use slopsentinel.Autofix.{CommentMask, flag_at, line_at, is_safe_any_comment_deletion}
use slopsentinel.Autofix.Lines.{range_incl}

unfoldable pub line_is_safe : List Text → CommentMask → ℕ → Bool
unfolding line_at is_safe_any_comment_deletion
line_is_safe lines mask line_no =
    if leb line_no 0 || ltb (length lines) line_no
    then false
    else flag_at mask.is_comment line_no
      && is_safe_any_comment_deletion line_no (line_at lines line_no) mask

-- `_range_is_safe`
unfoldable pub range_is_safe : List Text → CommentMask → ℕ → ℕ → Bool
unfolding line_is_safe range_incl
range_is_safe lines mask start stop = all (line_is_safe lines mask) (range_incl start stop)

-- A block, if it is safe to delete.
unfoldable pub safe_block : List Text → CommentMask → ℕ → ℕ → List (ℕ × ℕ)
unfolding range_is_safe
safe_block lines mask start stop =
    if range_is_safe lines mask start stop then (start, stop) ∷ [] else []

-- What a round of the loop of `_thinking_blocks` appends, and the new `open_start`, for a comment
-- line that shows an opening tag or a closing tag.
unfoldable pub tag_step :
    List Text → CommentMask → Option ℕ → ℕ → Bool → Bool → List (ℕ × ℕ) × Option ℕ
unfolding safe_block
tag_step lines mask open_start idx true true = (safe_block lines mask idx idx, open_start)
tag_step lines mask none idx true false = ([], some idx)
tag_step lines mask none idx false true = (safe_block lines mask idx idx, none)
tag_step lines mask (some start) idx false true = (safe_block lines mask start idx, none)
tag_step lines mask (some start) idx true false = ([], some start)
tag_step lines mask open_start idx false false = ([], open_start)

unfoldable pub block_step : List Text → CommentMask → Option ℕ → ℕ → Text → List (ℕ × ℕ) × Option ℕ
unfolding tag_step has_infix lower
block_step lines mask open_start idx line =
    let lowered = lower line in
    if not (flag_at mask.is_comment idx)
    then ([], open_start)
    else tag_step lines mask open_start idx (has_infix lowered (codes "<thinking>"))
        (has_infix lowered (codes "</thinking>"))

unfoldable pub blocks_from : List Text → CommentMask → Option ℕ → ℕ → List Text → List (ℕ × ℕ)
unfolding block_step
blocks_from lines mask open_start idx [] = []
blocks_from lines mask open_start idx (line ∷ rest) =
    (block_step lines mask open_start idx line).0
    ++ blocks_from lines mask (block_step lines mask open_start idx line).1 (suc idx) rest

-- `_thinking_blocks`
unfoldable pub thinking_blocks : List Text → CommentMask → List (ℕ × ℕ)
unfolding blocks_from
thinking_blocks lines mask = blocks_from lines mask none 1 lines
