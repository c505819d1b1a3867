-- ===== src/Deslop.antt =====
-- src/slopsentinel/deslop.py: the removal of comments that match a shared pattern.
mod Kept
mod Tests
use slopsentinel.Base.{
  ℕ, zero, suc, ◌+◌, ◌-◌, Text, codes, text_eq, nat_eq, List, [], ◌∷◌, ◌++◌, Option, none, some,
  Bool, true, false, ◌&&◌, ◌||◌, not, ◌==◌, if◌then◌else◌, length, take, drop, is_nil, leb, eqb,
  lstrip, rstrip, strip, starts_with, has_infix,
}
use slopsentinel.Patterns.{polite_re, banner_re, comprehensive_re, last_update_re, thinking_re}
use slopsentinel.Autofix.{is_directive}
use slopsentinel.Autofix.Lines.{splitlines_keep, concat}
use slopsentinel.Autofix.Syntax

-- `_comment_matches_ai_artifact`, and the five tests of a comment line
unfoldable pub comment_matches_ai_artifact : Text → Bool
unfolding banner_re polite_re comprehensive_re last_update_re thinking_re
comment_matches_ai_artifact text =
    banner_re text
    || polite_re text
    || comprehensive_re text
    || last_update_re text
    || thinking_re text

-- Whether a line that is not blank is a comment, and the new value of `in_block_comment`.
unfoldable pub comment_state : Bool → Text → Bool × Bool
unfolding starts_with has_infix
comment_state in_block stripped =
    if in_block
    then (true, (if has_infix stripped (codes "*/") then false else in_block))
    else if starts_with stripped (codes "#") || starts_with stripped (codes "//")
    then (true, in_block)
    else if starts_with stripped (codes "/*")
    then (true, (if not (has_infix stripped (codes "*/")) then true else in_block))
    else (false, in_block)

-- One round of the loop of `deslop_text`: whether the line is kept, and the new state.
unfoldable pub deslop_step : Bool → Text → Bool × Bool
unfolding comment_state comment_matches_ai_artifact lstrip
deslop_step in_block line =
    let stripped = lstrip line in
    if is_nil stripped then (true, in_block) else (
      not ((comment_state in_block stripped).0 && comment_matches_ai_artifact line),
      (comment_state in_block stripped).1,
    )

unfoldable pub deslop_lines : Bool → List Text → List Text
unfolding deslop_step
deslop_lines in_block [] = []
deslop_lines in_block (line ∷ lines) =
    let rest = deslop_lines (deslop_step in_block line).1 lines in
    if (deslop_step in_block line).0 then line ∷ rest else rest

-- `deslop_text` for a language other than Python
unfoldable pub deslop_generic : Text → Text
unfolding deslop_lines splitlines_keep concat
deslop_generic text = concat (deslop_lines false (splitlines_keep text))

-- The span that a token removes from its line.
unfoldable pub artifact_span : Syntax.Token → Option (ℕ × ℕ)
unfolding is_directive comment_matches_ai_artifact
artifact_span tok = of_kind tok.kind
  where
    of_kind : Syntax.TokenKind → Option (ℕ × ℕ)
    of_kind Syntax.comment_token =
        if not (eqb tok.start_row tok.end_row)
          || is_directive tok.string
          || not (comment_matches_ai_artifact tok.string)
        then none
        else some (tok.start_col, tok.end_col)
    of_kind kind = none

-- `removals.get(idx)`: of two spans on a line the last one stays
unfoldable pub span_on : ℕ → List Syntax.Token → Option (ℕ × ℕ)
unfolding artifact_span
span_on idx [] = none
span_on idx (tok ∷ toks) = elim (span_on idx toks) [
  | some span ↦ some span
  | none ↦ if eqb tok.start_row idx then artifact_span tok else none
]

-- What is left of a line without the span: nothing if the comment was all of it.
unfoldable pub cut_span : Text → Option (ℕ × ℕ) → List Text
unfolding strip rstrip
cut_span line none = line ∷ []
cut_span line (some (start, stop)) =
    if leb (length line) start
    then line ∷ []
    else if is_nil (strip (take start line)) && is_nil (strip (drop stop line))
    then []
    else (rstrip (take start line) ++ drop stop line) ∷ []

unfoldable pub cut_lines : List Syntax.Token → ℕ → List Text → List Text
unfolding span_on cut_span
cut_lines toks idx [] = []
cut_lines toks idx (line ∷ lines) =
    cut_span line (span_on idx toks) ++ cut_lines toks (suc idx) lines

-- `_deslop_python`; without a span the lines are those of the text
unfoldable pub deslop_python : Syntax.Python → Text → Text
unfolding cut_lines deslop_generic splitlines_keep concat
deslop_python python text = elim (python.generate_tokens text) [
  | none ↦ deslop_generic text
  | some toks ↦ concat (cut_lines toks 1 (splitlines_keep text))
]

-- `deslop_text`
unfoldable pub deslop_text : Syntax.Python → Text → Text → Text
unfolding deslop_python deslop_generic text_eq
deslop_text python language text =
    if language == codes "python" then deslop_python python text else deslop_generic text
