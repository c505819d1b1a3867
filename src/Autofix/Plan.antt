-- ===== src/Autofix/Plan.antt =====
-- src/slopsentinel/autofix.py: the plan for one file, and the text that it gives.
use slopsentinel.Base.{
  ℕ, Text, codes, text_eq, nat_eq, List, [], ◌∷◌, ◌++◌, Option, none, some, Bool, ◌&&◌, ◌||◌, not,
  ◌==◌, if◌then◌else◌, any, contains, length, map, leb, ltb,
}
use slopsentinel.Types.{Violation, FilePath}
use slopsentinel.Languages.{detect_language}
use slopsentinel.Autofix.{
  LineRemoval, LineReplacement, CommentMask, line_at, build_comment_mask, should_remove_line,
}
use slopsentinel.Autofix.Lines.{splitlines_keep, concat}
use slopsentinel.Autofix.Merge.{merge_removals, flatten_removals, merge_replacements, updated_lines}
use slopsentinel.Autofix.Blocks.{thinking_blocks}
use slopsentinel.Autofix.Imports.{
  start_of, python_unused_import_statement_removals, is_safe_simple_python_import_removal,
  pass_replacements,
}
use slopsentinel.Autofix.Docstring.{python_a04_docstring_section_removals}
use slopsentinel.Autofix.Credential.{python_e09_credential_redaction_replacements}
use slopsentinel.Autofix.Constant.{python_plan_constant_extraction}
use slopsentinel.Autofix.Boolean.{
  python_plan_boolean_return_simplification, python_boolean_return_extra_removals,
}
use slopsentinel.Autofix.Syntax

-- `_python_comment_lines`
unfoldable pub python_comment_lines : Syntax.Python → Text → List ℕ
python_comment_lines python source = comments (python.generate_tokens source)
  where
    row : Syntax.TokenKind → ℕ → List ℕ → List ℕ
    row Syntax.comment_token n rows = n ∷ rows
    row kind n rows = rows

    rows : List Syntax.Token → List ℕ
    rows [] = []
    rows (tok ∷ toks) = row tok.kind tok.start_row (rows toks)

    comments : Option (List Syntax.Token) → List ℕ
    comments none = []
    comments (some toks) = rows toks

-- `any(v.rule_id == rule_id for v in violations)`
unfoldable pub has_rule : Text → List Violation → Bool
unfolding text_eq
has_rule rule_id violations = any (λ (v : Violation). v.rule_id == rule_id) violations

-- `int(v.location.start_line or 0) if v.location else 0`
abbrev or_zero : Option ℕ → ℕ
or_zero none = 0
or_zero (some n) = n

unfoldable pub line_no_of : Violation → ℕ
line_no_of v = or_zero (start_of v.location)

abbrev pub single : Text → ℕ → LineRemoval
single rule_id n = record { rule_ids = rule_id ∷ []; start_line = n; end_line = n }

-- What a round of the loop over the violations plans.
unfoldable pub violation_removal :
    List Text → CommentMask → Text → List ℕ → Violation → List LineRemoval
unfolding line_no_of line_at is_safe_simple_python_import_removal should_remove_line text_eq nat_eq
violation_removal lines mask language handled v =
    let line_no = line_no_of v in
    let line = line_at lines line_no in
    if leb line_no 0 || ltb (length lines) line_no
    then []
    else if v.rule_id == codes "E03" && language == codes "python"
    then if contains handled line_no
      then []
      else if is_safe_simple_python_import_removal line
      then single (codes "E03") line_no ∷ []
      else []
    else if should_remove_line v.rule_id line_no line mask
    then single v.rule_id line_no ∷ []
    else []

unfoldable pub violation_removals :
    List Text → CommentMask → Text → List ℕ → List Violation → List LineRemoval
unfolding violation_removal
violation_removals lines mask language handled [] = []
violation_removals lines mask language handled (v ∷ vs) =
    violation_removal lines mask language handled v
    ++ violation_removals lines mask language handled vs

unfoldable pub block_removals : List (ℕ × ℕ) → List LineRemoval
block_removals [] = []
block_removals ((start, stop) ∷ blocks) =
    record { rule_ids = codes "A06" ∷ []; start_line = start; end_line = stop }
    ∷ block_removals blocks

-- A planner that runs on Python files with a violation of its rule.
abbrev pub for_python : Text → Text → List Violation → List LineRemoval → List LineRemoval
unfolding has_rule text_eq
for_python language rule_id violations planned =
    if language == codes "python" && has_rule rule_id violations then planned else []

-- `candidates`
unfoldable pub removal_candidates :
    Syntax.Python → List Text → CommentMask → List Violation → Text → List LineRemoval
unfolding violation_removals block_removals thinking_blocks has_rule text_eq
    python_unused_import_statement_removals python_boolean_return_extra_removals
    python_a04_docstring_section_removals
removal_candidates python lines mask violations language =
    let bulk =
      for_python language (codes "E03") violations
        (python_unused_import_statement_removals python lines violations) in
    bulk
    ++ (violation_removals lines mask language (map (λ (r : LineRemoval). r.start_line) bulk)
          violations
        ++ ((if has_rule (codes "A06") violations
              then block_removals (thinking_blocks lines mask)
              else [])
            ++ (for_python language (codes "E11") violations
                  (python_boolean_return_extra_removals python lines violations)
                ++ for_python language (codes "A04") violations
                    (python_a04_docstring_section_removals python lines violations))))

-- `_plan_removals`
unfoldable pub plan_removals :
    Syntax.Python → List Text → CommentMask → List Violation → Text → List LineRemoval
unfolding merge_removals removal_candidates
plan_removals python lines mask violations language =
    merge_removals (removal_candidates python lines mask violations language)

abbrev lines_of : List LineReplacement → List ℕ
lines_of = map (λ (r : LineReplacement). r.line)

-- The replacements of the three planners that read the syntax, each aware of those before.
unfoldable pub replacement_candidates :
    Syntax.Python → List Text → List Violation → List LineReplacement
unfolding pass_replacements has_rule python_e09_credential_redaction_replacements
    python_plan_constant_extraction python_plan_boolean_return_simplification
replacement_candidates python lines violations =
    let first =
      pass_replacements lines violations
      ++ (if has_rule (codes "E09") violations
          then python_e09_credential_redaction_replacements python lines violations
          else []) in
    let second =
      first
      ++ (if has_rule (codes "E06") violations
          then python_plan_constant_extraction python lines violations (lines_of first)
          else []) in
    second
    ++ (if has_rule (codes "E11") violations
        then python_plan_boolean_return_simplification python lines violations (lines_of second)
        else [])

-- `_plan_replacements`
unfoldable pub plan_replacements :
    Syntax.Python → List Text → List Violation → Text → List LineReplacement
unfolding merge_replacements replacement_candidates text_eq
plan_replacements python lines violations language =
    if not (language == codes "python")
    then []
    else merge_replacements lines (replacement_candidates python lines violations)

-- `detect_language(path) or ""`
abbrev pub language_or_empty : Option Text → Text
language_or_empty none = []
language_or_empty (some language) = language

pub record Fixed : Type 0 where
  pub updated : Text
  pub removals : List LineRemoval
  pub replacements : List LineReplacement

-- `_apply_fixes_to_text` for a file of the given language
unfoldable pub fix_lines : Syntax.Python → Text → Text → List Violation → Fixed
unfolding splitlines_keep build_comment_mask python_comment_lines plan_removals plan_replacements
    updated_lines flatten_removals concat
fix_lines python language text violations =
    let lines = splitlines_keep text in
    let mask = build_comment_mask language (python_comment_lines python text) lines in
    let removals = plan_removals python lines mask violations language in
    let replacements = plan_replacements python lines violations language in
    record {
      updated = concat (updated_lines (flatten_removals removals) replacements 1 lines);
      removals = removals;
      replacements = replacements;
    }

-- `_apply_fixes_to_text`
unfoldable pub apply_fixes_to_text : Syntax.Python → FilePath → Text → List Violation → Fixed
unfolding fix_lines detect_language
apply_fixes_to_text python path text violations =
    fix_lines python (language_or_empty (detect_language path)) text violations

-- `apply_fixes`
unfoldable pub apply_fixes : Syntax.Python → FilePath → Text → List Violation → Text
unfolding apply_fixes_to_text
apply_fixes python path text violations = (apply_fixes_to_text python path text violations).updated
