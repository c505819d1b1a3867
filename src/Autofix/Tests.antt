-- ===== src/Autofix/Tests.antt =====
-- The fixes at sample files.
use slopsentinel.Base.{
  ℕ, Text, codes, text_eq, nat_eq, List, [], ◌∷◌, none, some, Bool, true, false, lstrip,
  starts_with, has_infix, contains, map, ◌≡◌, refl, arith,
}
use slopsentinel.Types.{Violation, Severity, Dimension}
use slopsentinel.CodeLines.{iter_code_lines}
use slopsentinel.Autofix.{
  mask_step, LineRemoval, line_at, flag_at, build_comment_mask, is_directive,
}
use slopsentinel.Autofix.Lines.{splitlines_keep, concat}
use slopsentinel.Autofix.Merge.{merge_removals, flatten_removals}
use slopsentinel.Autofix.Separated.{AreSeparated, merge_removals_exact}
use slopsentinel.Autofix.Plan.{fix_lines}
use slopsentinel.Autofix.Code.{kept_lines, fix_lines-code, fix_lines-directives}
use slopsentinel.Autofix.Syntax

abbrev removal : ℕ → ℕ → LineRemoval
removal start stop = record { rule_ids = codes "A06" ∷ []; start_line = start; end_line = stop }

abbrev some_removals : List LineRemoval
some_removals = removal 7 9 ∷ removal 2 3 ∷ removal 4 4 ∷ []

merge_removals_runs : flatten_removals (merge_removals some_removals) ≡ 2 ∷ 3 ∷ 4 ∷ 7 ∷ 8 ∷ 9 ∷ []
unfolding merge_removals flatten_removals
merge_removals_runs = refl

merge_removals_exact_example :
    (contains (flatten_removals (merge_removals some_removals)) 4
      ≡ contains (flatten_removals some_removals) 4)
    × AreSeparated (merge_removals some_removals)
merge_removals_exact_example = merge_removals_exact some_removals 4 (omega arith)

abbrev flagged : Text → ℕ → Violation
flagged rule_id line = record {
  rule_id = rule_id;
  severity = Severity.info;
  message = [];
  dimension = Dimension.fingerprint;
  suggestion = none;
  location = some (record {
    path = none;
    start_line = some line;
    start_col = none;
    end_line = none;
    end_col = none;
  });
}

-- An interpreter whose parser refuses every text.
abbrev no_python : Syntax.Python
no_python = record {
  parse = λ text. none;
  generate_tokens = λ text. none;
  literal_eval = λ text. none;
  repr = λ text. text;
}

abbrev a_script : Text
a_script =
    codes
      "// Note that it works\nlet a = 1;\n/* <thinking>\nhm\n</thinking> */\n// slop: disable=A03 note that\nlet b;\n"

abbrev script_violations : List Violation
script_violations = flagged (codes "A03") 1 ∷ flagged (codes "A06") 3 ∷ flagged (codes "A03") 6 ∷ []

fix_lines_runs :
    (fix_lines no_python (codes "javascript") a_script script_violations).updated
    ≡ codes
        "let a = 1;\n/* <thinking>\nhm\n</thinking> */\n// slop: disable=A03 note that\nlet b;\n"
unfolding fix_lines
fix_lines_runs = refl

fix_lines-code_example :
    ((fix_lines no_python (codes "javascript") a_script script_violations).updated
      ≡ concat (kept_lines no_python (codes "javascript") a_script script_violations))
    × (map
          (λ (x : ℕ × Text). x.1)
          (iter_code_lines (kept_lines no_python (codes "javascript") a_script script_violations))
        ≡ map (λ (x : ℕ × Text). x.1) (iter_code_lines (splitlines_keep a_script)))
unfolding splitlines_keep text_eq mask_step lstrip starts_with has_infix
fix_lines-code_example =
    fix_lines-code no_python (codes "javascript") a_script script_violations refl
      (refl, (refl, (refl, (refl, (refl, (refl, (refl, tt)))))))

first_line_goes :
    contains
      (flatten_removals
        (fix_lines no_python (codes "javascript") a_script script_violations).removals)
      1
    ≡ true
unfolding fix_lines
first_line_goes = refl

fix_lines-directives_example :
    (flag_at (build_comment_mask (codes "javascript") [] (splitlines_keep a_script)).is_comment 1
      ≡ true)
    × (is_directive (line_at (splitlines_keep a_script) 1) ≡ false)
unfolding text_eq
fix_lines-directives_example =
    fix_lines-directives no_python (codes "javascript") a_script script_violations refl 1
      first_line_goes

-- Code that follows a comment on the same line goes with the comment.
code_after_comment_goes :
    (fix_lines no_python
      (codes "javascript")
      (codes "/* let's go */ run();\nstop();\n")
      (flagged (codes "A03") 1 ∷ [])).updated
    ≡ codes "stop();\n"
unfolding fix_lines
code_after_comment_goes = refl

-- A line within a block comment that closes it goes too, if it begins with a comment mark.
closing_line_goes :
    (fix_lines no_python
      (codes "javascript")
      (codes "/* a\n// note that */\nrun();\n")
      (flagged (codes "A03") 2 ∷ [])).updated
    ≡ codes "/* a\nrun();\n"
unfolding fix_lines
closing_line_goes = refl

-- A condition on two lines.
abbrev two_line_if : Text
two_line_if = codes "if (a\n    and b):\n    return True\nelse:\n    return False\n"

abbrev returns : ℕ → Bool → Syntax.Stmt
returns n b = record { kind = Syntax.returns_bool b; lineno = n; end_lineno = n }

abbrev python_if : Syntax.Python
python_if = record {
  parse = λ text. some (record {
    body = record { kind = Syntax.other_stmt; lineno = 1; end_lineno = 5 } ∷ [];
    walk =
        Syntax.if_node 1 5
          (record { lineno = 1; end_lineno = 2; col_offset = 4; end_col_offset = 9 })
          (returns 3 true ∷ []) (returns 5 false ∷ [])
        ∷ [];
  });
  generate_tokens = λ text. some [];
  literal_eval = λ text. none;
  repr = λ text. text;
}

-- The body of an `if` whose condition takes two lines is removed, and the `if` stays.
two_line_if_breaks :
    (fix_lines python_if (codes "python") two_line_if (flagged (codes "E11") 1 ∷ [])).updated
    ≡ codes "if (a\n"
unfolding fix_lines
two_line_if_breaks = refl

abbrev bare_except : Text
bare_except = codes "try:\n    f()\nexcept:\n    # why\n    pass\n"

bare_except_runs :
    (fix_lines no_python (codes "python") bare_except (flagged (codes "E04") 3 ∷ [])).updated
    ≡ codes "try:\n    f()\nexcept:\n    # why\n    raise\n"
unfolding fix_lines
bare_except_runs = refl

-- A name bound to a text at line 2 of a module with a docstring.
abbrev a_credential : Text
a_credential = codes "'''doc'''\ntoken = 'abc'\n"

abbrev python_assign : Syntax.Python
python_assign = record {
  parse = λ text. some (record {
    body =
        record { kind = Syntax.text_alone; lineno = 1; end_lineno = 1 }
        ∷ record { kind = Syntax.other_stmt; lineno = 2; end_lineno = 2 }
        ∷ [];
    walk = Syntax.assign_node 2 (some (codes "token")) true ∷ [];
  });
  generate_tokens = λ text. some [];
  literal_eval = λ text. none;
  repr = λ text. text;
}

credential_runs :
    (fix_lines python_assign (codes "python") a_credential (flagged (codes "E09") 2 ∷ [])).updated
    ≡ codes "'''doc'''\nimport os\n\ntoken = os.environ.get(\"TOKEN\", \"\")\n"
unfolding fix_lines
credential_runs = refl
