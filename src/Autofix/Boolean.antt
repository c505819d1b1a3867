-- ===== src/Autofix/Boolean.antt =====
-- src/slopsentinel/autofix.py: `if c: return True else: return False` as `return c` (E11).
use slopsentinel.Base.{
  ℕ, ◌+◌, Text, codes, text_eq, nat_eq, List, [], ◌∷◌, ◌++◌, Option, none, some, Bool, true, false,
  ◌||◌, not, ◌==◌, if◌then◌else◌, any, contains, length, take, drop, is_nil, leb, ltb, eqb, strip,
}
use slopsentinel.Types.{Violation}
use slopsentinel.Autofix.{LineRemoval, LineReplacement, line_at}
use slopsentinel.Autofix.Lines.{concat, range_incl}
use slopsentinel.Autofix.Imports.{flagged_lines, indent_of, newline_of}
use slopsentinel.Autofix.Syntax

pub record IfNode : Type 0 where
  pub lineno : ℕ
  pub end_lineno : ℕ
  pub test : Syntax.Span
  pub body : List Syntax.Stmt
  pub orelse : List Syntax.Stmt

-- `if_nodes.get(line_no)`: of two `if` on a line the last of the walk stays
unfoldable pub if_node_at : List Syntax.Node → ℕ → Option IfNode
unfolding nat_eq
if_node_at [] n = none
if_node_at (Syntax.if_node lineno stop test body orelse ∷ nodes) n = elim (if_node_at nodes n) [
  | some node ↦ some node
  | none ↦
      if lineno == n
      then some
          (record { lineno = lineno; end_lineno = stop; test = test; body = body; orelse = orelse })
      else none
]
if_node_at (node ∷ nodes) n = if_node_at nodes n

abbrev returned : Syntax.StmtKind → Option Bool
returned (Syntax.returns_bool b) = some b
returned kind = none

-- The constant of a body that is one `return` of `True` or `False`.
unfoldable pub only_return : List Syntax.Stmt → Option Bool
only_return [] = none
only_return (s ∷ []) = returned s.kind
only_return (s ∷ t ∷ rest) = none

-- `cond_line[start:end].strip()`
unfoldable pub cond_text : List Text → Syntax.Span → Text
unfolding strip line_at
cond_text lines cond =
    strip (drop cond.col_offset (take cond.end_col_offset (line_at lines cond.lineno)))

-- The condition's text, if it stands on one line and is not empty.
unfoldable pub condition : List Text → Syntax.Span → Option Text
unfolding cond_text
condition lines cond =
    if not (eqb cond.lineno cond.end_lineno) || eqb cond.lineno 0
    then none
    else if is_nil (cond_text lines cond)
    then none
    else some (cond_text lines cond)

unfoldable pub return_text : Bool → Bool → Text
return_text true false = codes "return "
return_text body orelse = codes "return not "

unfoldable pub boolean_replacement : List Text → List ℕ → IfNode → List LineReplacement
unfolding only_return condition range_incl nat_eq return_text indent_of newline_of line_at
boolean_replacement lines replaced_lines node = elim (only_return node.body) [
  | none ↦ []
  | some body ↦ elim (only_return node.orelse) [
    | none ↦ []
    | some orelse ↦ elim (condition lines node.test) [
      | none ↦ []
      | some text ↦
          if eqb node.end_lineno 0
            || ltb (length lines) node.end_lineno
            || any (contains replaced_lines) (range_incl node.lineno node.end_lineno)
          then []
          else record {
            rule_ids = codes "E11" ∷ [];
            line = node.lineno;
            content =
                indent_of (line_at lines node.lineno)
                ++ (return_text body orelse ++ (text ++ newline_of (line_at lines node.lineno)));
          }
            ∷ []
    ]
  ]
]

unfoldable pub boolean_replacements :
    List Text → List ℕ → List Syntax.Node → List ℕ → List LineReplacement
unfolding if_node_at boolean_replacement nat_eq
boolean_replacements lines replaced_lines walk [] = []
boolean_replacements lines replaced_lines walk (n ∷ ns) =
    let rest = boolean_replacements lines replaced_lines walk ns in
    if contains replaced_lines n then rest else elim (if_node_at walk n) [
      | none ↦ rest
      | some node ↦ boolean_replacement lines replaced_lines node ++ rest
    ]

-- `_python_plan_boolean_return_simplification`
unfoldable pub python_plan_boolean_return_simplification :
    Syntax.Python → List Text → List Violation → List ℕ → List LineReplacement
unfolding boolean_replacements flagged_lines concat
python_plan_boolean_return_simplification python lines violations replaced_lines =
    elim (python.parse (concat lines)) [
      | none ↦ []
      | some tree ↦
          boolean_replacements lines replaced_lines tree.walk
            (flagged_lines (codes "E11") violations)
    ]

unfoldable pub extra_removals : List Text → List Syntax.Node → List ℕ → List LineRemoval
unfolding if_node_at
extra_removals lines walk [] = []
extra_removals lines walk (n ∷ ns) =
    let rest = extra_removals lines walk ns in
    elim (if_node_at walk n) [
      | none ↦ rest
      | some node ↦
          if leb node.end_lineno n || ltb (length lines) node.end_lineno
          then rest
          else record {
            rule_ids = codes "E11" ∷ [];
            start_line = n + 1;
            end_line = node.end_lineno;
          }
            ∷ rest
    ]

-- `_python_boolean_return_extra_removals`
unfoldable pub python_boolean_return_extra_removals :
    Syntax.Python → List Text → List Violation → List LineRemoval
unfolding extra_removals flagged_lines concat
python_boolean_return_extra_removals python lines violations = elim (python.parse (concat lines)) [
  | none ↦ []
  | some tree ↦ extra_removals lines tree.walk (flagged_lines (codes "E11") violations)
]
