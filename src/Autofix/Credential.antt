-- ===== src/Autofix/Credential.antt =====
-- src/slopsentinel/autofix.py: hard-coded credentials as look-ups in the environment (E09).
use slopsentinel.Base.{
  ℕ, ◌+◌, max, Text, codes, text_eq, nat_eq, List, [], ◌∷◌, ◌++◌, Option, none, some, Bool, true,
  false, ◌&&◌, ◌||◌, not, ◌==◌, if◌then◌else◌, any, contains, length, drop, is_nil, leb, ltb, eqb,
  map, strip, lstrip, upper, starts_with, ends_with,
}
use slopsentinel.Types.{Violation}
use slopsentinel.Patterns.{fold, is_word}
use slopsentinel.Autofix.{LineReplacement, line_at}
use slopsentinel.Autofix.Lines.{concat}
use slopsentinel.Autofix.Imports.{flagged_lines, indent_of, newline_of}
use slopsentinel.Autofix.Syntax

-- The statements of the class bodies other than definitions, by their first and last line.
unfoldable pub is_definition : Syntax.StmtKind → Bool
is_definition Syntax.function = true
is_definition Syntax.class = true
is_definition kind = false

unfoldable pub blocked_of : List Syntax.Stmt → List (ℕ × ℕ)
unfolding is_definition
blocked_of [] = []
blocked_of (s ∷ ss) =
    let rest = blocked_of ss in
    if is_definition s.kind || eqb s.lineno 0
    then rest
    else (s.lineno, max s.lineno s.end_lineno) ∷ rest

-- `blocked_class_stmt_ranges`
unfoldable pub blocked_class_stmt_ranges : List Syntax.Node → List (ℕ × ℕ)
unfolding blocked_of
blocked_class_stmt_ranges [] = []
blocked_class_stmt_ranges (Syntax.class_node body ∷ nodes) =
    blocked_of body ++ blocked_class_stmt_ranges nodes
blocked_class_stmt_ranges (node ∷ nodes) = blocked_class_stmt_ranges nodes

-- `line_is_blocked`
unfoldable pub line_is_blocked : List (ℕ × ℕ) → ℕ → Bool
line_is_blocked ranges line_no = any (λ (r : ℕ × ℕ). leb r.0 line_no && leb line_no r.1) ranges

-- An alias that binds the name `os` to the module.
unfoldable pub binds_os : Syntax.Alias → Bool
unfolding text_eq
binds_os alias =
    alias.name == codes "os" && (elim alias.asname [ none ↦ true | some name ↦ name == codes "os" ])

unfoldable pub imports_os : Syntax.StmtKind → Bool
unfolding binds_os
imports_os (Syntax.imports names) = any binds_os names
imports_os kind = false

unfoldable pub os_imported : List Syntax.Stmt → Bool
unfolding imports_os
os_imported [] = false
os_imported (s ∷ ss) = imports_os s.kind || os_imported ss

abbrev pub is_future_import : Syntax.StmtKind → Bool
unfolding text_eq
is_future_import (Syntax.imports_from (some m)) = m == codes "__future__"
is_future_import kind = false

unfoldable pub is_import : Syntax.StmtKind → Bool
is_import (Syntax.imports names) = true
is_import (Syntax.imports_from m) = true
is_import kind = false

-- A loop over the first statements of a body: while `p` holds, `insert_after` grows to their ends.
unfoldable pub skip_while : (Syntax.StmtKind → Bool) → ℕ → List Syntax.Stmt → ℕ × List Syntax.Stmt
skip_while p insert_after [] = (insert_after, [])
skip_while p insert_after (s ∷ ss) =
    let rest = skip_while p (max insert_after s.end_lineno) ss in
    if p s.kind then rest else (insert_after, s ∷ ss)

-- The end of the module's docstring, and the statements after it.
unfoldable pub skip_docstring : List Syntax.Stmt → ℕ × List Syntax.Stmt
skip_docstring [] = (0, [])
skip_docstring (first ∷ rest) = skipped first.kind
  where
    skipped : Syntax.StmtKind → ℕ × List Syntax.Stmt
    skipped Syntax.text_alone = (first.end_lineno, rest)
    skipped kind = (0, first ∷ rest)

-- `insert_after` when the three loops are done
unfoldable pub after_imports : List Syntax.Stmt → ℕ
unfolding skip_while skip_docstring is_import
after_imports body =
    let doc = skip_docstring body in
    let future = skip_while is_future_import doc.0 doc.1 in
    (skip_while is_import future.0 future.1).0

abbrev is_encoding_char : ℕ → Bool
is_encoding_char c = eqb c b'-' || is_word c || eqb c b'.'

-- `coding[:=]\s*[-\w.]+` at one place
unfoldable pub encoding_here : Text → Bool
unfolding starts_with lstrip is_word
encoding_here s =
    (starts_with s (codes "coding:") || starts_with s (codes "coding="))
    && begins (lstrip (drop 7 s))
  where
    begins : Text → Bool
    begins [] = false
    begins (c ∷ s) = is_encoding_char c

unfoldable pub encoding_in : Text → Bool
unfolding encoding_here
encoding_in [] = false
encoding_in (c ∷ s) = encoding_here (c ∷ s) || encoding_in s

-- `_E09_ENCODING_RE.match(line)`, for a line that holds no "\n" but at its end
unfoldable pub encoding_re : Text → Bool
unfolding encoding_in fold starts_with
encoding_re line = starts_with line (codes "#") && encoding_in (map fold (drop 1 line))

-- The lines of a shebang and of an encoding comment at the top.
unfoldable pub preamble_of : List Text → ℕ
unfolding starts_with encoding_re line_at
preamble_of lines =
    let preamble = if starts_with (line_at lines 1) (codes "#!") then 1 else 0 in
    if ltb preamble (length lines) && encoding_re (line_at lines (preamble + 1))
    then preamble + 1
    else preamble

-- `insertion_line` for a file that has a line
unfoldable pub insertion_line : List Syntax.Stmt → List Text → ℕ
unfolding after_imports preamble_of
insertion_line body lines = max (after_imports body + 1) (preamble_of lines + 1)

unfoldable pub lookup_line : List Text → ℕ → Text → LineReplacement
unfolding indent_of newline_of line_at upper
lookup_line lines assign_line name = record {
  rule_ids = codes "E09" ∷ [];
  line = assign_line;
  content =
      indent_of (line_at lines assign_line)
      ++ (name
          ++ (codes " = os.environ.get(\""
              ++ (upper name ++ (codes "\", \"\")" ++ newline_of (line_at lines assign_line)))));
}

unfoldable pub assignment_replacement :
    List Text → List ℕ → List (ℕ × ℕ) → ℕ → Option Text → Bool → List LineReplacement
unfolding lookup_line line_is_blocked nat_eq
assignment_replacement lines e09_lines ranges assign_line none is_text = []
assignment_replacement lines e09_lines ranges assign_line (some name) is_text =
    if not is_text
      || eqb assign_line 0
      || ltb (length lines) assign_line
      || not (contains e09_lines assign_line)
      || line_is_blocked ranges assign_line
      || is_nil name
    then []
    else lookup_line lines assign_line name ∷ []

-- The loop over the nodes that replaces the flagged assignments.
unfoldable pub assignment_replacements :
    List Text → List ℕ → List (ℕ × ℕ) → List Syntax.Node → List LineReplacement
unfolding assignment_replacement
assignment_replacements lines e09_lines ranges [] = []
assignment_replacements lines e09_lines ranges (Syntax.assign_node lineno name is_text ∷ nodes) =
    assignment_replacement lines e09_lines ranges lineno name is_text
    ++ assignment_replacements lines e09_lines ranges nodes
assignment_replacements lines e09_lines ranges
      (Syntax.ann_assign_node lineno name is_text annotation ∷ nodes) =
    assignment_replacement lines e09_lines ranges lineno name is_text
    ++ assignment_replacements lines e09_lines ranges nodes
assignment_replacements lines e09_lines ranges (node ∷ nodes) =
    assignment_replacements lines e09_lines ranges nodes

-- `import os`, before the line at `insert_at`, or after the last line
unfoldable pub import_os : List Text → ℕ → List LineReplacement
unfolding line_at strip ends_with
import_os lines insert_at =
    let base_line = line_at lines insert_at in
    let last_line = line_at lines (length lines) in
    if leb 1 insert_at && leb insert_at (length lines)
    then record {
      rule_ids = codes "E09" ∷ [];
      line = insert_at;
      content =
          codes "import os\n"
          ++ ((if is_nil (strip base_line) then [] else codes "\n") ++ base_line);
    }
      ∷ []
    else if eqb insert_at (length lines + 1)
    then record {
      rule_ids = codes "E09" ∷ [];
      line = length lines;
      content =
          last_line
          ++ ((if ends_with last_line (codes "\n") then [] else codes "\n") ++ codes "import os\n");
    }
      ∷ []
    else []

unfoldable pub credential_replacements : List Text → List ℕ → Syntax.Tree → List LineReplacement
unfolding assignment_replacements blocked_class_stmt_ranges import_os os_imported insertion_line
credential_replacements lines e09_lines tree =
    let replacements =
      assignment_replacements lines e09_lines (blocked_class_stmt_ranges tree.walk) tree.walk in
    if is_nil replacements || os_imported tree.body
    then replacements
    else replacements ++ import_os lines (insertion_line tree.body lines)

-- `_python_e09_credential_redaction_replacements`
unfoldable pub python_e09_credential_redaction_replacements :
    Syntax.Python → List Text → List Violation → List LineReplacement
unfolding credential_replacements flagged_lines concat
python_e09_credential_redaction_replacements python lines violations =
    elim (python.parse (concat lines)) [
      | none ↦ []
      | some tree ↦ credential_replacements lines (flagged_lines (codes "E09") violations) tree
    ]
