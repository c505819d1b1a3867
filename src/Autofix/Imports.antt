-- ===== src/Autofix/Imports.antt =====
-- src/slopsentinel/autofix.py: the removal of unused imports (E03), and of the `pass` that an
-- `except:` holds (E04).
use slopsentinel.Base.{
  ℕ, suc, ◌-◌, min, max, Text, codes, text_eq, nat_eq, List, [], ◌∷◌, ◌++◌, Option, none, some,
  Bool, false, ◌&&◌, ◌||◌, not, ◌==◌, if◌then◌else◌, any, all, contains, length, take, drop, is_nil,
  leb, ltb, eqb, sort, strip, lstrip, starts_with, has_infix,
}
use slopsentinel.Types.{Violation, Location}
use slopsentinel.Patterns.{after_prefix}
use slopsentinel.Autofix.{LineRemoval, LineReplacement, line_at, is_directive}
use slopsentinel.Autofix.Lines.{concat, range_incl}
use slopsentinel.Autofix.Syntax

-- `v.location is not None and v.location.start_line is not None`
abbrev pub start_of : Option Location → Option ℕ
start_of none = none
start_of (some l) = l.start_line

-- The start lines above 0 of the violations of a rule.
unfoldable pub flagged_lines : Text → List Violation → List ℕ
unfolding text_eq
flagged_lines rule_id [] = []
flagged_lines rule_id (v ∷ vs) =
    let rest = flagged_lines rule_id vs in
    if v.rule_id == rule_id
    then elim (start_of v.location) [ none ↦ rest | some n ↦ if ltb 0 n then n ∷ rest else rest ]
    else rest

-- The part of a text before `sep`.
unfoldable pub before_char : ℕ → Text → Text
before_char sep [] = []
before_char sep (c ∷ s) = let rest = before_char sep s in if eqb c sep then [] else c ∷ rest

-- `_E03_UNUSED_IMPORT_RE` at one place of a message
unfoldable pub unused_name_here : Text → Option Text
unfolding after_prefix before_char starts_with
unused_name_here s = elim (after_prefix (codes "Imported name `") s) [
  | none ↦ none
  | some rest ↦
      if is_nil (before_char b'`' rest)
        || not (starts_with (drop (length (before_char b'`' rest)) rest) (codes "` is never used."))
      then none
      else some (before_char b'`' rest)
]

-- `_E03_UNUSED_IMPORT_RE.search(message)`
unfoldable pub unused_name : Text → Option Text
unfolding unused_name_here
unused_name [] = none
unused_name (c ∷ s) = elim (unused_name_here (c ∷ s)) [
  | some name ↦ some name
  | none ↦ unused_name s
]

-- `unused_by_line`, as its pairs
unfoldable pub unused_by_line : List Violation → List (ℕ × Text)
unfolding unused_name text_eq
unused_by_line [] = []
unused_by_line (v ∷ vs) =
    let rest = unused_by_line vs in
    if v.rule_id == codes "E03"
    then elim (start_of v.location) [
      | none ↦ rest
      | some n ↦ elim (unused_name v.message) [
        | none ↦ rest
        | some name ↦ if ltb 0 n then (n, name) ∷ rest else rest
      ]
    ]
    else rest

unfoldable pub names_on : ℕ → List (ℕ × Text) → List Text
unfolding nat_eq
names_on n [] = []
names_on n ((m, name) ∷ rest) =
    let names = names_on n rest in if m == n then name ∷ names else names

-- The name that an alias of `import` binds, and one of `from … import`; a `*` binds none.
abbrev or_name : Option Text → Text → Text
or_name none name = name
or_name (some as_name) name = if is_nil as_name then name else as_name

unfoldable pub bound_names : List Syntax.Alias → List Text
unfolding before_char
bound_names [] = []
bound_names (a ∷ as_) = or_name a.asname (before_char b'.' a.name) ∷ bound_names as_

unfoldable pub bound_names_from : List Syntax.Alias → List Text
unfolding text_eq
bound_names_from [] = []
bound_names_from (a ∷ as_) =
    let rest = bound_names_from as_ in
    if a.name == codes "*" then rest else or_name a.asname a.name ∷ rest

pub record ImportInfo : Type 0 where
  pub start : ℕ
  pub stop : ℕ
  pub names : List Text

-- An import statement at module scope, alone on its line, with the end kept within the file.
unfoldable pub info_of : List Text → List ℕ → ℕ → ℕ → List Text → Option ImportInfo
unfolding line_at starts_with has_infix nat_eq
info_of lines seen start stop names =
    if eqb start 0 || ltb (length lines) start || contains seen start
    then none
    else if starts_with (line_at lines start) (codes " ")
        || starts_with (line_at lines start) (codes "\t")
        || has_infix (line_at lines start) (codes ";")
        || is_nil names
    then none
    else some (record { start = start; stop = max start (min stop (length lines)); names = names })

unfoldable pub is_future : Option Text → Bool
unfolding text_eq
is_future none = false
is_future (some m) = m == codes "__future__"

unfoldable pub node_info : List Text → List ℕ → Syntax.Node → Option ImportInfo
unfolding info_of bound_names bound_names_from is_future
node_info lines seen (Syntax.import_node start stop names) =
    info_of lines seen start stop (bound_names names)
node_info lines seen (Syntax.import_from_node start stop module_name names) =
    if is_future module_name then none else info_of lines seen start stop (bound_names_from names)
node_info lines seen node = none

-- `info_by_start`, in the order of the walk
unfoldable pub info_by_start : List Text → List ℕ → List Syntax.Node → List ImportInfo
unfolding node_info
info_by_start lines seen [] = []
info_by_start lines seen (node ∷ nodes) = elim (node_info lines seen node) [
  | none ↦ info_by_start lines seen nodes
  | some info ↦ info ∷ info_by_start lines (info.start ∷ seen) nodes
]

abbrev subset : List Text → List Text → Bool
subset xs ys = all (contains ys) xs

-- One round of the last loop: the statement goes if the names it binds are the unused ones and no
-- line of it is a directive.
unfoldable pub import_removal : List Text → List (ℕ × Text) → ImportInfo → List LineRemoval
unfolding names_on is_directive line_at range_incl text_eq
import_removal lines unused info =
    let names = names_on info.start unused in
    if is_nil names || not (subset names info.names && subset info.names names)
    then []
    else if any (λ n. is_directive (line_at lines n)) (range_incl info.start info.stop)
    then []
    else record { rule_ids = codes "E03" ∷ []; start_line = info.start; end_line = info.stop } ∷ []

unfoldable pub import_removals : List Text → List (ℕ × Text) → List ImportInfo → List LineRemoval
unfolding import_removal
import_removals lines unused [] = []
import_removals lines unused (info ∷ infos) =
    import_removal lines unused info ++ import_removals lines unused infos

-- `_python_unused_import_statement_removals`
unfoldable pub python_unused_import_statement_removals :
    Syntax.Python → List Text → List Violation → List LineRemoval
unfolding import_removals info_by_start unused_by_line concat sort
python_unused_import_statement_removals python lines violations =
    if is_nil (unused_by_line violations) then [] else elim (python.parse (concat lines)) [
      | none ↦ []
      | some tree ↦
          import_removals lines (unused_by_line violations)
            (sort (λ (a : ImportInfo) b. leb a.start b.start) (info_by_start lines [] tree.walk))
    ]

-- The part of a text before `sep`, all of it if it is not there.
unfoldable pub before_infix : Text → Text → Text
unfolding starts_with
before_infix sep [] = []
before_infix sep (c ∷ s) =
    let rest = before_infix sep s in if starts_with (c ∷ s) sep then [] else c ∷ rest

-- `_is_safe_simple_python_import_removal`
unfoldable pub is_safe_simple_python_import_removal : Text → Bool
unfolding is_directive strip starts_with has_infix before_infix
is_safe_simple_python_import_removal line =
    let stripped = strip line in
    let modules = strip (before_infix (codes "#") (drop 7 stripped)) in
    let module_name = strip (before_infix (codes " as ") modules) in
    if is_directive line
    then false
    else if is_nil stripped || starts_with stripped (codes "#")
    then false
    else if starts_with stripped (codes "from __future__ import")
    then false
    else if has_infix stripped ((0x5c ∷ []))
        || has_infix stripped (codes "(")
        || has_infix stripped (codes ")")
        || has_infix stripped (codes ",")
    then false
    else if starts_with stripped (codes "import ")
    then not (has_infix module_name (codes "."))
    else starts_with stripped (codes "from ")
      && has_infix stripped (codes " import ")
      && not (has_infix stripped (codes " import *"))

-- `line[: len(line) - len(line.lstrip())]`
unfoldable pub indent_of : Text → Text
unfolding lstrip
indent_of line = take (length line - length (lstrip line)) line

-- The line end that a replacement keeps.
unfoldable pub newline_of : Text → Text
newline_of [] = []
newline_of (c ∷ []) = if eqb c 10 then c ∷ [] else []
newline_of (c ∷ d ∷ s) = newline_of (d ∷ s)

-- The loop of `_python_bare_except_pass_line` over the lines that follow the `except`.
unfoldable pub pass_line_from : ℕ → ℕ → List Text → Option ℕ
unfolding strip starts_with lstrip
pass_line_from except_indent i [] = none
pass_line_from except_indent i (line ∷ lines) =
    let rest = pass_line_from except_indent (suc i) lines in
    let stripped = strip line in
    if is_nil stripped
    then rest
    else if starts_with stripped (codes "#")
    then rest
    else if leb (length line - length (lstrip line)) except_indent
    then none
    else if starts_with stripped (codes "pass")
    then some i
    else none

-- `_python_bare_except_pass_line`
unfoldable pub python_bare_except_pass_line : List Text → ℕ → Option ℕ
unfolding pass_line_from lstrip line_at
python_bare_except_pass_line lines except_line_no =
    let except_line = line_at lines except_line_no in
    pass_line_from (length except_line - length (lstrip except_line)) (suc except_line_no)
      (drop except_line_no lines)

unfoldable pub pass_replacement : List Text → ℕ → List LineReplacement
unfolding python_bare_except_pass_line is_directive line_at indent_of newline_of
pass_replacement lines except_line_no = elim (python_bare_except_pass_line lines except_line_no) [
  | none ↦ []
  | some n ↦
      if is_directive (line_at lines n)
      then []
      else record {
        rule_ids = codes "E04" ∷ [];
        line = n;
        content = indent_of (line_at lines n) ++ (codes "raise" ++ newline_of (line_at lines n));
      }
        ∷ []
]

-- The first loop of `_plan_replacements`.
unfoldable pub pass_replacements : List Text → List Violation → List LineReplacement
unfolding pass_replacement text_eq
pass_replacements lines [] = []
pass_replacements lines (v ∷ vs) =
    let rest = pass_replacements lines vs in
    if v.rule_id == codes "E04"
    then elim (start_of v.location) [
      | none ↦ rest
      | some n ↦ if leb n 0 || ltb (length lines) n then rest else pass_replacement lines n ++ rest
    ]
    else rest
