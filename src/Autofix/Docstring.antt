-- ===== src/Autofix/Docstring.antt =====
-- src/slopsentinel/autofix.py: the removal of boilerplate sections of docstrings (A04).
use slopsentinel.Base.{
  ℕ, suc, ◌+◌, ◌-◌, min, Text, codes, text_eq, nat_eq, List, [], ◌∷◌, ◌++◌, Option, none, some,
  Bool, false, ◌&&◌, ◌||◌, not, if◌then◌else◌, all, contains, length, take, drop, is_nil, leb, ltb,
  eqb, strip, rstrip_char, lower, starts_with, ends_with, has_infix,
}
use slopsentinel.Types.{Violation}
use slopsentinel.Autofix.{LineRemoval, nth_line}
use slopsentinel.Autofix.Lines.{concat}
use slopsentinel.Autofix.Imports.{flagged_lines, indent_of}
use slopsentinel.Autofix.Syntax

-- `_A04_REMOVE_SECTIONS`
unfoldable pub remove_sections : List Text
remove_sections =
    codes "args" ∷ codes "arguments" ∷ codes "parameters" ∷ codes "returns" ∷ codes "raises" ∷ []

-- `_A04_GOOGLE_STYLE_SECTIONS`
unfoldable pub google_style_sections : List Text
unfolding remove_sections
google_style_sections =
    remove_sections
    ++ codes "note"
      ∷ codes "notes"
      ∷ codes "warning"
      ∷ codes "warnings"
      ∷ codes "example"
      ∷ codes "examples"
      ∷ []

-- `docstring_span`, with `none` for an empty body and for a first statement that is no text
unfoldable pub docstring_span : List Syntax.Stmt → Option (ℕ × ℕ)
docstring_span [] = none
docstring_span (first ∷ rest) = span first.kind
  where
    span : Syntax.StmtKind → Option (ℕ × ℕ)
    span Syntax.text_alone =
        if eqb first.lineno 0 || eqb first.end_lineno 0 || ltb first.end_lineno first.lineno
        then none
        else some (first.lineno, first.end_lineno)
    span kind = none

abbrev has_quotes : Text → Bool
has_quotes line = has_infix line (codes "\"\"\"") || has_infix line (codes "'''")

abbrev starts_blank : Text → Bool
starts_blank s = starts_with s (codes " ") || starts_with s (codes "\t")

abbrev is_letter : ℕ → Bool
is_letter c = (leb b'A' c && leb c b'Z') || (leb b'a' c && leb c b'z')

-- `_A04_NUMPY_HEADER_RE.match(header)` of a stripped text
unfoldable pub is_numpy_header : Text → Bool
is_numpy_header [] = false
is_numpy_header (c ∷ s) =
    is_letter c && all (λ d. is_letter d || (leb b'0' d && leb d b'9') || eqb d b' ') s

-- `_A04_NUMPY_UNDERLINE_RE.match(underline)` of a stripped text
unfoldable pub is_numpy_underline : Text → Bool
is_numpy_underline s = leb 3 (length s) && all (λ c. eqb c b'-' || eqb c b'=') s

-- The text of a header at the base indent, stripped, if the line can be one.
unfoldable pub header_at : Text → Text → Option Text
unfolding starts_with has_infix strip
header_at base_indent line =
    let header_src = drop (length base_indent) line in
    if not (starts_with line base_indent) || starts_blank header_src
    then none
    else some (strip header_src)

-- `numpy_section_name` of a line and the next one
unfoldable pub numpy_section_name : Text → Text → Text → Option Text
unfolding header_at has_infix is_numpy_header is_numpy_underline
numpy_section_name base_indent line next_line = elim (header_at base_indent line) [
  | none ↦ none
  | some header ↦
      if has_quotes line || not (is_numpy_header header)
      then none
      else elim (header_at base_indent next_line) [
        | none ↦ none
        | some underline ↦ if is_numpy_underline underline then some header else none
      ]
]

-- `google_section_name`
unfoldable pub google_section_name : Text → Text → Option Text
unfolding header_at has_infix ends_with strip lower text_eq google_style_sections
google_section_name base_indent line = elim (header_at base_indent line) [
  | none ↦ none
  | some header ↦
      let name = strip (take (length header - 1) header) in
      if has_quotes line || not (ends_with header (codes ":"))
      then none
      else if is_nil name || not (contains google_style_sections (lower name))
      then none
      else some name
]

unfoldable pub section_name : Text → Text → Text → Option Text
unfolding numpy_section_name google_section_name
section_name base_indent line next_line = elim (numpy_section_name base_indent line next_line) [
  | some name ↦ some name
  | none ↦ google_section_name base_indent line
]

-- `section_starts`: the last line of the docstring begins no section.
unfoldable pub section_starts : Text → ℕ → List Text → List (ℕ × Text)
unfolding section_name
section_starts base_indent rel_idx [] = []
section_starts base_indent rel_idx (line ∷ []) = []
section_starts base_indent rel_idx (line ∷ next_line ∷ lines) =
    let rest = section_starts base_indent (suc rel_idx) (next_line ∷ lines) in
    elim (section_name base_indent line next_line) [
      | none ↦ rest
      | some name ↦ (rel_idx, name) ∷ rest
    ]

-- `closing_rel`: the last line with triple quotes, 0 also if there is none
unfoldable pub closing_rel : ℕ → List Text → ℕ
unfolding has_infix
closing_rel rel_idx [] = 0
closing_rel rel_idx (line ∷ lines) =
    let rest = closing_rel (suc rel_idx) lines in
    if eqb rest 0 then (if has_quotes line then rel_idx else 0) else rest

abbrev next_rel : ℕ → List (ℕ × Text) → ℕ
next_rel closing [] = closing
next_rel closing ((start, name) ∷ rest) = start

-- The last loop: a section to remove ends before the next section, or before the closing quotes.
unfoldable pub section_removals : ℕ → ℕ → List (ℕ × Text) → List LineRemoval
unfolding strip lower rstrip_char remove_sections text_eq
section_removals doc_start closing [] = []
section_removals doc_start closing ((start_rel, raw_name) ∷ rest) =
    let later = section_removals doc_start closing rest in
    let end_rel = min (next_rel closing rest) closing in
    if not (contains remove_sections (lower (rstrip_char b':' (strip raw_name))))
    then later
    else if leb end_rel start_rel
    then later
    else record {
      rule_ids = codes "A04" ∷ [];
      start_line = doc_start + start_rel;
      end_line = doc_start + end_rel - 1;
    }
      ∷ later

-- What the loop over the nodes plans for a function whose docstring has the given span.
unfoldable pub docstring_removals : List Text → List ℕ → ℕ × ℕ → List LineRemoval
unfolding section_removals section_starts closing_rel indent_of nat_eq
docstring_removals lines a04_lines (doc_start, doc_end) =
    let doc_lines = take (doc_end - (doc_start - 1)) (drop (doc_start - 1) lines) in
    let base_indent = indent_of (nth_line doc_lines 0) in
    if not (contains a04_lines doc_start)
    then []
    else if eqb doc_start 0 || ltb (length lines) doc_end
    then []
    else if eqb (closing_rel 0 doc_lines) 0
    then []
    else section_removals doc_start (closing_rel 0 doc_lines)
        (section_starts base_indent 0 doc_lines)

unfoldable pub function_removals : List Text → List ℕ → List Syntax.Node → List LineRemoval
unfolding docstring_span docstring_removals
function_removals lines a04_lines [] = []
function_removals lines a04_lines (Syntax.function_node body returns ∷ nodes) =
    let rest = function_removals lines a04_lines nodes in
    elim (docstring_span body) [
      | none ↦ rest
      | some span ↦ docstring_removals lines a04_lines span ++ rest
    ]
function_removals lines a04_lines (node ∷ nodes) = function_removals lines a04_lines nodes

-- `_python_a04_docstring_section_removals`
unfoldable pub python_a04_docstring_section_removals :
    Syntax.Python → List Text → List Violation → List LineRemoval
unfolding function_removals flagged_lines concat
python_a04_docstring_section_removals python lines violations = elim (python.parse (concat lines)) [
  | none ↦ []
  | some tree ↦ function_removals lines (flagged_lines (codes "A04") violations) tree.walk
]
