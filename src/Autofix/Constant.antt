-- ===== src/Autofix/Constant.antt =====
-- src/slopsentinel/autofix.py: a repeated string literal as a constant of the module (E06).
use slopsentinel.Base.{
  ℕ, ◌+◌, Text, codes, text_eq, nat_eq, List, [], ◌∷◌, ◌++◌, Option, none, some, Bool, true, false,
  ◌&&◌, ◌||◌, not, ◌==◌, if◌then◌else◌, any, contains, length, take, drop, is_nil, leb, ltb, eqb,
  map, sort, strip, upper, lower, starts_with, split_on, join, rstrip_char,
}
use slopsentinel.Types.{Violation}
use slopsentinel.Patterns.{letters, search_words, after_prefix, after_spaces}
use slopsentinel.Autofix.{LineReplacement, line_at}
use slopsentinel.Autofix.Lines.{concat}
use slopsentinel.Autofix.Imports.{start_of}
use slopsentinel.Autofix.Credential.{
  blocked_class_stmt_ranges, line_is_blocked, skip_while, skip_docstring, is_import,
}
use slopsentinel.Autofix.Syntax

-- `_python_token_is_fstring`: an "f" stands before the first quote
unfoldable pub fstring_prefix : Bool → Text → Bool
fstring_prefix seen [] = false
fstring_prefix seen (c ∷ s) =
    if eqb c 0x27 || eqb c 0x22 then seen else fstring_prefix (seen || eqb c b'f') s

unfoldable pub python_token_is_fstring : Text → Bool
unfolding fstring_prefix lower
python_token_is_fstring token = fstring_prefix false (lower token)

abbrev is_digit : ℕ → Bool
is_digit c = leb b'0' c && leb c b'9'

abbrev is_ascii_letter : ℕ → Bool
is_ascii_letter c = (leb b'A' c && leb c b'Z') || (leb b'a' c && leb c b'z')

abbrev begins_with_letter : Text → Bool
begins_with_letter [] = false
begins_with_letter (c ∷ s) = is_ascii_letter c

-- `text or default`
abbrev or_text : Text → Text → Text
or_text s default = if is_nil s then default else s

-- The name before it is looked for in the source.
unfoldable pub constant_base : Text → Text
unfolding split_on upper join rstrip_char
constant_base value =
    let words = split_on (λ c. not (is_ascii_letter c || is_digit c)) value in
    let base = if is_nil words then codes "SLOP_STRING" else join (codes "_") (map upper words) in
    let named = if begins_with_letter base then base else codes "SLOP_" ++ base in
    or_text (rstrip_char b'_' (take 40 named)) (codes "SLOP_STRING")

-- `_python_constant_name`
unfoldable pub python_constant_name : Text → Text → Option Text
unfolding constant_base search_words
python_constant_name value source =
    let base = constant_base value in
    if search_words ((letters base ∷ []) ∷ []) false source then none else some base

unfoldable pub digits_off : Text → Text
digits_off [] = []
digits_off (c ∷ s) = if is_digit c then digits_off s else c ∷ s

-- `.+$`: the rest of a line, up to its end
unfoldable pub line_rest : Text → Text
line_rest [] = []
line_rest (c ∷ s) = let rest = line_rest s in if eqb c 10 then [] else c ∷ rest

-- What is left of a text after one match of each part; `\d+` is followed by no digit here.
unfoldable pub literal_here : Text → Option Text
unfolding after_prefix after_spaces digits_off starts_with
literal_here s = elim (after_prefix (codes "String literal repeats") s) [
  | none ↦ none
  | some s1 ↦ elim (after_spaces s1) [
    | none ↦ none
    | some s2 ↦ elim (after_spaces (digits_off s2)) [
      | none ↦ none
      | some s3 ↦
          if not (any_digit s2)
          then none
          else elim (after_prefix (codes "times:") s3) [ none ↦ none | some s4 ↦ after_spaces s4 ]
    ]
  ]
]
  where
    any_digit : Text → Bool
    any_digit [] = false
    any_digit (c ∷ s) = is_digit c

-- `_E06_LITERAL_RE.search(message)`, for a message on one line
unfoldable pub literal_of : Text → Option Text
unfolding literal_here
literal_of [] = none
literal_of (c ∷ s) = elim (literal_here (c ∷ s)) [
  | some literal ↦ if is_nil literal then none else some literal
  | none ↦ literal_of s
]

unfoldable pub e06_candidates : List Violation → List (ℕ × Violation)
unfolding text_eq
e06_candidates [] = []
e06_candidates (v ∷ vs) =
    let rest = e06_candidates vs in
    if v.rule_id == codes "E06"
    then elim (start_of v.location) [ none ↦ rest | some n ↦ (n, v) ∷ rest ]
    else rest

-- The literal of the first candidate, if it is a text of six characters or more.
unfoldable pub literal_value : Syntax.Python → List Violation → Option Text
unfolding e06_candidates literal_of sort
literal_value python violations =
    first (sort (λ (a : ℕ × Violation) b. leb a.0 b.0) (e06_candidates violations))
  where
    long : Option Text → Option Text
    long none = none
    long (some value) = if ltb (length value) 6 then none else some value

    first : List (ℕ × Violation) → Option Text
    first [] = none
    first ((n, v) ∷ rest) = elim (literal_of v.message) [
      | none ↦ none
      | some literal ↦ long (python.literal_eval literal)
    ]

-- Whether a node makes the planner give up: a `match`, or the value in an annotation or in an
-- f-string.
unfoldable pub forbids : Text → Syntax.Node → Bool
unfolding text_eq
forbids value Syntax.match_node = true
forbids value (Syntax.ann_assign_node n name is_text annotation) = contains annotation value
forbids value (Syntax.arg_node annotation) = contains annotation value
forbids value (Syntax.function_node body returns) = contains returns value
forbids value (Syntax.joined_str_node strings) = contains strings value
forbids value node = false

-- `record_docstring_start`
unfoldable pub docstring_start : List Syntax.Stmt → List ℕ
docstring_start [] = []
docstring_start (first ∷ rest) = start first.kind
  where
    start : Syntax.StmtKind → List ℕ
    start Syntax.text_alone = if eqb first.lineno 0 then [] else first.lineno ∷ []
    start kind = []

unfoldable pub inner_docstring_starts : List Syntax.Node → List ℕ
unfolding docstring_start
inner_docstring_starts [] = []
inner_docstring_starts (Syntax.function_node body returns ∷ nodes) =
    docstring_start body ++ inner_docstring_starts nodes
inner_docstring_starts (Syntax.class_node body ∷ nodes) =
    docstring_start body ++ inner_docstring_starts nodes
inner_docstring_starts (node ∷ nodes) = inner_docstring_starts nodes

unfoldable pub docstring_starts : Syntax.Tree → List ℕ
unfolding docstring_start inner_docstring_starts
docstring_starts tree = docstring_start tree.body ++ inner_docstring_starts tree.walk

-- `insert_line`, after the module's docstring and its imports
unfoldable pub constant_line : List Syntax.Stmt → ℕ
unfolding skip_docstring skip_while is_import
constant_line body = let doc = skip_docstring body in (skip_while is_import doc.0 doc.1).0 + 1

-- A token that stands for the value and may be replaced.
unfoldable pub is_hit : Syntax.Python → Text → List (ℕ × ℕ) → List ℕ → Syntax.Token → Bool
unfolding line_is_blocked python_token_is_fstring text_eq nat_eq
is_hit python value ranges starts tok = kind tok.kind
  where
    is_value : Option Text → Bool
    is_value none = false
    is_value (some lit) = lit == value

    kind : Syntax.TokenKind → Bool
    kind Syntax.string_token =
        eqb tok.start_row tok.end_row
        && not (line_is_blocked ranges tok.start_row)
        && not (contains starts tok.start_row)
        && not (python_token_is_fstring tok.string)
        && is_value (python.literal_eval tok.string)
    kind other = false

unfoldable pub hits :
    Syntax.Python → Text → List (ℕ × ℕ) → List ℕ → List Syntax.Token → List Syntax.Token
unfolding is_hit
hits python value ranges starts [] = []
hits python value ranges starts (tok ∷ toks) =
    let rest = hits python value ranges starts toks in
    if is_hit python value ranges starts tok then tok ∷ rest else rest

-- The spans of a line, the last one first.
unfoldable pub spans_on : ℕ → List Syntax.Token → List (ℕ × ℕ)
unfolding nat_eq
spans_on n [] = []
spans_on n (tok ∷ toks) =
    let rest = spans_on n toks in
    if tok.start_row == n then (tok.start_col, tok.end_col) ∷ rest else rest

abbrev span_geb : ℕ × ℕ → ℕ × ℕ → Bool
span_geb a b = if eqb a.0 b.0 then leb b.1 a.1 else ltb b.0 a.0

unfoldable pub put_name : Text → List (ℕ × ℕ) → Text → Text
put_name const_name [] line = line
put_name const_name ((start_col, end_col) ∷ spans) line =
    put_name const_name spans (take start_col line ++ (const_name ++ drop end_col line))

-- The line numbers of the hits, each once and in ascending order, without those replaced already.
unfoldable pub hit_lines : List ℕ → ℕ → List Syntax.Token → List ℕ
unfolding nat_eq
hit_lines replaced_lines count [] = []
hit_lines replaced_lines count (tok ∷ toks) =
    let rest = hit_lines replaced_lines count toks in
    if contains replaced_lines tok.start_row
      || leb tok.start_row 0
      || ltb count tok.start_row
      || contains rest tok.start_row
    then rest
    else tok.start_row ∷ rest

unfoldable pub constant_content : Text → List Text → List Syntax.Token → ℕ → Text
unfolding put_name spans_on line_at sort
constant_content const_name lines toks n =
    put_name const_name (sort span_geb (spans_on n toks)) (line_at lines n)

-- The replacement of a line, with the constant's definition before the line at `insert_line`.
unfoldable pub constant_replacement :
    Text → Text → List Text → List Syntax.Token → ℕ → List ℕ → ℕ → LineReplacement
unfolding constant_content line_at strip nat_eq
constant_replacement const_name literal lines toks insert_line named n =
    let base_line =
      if contains named n then constant_content const_name lines toks n else line_at lines n in
    record {
      rule_ids = codes "E06" ∷ [];
      line = n;
      content =
          if eqb n insert_line
          then const_name
            ++ (codes " = "
                ++ (literal
                    ++ (codes "\n"
                        ++ ((if is_nil (strip base_line) then [] else codes "\n") ++ base_line))))
          else base_line;
    }

unfoldable pub constant_replacements :
    Syntax.Python → Text → Text → List Text → List ℕ → ℕ → List Syntax.Token → List LineReplacement
unfolding constant_replacement hit_lines sort nat_eq
constant_replacements python value const_name lines replaced_lines insert_line toks =
    let named = hit_lines replaced_lines (length lines) toks in
    if ltb (length toks) 3
    then []
    else map (constant_replacement const_name (python.repr value) lines toks insert_line named)
        (sort leb (if contains named insert_line then named else insert_line ∷ named))

unfoldable pub extracted :
    Syntax.Python → List Text → List ℕ → Text → Syntax.Tree → List LineReplacement
unfolding forbids constant_line python_constant_name constant_replacements hits
    blocked_class_stmt_ranges docstring_starts nat_eq concat
extracted python lines replaced_lines value tree =
    let insert_line = constant_line tree.body in
    if any (forbids value) tree.walk
      || ltb (length lines) insert_line
      || contains replaced_lines insert_line
    then []
    else elim (python_constant_name value (concat lines)) [
      | none ↦ []
      | some const_name ↦ elim (python.generate_tokens (concat lines)) [
        | none ↦ []
        | some toks ↦
            constant_replacements python value const_name lines replaced_lines insert_line
              (hits python value (blocked_class_stmt_ranges tree.walk) (docstring_starts tree) toks)
      ]
    ]

-- `_python_plan_constant_extraction`; a source that `ast.parse` reads has its tokens
unfoldable pub python_plan_constant_extraction :
    Syntax.Python → List Text → List Violation → List ℕ → List LineReplacement
unfolding extracted literal_value concat
python_plan_constant_extraction python lines violations replaced_lines =
    elim (literal_value python violations) [
      | none ↦ []
      | some value ↦ elim (python.parse (concat lines)) [
        | none ↦ []
        | some tree ↦ extracted python lines replaced_lines value tree
      ]
    ]
