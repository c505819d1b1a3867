-- ===== src/Lsp/Ranges.antt =====
-- src/slopsentinel/lsp.py: diagnostics, and the violation at a position.
use slopsentinel.Base.{
  ℕ, ◌+◌, ◌-◌, Text, codes, text_eq, int_eq, List, [], ◌∷◌, ◌++◌, Option, none, some, Bool, true,
  false, ◌||◌, not, ◌==◌, if◌then◌else◌, length, is_nil, ltb, ℤ, pos, negsuc, pos_part, sub_ℕ,
  splitlines, strip, join, rstrip_char,
}
use slopsentinel.Types.{Severity, info, warn, error, Location, Violation, RuleMeta}
use slopsentinel.Json.{Json, num, str, obj, end, field}
use slopsentinel.Cache.Serial.{col_or_one, severity_name, dimension_name}
use slopsentinel.Autofix.{nth_line}

-- Zero-based lines and characters.
pub record Range : Type 0 where
  pub start_line : ℕ
  pub start_char : ℕ
  pub end_line : ℕ
  pub end_char : ℕ

-- `max(0, int(end_col or 1) - 1)`
abbrev pub end_col0 : Option ℤ → ℕ
end_col0 none = 0
end_col0 (some n) = pos_part n - 1

-- The end of a range of a violation without an end line.
abbrev pub line_end : List Text → ℕ → ℕ → ℕ
line_end lines line0 col0 =
    if ltb line0 (length lines) then length (nth_line lines line0) else col0 + 1

unfoldable pub range_at : List Text → Location → ℕ → Range
range_at lines l start_line = elim l.end_line [
  | some n ↦ record {
    start_line = start_line - 1;
    start_char = col_or_one l.start_col - 1;
    end_line = pos_part n - 1;
    end_char = end_col0 l.end_col;
  }
  | none ↦ record {
    start_line = start_line - 1;
    start_char = col_or_one l.start_col - 1;
    end_line = start_line - 1;
    end_char = line_end lines (start_line - 1) (col_or_one l.start_col - 1);
  }
]

unfoldable pub range_of : List Text → Option Location → Option Range
unfolding range_at
range_of lines none = none
range_of lines (some l) = elim l.start_line [ none ↦ none | some n ↦ some (range_at lines l n) ]

-- `_range_for_violation`
unfoldable pub range_for_violation : Violation → Text → Option Range
unfolding range_of splitlines
range_for_violation v text = range_of (splitlines text) v.location

abbrev pub position_json : ℕ → ℕ → Json
position_json line character =
    obj
      (field (codes "line") (num (pos line)) (field (codes "character") (num (pos character)) end))

unfoldable pub range_json : Range → Json
range_json r = obj (
    field (codes "start") (position_json r.start_line r.start_char)
      (field (codes "end") (position_json r.end_line r.end_char) end))

-- `_severity_to_lsp`
unfoldable pub severity_to_lsp : Severity → ℕ
severity_to_lsp error = 1
severity_to_lsp warn = 2
severity_to_lsp info = 3

-- The suggestion on a line of its own, if it is not empty.
abbrev pub with_suggestion : Text → Option Text → Text
with_suggestion message none = message
with_suggestion message (some s) =
    if is_nil s then message else message ++ (codes "\nSuggestion: " ++ s)

unfoldable pub diagnostic : Violation → Range → Json
unfolding range_json severity_to_lsp
diagnostic v r = obj (
    field (codes "range") (range_json r) (
      field (codes "severity") (num (pos (severity_to_lsp v.severity))) (
        field (codes "code") (str v.rule_id) (
          field (codes "source") (str (codes "slopsentinel"))
            (field (codes "message") (str (with_suggestion v.message v.suggestion)) end)))))

-- `violations_to_diagnostics`
unfoldable pub violations_to_diagnostics : List Violation → Text → List Json
unfolding range_for_violation diagnostic
violations_to_diagnostics [] text = []
violations_to_diagnostics (v ∷ vs) text =
    let rest = violations_to_diagnostics vs text in
    elim (range_for_violation v text) [ none ↦ rest | some r ↦ diagnostic v r ∷ rest ]

abbrev pub int_ltb : ℤ → ℤ → Bool
int_ltb (pos a) (pos b) = ltb a b
int_ltb (pos a) (negsuc b) = false
int_ltb (negsuc a) (pos b) = true
int_ltb (negsuc a) (negsuc b) = ltb b a

-- `<` on pairs
unfoldable pub pair_ltb : ℤ × ℤ → ℤ × ℤ → Bool
unfolding int_eq
pair_ltb (a, b) (c, d) = if a == c then int_ltb b d else int_ltb a c

-- The position lies neither before the start nor after the end.
unfoldable pub encloses : Range → ℤ × ℤ → Bool
unfolding pair_ltb
encloses r position = not (
    pair_ltb position (pos r.start_line, pos r.start_char)
    || pair_ltb (pos r.end_line, pos r.end_char) position)

unfoldable pub size_of : Range → ℤ × ℤ
size_of r = (sub_ℕ r.end_line r.start_line, sub_ℕ r.end_char r.start_char)

pub record Best : Type 0 where
  pub size : ℤ × ℤ
  pub violation : Violation

-- `best is None or size < best`
abbrev pub is_smaller : ℤ × ℤ → Option Best → Bool
is_smaller size none = true
is_smaller size (some best) = pair_ltb size best.size

-- One round of the loop of `_find_violation_at_position`.
unfoldable pub better : Text → ℤ × ℤ → Option Best → Violation → Option Best
unfolding range_for_violation encloses size_of pair_ltb
better text position best v = elim (range_for_violation v text) [
  | none ↦ best
  | some r ↦
      if not (encloses r position)
      then best
      else if is_smaller (size_of r) best
      then some (record { size = size_of r; violation = v })
      else best
]

unfoldable pub find_from : Text → ℤ × ℤ → Option Best → List Violation → Option Best
unfolding better
find_from text position best [] = best
find_from text position best (v ∷ vs) = find_from text position (better text position best v) vs

-- `_find_violation_at_position`
unfoldable pub find_violation_at_position : List Violation → Text → ℤ × ℤ → Option Violation
unfolding find_from
find_violation_at_position violations text position =
    elim (find_from text position none violations) [ none ↦ none | some best ↦ some best.violation ]

-- src/slopsentinel/rules/examples.py
pub record RuleExample : Type 0 where
  pub language : Text
  pub bad : Text
  pub good : Option Text
  pub notes : Option Text

-- A line with an optional text, if it is there and not empty.
abbrev pub optional_line : (Text → List Text) → Option Text → List Text
optional_line lines none = []
optional_line lines (some t) = if is_nil t then [] else lines t

abbrev pub code_block : Text → Text → Text → List Text
unfolding rstrip_char
code_block title language code =
    title ∷ (codes "```" ++ language) ∷ rstrip_char 10 code ∷ codes "```" ∷ []

abbrev pub good_lines : Text → Option Text → List Text
unfolding rstrip_char
good_lines language none = []
good_lines language (some good) = [] ∷ code_block (codes "Good:") language good

unfoldable pub example_lines : Option RuleExample → List Text
unfolding strip rstrip_char
example_lines none = []
example_lines (some e) =
    []
    ∷ (optional_line (λ notes. strip notes ∷ [] ∷ []) e.notes
        ++ (code_block (codes "Bad:") e.language e.bad ++ good_lines e.language e.good))

-- The text that `_hover_for_violation` shows.
unfoldable pub hover_text : RuleMeta → Option RuleExample → Violation → Text
unfolding example_lines strip join
hover_text meta example v =
    strip (
      join (codes "\n") (
        (codes "**" ++ (meta.rule_id ++ (codes ": " ++ (meta.title ++ codes "**"))))
        ∷ []
        ∷ (codes "- Severity: `" ++ (severity_name v.severity ++ codes "`"))
        ∷ (codes "- Dimension: `" ++ (dimension_name meta.score_dimension ++ codes "`"))
        ∷ (optional_line (λ model. (codes "- Model: `" ++ (model ++ codes "`")) ∷ [])
              meta.fingerprint_model
            ++ [] ∷ strip meta.description ∷ example_lines example)))
    ++ codes "\n"
