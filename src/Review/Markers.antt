-- ===== src/Review/Markers.antt =====
-- The marker of a comment, by which a later run knows it, and the text around it:
-- src/slopsentinel/action_github.py, and `_render_comment_body` of src/slopsentinel/action_markdown.py.
use slopsentinel.Base.{
  ℕ, zero, suc, ◌+◌, ◌-◌, ◌/◌, ◌%◌, Text, codes, text_eq, List, [], ◌∷◌, ◌++◌, Option, none, some,
  Bool, true, false, ◌&&◌, ◌||◌, if◌then◌else◌, ltb, eqb, length, take, drop, map, sort, is_nil,
  is_space, strip, starts_with, ends_with, split_on, splitlines, join, text_leb, ℤ, pos, negsuc,
}
use slopsentinel.Types.{Violation, Severity, info, warn, error}
use slopsentinel.Dict.{Dict, lookup, insert}

unfoldable pub decimal_from : ℕ → ℕ → Text → Text
decimal_from zero n acc = (b'0' + n % 10) ∷ acc
decimal_from (suc fuel) n acc =
    let rest = decimal_from fuel (n / 10) ((b'0' + n % 10) ∷ acc) in
    if ltb n 10 then (b'0' + n) ∷ acc else rest

-- `str(n)`, with `n` as the fuel
unfoldable pub decimal : ℕ → Text
unfolding decimal_from
decimal n = decimal_from n n []

-- `str` of an integer
abbrev pub signed : ℤ → Text
unfolding decimal
signed (pos n) = decimal n
signed (negsuc n) = b'-' ∷ decimal (suc n)

-- `sha1(…).hexdigest()`, and `int` of a text, `none` for its `ValueError`
pub record MarkerMachine : Type 0 where
  pub sha1 : Text → Text
  pub read_int : Text → Option ℤ

-- `token.split("=", 1)`, `none` where there is no "="
unfoldable pub split_field : Text → Option (Text × Text)
split_field [] = none
split_field (c ∷ s) =
    if eqb c b'='
    then some ([], s)
    else elim (split_field s) [ none ↦ none | some (k, v) ↦ some (c ∷ k, v) ]

unfoldable pub add_field : Text → Dict Text → Dict Text
unfolding split_field insert
add_field token out = elim (split_field token) [
  | none ↦ out
  | some (k, v) ↦ if is_nil k || is_nil v then out else insert k v out
]

unfoldable pub add_fields : List Text → Dict Text → Dict Text
unfolding add_field
add_fields [] out = out
add_fields (token ∷ tokens) out = add_fields tokens (add_field token out)

-- `_parse_marker_fields`
unfoldable pub parse_marker_fields : Text → Dict Text
unfolding strip starts_with ends_with split_on add_fields
parse_marker_fields marker_line =
    let line = strip marker_line in
    let opened = if starts_with line (codes "<!--") then strip (drop 4 line) else line in
    let stripped =
      if ends_with opened (codes "-->") then strip (take (length opened - 3) opened) else opened in
    if starts_with stripped (codes "slopsentinel:v1")
    then add_fields (drop 1 (split_on is_space stripped)) []
    else []

module _ (m : MarkerMachine) where
  abbrev key_of : Text → Text → Text
  key_of path line = take 12 (m.sha1 (path ++ (b'\n' ∷ line)))

  -- `_comment_key`
  unfoldable pub comment_key : Text → ℕ → Text
  unfolding decimal
  comment_key path line = key_of path (decimal line)

  -- The key of the path and the line of an older marker.
  abbrev older_key : Option Text → Option Text → Option Text
  unfolding decimal
  older_key (some (c ∷ path)) (some (d ∷ line)) = elim (m.read_int (d ∷ line)) [
    | none ↦ none
    | some n ↦ some (key_of (c ∷ path) (signed n))
  ]
  older_key path line = none

  abbrev has_older : Option Text → Option Text → Bool
  has_older (some (c ∷ path)) (some (d ∷ line)) = true
  has_older path line = false

  abbrev marker_key : Dict Text → Option Text → Option Text
  unfolding lookup decimal
  marker_key fields other =
      let path = lookup (codes "path") fields in
      let line = lookup (codes "line") fields in
      elim (lookup (codes "key") fields) [
        | some (c ∷ key) ↦ some (c ∷ key)
        | none ↦ if has_older path line then older_key path line else other
        | some [] ↦ if has_older path line then older_key path line else other
      ]

  -- `_extract_marker_key`, over the lines
  unfoldable pub extract_from : List Text → Option Text
  unfolding strip starts_with ends_with parse_marker_fields marker_key lookup decimal
  extract_from [] = none
  extract_from (raw ∷ lines) =
      let line = strip raw in
      let rest = extract_from lines in
      if starts_with line (codes "<!-- slopsentinel:v1 ") && ends_with line (codes "-->")
      then marker_key (parse_marker_fields line) rest
      else rest

  unfoldable pub extract_marker_key : Text → Option Text
  unfolding extract_from splitlines
  extract_marker_key body = extract_from (splitlines body)

-- `_comment_marker`
unfoldable pub comment_marker : Text → Text → ℕ → Text
unfolding decimal
comment_marker key path line =
    codes "<!-- slopsentinel:v1 key="
    ++ (key ++ (codes " path=" ++ (path ++ (codes " line=" ++ (decimal line ++ codes " -->")))))

abbrev severity_rank : Severity → ℕ
severity_rank error = 0
severity_rank warn = 1
severity_rank info = 2

-- The order of the pairs of rank and rule id.
abbrev item_leb : Violation → Violation → Bool
item_leb a b =
    ltb (severity_rank a.severity) (severity_rank b.severity)
    || (eqb (severity_rank a.severity) (severity_rank b.severity) && text_leb a.rule_id b.rule_id)

abbrev icon : Severity → Text
icon error = codes "✖"
icon warn = codes "⚠"
icon info = codes "ℹ"

abbrev suggestion_text : Option Text → Text
suggestion_text none = []
suggestion_text (some []) = []
suggestion_text (some (c ∷ s)) = codes " — " ++ (c ∷ s)

abbrev item_line : Violation → Text
item_line v =
    codes "- "
    ++ (icon v.severity
        ++ (codes " `"
            ++ (v.rule_id ++ (codes "` " ++ (v.message ++ suggestion_text v.suggestion)))))

-- `_render_comment_body`
unfoldable pub render_comment_body : List Violation → Text → Text
unfolding sort text_leb join decimal
render_comment_body items marker =
    let sorted = sort item_leb items in
    let more =
      if ltb 6 (length items)
      then (codes "- …and "
          ++ (decimal (length items - 6) ++ codes " more finding(s) on this line."))
        ∷ []
      else [] in
    join (b'\n' ∷ []) (
      codes "**SlopSentinel** found the following issue(s):" ∷ map item_line (take 6 sorted)
      ++ (more ++ ([] ∷ marker ∷ [])))
