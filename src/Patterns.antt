-- ===== src/Patterns.antt =====
-- src/slopsentinel/patterns.py: the patterns that detection, fixes and clean-up share, as tests on
-- one line (with or without its end). `re.IGNORECASE` compares by `fold`; `\w` is the ASCII class.
mod Tests
use slopsentinel.Base.{
  ℕ, ◌+◌, ◌-◌, Text, codes, List, [], ◌∷◌, Option, none, some, Bool, true, false, ◌&&◌, ◌||◌, not,
  if◌then◌else◌, map, any, all, length, take, drop, is_nil, is_space, leb, eqb, lstrip, rstrip,
  starts_with, has_infix,
}

-- One character under `re.IGNORECASE`: the dotless i, the long s and the Kelvin sign match letters.
unfoldable pub fold : ℕ → ℕ
fold c =
    if leb b'A' c && leb c b'Z'
    then c + 32
    else if eqb c 0x130 || eqb c 0x131
    then b'i'
    else if eqb c 0x17f
    then b's'
    else if eqb c 0x212a
    then b'k'
    else c

-- `\w`
unfoldable pub is_word : ℕ → Bool
is_word c =
    (leb b'a' c && leb c b'z')
    || (leb b'A' c && leb c b'Z')
    || (leb b'0' c && leb c b'9')
    || eqb c b'_'

-- A piece of a pattern: letters, `\s+`, or the class of the two apostrophes.
pub data Piece : Type 0 where
  letters : Text → Piece
  spaces apostrophe : Piece

-- The rest of a text that begins with `p`.
unfoldable pub after_prefix : Text → Text → Option Text
unfolding starts_with
after_prefix p s = if starts_with s p then some (drop (length p) s) else none

-- `\s+` before a piece that begins with no space takes all the space there is.
unfoldable pub after_spaces : Text → Option Text
unfolding lstrip
after_spaces [] = none
after_spaces (c ∷ s) = if is_space c then some (lstrip s) else none

unfoldable pub after_apostrophe : Text → Option Text
after_apostrophe [] = none
after_apostrophe (c ∷ s) = if eqb c 0x27 || eqb c 0x2019 then some s else none

unfoldable pub after_piece : Piece → Text → Option Text
unfolding after_prefix after_spaces after_apostrophe
after_piece (letters p) s = after_prefix p s
after_piece spaces s = after_spaces s
after_piece apostrophe s = after_apostrophe s

-- A `\b` after a letter: the next character is none of a word.
unfoldable pub at_boundary : Text → Bool
unfolding is_word
at_boundary [] = true
at_boundary (c ∷ s) = not (is_word c)

unfoldable pub match_here : List Piece → Text → Bool
unfolding after_piece at_boundary
match_here [] s = at_boundary s
match_here (p ∷ ps) s = elim (after_piece p s) [ none ↦ false | some rest ↦ match_here ps rest ]

-- `re.search` of `\b(?:…|…)\b`: `inside` tells that the character before belongs to a word.
unfoldable pub search_words : List (List Piece) → Bool → Text → Bool
unfolding match_here is_word
search_words phrases inside [] = false
search_words phrases inside (c ∷ s) =
    (not inside && any (λ ps. match_here ps (c ∷ s)) phrases) || search_words phrases (is_word c) s

-- The words of a phrase with `\s+` between them.
abbrev pub phrase : List Text → List Piece
phrase [] = []
phrase (w ∷ []) = letters w ∷ []
phrase (w ∷ v ∷ ws) = letters w ∷ spaces ∷ phrase (v ∷ ws)

abbrev pub polite_phrases : List (List Piece)
polite_phrases =
    phrase (codes "we" ∷ codes "need" ∷ codes "to" ∷ [])
    ∷ (letters (codes "let") ∷ apostrophe ∷ letters (codes "s") ∷ [])
    ∷ phrase (codes "we" ∷ codes "should" ∷ [])
    ∷ phrase (codes "as" ∷ codes "you" ∷ codes "can" ∷ codes "see" ∷ [])
    ∷ phrase (codes "note" ∷ codes "that" ∷ [])
    ∷ (letters (codes "it")
        ∷ apostrophe
        ∷ letters (codes "s")
        ∷ spaces
        ∷ phrase (codes "worth" ∷ codes "noting" ∷ []))
    ∷ phrase (codes "it" ∷ codes "is" ∷ codes "worth" ∷ codes "noting" ∷ [])
    ∷ phrase (codes "keep" ∷ codes "in" ∷ codes "mind" ∷ [])
    ∷ phrase (codes "feel" ∷ codes "free" ∷ codes "to" ∷ [])
    ∷ (letters (codes "don")
        ∷ apostrophe
        ∷ letters (codes "t")
        ∷ spaces
        ∷ phrase (codes "hesitate" ∷ codes "to" ∷ []))
    ∷ phrase (codes "please" ∷ codes "note" ∷ [])
    ∷ []

-- `POLITE_RE.search(line)`
unfoldable pub polite_re : Text → Bool
unfolding search_words fold
polite_re line = search_words polite_phrases false (map fold line)

-- `THINKING_RE.search(line)`
unfoldable pub thinking_re : Text → Bool
unfolding fold has_infix
thinking_re line =
    has_infix (map fold line) (codes "<thinking>")
    || has_infix (map fold line) (codes "</thinking>")

-- `COMPREHENSIVE_RE.search(line)`
unfoldable pub comprehensive_re : Text → Bool
unfolding fold has_infix
comprehensive_re line =
    has_infix (map fold line) (codes "here's a comprehensive")
    || has_infix (map fold line) (codes "here’s a comprehensive")

-- `LAST_UPDATE_RE.search(line)`
unfoldable pub last_update_re : Text → Bool
unfolding search_words fold
last_update_re line =
    search_words ((letters (codes "as of my last update") ∷ []) ∷ []) false (map fold line)

-- `[=\-]`
abbrev pub is_rule : ℕ → Bool
is_rule c = eqb c b'=' || eqb c b'-'

-- What follows the comment mark and its space, without space at its end: ten rule characters or
-- more and nothing else, or three at each end with some character between that is no space.
unfoldable pub is_banner_body : Text → Bool
is_banner_body body =
    let n = length body in
    let middle = take (n - 6) (drop 3 body) in
    (leb 10 n && all is_rule body)
    || (leb 6 n
        && all is_rule (take 3 body)
        && all is_rule (drop (n - 3) body)
        && any (λ c. not (is_space c)) middle)

unfoldable pub is_banner : Text → Bool
unfolding lstrip rstrip is_banner_body
is_banner rest = is_banner_body (rstrip (lstrip rest))

-- `BANNER_RE.match(line)`, for a line that holds no "\n" but at its end
unfoldable pub banner_re : Text → Bool
unfolding lstrip starts_with is_banner
banner_re line =
    let stripped = lstrip line in
    if starts_with stripped (codes "#")
    then is_banner (drop 1 stripped)
    else if starts_with stripped (codes "//")
    then is_banner (drop 2 stripped)
    else false
