-- ===== src/Suppressions.antt =====
-- src/slopsentinel/suppressions.py: the directives in comments, and the test for a violation.
mod Laws
mod Tests
use slopsentinel.Base.{
  ℕ, zero, suc, ◌+◌, Text, codes, text_eq, nat_eq, List, [], ◌∷◌, ◌++◌, Option, none, some, Bool,
  true, false, ◌&&◌, ◌||◌, if◌then◌else◌, ◌==◌, eqb, leb, contains, is_nil, is_space, lstrip, strip,
  lower, upper, split_on, to_lower, map,
}

pub record Suppressions : Type 0 where
  pub disabled_in_file : List Text
  pub disabled_on_line : List (ℕ × List Text)

-- The literal part of a pattern, in lower case, matched without regard to case: the rest behind it.
unfoldable pub eat : Text → Text → Option Text
unfolding to_lower
eat [] s = some s
eat (d ∷ p) [] = none
eat (d ∷ p) (c ∷ s) = let rest = eat p s in if eqb (to_lower c) d then rest else none

-- `[a-z0-9_,\-\s]` without regard to case
abbrev pub is_id_char : ℕ → Bool
is_id_char c =
    (leb b'a' c && leb c b'z')
    || (leb b'A' c && leb c b'Z')
    || (leb b'0' c && leb c b'9')
    || eqb c b'_'
    || eqb c b','
    || eqb c b'-'
    || is_space c

unfoldable pub take_while : (ℕ → Bool) → Text → Text
take_while p [] = []
take_while p (c ∷ s) = let rest = take_while p s in if p c then c ∷ rest else []

unfoldable pub last_char : Text → Text
last_char [] = []
last_char (c ∷ []) = c ∷ []
last_char (c ∷ d ∷ s) = last_char (d ∷ s)

-- `\s*(?P<ids>[a-z0-9_,\-\s]+)`: `\s*` gives one blank back if the group has nothing else.
unfoldable pub ids_group : Text → Option Text
unfolding take_while last_char lstrip
ids_group s =
    let run = take_while is_id_char s in
    let trimmed = lstrip run in
    if is_nil run then none else if is_nil trimmed then some (last_char run) else some trimmed

infixl 5 ◌>>=◌
abbrev ◌>>=◌ : {A B : Type 0} → Option A → (A → Option B) → Option B
none >>= f = none
some a >>= f = f a

-- `[-_]?`
abbrev skip_dash : Text → Text
skip_dash [] = []
skip_dash (c ∷ s) = if eqb c b'-' || eqb c b'_' then s else c ∷ s

-- The three patterns, at one position.
unfoldable pub disable_file_at : Text → Option Text
unfolding eat ids_group
disable_file_at s = do
  a ← eat (codes "slop:") s
  b ← eat (codes "disable") (lstrip a)
  c ← eat (codes "file") (skip_dash b)
  d ← eat (codes "=") (lstrip c)
  ids_group d

unfoldable pub disable_at : Text → Option Text
unfolding eat ids_group
disable_at s = do
  a ← eat (codes "slop:") s
  b ← eat (codes "disable") (lstrip a)
  c ← eat (codes "=") (lstrip b)
  ids_group c

unfoldable pub disable_next_at : Text → Option Text
unfolding eat ids_group
disable_next_at s = do
  a ← eat (codes "slop:") s
  b ← eat (codes "disable-next-line") (lstrip a)
  c ← eat (codes "=") (lstrip b)
  ids_group c

-- `re.search`: the first position that matches
unfoldable pub search_re : (Text → Option Text) → Text → Option Text
search_re p [] = p []
search_re p (c ∷ s) = elim (p (c ∷ s)) [ some g ↦ some g | none ↦ search_re p s ]

abbrev is_separator : ℕ → Bool
is_separator c = eqb c b',' || is_space c

abbrev normalize_id : Text → Text
normalize_id token = if lower token == codes "all" then codes "all" else upper token

-- `_parse_ids`
unfoldable pub parse_ids : Text → List Text
unfolding lower upper split_on
parse_ids value = map normalize_id (split_on is_separator value)

-- `disabled_on_line.setdefault(n, set()).update(ids)`
unfoldable pub add_ids : ℕ → List Text → List (ℕ × List Text) → List (ℕ × List Text)
add_ids n ids [] = (n, ids) ∷ []
add_ids n ids ((m, old) ∷ rest) =
    if m == n then (m, old ++ ids) ∷ rest else (m, old) ∷ add_ids n ids rest

-- `disabled_on_line.get(n)`, with a missing line as an empty set
unfoldable pub ids_at : ℕ → List (ℕ × List Text) → List Text
ids_at n [] = []
ids_at n ((m, ids) ∷ rest) = if m == n then ids else ids_at n rest

-- What a line adds if the pattern matches.
unfoldable pub add_match : Option Text → ℕ → List (ℕ × List Text) → List (ℕ × List Text)
unfolding add_ids
add_match none n m = m
add_match (some g) n m = add_ids n (parse_ids g) m

unfoldable pub ids_of : Option Text → List Text
ids_of none = []
ids_of (some g) = parse_ids g

-- The loop over the lines, from the line number `idx`.
unfoldable pub parse_from : ℕ → List Text → Suppressions → Suppressions
unfolding add_match ids_of
parse_from idx [] s = s
parse_from idx (line ∷ lines) s = parse_from (suc idx) lines (record {
  disabled_in_file = s.disabled_in_file ++ ids_of (search_re disable_file_at line);
  disabled_on_line =
      add_match (search_re disable_next_at line) (suc idx)
        (add_match (search_re disable_at line) idx s.disabled_on_line);
})

unfoldable pub parse_suppressions : List Text → Suppressions
unfolding parse_from
parse_suppressions lines =
    parse_from 1 lines (record { disabled_in_file = []; disabled_on_line = [] })

-- "all" or the id itself
abbrev pub names : List Text → Text → Bool
names ids id = contains ids (codes "all") || contains ids id

unfoldable pub is_suppressed : Suppressions → Text → Option ℕ → Bool
unfolding upper ids_at
is_suppressed s rule_id line =
    let id = upper rule_id in
    if names (s.disabled_in_file) id
    then true
    else elim line [ none ↦ false | some n ↦ names (ids_at n s.disabled_on_line) id ]
