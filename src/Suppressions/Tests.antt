-- ===== src/Suppressions/Tests.antt =====
-- Directives in a small file.
use slopsentinel.Base.{
  Text, codes, text_eq, nat_eq, List, [], ◌∷◌, none, some, ◌||◌, ◌≡◌, refl, any,
}
use slopsentinel.Suppressions.{
  disable_file_at, disable_at, disable_next_at, search_re, ids_of, parse_ids, parse_suppressions,
  is_suppressed,
}
use slopsentinel.Suppressions.Laws.{directive_names, names_at, names_before, suppressed_exactly}

abbrev lines : List Text
lines =
    codes "x = 1  # SLOP: disable = a03, e04"
    ∷ codes "// slop: disable-next-line=C01"
    ∷ codes "import os"
    ∷ codes "# slop:disable_file=all"
    ∷ []

first_line :
    ids_of (search_re disable_at (codes "x = 1  # SLOP: disable = a03, e04"))
    ≡ codes "A03" ∷ codes "E04" ∷ []
unfolding ids_of parse_ids search_re disable_at text_eq
first_line = refl

not_next : search_re disable_at (codes "# slop: disable-next-line=C01") ≡ none
unfolding search_re disable_at
not_next = refl

blank_group : search_re disable_file_at (codes "slop: disable-file= ") ≡ some (codes " ")
unfolding search_re disable_file_at
blank_group = refl

-- The group runs on into the words behind the ids.
trailing_words :
    ids_of (search_re disable_at (codes "# slop: disable=A03 all good"))
    ≡ codes "A03" ∷ codes "all" ∷ codes "GOOD" ∷ []
unfolding ids_of parse_ids search_re disable_at text_eq
trailing_words = refl

suppressed_exactly_example :
    let s = parse_suppressions lines in
    let in_file = any (λ (l : Text). directive_names disable_file_at l (codes "c01")) lines in
    (is_suppressed s (codes "c01") none ≡ in_file)
    × (is_suppressed s (codes "c01") (some 3) ≡ (
        in_file
        || names_at disable_at lines 2 (codes "c01")
        || names_before disable_next_at lines 2 (codes "c01")))
suppressed_exactly_example = suppressed_exactly lines (codes "c01") 2
