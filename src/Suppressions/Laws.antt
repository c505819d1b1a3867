-- ===== src/Suppressions/Laws.antt =====
-- What a file's directives suppress, line by line.
use slopsentinel.Base.{
  ℕ, zero, suc, ◌+◌, ◌<◌, Text, codes, text_eq, nat_eq, List, [], ◌∷◌, ◌++◌, Option, none, some,
  Bool, false, ◌&&◌, ◌||◌, ◌≡◌, refl, ◌∙◌, arith, ◌==◌, eqb, contains-append, any, get_elem?, upper,
}
use slopsentinel.Suppressions.{
  Suppressions, names, ids_at, add_ids, add_match, ids_of, search_re, disable_file_at, disable_at,
  disable_next_at, parse_from, parse_suppressions, is_suppressed,
}

-- The ids that a pattern finds in a line name the rule.
abbrev pub directive_names : (Text → Option Text) → Text → Text → Bool
directive_names p line id = names (ids_of (search_re p line)) (upper id)

-- The same at an index of the file, if there is such a line.
abbrev pub names_at : (Text → Option Text) → List Text → ℕ → Text → Bool
names_at p lines i id = elim (get_elem? lines i) [ none ↦ false | some l ↦ directive_names p l id ]

-- The line above an index.
abbrev pub names_before : (Text → Option Text) → List Text → ℕ → Text → Bool
names_before p lines zero id = false
names_before p lines (suc i) id = names_at p lines i id

names-append : (a b : List Text) (id : Text) → names (a ++ b) id ≡ (names a id || names b id)
names-append a b id = ground (arith, contains-append a b (codes "all"), contains-append a b id)

names-add_ids :
    (n m : ℕ) (ids : List Text) (d : List (ℕ × List Text)) (id : Text)
    → names (ids_at n (add_ids m ids d)) id ≡ (names (ids_at n d) id || (m == n && names ids id))
unfolding ids_at add_ids
names-add_ids n m ids [] id = ground arith
names-add_ids n m ids ((k, old) ∷ d) id =
    ground (arith, names-add_ids n m ids d id, names-append old ids id)

names-add_match :
    (n m : ℕ) (g : Option Text) (d : List (ℕ × List Text)) (id : Text)
    → names (ids_at n (add_match g m d)) id
      ≡ (names (ids_at n d) id || (m == n && names (ids_of g) id))
unfolding add_match ids_of
names-add_match n m none d id = ground arith
names-add_match n m (some g) d id = names-add_ids n m _ d id

-- What the lines from number `idx` on say of line `n`.
hits : ℕ → List Text → ℕ → Text → Bool
hits idx [] n id = false
hits idx (l ∷ ls) n id =
    (idx == n && directive_names disable_at l id)
    || (suc idx == n && directive_names disable_next_at l id)
    || hits (suc idx) ls n id

names-parse_from :
    (idx : ℕ) (lines : List Text) (s : Suppressions) (n : ℕ) (id : Text)
    → names (ids_at n (parse_from idx lines s).disabled_on_line) (upper id)
      ≡ (names (ids_at n s.disabled_on_line) (upper id) || hits idx lines n id)
unfolding parse_from hits
names-parse_from idx [] s n id = ground arith
names-parse_from idx (l ∷ ls) s n id =
    names-parse_from (suc idx) ls _ n id
    ∙ rw (names-add_match n (suc idx), names-add_match n idx) (ground arith)

in_file-parse_from :
    (idx : ℕ) (lines : List Text) (s : Suppressions) (id : Text)
    → names ((parse_from idx lines s).disabled_in_file) (upper id) ≡ (
        names (s.disabled_in_file) (upper id)
        || any (λ l. directive_names disable_file_at l id) lines)
unfolding parse_from
in_file-parse_from idx [] s id = ground arith
in_file-parse_from idx (l ∷ ls) s id =
    in_file-parse_from (suc idx) ls _ id ∙ rw names-append (ground arith)

hits-below :
    (idx : ℕ) (lines : List Text) (n : ℕ) (id : Text) → n < idx → hits idx lines n id ≡ false
unfolding hits
hits-below idx [] n id h = refl
hits-below idx (l ∷ ls) n id h = ground (arith, hits-below (suc idx) ls n id)

hits-cons :
    (idx : ℕ) (l : Text) (ls : List Text) (n k : ℕ) (id : Text)
    → n ≡ idx + k
    → hits idx (l ∷ ls) n id ≡ (
        (eqb k 0 && directive_names disable_at l id)
        || (eqb k 1 && directive_names disable_next_at l id)
        || hits (suc idx) ls n id)
unfolding hits
hits-cons idx l ls n k id h = ground arith

hits-eq :
    (idx : ℕ) (lines : List Text) (n k : ℕ) (id : Text)
    → n ≡ idx + k
    → hits idx lines n id
      ≡ (names_at disable_at lines k id || names_before disable_next_at lines k id)
hits-eq idx [] n k id h = unfold hits in ground arith
hits-eq idx (l ∷ ls) n zero id h =
    hits-cons idx l ls n 0 id h ∙ ground (arith, hits-below (suc idx) ls n id)
hits-eq idx (l ∷ ls) n (suc zero) id h =
    hits-cons idx l ls n 1 id h ∙ ground (arith, hits-eq (suc idx) ls n 0 id (omega arith))
hits-eq idx (l ∷ ls) n (suc (suc k)) id h =
    hits-cons idx l ls n (suc (suc k)) id h
    ∙ ground (arith, hits-eq (suc idx) ls n (suc k) id (omega arith))

-- A file-level violation is suppressed exactly if some line has a `disable-file` directive that
-- names its rule. A violation at line `suc k` is suppressed exactly if that holds, or its own
-- line has a `disable` directive that names the rule, or the line before it has a
-- `disable-next-line` directive that does.
pub suppressed_exactly :
    (lines : List Text) (rule_id : Text) (k : ℕ)
    → let s = parse_suppressions lines in
      let in_file = any (λ l. directive_names disable_file_at l rule_id) lines in
      (is_suppressed s rule_id none ≡ in_file)
      × (is_suppressed s rule_id (some (suc k)) ≡ (
          in_file
          || names_at disable_at lines k rule_id
          || names_before disable_next_at lines k rule_id))
unfolding is_suppressed parse_suppressions
suppressed_exactly lines id k =
    let start : Suppressions = record { disabled_in_file = []; disabled_on_line = [] } in
    let file = in_file-parse_from 1 lines start id in
    let line = names-parse_from 1 lines start (suc k) id in
    let place = hits-eq 1 lines (suc k) k id (omega arith) in (ground arith, ground arith)
