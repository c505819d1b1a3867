-- ===== src/Autofix/Lines.antt =====
-- Lines with their ends, numbered from 1, and sets of line numbers given by ranges.
use slopsentinel.Base.{
  ℕ, zero, suc, ◌+◌, ◌-◌, Text, codes, List, [], ◌∷◌, ◌++◌, ◌&&◌, not, nat_eq, if◌then◌else◌,
  contains, leb, eqb, starts_with, is_line_end, ◌≡◌, refl, arith,
}

push : ℕ → List Text → List Text
push c [] = (c ∷ []) ∷ []
push c (l ∷ ls) = (c ∷ l) ∷ ls

-- `text.splitlines(keepends=True)`
unfoldable pub splitlines_keep : Text → List Text
unfolding push starts_with
splitlines_keep [] = []
splitlines_keep (c ∷ s) =
    let rest = splitlines_keep s in
    if is_line_end c && not (eqb c 13 && starts_with s (codes "\n"))
    then (c ∷ []) ∷ rest
    else push c rest

-- `"".join(lines)`
unfoldable pub concat : List Text → Text
concat [] = []
concat (l ∷ ls) = l ++ concat ls

concat-push : (c : ℕ) (ls : List Text) → concat (push c ls) ≡ c ∷ concat ls
unfolding concat push
concat-push c [] = refl
concat-push c (l ∷ ls) = refl

-- Splitting a text keeps all of it.
pub concat-splitlines_keep : (s : Text) → concat (splitlines_keep s) ≡ s
unfolding splitlines_keep concat
concat-splitlines_keep [] = refl
concat-splitlines_keep (c ∷ s) =
    ground (arith, concat-push c (splitlines_keep s), concat-splitlines_keep s)

-- `range(start, start + n)`
unfoldable pub count_up : ℕ → ℕ → List ℕ
count_up start zero = []
count_up start (suc n) = start ∷ count_up (suc start) n

-- `range(start, end + 1)`
unfoldable pub range_incl : ℕ → ℕ → List ℕ
unfolding count_up
range_incl start stop = count_up start (suc stop - start)

contains-count_up :
    (n start k : ℕ) → contains (count_up start n) k ≡ (leb start k && leb (k + 1) (start + n))
unfolding count_up
contains-count_up zero start k = ground arith
contains-count_up (suc n) start k = ground (arith, contains-count_up n (suc start) k)

pub contains-range_incl :
    (start stop k : ℕ) → contains (range_incl start stop) k ≡ (leb start k && leb k stop)
unfolding range_incl
contains-range_incl start stop k = ground (arith, contains-count_up (suc stop - start) start k)
