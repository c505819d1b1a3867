-- ===== src/CodeLines/Partition.antt =====
-- Every line that is not blank is either a comment line or a code line.
use slopsentinel.Base.{
  Bool-cases, inl, inr, ℕ, suc, ◌<◌, Text, text_eq, List, [], ◌∷◌, Bool, true, false, ◌||◌, ◌&&◌,
  not, ◌==◌, nat_eq, pair_eq, if◌then◌else◌, is_nil, lstrip, strip, rstrip, is_space, contains, ◌≡◌,
  refl, ap, arith,
}
use slopsentinel.CodeLines.{comment_step, code_step, yielded, iter_comment_lines, iter_code_lines}

rstrip-cons : (c : ℕ) (s : Text) → is_space c ≡ false → is_nil (rstrip (c ∷ s)) ≡ false
unfolding rstrip
rstrip-cons c s h = rw h refl

-- A line is blank for `strip` if it is for `lstrip`.
pub strip-lstrip : (s : Text) → is_nil (strip s) ≡ is_nil (lstrip s)
unfolding strip lstrip rstrip
strip-lstrip [] = refl
strip-lstrip (c ∷ s) = elim (Bool-cases (is_space c)) [
  | inl h ↦ rw h (strip-lstrip s)
  | inr h ↦ rw h (rstrip-cons c s h)
]

-- The two loops keep `in_block_comment` alike, and one of them yields the line if it is not blank.
steps_agree :
    (b : Bool) (l : Text)
    → ((code_step b l).1 ≡ (comment_step b l).1)
      × ((code_step b l).0 ≡ (not (is_nil (lstrip l)) && not (comment_step b l).0))
      × (((comment_step b l).0 && is_nil (lstrip l)) ≡ false)
unfolding code_step comment_step
steps_agree b l = rw strip-lstrip (ground arith)

-- The lines that are not blank, with their numbers.
abbrev pub numbered : ℕ → List Text → List (ℕ × Text)
numbered idx [] = []
numbered idx (line ∷ lines) =
    let rest = numbered (suc idx) lines in if is_nil (lstrip line) then rest else (idx, line) ∷ rest

pub yielded-before :
    (step : Bool → Text → Bool × Bool) (b : Bool) (idx : ℕ) (ls : List Text) (i : ℕ) (l : Text)
    → i < idx
    → contains (yielded step b idx ls) (i, l) ≡ false
unfolding yielded
yielded-before step b idx [] i l h = refl
yielded-before step b idx (line ∷ ls) i l h =
    ground (arith, yielded-before step (step b line).1 (suc idx) ls i l)

==_holds : (x y : ℕ × Text) → (x == y) ≡ true → x ≡ y
==_holds x y h = ground arith

SplitAt : Bool → ℕ → List Text → ℕ × Text → Type 0
SplitAt b idx ls x =
    ((contains (yielded comment_step b idx ls) x || contains (yielded code_step b idx ls) x)
      ≡ contains (numbered idx ls) x)
    × ((contains (yielded comment_step b idx ls) x && contains (yielded code_step b idx ls) x)
        ≡ false)

contains-if :
    (c : Bool) (y x : ℕ × Text) (xs : List (ℕ × Text))
    → contains (if c then y ∷ xs else xs) x ≡ (c && x == y || contains xs x)
contains-if true y x xs = refl
contains-if false y x xs = refl

contains-unless :
    (c : Bool) (y x : ℕ × Text) (xs : List (ℕ × Text))
    → contains (if c then xs else y ∷ xs) x ≡ (not c && x == y || contains xs x)
contains-unless true y x xs = refl
contains-unless false y x xs = refl

split_lem :
    (here inC inD inN c d n : Bool)
    → d ≡ (not n && not c)
    → (c && n) ≡ false
    → (inC || inD) ≡ inN
    → (inC && inD) ≡ false
    → (here ≡ true → (inC ≡ false) × (inD ≡ false))
    → (((c && here || inC) || (d && here || inD)) ≡ (not n && here || inN))
      × (((c && here || inC) && (d && here || inD)) ≡ false)
split_lem here inC inD inN c d n p q r s t = ground arith

yielded-SplitAt : (b : Bool) (idx : ℕ) (ls : List Text) (i : ℕ) (l : Text) → SplitAt b idx ls (i, l)
unfolding SplitAt yielded
yielded-SplitAt b idx [] i l = (refl, refl)
yielded-SplitAt b idx (line ∷ ls) i l =
    let (same, one_of, blank) = steps_agree b line in
    let next = (comment_step b line).1 in
    let rest : SplitAt next (suc idx) ls (i, l) = yielded-SplitAt next (suc idx) ls i l in
    rw
      (same, contains-if (comment_step b line).0, contains-if (code_step b line).0, contains-unless)
      (split_lem _ _ _ _ _ _ _ one_of blank rest.0 rest.1 (λ here.
        let p : i ≡ idx = ap (λ (t : ℕ × Text). t.0) (==_holds _ _ here) in
        (
          yielded-before comment_step next (suc idx) ls i l (omega arith),
          yielded-before code_step next (suc idx) ls i l (omega arith),
        )))

-- A numbered line is a line of the file that is not blank exactly if `iter_comment_lines` or
-- `iter_code_lines` yields it, and the two never both yield it.
pub comment_code_partition :
    (lines : List Text) (i : ℕ) (line : Text)
    → ((contains (iter_comment_lines lines) (i, line) || contains (iter_code_lines lines) (i, line))
        ≡ contains (numbered 1 lines) (i, line))
      × ((contains (iter_comment_lines lines) (i, line)
            && contains (iter_code_lines lines) (i, line))
          ≡ false)
unfolding SplitAt iter_comment_lines iter_code_lines
comment_code_partition lines i line = yielded-SplitAt false 1 lines i line
