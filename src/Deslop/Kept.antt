-- ===== src/Deslop/Kept.antt =====
-- What `deslop_text` keeps of a file.
use slopsentinel.Base.{
  ℕ, suc, ◌<◌, ==_refl, Text, codes, text_eq, nat_eq, pair_eq, List, [], ◌∷◌, none, Bool, true,
  false, ◌&&◌, not, ◌==◌, if◌then◌else◌, select, contains, map, ◌≡◌, refl, sym, ◌∙◌, ap, ◌⊎◌, inl,
  inr, arith,
}
use slopsentinel.CodeLines.{comment_step, yielded, iter_comment_lines}
use slopsentinel.CodeLines.Partition.{yielded-before}
use slopsentinel.Autofix.Lines.{splitlines_keep, concat}
use slopsentinel.Deslop.{
  comment_matches_ai_artifact, comment_state, deslop_step, deslop_lines, deslop_generic,
  deslop_python, deslop_text,
}
use slopsentinel.Autofix.Syntax

-- The lines of a file with their numbers.
abbrev pub enumerate : ℕ → List Text → List (ℕ × Text)
enumerate idx [] = []
enumerate idx (line ∷ lines) = (idx, line) ∷ enumerate (suc idx) lines

-- A line goes if the rules see a comment there and it matches a pattern.
abbrev pub stays : List (ℕ × Text) → ℕ × Text → Bool
stays comments x = not (contains comments x && comment_matches_ai_artifact x.1)

step-comment_step :
    (b : Bool) (line : Text)
    → ((deslop_step b line).1 ≡ (comment_step b line).1)
      × ((deslop_step b line).0 ≡ not ((comment_step b line).0 && comment_matches_ai_artifact line))
unfolding deslop_step comment_state comment_step
step-comment_step b line = ground arith

below_differs : (i k : ℕ) (l m : Text) → i < k → ◌==◌ {A = ℕ × Text} (k, m) (i, l) ≡ false
below_differs i k l m h = ground arith

drop_below :
    (i : ℕ) (l : Text) (comments : List (ℕ × Text)) (k : ℕ) (lines : List Text)
    → i < k
    → select (stays ((i, l) ∷ comments)) (enumerate k lines)
      ≡ select (stays comments) (enumerate k lines)
drop_below i l comments k [] h = refl
drop_below i l comments k (m ∷ lines) h = rw (below_differs i k l m h) (
    ap (λ rest. if stays comments (k, m) then (k, m) ∷ rest else rest)
      (drop_below i l comments (suc k) lines (omega arith)))

yielded-cons :
    (step : Bool → Text → Bool × Bool) (b : Bool) (idx : ℕ) (line : Text) (lines : List Text)
    → yielded step b idx (line ∷ lines) ≡ (
        if (step b line).0
        then (idx, line) ∷ yielded step (step b line).1 (suc idx) lines
        else yielded step (step b line).1 (suc idx) lines)
unfolding yielded
yielded-cons step b idx line lines = refl

select-first :
    (c : Bool) (comments : List (ℕ × Text)) (idx : ℕ) (line : Text) (lines : List Text)
    → contains comments (idx, line) ≡ false
    → map
        (λ (x : ℕ × Text). x.1)
        (select
          (stays (if c then (idx, line) ∷ comments else comments))
          (enumerate idx (line ∷ lines)))
      ≡ (let rest =
            map (λ (x : ℕ × Text). x.1) (select (stays comments) (enumerate (suc idx) lines)) in
          if not (c && comment_matches_ai_artifact line) then line ∷ rest else rest)
select-first true comments idx line lines new =
    rw
      (
        ==_refl {A = ℕ × Text} (idx, line),
        drop_below idx line comments (suc idx) lines (omega arith),
      )
      (map-if (not (comment_matches_ai_artifact line)) (idx, line)
        (select (stays comments) (enumerate (suc idx) lines)))
  where
    map-if :
        (b : Bool) (x : ℕ × Text) (xs : List (ℕ × Text))
        → map (λ (x : ℕ × Text). x.1) (if b then x ∷ xs else xs)
          ≡ (if b then x.1 ∷ map (λ (x : ℕ × Text). x.1) xs else map (λ (x : ℕ × Text). x.1) xs)
    map-if true x xs = refl
    map-if false x xs = refl
select-first false comments idx line lines new = rw new refl

deslop-nil : (b : Bool) → deslop_lines b [] ≡ []
unfolding deslop_lines
deslop-nil b = refl

deslop-cons :
    (b : Bool) (line : Text) (lines : List Text)
    → deslop_lines b (line ∷ lines) ≡ (
        let rest = deslop_lines (comment_step b line).1 lines in
        if not ((comment_step b line).0 && comment_matches_ai_artifact line)
        then line ∷ rest
        else rest)
unfolding deslop_lines
deslop-cons b line lines = let step = step-comment_step b line in rw (step.0, step.1) refl

deslop_lines-select :
    (b : Bool) (idx : ℕ) (lines : List Text)
    → deslop_lines b lines
      ≡ map
          (λ (x : ℕ × Text). x.1)
          (select (stays (yielded comment_step b idx lines)) (enumerate idx lines))
deslop_lines-select b idx [] = deslop-nil b
deslop_lines-select b idx (line ∷ lines) =
    let later = yielded comment_step (comment_step b line).1 (suc idx) lines in
    deslop-cons b line lines
    ∙ ap
        (λ (rest : List Text).
          if not ((comment_step b line).0 && comment_matches_ai_artifact line)
          then line ∷ rest
          else rest)
        (deslop_lines-select (comment_step b line).1 (suc idx) lines)
    ∙ sym (
        ap
          (λ (comments : List (ℕ × Text)).
            map (λ (x : ℕ × Text). x.1) (select (stays comments) (enumerate idx (line ∷ lines))))
          (yielded-cons comment_step b idx line lines)
        ∙ select-first (comment_step b line).0 later idx line lines (
            yielded-before comment_step (comment_step b line).1 (suc idx) lines idx line
              (omega arith)))

-- For a language other than Python, and for Python that has no tokens, the clean-up of a text drops
-- exactly the lines that the rules see as comments (`iter_comment_lines`) and that match one of the
-- five patterns; every other line stays as it is, in its place.
pub deslop_text_exact :
    (python : Syntax.Python) (language text : Text)
    → ((language == codes "python") ≡ false) ⊎ (python.generate_tokens text ≡ none)
    → deslop_text python language text
      ≡ concat (
          map
            (λ (x : ℕ × Text). x.1)
            (select
              (stays (iter_comment_lines (splitlines_keep text)))
              (enumerate 1 (splitlines_keep text))))
unfolding deslop_text deslop_python deslop_generic iter_comment_lines
deslop_text_exact python language text h =
    generic_either h ∙ ap concat (deslop_lines-select false 1 (splitlines_keep text))
  where
    generic : Text
    generic = concat (deslop_lines false (splitlines_keep text))

    without_tokens :
        (b : Bool)
        → python.generate_tokens text ≡ none
        → (if b then deslop_python python text else generic) ≡ generic
    without_tokens true e = rw (deslop_python, e) refl
    without_tokens false e = refl

    generic_either :
        ((language == codes "python") ≡ false) ⊎ (python.generate_tokens text ≡ none)
        → deslop_text python language text ≡ generic
    generic_either (inl other) = rw other refl
    generic_either (inr e) = without_tokens (language == codes "python") e
