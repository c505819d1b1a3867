-- ===== src/Autofix/Code.antt =====
-- What the fixes of a file keep: the directives, and the lines of code.
use slopsentinel.Base.{
  ℕ, suc, ◌+◌, ◌-◌, Text, codes, text_eq, nat_eq, List, [], ◌∷◌, Bool, true, false, ◌&&◌, ◌||◌, not,
  ◌==◌, if◌then◌else◌, contains, lstrip, starts_with, has_infix, is_nil, Bool-cases, ◌≡◌, refl, sym,
  subst, ◌∙◌, ap, inl, inr, arith, map,
}
use slopsentinel.Types.{Violation}
use slopsentinel.CodeLines.{code_step, yielded, iter_code_lines}
use slopsentinel.Autofix.{
  CommentMask, MaskStep, flag_at, nth_line, line_at, mask_step, mask_from, build_comment_mask,
  is_safe_any_comment_deletion, is_directive,
}
use slopsentinel.CodeLines.Partition.{strip-lstrip}
use slopsentinel.Autofix.Lines.{splitlines_keep, concat}
use slopsentinel.Autofix.Merge.{flatten_removals, updated_lines, replacement_for}
use slopsentinel.Autofix.Covered.{deletable, plan_removals-deletable}
use slopsentinel.Autofix.Plan.{fix_lines, plan_removals, plan_replacements, python_comment_lines}
use slopsentinel.Autofix.Syntax

-- The lines that are left when a set of line numbers is removed.
abbrev pub without : List ℕ → ℕ → List Text → List Text
without removed idx [] = []
without removed idx (line ∷ lines) =
    let rest = without removed (suc idx) lines in if contains removed idx then rest else line ∷ rest

updated_lines-without :
    (removed : List ℕ) (idx : ℕ) (lines : List Text)
    → updated_lines removed [] idx lines ≡ without removed idx lines
unfolding updated_lines replacement_for
updated_lines-without removed idx [] = refl
updated_lines-without removed idx (line ∷ lines) =
    ground (arith, updated_lines-without removed (suc idx) lines)

-- The guards, at a line whose flags come from the state before it.
unfoldable pub deletable_after : Bool → Text → Bool
deletable_after in_block line =
    (mask_step in_block line).comment
    && not (is_directive line)
    && (starts_with (lstrip line) (codes "#")
        || starts_with (lstrip line) (codes "//")
        || ((mask_step in_block line).block
            && (if has_infix (lstrip line) (codes "/*") || has_infix (lstrip line) (codes "*/")
                then starts_with (lstrip line) (codes "/*") && has_infix (lstrip line) (codes "*/")
                else true)))

-- No line that closes a block comment begins like a comment of its own.
abbrev pub ClosesPlainly : Bool → List Text → Type 0
ClosesPlainly in_block [] = Unit
ClosesPlainly in_block (line ∷ lines) =
    ((in_block
        && has_infix (lstrip line) (codes "*/")
        && (starts_with (lstrip line) (codes "#")
            || starts_with (lstrip line) (codes "//")
            || starts_with (lstrip line) (codes "/*")))
      ≡ false)
    × ClosesPlainly (mask_step in_block line).after lines

-- The lines of code, without their numbers.
unfoldable pub code_of : Bool → List Text → List Text
unfolding code_step
code_of in_block [] = []
code_of in_block (line ∷ lines) =
    let rest = code_of (code_step in_block line).1 lines in
    if (code_step in_block line).0 then line ∷ rest else rest

code_of-yielded :
    (b : Bool) (idx : ℕ) (lines : List Text)
    → map (λ (x : ℕ × Text). x.1) (yielded code_step b idx lines) ≡ code_of b lines
unfolding yielded code_of
code_of-yielded b idx [] = refl
code_of-yielded b idx (line ∷ lines) =
    ground (arith, code_of-yielded (code_step b line).1 (suc idx) lines)

blank_closes_nothing : (t : Text) → (is_nil t && has_infix t (codes "*/")) ≡ false
unfolding has_infix
blank_closes_nothing [] = refl
blank_closes_nothing (c ∷ t) = refl

blank_starts_nothing :
    (t : Text)
    → ((is_nil t && starts_with t (codes "//")) ≡ false)
      × ((is_nil t && starts_with t (codes "/*")) ≡ false)
unfolding starts_with
blank_starts_nothing [] = (refl, refl)
blank_starts_nothing (c ∷ t) = (refl, refl)

-- The two loops keep the same state.
after-code_step : (b : Bool) (line : Text) → (code_step b line).1 ≡ (mask_step b line).after
unfolding code_step mask_step
after-code_step b line =
    rw strip-lstrip
      (ground (arith, blank_closes_nothing (lstrip line), blank_starts_nothing (lstrip line)))

-- A line that may be deleted is no code and leaves the state as it is.
deletable_after-code_step :
    (b : Bool) (line : Text) (lines : List Text)
    → deletable_after b line ≡ true
    → ClosesPlainly b (line ∷ lines)
    → ((code_step b line).0 ≡ false) × ((code_step b line).1 ≡ b)
unfolding deletable_after mask_step code_step
deletable_after-code_step b line lines h plain = ground (arith, plain.0)

mask_of : Bool → List Text → CommentMask
mask_of b lines = record {
  is_comment = false ∷ map (λ (s : MaskStep). s.comment) (mask_from b lines);
  in_block_comment = false ∷ map (λ (s : MaskStep). s.block) (mask_from b lines);
}

deletable-first :
    (b : Bool) (line : Text) (lines : List Text)
    → deletable (line ∷ lines) (mask_of b (line ∷ lines)) 1 ≡ deletable_after b line
unfolding deletable deletable_after mask_of mask_from is_safe_any_comment_deletion line_at
deletable-first b line lines = ground arith

line_at-later :
    (line : Text) (lines : List Text) (k : ℕ)
    → line_at (line ∷ lines) (suc (suc k)) ≡ line_at lines (suc k)
unfolding line_at
line_at-later line lines k = ap (nth_line (line ∷ lines)) less_one ∙ ap (nth_line lines) (sym less)
  where
    less_one : suc (suc k) - 1 ≡ suc k
    less_one = omega arith

    less : suc k - 1 ≡ k
    less = omega arith

deletable-later :
    (b : Bool) (line : Text) (lines : List Text) (k : ℕ)
    → deletable (line ∷ lines) (mask_of b (line ∷ lines)) (suc (suc k))
      ≡ deletable lines (mask_of (mask_step b line).after lines) (suc k)
unfolding deletable mask_of mask_from is_safe_any_comment_deletion
deletable-later b line lines k = rw (line_at-later line lines k) refl

without-code :
    (removed : List ℕ) (b : Bool) (idx : ℕ) (lines : List Text)
    → ((k : ℕ)
        → contains removed (idx + k) ≡ true
        → deletable lines (mask_of b lines) (suc k) ≡ true)
    → ClosesPlainly b lines
    → code_of b (without removed idx lines) ≡ code_of b lines
unfolding code_of
without-code removed b idx [] h plain = refl
without-code removed b idx (line ∷ lines) h plain = elim (Bool-cases (contains removed idx)) [
  | inl gone ↦
      let first =
        deletable_after-code_step b line lines
          (sym (deletable-first b line lines) ∙ h 0 (rw idx_zero gone)) plain in
      rw (gone, first.0, first.1)
        (without-code removed b (suc idx) lines (later_same (same_state first.1))
          (subst (λ s. ClosesPlainly s lines) (same_state first.1) plain.1))
  | inr kept ↦ rw kept (
      ap (λ rest. if (code_step b line).0 then line ∷ rest else rest)
        (rw (after-code_step b line)
          (without-code removed (mask_step b line).after (suc idx) lines later plain.1)))
]
  where
    idx_zero : idx + 0 ≡ idx
    idx_zero = omega arith

    idx_suc : (k : ℕ) → idx + suc k ≡ suc idx + k
    idx_suc k = omega arith

    same_state : (code_step b line).1 ≡ b → (mask_step b line).after ≡ b
    same_state e = sym (after-code_step b line) ∙ e

    later :
        (k : ℕ)
        → contains removed (suc idx + k) ≡ true
        → deletable lines (mask_of (mask_step b line).after lines) (suc k) ≡ true
    later k m =
        sym (deletable-later b line lines k) ∙ h (suc k) (ap (contains removed) (idx_suc k) ∙ m)

    later_same :
        (mask_step b line).after ≡ b
        → (k : ℕ) → contains removed (suc idx + k) ≡ true
        → deletable lines (mask_of b lines) (suc k) ≡ true
    later_same e k m = subst (λ s. deletable lines (mask_of s lines) (suc k) ≡ true) e (later k m)

-- The lines of a text that its fixes do not remove.
abbrev pub kept_lines : Syntax.Python → Text → Text → List Violation → List Text
kept_lines python language text violations =
    without (flatten_removals (fix_lines python language text violations).removals) 1
      (splitlines_keep text)

code_of-iter :
    (lines : List Text) → map (λ (x : ℕ × Text). x.1) (iter_code_lines lines) ≡ code_of false lines
unfolding iter_code_lines
code_of-iter lines = code_of-yielded false 1 lines

mask_other :
    (language : Text) (comment_lines : List ℕ) (lines : List Text)
    → (language == codes "python") ≡ false
    → build_comment_mask language comment_lines lines ≡ mask_of false lines
unfolding build_comment_mask mask_of
mask_other language comment_lines lines other = rw other refl

comment_no_directive :
    (lines : List Text) (mask : CommentMask) (k : ℕ)
    → deletable lines mask k ≡ true
    → (flag_at mask.is_comment k ≡ true) × (is_directive (line_at lines k) ≡ false)
unfolding deletable is_safe_any_comment_deletion
comment_no_directive lines mask k h = ground arith

module _ (python : Syntax.Python) (language text : Text) (violations : List Violation)
    (other : (language == codes "python") ≡ false) where
  abbrev planned : CommentMask → List ℕ
  planned mask =
      flatten_removals (plan_removals python (splitlines_keep text) mask violations language)

  planned-deletable :
      (k : ℕ)
      → contains (planned (mask_of false (splitlines_keep text))) k ≡ true
      → deletable (splitlines_keep text) (mask_of false (splitlines_keep text)) k ≡ true
  planned-deletable k m =
      plan_removals-deletable python (splitlines_keep text) (mask_of false (splitlines_keep text))
        violations language k other m

  same_plan :
      flatten_removals (fix_lines python language text violations).removals
      ≡ planned (mask_of false (splitlines_keep text))
  unfolding fix_lines
  same_plan =
      ap planned
        (mask_other language (python_comment_lines python text) (splitlines_keep text) other)

  no_replacements : plan_replacements python (splitlines_keep text) violations language ≡ []
  unfolding plan_replacements
  no_replacements = rw other refl

  updated-kept :
      (fix_lines python language text violations).updated
      ≡ concat (kept_lines python language text violations)
  unfolding fix_lines
  updated-kept = rw no_replacements (
      ap concat (
        updated_lines-without
          (flatten_removals (fix_lines python language text violations).removals) 1
          (splitlines_keep text)))

  -- If no line that ends a block comment begins with a comment mark, the fixes of a file that is not
  -- Python remove whole lines only, and no line of code: the new text is the lines that the plan does
  -- not name, unchanged, and those have the same lines of code in the same order as the file had.
  pub fix_lines-code :
      ClosesPlainly false (splitlines_keep text)
      → ((fix_lines python language text violations).updated
          ≡ concat (kept_lines python language text violations))
        × (map
              (λ (x : ℕ × Text). x.1)
              (iter_code_lines (kept_lines python language text violations))
            ≡ map (λ (x : ℕ × Text). x.1) (iter_code_lines (splitlines_keep text)))
  fix_lines-code plain = (
    updated-kept,
    code_of-iter (kept_lines python language text violations)
        ∙ rw same_plan (
            without-code (planned (mask_of false (splitlines_keep text))) false 1
              (splitlines_keep text)
              (λ k m.
                planned-deletable (suc k)
                  (ap (contains (planned (mask_of false (splitlines_keep text)))) (one_more k) ∙ m))
              plain)
        ∙ sym (code_of-iter (splitlines_keep text)),
  )
    where
      one_more : (k : ℕ) → suc k ≡ 1 + k
      one_more k = omega arith

  -- A line that the fixes of a file that is not Python remove stands in a comment and is no `slop:`
  -- directive.
  pub fix_lines-directives :
      (k : ℕ)
      → contains (flatten_removals (fix_lines python language text violations).removals) k ≡ true
      → (flag_at (build_comment_mask language [] (splitlines_keep text)).is_comment k ≡ true)
        × (is_directive (line_at (splitlines_keep text) k) ≡ false)
  fix_lines-directives k m = rw (mask_other language [] (splitlines_keep text) other) (
      comment_no_directive (splitlines_keep text) (mask_of false (splitlines_keep text)) k
        (planned-deletable k (ap (λ s. contains s k) (sym same_plan) ∙ m)))
