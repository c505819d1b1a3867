-- ===== src/Autofix/Covered.antt =====
-- Every line that is planned for removal outside Python is a comment that may be deleted.
use slopsentinel.Base.{
  ℕ, suc, ◌≤◌, Text, codes, text_eq, nat_eq, List, [], ◌∷◌, ◌++◌, Option, none, some, Bool, true,
  false, ◌&&◌, ◌||◌, ◌==◌, if◌then◌else◌, all, contains, contains-append, length, leb, ltb, All,
  All-append, Bool-cases, ◌≡◌, refl, sym, subst, ◌∙◌, ap, inl, inr, arith,
}
use slopsentinel.Types.{Violation}
use slopsentinel.Autofix.{
  LineRemoval, CommentMask, flag_at, line_at, should_remove_line, is_safe_any_comment_deletion,
}
use slopsentinel.Autofix.Lines.{range_incl, contains-range_incl}
use slopsentinel.Autofix.Merge.{flatten_removals}
use slopsentinel.Autofix.Separated.{IsRange, merge_removals_exact}
use slopsentinel.Autofix.Blocks.{
  line_is_safe, range_is_safe, safe_block, tag_step, block_step, blocks_from, thinking_blocks,
}
use slopsentinel.Autofix.Plan.{
  violation_removal, violation_removals, block_removals, removal_candidates, plan_removals,
  has_rule, single, line_no_of,
}
use slopsentinel.Autofix.Syntax

-- A comment line that the guards of every removal let go.
unfoldable pub deletable : List Text → CommentMask → ℕ → Bool
deletable lines mask n =
    flag_at mask.is_comment n && is_safe_any_comment_deletion n (line_at lines n) mask

should_remove-deletable :
    (rule_id : Text) (n : ℕ) (lines : List Text) (mask : CommentMask)
    → should_remove_line rule_id n (line_at lines n) mask ≡ true
    → deletable lines mask n ≡ true
unfolding should_remove_line deletable is_safe_any_comment_deletion
should_remove-deletable rule_id n lines mask h = ground arith

line_is_safe-deletable :
    (lines : List Text) (mask : CommentMask) (n : ℕ)
    → line_is_safe lines mask n ≡ true
    → deletable lines mask n ≡ true
unfolding line_is_safe deletable
line_is_safe-deletable lines mask n h = ground arith

-- A removal of lines that all pass a test, and of one line at least.
abbrev pub IsGuarded : (ℕ → Bool) → LineRemoval → Type 0
IsGuarded test r =
    IsRange r × ((k : ℕ) → contains (range_incl r.start_line r.end_line) k ≡ true → test k ≡ true)

single-IsGuarded :
    (test : ℕ → Bool) (rule_id : Text) (n : ℕ) → test n ≡ true → IsGuarded test (single rule_id n)
single-IsGuarded test rule_id n h = (
  omega arith,
  λ k m.
      let e : n ≡ k = ground (arith, contains-range_incl n n k) in subst (λ j. test j ≡ true) e h,
)

All-if :
    (P : LineRemoval → Type 0) (b : Bool) (r : LineRemoval)
    → (b ≡ true → P r)
    → All P (if b then r ∷ [] else [])
All-if P true r h = (h refl, tt)
All-if P false r h = tt

violation_removal-IsGuarded :
    (lines : List Text) (mask : CommentMask) (language : Text) (handled : List ℕ) (v : Violation)
    → (language == codes "python") ≡ false
    → All (IsGuarded (deletable lines mask)) (violation_removal lines mask language handled v)
unfolding violation_removal
violation_removal-IsGuarded lines mask language handled v other =
    elim (Bool-cases (leb (line_no_of v) 0 || ltb (length lines) (line_no_of v))) [
      | inl out ↦ rw out tt
      | inr inside ↦ rw inside (elim (Bool-cases (v.rule_id == codes "E03")) [
        | inl e ↦ rw (e, other) guarded
        | inr e ↦ rw e guarded
      ])
    ]
  where
    guarded : All (IsGuarded (deletable lines mask)) (
        if should_remove_line v.rule_id (line_no_of v) (line_at lines (line_no_of v)) mask
        then single v.rule_id (line_no_of v) ∷ []
        else [])
    guarded =
        All-if (IsGuarded (deletable lines mask))
          (should_remove_line v.rule_id (line_no_of v) (line_at lines (line_no_of v)) mask)
          (single v.rule_id (line_no_of v))
          (λ h.
            single-IsGuarded (deletable lines mask) v.rule_id (line_no_of v)
              (should_remove-deletable v.rule_id (line_no_of v) lines mask h))

violation_removals-IsGuarded :
    (lines : List Text) (mask : CommentMask) (language : Text) (handled : List ℕ)
    (vs : List Violation)
    → (language == codes "python") ≡ false
    → All (IsGuarded (deletable lines mask)) (violation_removals lines mask language handled vs)
unfolding violation_removals
violation_removals-IsGuarded lines mask language handled [] other = tt
violation_removals-IsGuarded lines mask language handled (v ∷ vs) other =
    All-append (IsGuarded (deletable lines mask)) (violation_removal lines mask language handled v)
      (violation_removals lines mask language handled vs)
      (violation_removal-IsGuarded lines mask language handled v other)
      (violation_removals-IsGuarded lines mask language handled vs other)

all-contains :
    (p : ℕ → Bool) (xs : List ℕ) (k : ℕ) → all p xs ≡ true → contains xs k ≡ true → p k ≡ true
all-contains p [] k h m = ground arith
all-contains p (x ∷ xs) k h m = elim (Bool-cases (k == x)) [
  | inl same ↦ let e : k ≡ x = ground arith in rw e (ground arith)
  | inr other ↦ all-contains p xs k (ground arith) (ground arith)
]

-- The blocks found so far, with the line that a block is open since.
abbrev OpenBefore : Option ℕ → ℕ → Type 0
OpenBefore none idx = Unit
OpenBefore (some start) idx = start ≤ idx

abbrev AreGuarded : List Text → CommentMask → List (ℕ × ℕ) → Type 0
AreGuarded lines mask blocks = All (IsGuarded (deletable lines mask)) (block_removals blocks)

safe_block-AreGuarded :
    (lines : List Text) (mask : CommentMask) (start stop : ℕ)
    → start ≤ stop
    → AreGuarded lines mask (safe_block lines mask start stop)
unfolding safe_block block_removals range_is_safe
safe_block-AreGuarded lines mask start stop h =
    elim (Bool-cases (all (line_is_safe lines mask) (range_incl start stop))) [
      | inr unsafe ↦ rw unsafe tt
      | inl safe ↦ rw safe (
        (
          h,
          λ k m.
              line_is_safe-deletable lines mask k
                (all-contains (line_is_safe lines mask) (range_incl start stop) k safe m),
        ),
        tt,
      )
    ]

tag_step-AreGuarded :
    (lines : List Text) (mask : CommentMask) (open_start : Option ℕ) (idx : ℕ) (opens closes : Bool)
    → OpenBefore open_start idx
    → AreGuarded lines mask (tag_step lines mask open_start idx opens closes).0
      × OpenBefore (tag_step lines mask open_start idx opens closes).1 (suc idx)
unfolding tag_step block_removals
tag_step-AreGuarded lines mask none idx true true h =
    (safe_block-AreGuarded lines mask idx idx (omega arith), tt)
tag_step-AreGuarded lines mask (some s) idx true true h =
    (safe_block-AreGuarded lines mask idx idx (omega arith), omega arith)
tag_step-AreGuarded lines mask none idx true false h = (tt, omega arith)
tag_step-AreGuarded lines mask none idx false true h =
    (safe_block-AreGuarded lines mask idx idx (omega arith), tt)
tag_step-AreGuarded lines mask (some s) idx false true h =
    (safe_block-AreGuarded lines mask s idx h, tt)
tag_step-AreGuarded lines mask (some s) idx true false h = (tt, omega arith)
tag_step-AreGuarded lines mask none idx false false h = (tt, tt)
tag_step-AreGuarded lines mask (some s) idx false false h = (tt, omega arith)

block_step-AreGuarded :
    (lines : List Text) (mask : CommentMask) (open_start : Option ℕ) (idx : ℕ) (line : Text)
    → OpenBefore open_start idx
    → AreGuarded lines mask (block_step lines mask open_start idx line).0
      × OpenBefore (block_step lines mask open_start idx line).1 (suc idx)
unfolding block_step block_removals
block_step-AreGuarded lines mask open_start idx line h =
    elim (Bool-cases (flag_at mask.is_comment idx)) [
      | inr code ↦ rw code (later open_start h)
      | inl comment ↦ rw comment (tag_step-AreGuarded lines mask open_start idx _ _ h)
    ]
  where
    later : (o : Option ℕ) → OpenBefore o idx → AreGuarded lines mask [] × OpenBefore o (suc idx)
    later none h = (tt, tt)
    later (some s) h = (tt, omega arith)

block_removals-append :
    (xs ys : List (ℕ × ℕ)) → block_removals (xs ++ ys) ≡ block_removals xs ++ block_removals ys
unfolding block_removals
block_removals-append [] ys = refl
block_removals-append (x ∷ xs) ys =
    ap (λ l. block_removals (x ∷ []) ++ l) (block_removals-append xs ys)

blocks_from-AreGuarded :
    (lines : List Text) (mask : CommentMask) (open_start : Option ℕ) (idx : ℕ) (rest : List Text)
    → OpenBefore open_start idx
    → AreGuarded lines mask (blocks_from lines mask open_start idx rest)
unfolding blocks_from block_removals
blocks_from-AreGuarded lines mask open_start idx [] h = tt
blocks_from-AreGuarded lines mask open_start idx (line ∷ rest) h =
    let step = block_step-AreGuarded lines mask open_start idx line h in
    subst (All (IsGuarded (deletable lines mask)))
      (sym (
        block_removals-append (block_step lines mask open_start idx line).0
          (blocks_from lines mask (block_step lines mask open_start idx line).1 (suc idx) rest)))
      (All-append (IsGuarded (deletable lines mask)) _ _ step.0 (
        blocks_from-AreGuarded lines mask (block_step lines mask open_start idx line).1 (suc idx)
          rest step.1))

candidates-AreGuarded :
    (python : Syntax.Python) (lines : List Text) (mask : CommentMask) (vs : List Violation)
    (language : Text)
    → (language == codes "python") ≡ false
    → All (IsGuarded (deletable lines mask)) (removal_candidates python lines mask vs language)
unfolding removal_candidates thinking_blocks
candidates-AreGuarded python lines mask vs language other = rw other (
    All-append (IsGuarded (deletable lines mask)) (violation_removals lines mask language [] vs) _
      (violation_removals-IsGuarded lines mask language [] vs other)
      (All-append (IsGuarded (deletable lines mask)) _ [] (blocks (has_rule (codes "A06") vs)) tt))
  where
    blocks :
        (b : Bool)
        → All
            (IsGuarded (deletable lines mask))
            (if b then block_removals (thinking_blocks lines mask) else [])
    blocks true = blocks_from-AreGuarded lines mask none 1 lines tt
    blocks false = tt

flatten-IsGuarded :
    (test : ℕ → Bool) (rs : List LineRemoval) (k : ℕ)
    → All (IsGuarded test) rs
    → contains (flatten_removals rs) k ≡ true
    → test k ≡ true
unfolding flatten_removals
flatten-IsGuarded test [] k h m = ground arith
flatten-IsGuarded test (r ∷ rs) k h m = ground (
  arith,
  contains-append (range_incl r.start_line r.end_line) (flatten_removals rs) k,
  h.0.1 k,
  flatten-IsGuarded test rs k h.1,
)

All-ranges : (test : ℕ → Bool) (rs : List LineRemoval) → All (IsGuarded test) rs → All IsRange rs
All-ranges test [] h = tt
All-ranges test (r ∷ rs) h = (h.0.0, All-ranges test rs h.1)

-- Outside Python, every line in the plan is a comment that may be deleted.
pub plan_removals-deletable :
    (python : Syntax.Python) (lines : List Text) (mask : CommentMask) (vs : List Violation)
    (language : Text) (k : ℕ)
    → (language == codes "python") ≡ false
    → contains (flatten_removals (plan_removals python lines mask vs language)) k ≡ true
    → deletable lines mask k ≡ true
unfolding plan_removals
plan_removals-deletable python lines mask vs language k other m =
    let guarded = candidates-AreGuarded python lines mask vs language other in
    let ranges =
      All-ranges (deletable lines mask) (removal_candidates python lines mask vs language)
        guarded in
    flatten-IsGuarded (deletable lines mask) (removal_candidates python lines mask vs language) k
      guarded
      (sym (merge_removals_exact (removal_candidates python lines mask vs language) k ranges).0 ∙ m)
