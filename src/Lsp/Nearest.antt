-- ===== src/Lsp/Nearest.antt =====
-- The violation at a position is the first of the smallest ranges around it.
use mathlib.Core.List.{Memᴰ}
use mathlib.Core.Option.{some-injective}
use slopsentinel.Base.{
  Text, List, [], ◌∷◌, Option, none, some, true, false, int_eq, ℤ, pos, negsuc, All, Bool-cases,
  Option-cases, ◌⊎◌, inl, inr, ◌≢◌, ◌≡◌, refl, sym, subst, ◌∙◌, ap, arith,
}
use slopsentinel.Types.{Violation}
use slopsentinel.Lsp.Ranges.{
  Range, Best, int_ltb, pair_ltb, encloses, size_of, is_smaller, better, find_from,
  range_for_violation, find_violation_at_position,
}

int_ltb_total : (a b : ℤ) → int_ltb a b ≡ false → int_ltb b a ≡ false → a ≡ b
int_ltb_total (pos a) (pos b) h k = ground arith
int_ltb_total (pos a) (negsuc b) h k = ground arith
int_ltb_total (negsuc a) (pos b) h k = ground arith
int_ltb_total (negsuc a) (negsuc b) h k = ground arith

int_ltb_trans : (a b c : ℤ) → int_ltb a b ≡ false → int_ltb b c ≡ false → int_ltb a c ≡ false
int_ltb_trans (pos a) (pos b) (pos c) h k = ground arith
int_ltb_trans (pos a) (pos b) (negsuc c) h k = refl
int_ltb_trans (pos a) (negsuc b) (pos c) h k = ground arith
int_ltb_trans (pos a) (negsuc b) (negsuc c) h k = refl
int_ltb_trans (negsuc a) (pos b) c h k = ground arith
int_ltb_trans (negsuc a) (negsuc b) (pos c) h k = ground arith
int_ltb_trans (negsuc a) (negsuc b) (negsuc c) h k = ground arith

int_ltb_asym : (a b : ℤ) → int_ltb a b ≡ true → int_ltb b a ≡ false
int_ltb_asym (pos a) (pos b) h = ground arith
int_ltb_asym (pos a) (negsuc b) h = ground arith
int_ltb_asym (negsuc a) (pos b) h = refl
int_ltb_asym (negsuc a) (negsuc b) h = ground arith

-- A size that is not smaller than a size that is not smaller than a third is not smaller than that.
pair_ltb_trans :
    (x y z : ℤ × ℤ) → pair_ltb x y ≡ false → pair_ltb y z ≡ false → pair_ltb x z ≡ false
unfolding pair_ltb
pair_ltb_trans (a, b) (c, d) (e, f) h k = ground (
  arith,
  int_ltb_trans a c e,
  int_ltb_trans b d f,
  int_ltb_total a c,
  int_ltb_total c e,
  int_ltb_total c a,
  int_ltb_total e c,
)

pair_ltb_asym : (x y : ℤ × ℤ) → pair_ltb x y ≡ true → pair_ltb y x ≡ false
unfolding pair_ltb
pair_ltb_asym (a, b) (c, d) h = ground (arith, int_ltb_asym a c, int_ltb_asym b d)

module _ (text : Text) (position : ℤ × ℤ) where
  -- A range of the violation around the position, with this size.
  abbrev pub IsAround : Violation → ℤ × ℤ → Type 0
  IsAround v size =
      (r : Range) × (range_for_violation v text ≡ some r)
      × (encloses r position ≡ true)
      × (size ≡ size_of r)

  -- No range of the violation around the position is smaller.
  abbrev pub IsNoCloser : ℤ × ℤ → Violation → Type 0
  IsNoCloser size v =
      (r : Range)
      → range_for_violation v text ≡ some r
      → encloses r position ≡ true
      → pair_ltb (size_of r) size ≡ false

  abbrev BestBefore : Option Best → Best → Type 0
  BestBefore none b = Unit
  BestBefore (some b0) b = pair_ltb b0.size b.size ≡ false

  abbrev IsGood : Option Best → Type 0
  IsGood none = Unit
  IsGood (some b) = IsAround b.violation b.size

  better-IsGood :
      (best : Option Best) (v : Violation) → IsGood best → IsGood (better text position best v)
  better-IsGood best v good = elim (Option-cases (range_for_violation v text)) [
    | inl e ↦ unfold better in rw (better, e) good
    | inr (r, e) ↦ elim (Bool-cases (encloses r position)) [
      | inr f ↦ unfold better in rw (better, e, f) good
      | inl f ↦ elim (Bool-cases (is_smaller (size_of r) best)) [
        | inl g ↦ unfold better in rw (better, e, f, g) (r, e, f, refl)
        | inr g ↦ unfold better in rw (better, e, f, g) good
      ]
    ]
  ]

  some_same : (o : Option Range) (r r' : Range) → o ≡ some r → o ≡ some r' → r ≡ r'
  some_same o r r' e f = cc

  -- A round's result is no larger than the best before, and than the violation's range.
  better-closest :
      (best : Option Best) (v : Violation) (b : Best)
      → BestBefore (better text position best v) b
      → BestBefore best b × IsNoCloser b.size v
  better-closest best v b h = elim (Option-cases (range_for_violation v text)) [
    | inl e ↦ (as_before (kept_none e) h, λ r e' f'. absurd (cc))
    | inr (r, e) ↦ elim (Bool-cases (encloses r position)) [
      | inr f ↦ (
        as_before (kept_outside r e f) h,
        λ r' e' f'. let same = some_same (range_for_violation v text) r r' e e' in absurd (cc),
      )
      | inl f ↦ elim (Bool-cases (is_smaller (size_of r) best)) [
        | inl g ↦
            let now = as_before (sym (taken r e f g)) h in
            (
              older best (size_of r) now g,
              λ r' e' f'.
                  let same = some_same (range_for_violation v text) r r' e e' in
                  subst (λ x. pair_ltb (size_of x) b.size ≡ false) same now,
            )
        | inr g ↦
            let now = as_before (kept_larger r e f g) h in
            (
              now,
              λ r' e' f'.
                  let same = some_same (range_for_violation v text) r r' e e' in
                  subst (λ x. pair_ltb (size_of x) b.size ≡ false) same
                    (larger best (size_of r) now g),
            )
      ]
    ]
  ]
    where
      as_before : {x y : Option Best} → x ≡ y → BestBefore y b → BestBefore x b
      as_before e k = subst (λ o. BestBefore o b) (sym e) k

      kept_none : range_for_violation v text ≡ none → best ≡ better text position best v
      kept_none e = unfold better in rw (better, e) refl

      kept_outside :
          (r : Range)
          → range_for_violation v text ≡ some r
          → encloses r position ≡ false
          → best ≡ better text position best v
      kept_outside r e f = unfold better in rw (better, e, f) refl

      kept_larger :
          (r : Range)
          → range_for_violation v text ≡ some r
          → encloses r position ≡ true
          → is_smaller (size_of r) best ≡ false
          → best ≡ better text position best v
      kept_larger r e f g = unfold better in rw (better, e, f, g) refl

      taken :
          (r : Range)
          → range_for_violation v text ≡ some r
          → encloses r position ≡ true
          → is_smaller (size_of r) best ≡ true
          → better text position best v ≡ some (record { size = size_of r; violation = v })
      taken r e f g = unfold better in rw (better, e, f, g) refl

      older :
          (o : Option Best) (size : ℤ × ℤ)
          → pair_ltb size b.size ≡ false
          → is_smaller size o ≡ true
          → BestBefore o b
      older none size k g = tt
      older (some b0) size k g = pair_ltb_trans b0.size size b.size (pair_ltb_asym size b0.size g) k

      larger :
          (o : Option Best) (size : ℤ × ℤ)
          → BestBefore o b
          → is_smaller size o ≡ false
          → pair_ltb size b.size ≡ false
      larger none size k g = absurd (cc)
      larger (some b0) size k g = pair_ltb_trans size b0.size b.size g k

  find_from-closest :
      (best : Option Best) (vs : List Violation) (b : Best)
      → IsGood best
      → find_from text position best vs ≡ some b
      → IsAround b.violation b.size × BestBefore best b × All (IsNoCloser b.size) vs
  unfolding find_from
  find_from-closest none [] b good e = absurd (cc)
  find_from-closest (some b0) [] b good e =
      let same : b0 ≡ b = cc in
      (
        subst (λ (x : Best). IsAround x.violation x.size) same good,
        subst (λ (x : Best). pair_ltb b0.size x.size ≡ false) same (irreflexive b0.size),
        tt,
      )
    where
      irreflexive : (x : ℤ × ℤ) → pair_ltb x x ≡ false
      irreflexive x = elim (Bool-cases (pair_ltb x x)) [ inr e ↦ e | inl e ↦ pair_ltb_asym x x e ]
  find_from-closest best (v ∷ vs) b good e =
      let later =
        find_from-closest (better text position best v) vs b (better-IsGood best v good) e in
      let now = better-closest best v b later.1 in (later.0, now.0, (now.1, later.2))

  -- A round keeps the best or takes the violation.
  better_either :
      (best : Option Best) (v : Violation) (b : Best)
      → better text position best v ≡ some b
      → (best ≡ some b) ⊎ (v ≡ b.violation)
  unfolding better
  better_either best v b e = elim (Option-cases (range_for_violation v text)) [
    | inl f ↦ inl (sym (same_none f) ∙ e)
    | inr (r, f) ↦ elim (Bool-cases (encloses r position)) [
      | inr g ↦ inl (sym (same_outside r f g) ∙ e)
      | inl g ↦ elim (Bool-cases (is_smaller (size_of r) best)) [
        | inl h ↦
            let taken : some (record { size = size_of r; violation = v }) ≡ some b =
              sym (took r f g h) ∙ e in
            inr (ap (λ (x : Best). x.violation) (some-injective _ b taken))
        | inr h ↦ inl (sym (same_larger r f g h) ∙ e)
      ]
    ]
  ]
    where
      same_none : range_for_violation v text ≡ none → better text position best v ≡ best
      same_none f = rw (better, f) refl

      same_outside :
          (r : Range)
          → range_for_violation v text ≡ some r
          → encloses r position ≡ false
          → better text position best v ≡ best
      same_outside r f g = rw (better, f, g) refl

      same_larger :
          (r : Range)
          → range_for_violation v text ≡ some r
          → encloses r position ≡ true
          → is_smaller (size_of r) best ≡ false
          → better text position best v ≡ best
      same_larger r f g h = rw (better, f, g, h) refl

      took :
          (r : Range)
          → range_for_violation v text ≡ some r
          → encloses r position ≡ true
          → is_smaller (size_of r) best ≡ true
          → better text position best v ≡ some (record { size = size_of r; violation = v })
      took r f g h = rw (better, f, g, h) refl

  find_from-among :
      (best : Option Best) (vs : List Violation) (b : Best)
      → find_from text position best vs ≡ some b
      → (best ≡ some b) ⊎ Memᴰ b.violation vs
  unfolding find_from
  find_from-among best [] b e = inl e
  find_from-among best (v ∷ vs) b e = elim (find_from-among (better text position best v) vs b e) [
    | inr m ↦ inr (Memᴰ.tail m)
    | inl f ↦ elim (better_either best v b f) [ inl g ↦ inl g | inr g ↦ inr (Memᴰ.head (sym g)) ]
  ]

  -- Once there is a best violation there is one at the end.
  find_from-some :
      (best : Best) (vs : List Violation)
      → (b : Best) × (find_from text position (some best) vs ≡ some b)
  unfolding find_from better
  find_from-some best [] = (best, refl)
  find_from-some best (v ∷ vs) = elim (Option-cases (better text position (some best) v)) [
    | inr (b, e) ↦ let later = find_from-some b vs in (later.0, rw e later.1)
    | inl e ↦ absurd (lost e)
  ]
    where
      lost : better text position (some best) v ≢ none
      lost e = ground arith

  abbrev pub IsOutside : Violation → Type 0
  IsOutside v = (r : Range) → range_for_violation v text ≡ some r → encloses r position ≡ false

  -- Among the violations there is one with a smallest range around the position, or none is around it.
  abbrev pub IsNearest : List Violation → Option Violation → Type 0
  IsNearest vs none = All IsOutside vs
  IsNearest vs (some v) = Memᴰ v vs × ((size : ℤ × ℤ) × IsAround v size × All (IsNoCloser size) vs)

  find_from-IsOutside :
      (vs : List Violation) → find_from text position none vs ≡ none → All IsOutside vs
  unfolding find_from
  find_from-IsOutside [] e = tt
  find_from-IsOutside (v ∷ vs) e = elim (Option-cases (better text position none v)) [
    | inl f ↦
        (outside f, find_from-IsOutside vs (subst (λ o. find_from text position o vs ≡ none) f e))
    | inr (b, f) ↦
        let later = find_from-some b vs in
        absurd
          (found_lost later.0 (sym later.1 ∙ subst (λ o. find_from text position o vs ≡ none) f e))
  ]
    where
      found_lost : (b : Best) → some b ≢ none
      found_lost b e = cc

      outside : better text position none v ≡ none → IsOutside v
      outside f r g = elim (Bool-cases (encloses r position)) [
        | inr h ↦ h
        | inl h ↦ absurd (found_lost _ (sym (took r g h) ∙ f))
      ]
        where
          took :
              (r : Range)
              → range_for_violation v text ≡ some r
              → encloses r position ≡ true
              → better text position none v ≡ some (record { size = size_of r; violation = v })
          took r g h = unfold better in rw (better, g, h) refl

  -- The violation that a hover shows is one of the document's whose range is around the position, and
  -- no other range around the position is smaller, by lines first and then by characters; where none
  -- is shown, no range of a violation is around the position.
  pub find_violation_at_position-IsNearest :
      (vs : List Violation) → IsNearest vs (find_violation_at_position vs text position)
  unfolding find_violation_at_position
  find_violation_at_position-IsNearest vs = elim (Option-cases (find_from text position none vs)) [
    | inl e ↦ rw (find_violation_at_position, e) (find_from-IsOutside vs e)
    | inr (b, e) ↦
        let closest = find_from-closest none vs b tt e in
        rw (find_violation_at_position, e) (among b e, (b.size, closest.0, closest.2))
  ]
    where
      among : (b : Best) → find_from text position none vs ≡ some b → Memᴰ b.violation vs
      among b e = elim (find_from-among none vs b e) [ inl f ↦ absurd (cc) | inr m ↦ m ]
