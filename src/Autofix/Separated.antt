-- ===== src/Autofix/Separated.antt =====
-- The merged removals: they cover the lines of the planned ones, and no two of them touch.
use slopsentinel.Base.{
  ℕ, ◌+◌, ◌≤◌, ◌<◌, List, [], ◌∷◌, Bool, true, ◌||◌, ◌&&◌, leb, nat_eq, contains, contains-append,
  All, All-sort, sort, IsSorted, sort-IsSorted, texts_leb_total, texts_leb_trans, ◌≡◌, refl, ◌∙◌,
  ap, sym, ◌⊎◌, inl, inr, arith, insort, Bool-cases,
}
use slopsentinel.Autofix.{LineRemoval}
use slopsentinel.Autofix.Lines.{range_incl, contains-range_incl}
use slopsentinel.Autofix.Merge.{
  removal_leb, join_removals, merge_from, merge_sorted, merge_removals, flatten_removals,
}

removal_leb_total : (r s : LineRemoval) → (removal_leb r s ≡ true) ⊎ (removal_leb s r ≡ true)
unfolding removal_leb
removal_leb_total r s = ground (arith, texts_leb_total r.rule_ids s.rule_ids)

removal_leb_trans :
    (r s t : LineRemoval) → removal_leb r s ≡ true → removal_leb s t ≡ true → removal_leb r t ≡ true
unfolding removal_leb
removal_leb_trans r s t h k = ground (arith, texts_leb_trans r.rule_ids s.rule_ids t.rule_ids)

removal_leb-start : (r s : LineRemoval) → removal_leb r s ≡ true → r.start_line ≤ s.start_line
unfolding removal_leb
removal_leb-start r s h = ground arith

-- A range that ends where it begins or later.
abbrev pub IsRange : LineRemoval → Type 0
IsRange r = r.start_line ≤ r.end_line

abbrev pub StartsFrom : LineRemoval → LineRemoval → Type 0
StartsFrom prev r = prev.start_line ≤ r.start_line

StartsFrom-All :
    (x : LineRemoval) (rs : List LineRemoval)
    → All (λ y. removal_leb x y ≡ true) rs
    → All (StartsFrom x) rs
StartsFrom-All x [] h = tt
StartsFrom-All x (r ∷ rs) h = (removal_leb-start x r h.0, StartsFrom-All x rs h.1)

StartsFrom-join :
    (p r : LineRemoval) (rs : List LineRemoval)
    → All (StartsFrom p) rs
    → All (StartsFrom (join_removals p r)) rs
unfolding join_removals
StartsFrom-join p r [] h = tt
StartsFrom-join p r (s ∷ rs) h = (omega (arith, h.0), StartsFrom-join p r rs h.1)

in_range : LineRemoval → ℕ → Bool
in_range r k = leb r.start_line k && leb k r.end_line

flatten-cons :
    (r : LineRemoval) (rs : List LineRemoval) (k : ℕ)
    → contains (flatten_removals (r ∷ rs)) k ≡ (in_range r k || contains (flatten_removals rs) k)
unfolding flatten_removals in_range
flatten-cons r rs k =
    contains-append (range_incl r.start_line r.end_line) (flatten_removals rs) k
    ∙ ap (λ b. b || contains (flatten_removals rs) k)
        (contains-range_incl r.start_line r.end_line k)

in_range-join :
    (p r : LineRemoval) (k : ℕ)
    → IsRange p
    → IsRange r
    → StartsFrom p r
    → leb r.start_line (p.end_line + 1) ≡ true
    → in_range (join_removals p r) k ≡ (in_range p k || in_range r k)
unfolding in_range join_removals
in_range-join p r k hp hr h t = ground arith

-- Each range begins after the one before has ended, with a line between.
abbrev pub AreSeparated : List LineRemoval → Type 0
AreSeparated [] = Unit
AreSeparated (r ∷ []) = Unit
AreSeparated (r ∷ s ∷ rs) = (r.end_line + 1 < s.start_line) × AreSeparated (s ∷ rs)

IsRange-join : (p r : LineRemoval) → IsRange p → IsRange (join_removals p r)
unfolding join_removals
IsRange-join p r h = omega arith

Bool-absorb : (a b c : Bool) → ((a || b) || c) ≡ (a || (b || c))
Bool-absorb a b c = ground arith

merge_from-covers :
    (p : LineRemoval) (rs : List LineRemoval) (k : ℕ)
    → IsRange p
    → All IsRange rs
    → All (StartsFrom p) rs
    → IsSorted removal_leb rs
    → contains (flatten_removals (merge_from p rs)) k
      ≡ (in_range p k || contains (flatten_removals rs) k)
unfolding merge_from
merge_from-covers p [] k hp hs from s = flatten-cons p [] k
merge_from-covers p (r ∷ rs) k hp hs from s =
    elim (Bool-cases (leb r.start_line (p.end_line + 1))) [
      | inl near ↦ rw near (
          merge_from-covers (join_removals p r) rs k (IsRange-join p r hp) hs.1
            (StartsFrom-join p r rs from.1) s.1
          ∙ ap (λ b. b || contains (flatten_removals rs) k)
              (in_range-join p r k hp hs.0 from.0 near)
          ∙ Bool-absorb (in_range p k) (in_range r k) (contains (flatten_removals rs) k)
          ∙ ap (λ b. in_range p k || b) (sym (flatten-cons r rs k)))
      | inr far ↦ rw far (
          flatten-cons p (merge_from r rs) k
          ∙ ap (λ b. in_range p k || b)
              (merge_from-covers r rs k hs.0 hs.1 (StartsFrom-All r rs s.0) s.1
                ∙ sym (flatten-cons r rs k)))
    ]

separated_after :
    (q p : LineRemoval) (rs : List LineRemoval)
    → q.end_line + 1 < p.start_line
    → All (StartsFrom p) rs
    → IsSorted removal_leb rs
    → AreSeparated (q ∷ merge_from p rs)
unfolding merge_from
separated_after q p [] h from s = (h, tt)
separated_after q p (r ∷ rs) h from s = elim (Bool-cases (leb r.start_line (p.end_line + 1))) [
  | inl near ↦ rw near (
      separated_after q (join_removals p r) rs (start-join p r from.0 h)
        (StartsFrom-join p r rs from.1) s.1)
  | inr far ↦ rw far (h, separated_after p r rs (ground arith) (StartsFrom-All r rs s.0) s.1)
]
  where
    start-join :
        (p r : LineRemoval)
        → StartsFrom p r
        → q.end_line + 1 < p.start_line
        → q.end_line + 1 < (join_removals p r).start_line
    start-join p r from h = omega arith

separated_from :
    (p : LineRemoval) (rs : List LineRemoval)
    → All (StartsFrom p) rs
    → IsSorted removal_leb rs
    → AreSeparated (merge_from p rs)
unfolding merge_from
separated_from p [] from s = tt
separated_from p (r ∷ rs) from s = elim (Bool-cases (leb r.start_line (p.end_line + 1))) [
  | inl near ↦ rw near (separated_from (join_removals p r) rs (StartsFrom-join p r rs from.1) s.1)
  | inr far ↦ rw far (separated_after p r rs (ground arith) (StartsFrom-All r rs s.0) s.1)
]

flatten-insort :
    (r : LineRemoval) (rs : List LineRemoval) (k : ℕ)
    → contains (flatten_removals (insort removal_leb r rs)) k
      ≡ (in_range r k || contains (flatten_removals rs) k)
unfolding insort
flatten-insort r [] k = flatten-cons r [] k
flatten-insort r (s ∷ rs) k = ground (
  arith,
  flatten-cons r (s ∷ rs) k,
  flatten-cons s rs k,
  flatten-cons s (insort removal_leb r rs) k,
  flatten-insort r rs k,
)

flatten-sort :
    (rs : List LineRemoval) (k : ℕ)
    → contains (flatten_removals (sort removal_leb rs)) k ≡ contains (flatten_removals rs) k
unfolding sort
flatten-sort [] k = refl
flatten-sort (r ∷ rs) k =
    flatten-insort r (sort removal_leb rs) k
    ∙ ap (λ b. in_range r k || b) (flatten-sort rs k)
    ∙ sym (flatten-cons r rs k)

merge_sorted-covers :
    (rs : List LineRemoval) (k : ℕ)
    → All IsRange rs
    → IsSorted removal_leb rs
    → contains (flatten_removals (merge_sorted rs)) k ≡ contains (flatten_removals rs) k
unfolding merge_sorted
merge_sorted-covers [] k h s = refl
merge_sorted-covers (r ∷ rs) k h s =
    merge_from-covers r rs k h.0 h.1 (StartsFrom-All r rs s.0) s.1 ∙ sym (flatten-cons r rs k)

merge_sorted-AreSeparated :
    (rs : List LineRemoval) → IsSorted removal_leb rs → AreSeparated (merge_sorted rs)
unfolding merge_sorted
merge_sorted-AreSeparated [] s = tt
merge_sorted-AreSeparated (r ∷ rs) s = separated_from r rs (StartsFrom-All r rs s.0) s.1

-- Merging removals whose ranges are not empty deletes exactly the lines that the planned removals
-- delete, and it leaves ranges in ascending order with at least one line kept between two of them.
pub merge_removals_exact :
    (removals : List LineRemoval) (k : ℕ)
    → All IsRange removals
    → (contains (flatten_removals (merge_removals removals)) k
        ≡ contains (flatten_removals removals) k)
      × AreSeparated (merge_removals removals)
unfolding merge_removals
merge_removals_exact removals k h =
    let s = sort-IsSorted removal_leb removal_leb_total removal_leb_trans removals in
    let ranges = All-sort removal_leb IsRange removals h in
    (
      merge_sorted-covers (sort removal_leb removals) k ranges s ∙ flatten-sort removals k,
      merge_sorted-AreSeparated (sort removal_leb removals) s,
    )
