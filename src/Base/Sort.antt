-- ===== src/Base/Sort.antt =====
-- Python's `sorted`: a stable sort by a Boolean order.
use mathlib.Core.Path.{◌≡◌, refl}
use mathlib.Core.Logic.{◌⊎◌, inl, inr}
use mathlib.Core.Bool.{Bool, true, false, ◌||◌}
use mathlib.Core.List.{List, [], ◌∷◌}
use native.Mathlib.Omega.{arith}
use slopsentinel.Base.Tests.{ltb, eqb, if◌then◌else◌, Eq, ◌==◌, contains}
use slopsentinel.Base.Lists.{All, any}
use slopsentinel.Base.Texts.{Text, text_eq}

-- The order of `str`: by code points.
unfoldable pub text_leb : Text → Text → Bool
text_leb [] t = true
text_leb (c ∷ s) [] = false
text_leb (c ∷ s) (d ∷ t) = if ltb c d then true else if eqb c d then text_leb s t else false

pub text_leb_total : (s t : Text) → (text_leb s t ≡ true) ⊎ (text_leb t s ≡ true)
unfolding text_leb
text_leb_total [] t = inl refl
text_leb_total (c ∷ s) [] = inr refl
text_leb_total (c ∷ s) (d ∷ t) = ground (arith, text_leb_total s t)

pub text_leb_trans :
    (s t u : Text) → text_leb s t ≡ true → text_leb t u ≡ true → text_leb s u ≡ true
unfolding text_leb
text_leb_trans [] t u h k = refl
text_leb_trans (c ∷ s) [] u h k = ground arith
text_leb_trans (c ∷ s) (d ∷ t) [] h k = ground arith
text_leb_trans (c ∷ s) (d ∷ t) (e ∷ u) h k = ground (arith, text_leb_trans s t u)

pub text_leb_antisym : (s t : Text) → text_leb s t ≡ true → text_leb t s ≡ true → s ≡ t
unfolding text_leb
text_leb_antisym [] [] h k = refl
text_leb_antisym [] (d ∷ t) h k = ground arith
text_leb_antisym (c ∷ s) [] h k = ground arith
text_leb_antisym (c ∷ s) (d ∷ t) h k = ground (arith, text_leb_antisym s t)

-- The order of tuples of `str`, and of paths by their parts.
unfoldable pub texts_leb : List Text → List Text → Bool
unfolding text_leb text_eq
texts_leb [] ys = true
texts_leb (x ∷ xs) [] = false
texts_leb (x ∷ xs) (y ∷ ys) = let rest = texts_leb xs ys in if x == y then rest else text_leb x y

pub texts_leb_total : (p q : List Text) → (texts_leb p q ≡ true) ⊎ (texts_leb q p ≡ true)
unfolding texts_leb
texts_leb_total [] q = inl refl
texts_leb_total (a ∷ p) [] = inr refl
texts_leb_total (a ∷ p) (b ∷ q) = ground (arith, texts_leb_total p q, text_leb_total a b)

pub texts_leb_trans :
    (p q r : List Text) → texts_leb p q ≡ true → texts_leb q r ≡ true → texts_leb p r ≡ true
unfolding texts_leb
texts_leb_trans [] q r h k = refl
texts_leb_trans (a ∷ p) [] r h k = ground arith
texts_leb_trans (a ∷ p) (b ∷ q) [] h k = ground arith
texts_leb_trans (a ∷ p) (b ∷ q) (c ∷ r) h k =
    ground (arith, texts_leb_trans p q r, text_leb_trans a b c, text_leb_antisym a b)

module _ {ℓ} {A : Type ℓ} (le : A → A → Bool) where
  unfoldable pub insort : A → List A → List A
  insort a [] = a ∷ []
  insort a (x ∷ xs) = let rest = insort a xs in if le a x then a ∷ x ∷ xs else x ∷ rest

  unfoldable pub sort : List A → List A
  unfolding insort
  sort [] = []
  sort (x ∷ xs) = insort x (sort xs)

  abbrev pub IsSorted : List A → Type 0
  IsSorted [] = Unit
  IsSorted (x ∷ xs) = All (λ y. le x y ≡ true) xs × IsSorted xs

  All-weaken :
      (a x : A) (xs : List A)
      → ((b c d : A) → le b c ≡ true → le c d ≡ true → le b d ≡ true)
      → le a x ≡ true
      → All (λ y. le x y ≡ true) xs
      → All (λ y. le a y ≡ true) xs
  All-weaken a x [] t h k = tt
  All-weaken a x (y ∷ ys) t h k = (t a x y h k.0, All-weaken a x ys t h k.1)

  All-insort {κ} : (P : A → Type κ) (a : A) (xs : List A) → P a → All P xs → All P (insort a xs)
  unfolding insort
  All-insort P a [] pa h = (pa, tt)
  All-insort P a (x ∷ xs) pa h = ground (arith, All-insort P a xs pa h.1)

  pub All-sort {κ} : (P : A → Type κ) (xs : List A) → All P xs → All P (sort xs)
  unfolding sort
  All-sort P [] h = tt
  All-sort P (x ∷ xs) h = All-insort P x (sort xs) h.0 (All-sort P xs h.1)

  -- A test that some element passes is not changed by the sort.
  any-insort : (p : A → Bool) (a : A) (xs : List A) → any p (insort a xs) ≡ (p a || any p xs)
  unfolding insort
  any-insort p a [] = refl
  any-insort p a (x ∷ xs) = ground (arith, any-insort p a xs)

  pub any-sort : (p : A → Bool) (xs : List A) → any p (sort xs) ≡ any p xs
  unfolding sort
  any-sort p [] = refl
  any-sort p (x ∷ xs) = ground (arith, any-insort p x (sort xs), any-sort p xs)

  module _ (total : (a b : A) → (le a b ≡ true) ⊎ (le b a ≡ true))
      (trans : (a b c : A) → le a b ≡ true → le b c ≡ true → le a c ≡ true) where
    insort-IsSorted : (a : A) (xs : List A) → IsSorted xs → IsSorted (insort a xs)
    unfolding insort
    insort-IsSorted a [] h = (tt, tt)
    insort-IsSorted a (x ∷ xs) (h, k) = ground (
      arith,
      total a x,
      All-weaken a x xs trans,
      insort-IsSorted a xs k,
      All-insort (λ y. le x y ≡ true) a xs,
    )

    pub sort-IsSorted : (xs : List A) → IsSorted (sort xs)
    unfolding sort
    sort-IsSorted [] = tt
    sort-IsSorted (x ∷ xs) = insort-IsSorted x (sort xs) (sort-IsSorted xs)

module _ {ℓ} {A : Type ℓ} ⦃e : Eq A⦄ (le : A → A → Bool) where
  contains-insort :
      (a : A) (xs : List A) (b : A) → contains (insort le a xs) b ≡ (a == b || contains xs b)
  unfolding insort
  contains-insort a [] b = ground arith
  contains-insort a (x ∷ xs) b = ground (arith, contains-insort a xs b)

  pub contains-sort : (xs : List A) (b : A) → contains (sort le xs) b ≡ contains xs b
  unfolding sort
  contains-sort [] b = refl
  contains-sort (x ∷ xs) b = ground (arith, contains-insort x (sort le xs) b, contains-sort xs b)
