-- ===== src/Cache/Distinct.antt =====
-- The table of a cache has no path twice, and its sorted form is the same table.
use slopsentinel.Base.{
  Text, text_eq, option_eq, int_eq, text_leb, List, [], ◌∷◌, none, some, false, ◌||◌, ◌==◌,
  if◌then◌else◌, map, sort, insort, contains, ◌≡◌, refl, ap, ◌∙◌, subst, arith, Bool-cases, inl,
  inr,
}
use slopsentinel.Dict.{Dict, lookup, insert}
use slopsentinel.Cache.{CacheFileEntry, path_leb}

abbrev pub keys : Dict CacheFileEntry → List Text
keys = map (λ e. e.0)

-- No path stands twice.
abbrev pub AreDistinct : Dict CacheFileEntry → Type 0
AreDistinct [] = Unit
AreDistinct ((rel, e) ∷ d) = (contains (keys d) rel ≡ false) × AreDistinct d

pub keys-insert :
    (rel : Text) (e : CacheFileEntry) (d : Dict CacheFileEntry) (r : Text)
    → contains (keys (insert rel e d)) r ≡ (r == rel || contains (keys d) r)
unfolding insert
keys-insert rel e [] r = refl
keys-insert rel e ((j, w) ∷ d) r = ground (arith, keys-insert rel e d r)

-- Every change of the table keeps it so.
pub insert-AreDistinct :
    (rel : Text) (e : CacheFileEntry) (d : Dict CacheFileEntry)
    → AreDistinct d
    → AreDistinct (insert rel e d)
unfolding insert
insert-AreDistinct rel e [] h = (refl, tt)
insert-AreDistinct rel e ((j, w) ∷ d) (new, h) = elim (Bool-cases (j == rel)) [
  | inl same ↦
      let p : j ≡ rel = ground arith in rw same (subst (λ k. contains (keys d) k ≡ false) p new, h)
  | inr other ↦
      rw other (keys-insert rel e d j ∙ ground (arith, new, other), insert-AreDistinct rel e d h)
]

pub keys-insort :
    (a : Text × CacheFileEntry) (l : Dict CacheFileEntry) (r : Text)
    → contains (keys (insort path_leb a l)) r ≡ (r == a.0 || contains (keys l) r)
unfolding insort
keys-insort a [] r = refl
keys-insort a (x ∷ l) r = ground (arith, keys-insort a l r)

pub insort-AreDistinct :
    (rel : Text) (e : CacheFileEntry) (l : Dict CacheFileEntry)
    → contains (keys l) rel ≡ false
    → AreDistinct l
    → AreDistinct (insort path_leb (rel, e) l)
unfolding insort
insort-AreDistinct rel e [] n h = (refl, tt)
insort-AreDistinct rel e ((j, w) ∷ l) n (new, h) = elim (Bool-cases (text_leb rel j)) [
  | inl first ↦ rw first (n, (new, h))
  | inr later ↦
      let rest : contains (keys l) rel ≡ false = ground (arith, n) in
      let apart : (j == rel) ≡ false = ground (arith, n) in
      rw later
        (keys-insort (rel, e) l j ∙ ground (arith, new, apart), insort-AreDistinct rel e l rest h)
]

pub lookup-insort :
    (rel : Text) (e : CacheFileEntry) (l : Dict CacheFileEntry) (r : Text)
    → contains (keys l) rel ≡ false
    → lookup r (insort path_leb (rel, e) l) ≡ (if rel == r then some e else lookup r l)
unfolding insort lookup
lookup-insort rel e [] r n = refl
lookup-insort rel e ((j, w) ∷ l) r n = elim (Bool-cases (text_leb rel j)) [
  | inl first ↦ rw first refl
  | inr later ↦
      let rest : contains (keys l) rel ≡ false = ground (arith, n) in
      let apart : (rel == j) ≡ false = ground (arith, n) in
      rw (later, lookup-insort rel e l r rest) (ground (arith, apart))
]

pub keys-sort :
    (l : Dict CacheFileEntry) (r : Text) → contains (keys (sort path_leb l)) r ≡ contains (keys l) r
unfolding sort
keys-sort [] r = refl
keys-sort (x ∷ l) r = keys-insort x (sort path_leb l) r ∙ ap (λ b. r == x.0 || b) (keys-sort l r)

pub sort-AreDistinct : (l : Dict CacheFileEntry) → AreDistinct l → AreDistinct (sort path_leb l)
unfolding sort
sort-AreDistinct [] h = tt
sort-AreDistinct ((rel, e) ∷ l) (new, h) =
    insort-AreDistinct rel e (sort path_leb l) (keys-sort l rel ∙ new) (sort-AreDistinct l h)

pub lookup-sort :
    (l : Dict CacheFileEntry) (r : Text) → AreDistinct l → lookup r (sort path_leb l) ≡ lookup r l
unfolding sort lookup
lookup-sort [] r h = refl
lookup-sort ((rel, e) ∷ l) r (new, h) =
    lookup-insort rel e (sort path_leb l) r (keys-sort l rel ∙ new)
    ∙ ap (λ o. if rel == r then some e else o) (lookup-sort l r h)

pub lookup-absent :
    (l : Dict CacheFileEntry) (r : Text) → contains (keys l) r ≡ false → lookup r l ≡ none
unfolding lookup
lookup-absent [] r h = refl
lookup-absent ((rel, e) ∷ l) r h = ground (arith, h, lookup-absent l r)
