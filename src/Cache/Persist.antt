-- ===== src/Cache/Persist.antt =====
-- A cache that is written at the end of one run and read at the start of the next.
use slopsentinel.Base.{
  Text, text_eq, option_eq, int_eq, List, [], ◌∷◌, Option, none, some, true, false, ◌==◌, ==_refl,
  if◌then◌else◌, pos, map, sort, contains, ◌≡◌, refl, sym, ap, ◌∙◌, subst, arith, Bool-cases, inl,
  inr,
}
use mathlib.Core.Option.{some-injective}
use slopsentinel.Json.{Fields, get, obj, items_of}
use slopsentinel.Dict.{Dict, lookup, insert, lookup-insert}
use slopsentinel.Types.{Violation}
use slopsentinel.Cache.{
  CacheMachine, get_entry, get_cached, put_cached, CacheFileEntry, FileViolationCache, new_cache,
  dicts, load_files, load_cache, path_leb, files_json, save_cache,
}
use slopsentinel.Cache.Distinct.{
  keys, AreDistinct, insert-AreDistinct, keys-sort, sort-AreDistinct, lookup-sort, lookup-absent,
}

-- What the file keeps of an entry.
abbrev pub forget : CacheFileEntry → CacheFileEntry
forget e = record e { parsed_violations = none }

abbrev pub forget_some : Option CacheFileEntry → Option CacheFileEntry
forget_some none = none
forget_some (some e) = some (forget e)

dicts-items_of : (fs : List Fields) → dicts (items_of (map obj fs)) ≡ fs
unfolding dicts
dicts-items_of [] = refl
dicts-items_of (f ∷ fs) = ap (λ l. f ∷ l) (dicts-items_of fs)

load_files-cons :
    (rel : Text) (e : CacheFileEntry) (l d : Dict CacheFileEntry)
    → load_files (files_json ((rel, e) ∷ l)) d ≡ load_files (files_json l) (insert rel (forget e) d)
unfolding load_files get text_eq
load_files-cons rel e l d = rw dicts-items_of refl

load_files-absent :
    (l d : Dict CacheFileEntry) (r : Text)
    → contains (keys l) r ≡ false
    → lookup r (load_files (files_json l) d) ≡ lookup r d
load_files-absent [] d r h = unfold load_files in refl
load_files-absent ((rel, e) ∷ l) d r h =
    let later : contains (keys l) r ≡ false = ground (arith, h) in
    let apart : (rel == r) ≡ false = ground (arith, h) in
    rw load_files-cons (
      load_files-absent l (insert rel (forget e) d) r later
      ∙ rw (lookup-insert rel r (forget e) d, apart) refl)

load_files-present :
    (l d : Dict CacheFileEntry) (r : Text)
    → AreDistinct l
    → lookup r (load_files (files_json l) d)
      ≡ (if contains (keys l) r then forget_some (lookup r l) else lookup r d)
unfolding lookup
load_files-present [] d r h = load_files-absent [] d r refl
load_files-present ((rel, e) ∷ l) d r (new, h) = elim (Bool-cases (rel == r)) [
  | inl same ↦
      let p : rel ≡ r = ground arith in
      let met : (r == rel) ≡ true = ground arith in
      rw (load_files-cons, same, met)
        (load_files-absent l (insert rel (forget e) d) r
            (subst (λ k. contains (keys l) k ≡ false) p new)
          ∙ rw (lookup-insert rel r (forget e) d, same) refl)
  | inr other ↦
      let missed : (r == rel) ≡ false = ground arith in
      rw (load_files-cons, other, missed)
        (load_files-present l (insert rel (forget e) d) r h
          ∙ rw (lookup-insert rel r (forget e) d, other) refl)
]

reloaded :
    (l : Dict CacheFileEntry) (r : Text)
    → AreDistinct l
    → lookup r (load_files (files_json (sort path_leb l)) []) ≡ forget_some (lookup r l)
reloaded l r h = elim (Bool-cases (contains (keys (sort path_leb l)) r)) [
  | inl here ↦
      load_files-present (sort path_leb l) [] r (sort-AreDistinct l h)
      ∙ rw (here, lookup-sort l r h) refl
  | inr absent ↦
      load_files-absent (sort path_leb l) [] r absent
      ∙ rw (lookup-absent l r (sym (keys-sort l r) ∙ absent)) (unfold lookup in refl)
]

put_cached-AreDistinct :
    (m : CacheMachine) (c : FileViolationCache) (rel hash : Text) (vs : List Violation)
    → AreDistinct c.files
    → AreDistinct (put_cached m c rel hash vs).files
unfolding put_cached
put_cached-AreDistinct m c rel hash vs h = insert-AreDistinct rel _ c.files h

get_entry-AreDistinct :
    (m : CacheMachine) (c : FileViolationCache) (rel hash : Text) (o : Option CacheFileEntry)
    → AreDistinct c.files
    → AreDistinct (get_entry m c rel hash o).1.files
unfolding get_entry
get_entry-AreDistinct m c rel hash none h = h
get_entry-AreDistinct m c rel hash (some e) h = elim (Bool-cases (e.content_hash == hash)) [
  | inr stale ↦ rw stale h
  | inl fresh ↦ rw fresh (insert-AreDistinct rel _ c.files h)
]

-- What a run does to a cache: it asks for a file, or puts the result of one.
pub data Use : Type 0 where
  asked : Text → Text → Use
  stored : Text → Text → List Violation → Use

abbrev pub after : CacheMachine → List Use → FileViolationCache → FileViolationCache
after m [] c = c
after m (asked rel hash ∷ uses) c = after m uses (get_cached m c rel hash).1
after m (stored rel hash vs ∷ uses) c = after m uses (put_cached m c rel hash vs)

after-AreDistinct :
    (m : CacheMachine) (uses : List Use) (c : FileViolationCache)
    → AreDistinct c.files
    → AreDistinct (after m uses c).files
unfolding get_cached
after-AreDistinct m [] c h = h
after-AreDistinct m (asked rel hash ∷ uses) c h =
    after-AreDistinct m uses (get_cached m c rel hash).1 (get_entry-AreDistinct m c rel hash _ h)
after-AreDistinct m (stored rel hash vs ∷ uses) c h =
    after-AreDistinct m uses (put_cached m c rel hash vs) (put_cached-AreDistinct m c rel hash vs h)

get_entry-fingerprint :
    (m : CacheMachine) (c : FileViolationCache) (rel hash : Text) (o : Option CacheFileEntry)
    → (get_entry m c rel hash o).1.fingerprint ≡ c.fingerprint
unfolding get_entry
get_entry-fingerprint m c rel hash none = refl
get_entry-fingerprint m c rel hash (some e) = elim (Bool-cases (e.content_hash == hash)) [
  | inr stale ↦ rw stale refl
  | inl fresh ↦ rw fresh refl
]

after-fingerprint :
    (m : CacheMachine) (uses : List Use) (c : FileViolationCache)
    → (after m uses c).fingerprint ≡ c.fingerprint
unfolding get_cached put_cached
after-fingerprint m [] c = refl
after-fingerprint m (asked rel hash ∷ uses) c =
    after-fingerprint m uses (get_cached m c rel hash).1 ∙ get_entry-fingerprint m c rel hash _
after-fingerprint m (stored rel hash vs ∷ uses) c =
    after-fingerprint m uses (put_cached m c rel hash vs)

some_differ : (s t : Text) → (s == t) ≡ false → (some s == some t) ≡ false
some_differ s t h = elim (Bool-cases (some s == some t)) [
  | inr differ ↦ differ
  | inl same ↦
      let p : some s ≡ some t = ground arith in
      let q : s ≡ t = some-injective s t p in absurd (ground (arith, h, q))
]

-- After any calls of `get` and `put` on a new cache, if there is something to write, `save` writes it
-- and leaves nothing to write. Read under the same fingerprint, the file has for every path the
-- entry that the cache had, without its parsed violations; read under another, it is empty.
pub load_cache-save_cache :
    (m : CacheMachine) (fingerprint other : Text) (uses : List Use)
    → (after m uses (new_cache fingerprint)).dirty ≡ true
    → (fingerprint == other) ≡ false
    → let c = after m uses (new_cache fingerprint) in
      ((r : Text)
        → lookup r (load_cache fingerprint (save_cache c).0).files ≡ forget_some (lookup r c.files))
      × (load_cache other (save_cache c).0 ≡ new_cache other)
      × ((save_cache c).1.dirty ≡ false)
unfolding load_cache save_cache get text_eq
load_cache-save_cache m fingerprint other uses d differ =
    let c = after m uses (new_cache fingerprint) in
    let h = after-AreDistinct m uses (new_cache fingerprint) (unfold new_cache in tt) in
    let kept : c.fingerprint ≡ fingerprint =
      after-fingerprint m uses (new_cache fingerprint) ∙ unfold new_cache in refl in
    let one : (pos 1 == pos 1) ≡ true = ground arith in
    let same : (some fingerprint == some fingerprint) ≡ true = ==_refl (some fingerprint) in
    let apart = some_differ fingerprint other differ in
    rw (d, kept) (λ r. rw (one, same) (reloaded c.files r h), rw (one, apart) refl, refl)
