-- ===== src/Cache/Laws.antt =====
-- The cache as an engine's cache: what `get` returns, and what `get` and `put` change.
use slopsentinel.Base.{
  ◌+◌, Text, text_eq, List, Option, none, some, ◌≡◌, refl, arith, if◌then◌else◌, ◌==◌, Bool-cases,
  inl, inr,
}
use slopsentinel.Types.{Violation}
use slopsentinel.Dict.{lookup, insert, lookup-insert}
use slopsentinel.Cache.{
  CacheMachine, FileViolationCache, CacheFileEntry, parsed_of, get_entry, get_cached, put_cached,
}
use slopsentinel.Detection.{CacheOps}

module _ (m : CacheMachine) where
  -- The violations that an entry holds for a hash.
  abbrev pub holds : Text → Option CacheFileEntry → Option (List Violation)
  holds hash none = none
  holds hash (some e) = if e.content_hash == hash then some (parsed_of m e) else none

  abbrev pub held : FileViolationCache → Text → Text → Option (List Violation)
  held c rel hash = holds hash (lookup rel c.files)

  get_entry-holds :
      (c : FileViolationCache) (rel hash : Text) (o : Option CacheFileEntry)
      → (get_entry m c rel hash o).0 ≡ holds hash o
  unfolding get_entry
  get_entry-holds c rel hash none = refl
  get_entry-holds c rel hash (some e) = ground arith

  pub get_cached-held :
      (c : FileViolationCache) (rel hash : Text) → (get_cached m c rel hash).0 ≡ held c rel hash
  unfolding get_cached
  get_cached-held c rel hash = get_entry-holds c rel hash _

  parsed_again :
      (e : CacheFileEntry) (h : Text)
      → holds h (some (record e { parsed_violations = some (parsed_of m e) })) ≡ holds h (some e)
  unfolding parsed_of
  parsed_again e h = refl

  holds-insert :
      (c : FileViolationCache) (rel r h : Text) (e : CacheFileEntry)
      → holds h (lookup r (insert rel e c.files))
        ≡ (if rel == r then holds h (some e) else holds h (lookup r c.files))
  holds-insert c rel r h e = rw lookup-insert (ground arith)

  same_key :
      (c : FileViolationCache) (rel r h : Text) (e : CacheFileEntry)
      → lookup rel c.files ≡ some e
      → (if rel == r then holds h (some e) else held c r h) ≡ held c r h
  same_key c rel r h e found = elim (Bool-cases (rel == r)) [
    | inr other ↦ rw other refl
    | inl same ↦ let p : rel ≡ r = ground arith in rw (same, ← p, found) refl
  ]

  held-get_entry :
      (c : FileViolationCache) (rel hash r h : Text) (o : Option CacheFileEntry)
      → lookup rel c.files ≡ o
      → held (get_entry m c rel hash o).1 r h ≡ held c r h
  unfolding get_entry
  held-get_entry c rel hash r h none e = refl
  held-get_entry c rel hash r h (some e) found = elim (Bool-cases (e.content_hash == hash)) [
    | inr other ↦ rw other refl
    | inl same ↦ rw (same, holds-insert c rel r h _, parsed_again e h) (same_key c rel r h e found)
  ]

  pub held-get_cached :
      (c : FileViolationCache) (rel hash r h : Text)
      → held (get_cached m c rel hash).1 r h ≡ held c r h
  unfolding get_cached
  held-get_cached c rel hash r h = held-get_entry c rel hash r h _ refl

  pub held-put_cached :
      (c : FileViolationCache) (rel hash : Text) (vs : List Violation) (r h : Text)
      → held (put_cached m c rel hash vs) r h
        ≡ (if rel == r then (if hash == h then some vs else none) else held c r h)
  unfolding put_cached parsed_of
  held-put_cached c rel hash vs r h = holds-insert c rel r h _

  -- The cache is the cache that the engine asks for.
  abbrev pub file_cache : CacheOps
  file_cache = record {
    State = FileViolationCache;
    get = get_cached m;
    put = put_cached m;
    lookup = held;
    get_result = get_cached-held;
    lookup-get = held-get_cached;
    lookup-put = held-put_cached;
  }

  -- What a `get` does to the counters and to what it does not return.
  abbrev pub Counted : Option (List Violation) → FileViolationCache → FileViolationCache → Type 0
  Counted none c d =
      (d.misses ≡ c.misses + 1) × (d.hits ≡ c.hits) × (d.files ≡ c.files) × (d.dirty ≡ c.dirty)
  Counted (some vs) c d =
      (d.hits ≡ c.hits + 1)
      × (d.misses ≡ c.misses)
      × (d.dirty ≡ c.dirty)
      × (d.fingerprint ≡ c.fingerprint)

  get_entry-Counted :
      (c : FileViolationCache) (rel hash : Text) (o : Option CacheFileEntry)
      → Counted (get_entry m c rel hash o).0 c (get_entry m c rel hash o).1
  unfolding get_entry
  get_entry-Counted c rel hash none = (refl, refl, refl, refl)
  get_entry-Counted c rel hash (some e) = elim (Bool-cases (e.content_hash == hash)) [
    | inl same ↦ rw same (refl, refl, refl, refl)
    | inr other ↦ rw other (refl, refl, refl, refl)
  ]

  -- `get` returns the violations that the cache holds for the path and the hash, if any; it
  -- counts one hit or one miss, and changes for no path and hash what the cache holds.
  pub get_cached_lem :
      (c : FileViolationCache) (rel hash : Text)
      → let (found, d) = get_cached m c rel hash in
        (found ≡ held c rel hash) × Counted found c d × ((r h : Text) → held d r h ≡ held c r h)
  get_cached_lem c rel hash = (
    get_cached-held c rel hash,
    unfold get_cached in get_entry-Counted c rel hash _,
    held-get_cached c rel hash,
  )
