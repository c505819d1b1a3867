-- ===== src/Cache.antt =====
-- src/slopsentinel/cache.py: the per-file cache of violations. The file system is a parameter, and
-- so is Python's `str` of a JSON value that is no text.
pub mod Serial
pub mod Laws
mod RoundTrip
mod Distinct
mod Persist
mod Tests
pub use Serial.{CacheMachine}
unfoldable pub use Serial.{serialize_violation, deserialize_violation, parse_path}
use slopsentinel.Base.{
  ℕ, ◌+◌, Text, codes, text_eq, option_eq, text_leb, List, [], ◌∷◌, Option, none, some, Bool, true,
  false, ◌==◌, if◌then◌else◌, ℤ, pos, int_eq, map, sort, eqb,
}
use slopsentinel.Types.{Violation}
use slopsentinel.Json.{
  Json, null, bool, num, float, str, arr, obj, Fields, end, field, Items, nil, cons, get, to_list,
  items_of, str_of,
}
use slopsentinel.Dict.{Dict, lookup, insert}

pub record CacheFileEntry : Type 0 where
  pub content_hash : Text
  pub raw_violations : List Fields
  pub parsed_violations : Option (List Violation)

-- The fields of `FileViolationCache` that its methods read and write.
pub record FileViolationCache : Type 0 where
  pub fingerprint : Text
  pub dirty : Bool
  pub files : Dict CacheFileEntry
  pub hits : ℕ
  pub misses : ℕ

-- `__init__`
unfoldable pub new_cache : Text → FileViolationCache
new_cache fingerprint = record {
  fingerprint = fingerprint;
  dirty = false;
  files = [];
  hits = 0;
  misses = 0;
}

-- `version == 1`, also for `True` and the float 1.0
abbrev pub is_version_one : Option Json → Bool
is_version_one none = false
is_version_one (some (num n)) = n == pos 1
is_version_one (some (bool b)) = b
is_version_one (some (float bits)) = eqb bits 0x3ff0000000000000
is_version_one (some _) = false

-- `[item for item in raw_violations if isinstance(item, dict)]`
unfoldable pub dicts : Items → List Fields
dicts nil = []
dicts (cons (obj fs) items) = fs ∷ dicts items
dicts (cons _ items) = dicts items

-- `entry.get("violations", [])`, if it is a list
abbrev violations_of : Option Json → Option (List Fields)
violations_of none = some []
violations_of (some (arr items)) = some (dicts items)
violations_of (some _) = none

abbrev pub load_entry :
    Text → Option Text → Option (List Fields) → Dict CacheFileEntry → Dict CacheFileEntry
load_entry rel (some hash) (some raw) files =
    insert rel (record { content_hash = hash; raw_violations = raw; parsed_violations = none })
      files
load_entry rel (some hash) none files = files
load_entry rel none raw files = files

-- The loop over `files.items()`.
unfoldable pub load_files : Fields → Dict CacheFileEntry → Dict CacheFileEntry
unfolding dicts get insert
load_files end files = files
load_files (field rel (obj entry) rest) files = load_files rest (
    load_entry rel (str_of (get (codes "hash") entry))
      (violations_of (get (codes "violations") entry)) files)
load_files (field rel _ rest) files = load_files rest files

abbrev load_table : FileViolationCache → Option Json → FileViolationCache
load_table c (some (obj files)) = record c { files = load_files files [] }
load_table c _ = c

-- `load`: `none` is a file that is not there, cannot be read or is no JSON.
unfoldable pub load_cache : Text → Option Json → FileViolationCache
unfolding new_cache load_files get
load_cache fingerprint (some (obj fs)) =
    if is_version_one (get (codes "version") fs)
    then (if str_of (get (codes "fingerprint") fs) == some fingerprint
        then load_table (new_cache fingerprint) (get (codes "files") fs)
        else new_cache fingerprint)
    else new_cache fingerprint
load_cache fingerprint _ = new_cache fingerprint

abbrev pub path_leb : Text × CacheFileEntry → Text × CacheFileEntry → Bool
path_leb a b = text_leb a.0 b.0

abbrev pub entry_json : CacheFileEntry → Json
entry_json e = obj (
    field (codes "hash") (str e.content_hash)
      (field (codes "violations") (arr (items_of (map obj e.raw_violations))) end))

abbrev pub files_json : List (Text × CacheFileEntry) → Fields
files_json [] = end
files_json ((rel, e) ∷ rest) = field rel (entry_json e) (files_json rest)

-- `save`: what is written, if anything, and the cache afterwards.
unfoldable pub save_cache : FileViolationCache → Option Json × FileViolationCache
unfolding sort
save_cache c =
    if c.dirty
    then (
      some (
          obj (
            field (codes "version") (num (pos 1)) (
              field (codes "fingerprint") (str c.fingerprint)
                (field (codes "files") (obj (files_json (sort path_leb c.files))) end)))),
      record c { dirty = false },
    )
    else (none, c)

module _ (m : CacheMachine) where
  -- The parsed violations of an entry, which `get` keeps.
  unfoldable pub parsed_of : CacheFileEntry → List Violation
  parsed_of e = elim (e.parsed_violations) [
    | none ↦ map (deserialize_violation m) (e.raw_violations)
    | some vs ↦ vs
  ]

  abbrev miss : FileViolationCache → Option (List Violation) × FileViolationCache
  miss c = (none, record c { misses = c.misses + 1 })

  unfoldable pub get_entry :
      FileViolationCache
      → Text
      → Text
      → Option CacheFileEntry
      → Option (List Violation) × FileViolationCache
  get_entry c rel hash none = miss c
  get_entry c rel hash (some e) =
      if e.content_hash == hash
      then (
        some (parsed_of e),
        record c {
          hits = c.hits + 1;
          files = insert rel (record e { parsed_violations = some (parsed_of e) }) c.files;
        },
      )
      else miss c

  unfoldable pub get_cached :
      FileViolationCache → Text → Text → Option (List Violation) × FileViolationCache
  unfolding get_entry
  get_cached c rel hash = get_entry c rel hash (lookup rel c.files)

  unfoldable pub put_cached : FileViolationCache → Text → Text → List Violation → FileViolationCache
  put_cached c rel hash violations = record c {
    dirty = true;
    files =
        insert rel
          (record {
            content_hash = hash;
            raw_violations = map (serialize_violation m) violations;
            parsed_violations = some violations;
          })
          c.files;
  }
