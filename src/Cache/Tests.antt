-- ===== src/Cache/Tests.antt =====
-- A cache of a project at /repo.
use slopsentinel.Base.{
  ◌==◌, List, true, false, Text, codes, text_eq, [], ◌∷◌, none, some, ◌≡◌, refl, pos, upper, strip,
  starts_with,
}
use slopsentinel.Types.{FilePath, warn, quality, Violation}
use slopsentinel.Paths.{as_posix}
use slopsentinel.Dict.{lookup, insert}
use slopsentinel.Cache.{
  parsed_of, CacheMachine, FileViolationCache, new_cache, get_cached, put_cached,
  serialize_violation, deserialize_violation, parse_path,
}
use slopsentinel.Cache.{load_cache, save_cache}
use slopsentinel.Cache.Persist.{Use, asked, stored, after, forget_some, load_cache-save_cache}
use slopsentinel.Cache.RoundTrip.{IsInside, at_place, deserialize-serialize}

abbrev root : FilePath
root = codes "/" ∷ codes "repo" ∷ []

abbrev machine : CacheMachine
machine = record {
  project_root = root;
  resolved_root = root;
  resolve = λ p. some p;
  resolve_root = refl;
  to_str = λ j. [];
}

abbrev rel : FilePath
rel = codes "src" ∷ codes "a.py" ∷ []

abbrev finding : Violation
finding = record {
  rule_id = codes "A01";
  severity = warn;
  message = codes "m";
  dimension = quality;
  suggestion = some (codes "s");
  location = some (at_place machine rel 2 0 none (some (pos 7)));
}

abbrev filled : FileViolationCache
filled = put_cached machine (new_cache (codes "v1")) (codes "src/a.py") (codes "h") (finding ∷ [])

filled_hit : (get_cached machine filled (codes "src/a.py") (codes "h")).0 ≡ some (finding ∷ [])
unfolding get_cached put_cached new_cache text_eq lookup insert parsed_of
filled_hit = refl

rel-IsInside : IsInside machine rel
unfolding as_posix parse_path text_eq starts_with
rel-IsInside = record { resolved = refl; from_root = refl; relative = refl; readable = refl }

canonical_id : upper (strip (codes "A01")) ≡ codes "A01"
unfolding upper strip
canonical_id = refl

deserialize-serialize_example :
    deserialize_violation machine (serialize_violation machine finding) ≡ finding
deserialize-serialize_example =
    deserialize-serialize machine finding rel 2 0 none (some (pos 7)) canonical_id rel-IsInside refl

abbrev uses : List Use
uses =
    asked (codes "src/b.py") (codes "g")
    ∷ stored (codes "src/b.py") (codes "g") []
    ∷ stored (codes "src/a.py") (codes "h") (finding ∷ [])
    ∷ asked (codes "src/a.py") (codes "h")
    ∷ []

uses_dirty : (after machine uses (new_cache (codes "v1"))).dirty ≡ true
unfolding get_cached put_cached new_cache lookup insert text_eq
uses_dirty = refl

other_fingerprint : (codes "v1" == codes "v2") ≡ false
unfolding text_eq
other_fingerprint = refl

load_cache-save_cache_example :
    let c = after machine uses (new_cache (codes "v1")) in
    ((r : Text)
      → lookup r (load_cache (codes "v1") (save_cache c).0).files ≡ forget_some (lookup r c.files))
    × (load_cache (codes "v2") (save_cache c).0 ≡ new_cache (codes "v2"))
    × ((save_cache c).1.dirty ≡ false)
load_cache-save_cache_example =
    load_cache-save_cache machine (codes "v1") (codes "v2") uses uses_dirty other_fingerprint
