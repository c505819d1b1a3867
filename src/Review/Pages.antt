-- ===== src/Review/Pages.antt =====
-- What holds of the requests and of GitHub's state when the pages of comments are read.
use slopsentinel.Base.{
  suc, Text, List, ◌∷◌, Option, none, some, Bool, true, false, if◌then◌else◌, length, ltb,
}
use slopsentinel.Json.{null, bool, num, float, str, arr, obj, nil, cons, to_list}
use slopsentinel.Review.Markers.{MarkerMachine}
use slopsentinel.Review.{Service, Read, decoded, failed, unreachable, World, add_keys, after_page}

module _ (m : MarkerMachine) (g : Service) (P : World m g → Type 0) where
  abbrev Fetched : Type 0
  Fetched = Option (List Text) × World m g

  choice_keeps : (b : Bool) (x y : Fetched) → P x.1 → P y.1 → P (if b then x else y).1
  choice_keeps true x y h k = h
  choice_keeps false x y h k = k

  keys_keep :
      (keys : Option (List Text)) (last : Bool) (after : World m g) (next : List Text → Fetched)
      → P after
      → ((more : List Text) → P (next more).1)
      → P
          (elim keys as (λ k. Fetched) [
            | none ↦ (none, after)
            | some more ↦ if last then (some more, after) else next more
          ]).1
  keys_keep none last after next h k = h
  keys_keep (some more) last after next h k =
      choice_keeps last (some more, after) (next more) h (k more)

  -- What holds behind a page, and behind the pages after it, holds when they are read.
  pub page_keeps :
      (read : Read) (after : World m g) (keys : List Text) (next : List Text → Fetched)
      → P after
      → ((more : List Text) → P (next more).1)
      → P (after_page m g read after keys next).1
  unfolding after_page
  page_keeps unreachable after keys next h k = h
  page_keeps failed after keys next h k = h
  page_keeps (decoded null) after keys next h k = h
  page_keeps (decoded (bool b)) after keys next h k = h
  page_keeps (decoded (num i)) after keys next h k = h
  page_keeps (decoded (float f)) after keys next h k = h
  page_keeps (decoded (str s)) after keys next h k = h
  page_keeps (decoded (obj fs)) after keys next h k = h
  page_keeps (decoded (arr nil)) after keys next h k = h
  page_keeps (decoded (arr (cons item items))) after keys next h k =
      keys_keep (add_keys m (item ∷ to_list items) keys) (ltb (suc (length (to_list items))) 100)
        after next h k
