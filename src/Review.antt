-- ===== src/Review.antt =====
-- src/slopsentinel/action_github.py: the comments that the GitHub action posts to a pull request. GitHub
-- is a service with a state of its own; the requests sent are kept in their order. Its token, the
-- repository, the pull request and the commit are those of one run. Pauses and messages are left out.
pub mod Markers
mod Pages
mod Requests
mod Decimal
mod Posted
mod Once
mod Tests
use slopsentinel.Base.{
  ℕ, zero, suc, ◌+◌, Text, codes, text_eq, List, [], ◌∷◌, ◌++◌, Option, none, some, Bool, true,
  false, ◌&&◌, ◌||◌, not, ◌==◌, if◌then◌else◌, contains, is_nil, length, sort, ltb, leb, eqb,
  text_leb, nat_eq,
}
use slopsentinel.Types.{FilePath, Violation, Location}
use slopsentinel.Json.{
  Json, null, bool, num, float, str, arr, obj, Items, nil, cons, Fields, get, to_list,
}
use slopsentinel.Paths.{safe_relpath}
use slopsentinel.Review.Markers.{
  MarkerMachine, comment_key, comment_marker, extract_marker_key, render_comment_body,
}

pub data Request : Type 0 where
  get_comments : (page : ℕ) → Request
  create_comment : (path : Text) (line : ℕ) (body : Text) → Request

-- The outcome of `urlopen` with the reading of its answer: the JSON of an answer, `none` where it
-- cannot be decoded, an `HTTPError`, or a `URLError` or `TimeoutError`.
pub data Reply : Type 0 where
  answer : Option Json → Reply
  http_error : ℕ → Reply
  network_error : Reply

pub record Service : Type 1 where
  pub State : Type 0
  pub send : Request → State → Reply × State

abbrev pub is_retryable_http_status : ℕ → Bool
is_retryable_http_status code = eqb code 429 || (leb 500 code && ltb code 600)

-- What a request with retries ends with. `unreachable` is the error behind the loop.
pub data Read : Type 0 where
  decoded : Json → Read
  failed : Read
  unreachable : Read

abbrev pub max_get_attempts : ℕ
max_get_attempts = 4

abbrev pub max_post_attempts : ℕ
max_post_attempts = 3

abbrev pub max_comments : ℕ
max_comments = 50

abbrev pub attempts_end : {A : Type 0} → ℕ → A → A → A
attempts_end zero last again = last
attempts_end (suc n) last again = again

-- The keys in the bodies of a page's items, `none` for the error of an item that is no object.
module _ (m : MarkerMachine) where
  abbrev add_key : Option Json → List Text → List Text
  unfolding extract_marker_key text_eq
  add_key (some (str body)) keys = elim (extract_marker_key m body) [
    | none ↦ keys
    | some key ↦ if is_nil key then keys else key ∷ keys
  ]
  add_key body keys = keys

  unfoldable pub add_keys : List Json → List Text → Option (List Text)
  unfolding add_key get extract_marker_key text_eq
  add_keys [] keys = some keys
  add_keys (obj fs ∷ items) keys = add_keys items (add_key (get (codes "body") fs) keys)
  add_keys (item ∷ items) keys = none

module _ (m : MarkerMachine) (g : Service) where
  -- GitHub's state, and the requests sent so far
  abbrev pub World : Type 0
  World = g.State × List Request

  unfoldable pub send_request : Request → World → Reply × World
  send_request request (state, sent) =
      let replied = g.send request state in (replied.0, (replied.1, sent ++ request ∷ []))

  -- `_urlopen_json_with_retry`, with the number of attempts left
  unfoldable pub read_json_with_retry : ℕ → Request → World → Read × World
  unfolding send_request
  read_json_with_retry zero request w = (unreachable, w)
  read_json_with_retry (suc n) request w =
      let (reply, after) = send_request request w in
      let again = read_json_with_retry n request after in
      elim reply [
        | answer (some json) ↦ (decoded json, after)
        | answer none ↦ attempts_end n (failed, after) again
        | http_error code ↦
            if is_retryable_http_status code
            then attempts_end n (failed, after) again
            else (failed, after)
        | network_error ↦ attempts_end n (failed, after) again
      ]

  -- What follows the reading of a page: the end, or the next page with the keys so far.
  unfoldable pub after_page :
      Read
      → World
      → List Text
      → (List Text → Option (List Text) × World)
      → Option (List Text) × World
  unfolding add_keys
  after_page unreachable after keys next = (none, after)
  after_page failed after keys next = (some keys, after)
  after_page (decoded (arr nil)) after keys next = (some keys, after)
  after_page (decoded (arr (cons item items))) after keys next =
      elim (add_keys m (item ∷ to_list items) keys) [
        | none ↦ (none, after)
        | some more ↦
            if ltb (suc (length (to_list items))) 100 then (some more, after) else next more
      ]
  after_page (decoded other) after keys next = (some keys, after)

  -- The loop of `_fetch_existing_review_comment_keys`, with the number of pages left; `none` for an
  -- exception
  unfoldable pub fetch_pages : ℕ → ℕ → List Text → World → Option (List Text) × World
  unfolding read_json_with_retry after_page
  fetch_pages zero page keys w = (some keys, w)
  fetch_pages (suc n) page keys w =
      let step = read_json_with_retry max_get_attempts (get_comments page) w in
      after_page step.0 step.1 keys (λ more. fetch_pages n (suc page) more step.1)

  unfoldable pub fetch_existing_keys : World → Option (List Text) × World
  unfolding fetch_pages
  fetch_existing_keys = fetch_pages 10 1 []

  -- `_create_review_comment`, with the number of attempts left
  unfoldable pub create_review_comment : Text → ℕ → Text → ℕ → World → Option Bool × World
  unfolding send_request fetch_existing_keys comment_key text_eq
  create_review_comment path line body zero w = (some false, w)
  create_review_comment path line body (suc n) w =
      let (reply, after) = send_request (create_comment path line body) w in
      elim reply [
        | answer json ↦ (some true, after)
        | network_error ↦ (some false, after)
        | http_error code ↦
            if is_retryable_http_status code && not (eqb n 0)
            then (let (existing, checked) = fetch_existing_keys after in
                elim existing [
                  | none ↦ (none, checked)
                  | some keys ↦
                      if contains keys (comment_key m path line)
                      then (some true, checked)
                      else create_review_comment path line body n checked
                ])
            else (some false, after)
      ]

  -- `(path, line)` with the violations there
  abbrev pub Group : Type 0
  Group = (Text × ℕ) × List Violation

  unfoldable pub body_of : Group → Text
  unfolding render_comment_body comment_marker comment_key
  body_of ((path, line), items) =
      render_comment_body items (comment_marker (comment_key m path line) path line)

  -- The loop over the sorted groups, with `existing_keys` and `posted`.
  unfoldable pub post_each : List Text → List Group → ℕ → World → Option ℕ × World
  post_each existing [] posted w = (some posted, w)
  post_each existing (group ∷ groups) posted w =
      if leb max_comments posted
      then (some posted, w)
      else if contains existing (comment_key m group.0.0 group.0.1)
      then post_each existing groups posted w
      else let (ok, after) =
          create_review_comment group.0.0 group.0.1 (body_of group) max_post_attempts w in
        elim ok [
          | none ↦ (none, after)
          | some true ↦ post_each existing groups (suc posted) after
          | some false ↦ post_each existing groups posted after
        ]

  -- What follows the grouping.
  unfoldable pub post_groups : List Group → World → Option ℕ × World
  unfolding fetch_existing_keys post_each
  post_groups [] w = (some 0, w)
  post_groups (group ∷ groups) w =
      let (fetched, after) = fetch_existing_keys w in
      elim fetched [
        | none ↦ (none, after)
        | some existing ↦ post_each existing (group ∷ groups) 0 after
      ]

  -- `grouped.setdefault(loc_key, []).append(v)`
  unfoldable pub add_to_group : Text → ℕ → Violation → List Group → List Group
  unfolding text_eq
  add_to_group path line v [] = ((path, line), v ∷ []) ∷ []
  add_to_group path line v (((p, n), items) ∷ groups) =
      if p == path && eqb n line
      then ((p, n), items ++ v ∷ []) ∷ groups
      else ((p, n), items) ∷ add_to_group path line v groups

  module _ (resolve : FilePath → Option FilePath) (project_root : FilePath) where
    abbrev group_place : Violation → Option FilePath → Option ℕ → List Group → List Group
    unfolding add_to_group safe_relpath
    group_place v (some p) (some n) groups =
        add_to_group (safe_relpath resolve p project_root) n v groups
    group_place v path line groups = groups

    abbrev group_at : Violation → Option Location → List Group → List Group
    unfolding group_place
    group_at v none groups = groups
    group_at v (some l) groups = group_place v l.path l.start_line groups

    unfoldable pub grouped : List Violation → List Group → List Group
    unfolding group_at
    grouped [] groups = groups
    grouped (v ∷ vs) groups = grouped vs (group_at v v.location groups)

    abbrev group_leb : Group → Group → Bool
    group_leb a b =
        (text_leb a.0.0 b.0.0 && not (text_leb b.0.0 a.0.0))
        || (text_leb a.0.0 b.0.0 && leb a.0.1 b.0.1)

    -- `sorted(grouped.items())`: no two groups have one key
    unfoldable pub sorted_groups : List Violation → List Group
    unfolding grouped sort text_leb
    sorted_groups violations = sort group_leb (grouped violations [])

    -- `_post_pull_request_comments`: the number of comments posted
    unfoldable pub post_pull_request_comments : List Violation → World → Option ℕ × World
    unfolding sorted_groups post_groups
    post_pull_request_comments violations w = post_groups (sorted_groups violations) w
