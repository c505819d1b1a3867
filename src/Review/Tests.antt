-- ===== src/Review/Tests.antt =====
-- A pull request that two runs comment on.
use slopsentinel.Base.{
  ℕ, ◌+◌, ◌*◌, ◌≤◌, Text, codes, text_eq, List, [], ◌∷◌, ◌++◌, Option, none, some, length, all,
  true, map, take, select, text_leb, splitlines, join, ◌≡◌, refl,
}
use slopsentinel.Types.{FilePath, Violation, Severity, info, warn, error, quality}
use slopsentinel.Json.{Json, str, arr, obj, field, end, items_of}
use slopsentinel.Review.Markers.{MarkerMachine, comment_marker, extract_marker_key}
use slopsentinel.Review.{
  Request, get_comments, create_comment, Reply, answer, http_error, Service, World,
  fetch_existing_keys, create_review_comment, body_of, sorted_groups, post_pull_request_comments,
}
use slopsentinel.Review.Requests.{post_requests_le}
use slopsentinel.Review.Once.{creates_no_known, nothing_twice}
use slopsentinel.Review.Posted.{creations, creation, is_new, comments_exactly}

abbrev machine : MarkerMachine
machine = record { sha1 = λ t. join (codes "-") (splitlines t); read_int = λ t. none }

abbrev comment_json : Text → Json
comment_json body = obj (field (codes "body") (str body) end)

-- It keeps the bodies of the comments; all stand on the first page.
abbrev serve : Request → List Text → Reply × List Text
serve (get_comments page) bodies =
    (answer (some (arr (items_of (map comment_json bodies)))), bodies)
serve (create_comment path line body) bodies = (answer none, bodies ++ body ∷ [])

abbrev hub : Service
hub = record { State = List Text; send = serve }

abbrev root : FilePath
root = codes "/" ∷ codes "repo" ∷ []

abbrev resolve : FilePath → Option FilePath
resolve p = some p

abbrev at_line : Severity → ℕ → Violation
at_line severity n = record {
  rule_id = codes "A01";
  severity = severity;
  message = codes "m";
  dimension = quality;
  suggestion = none;
  location = some (record {
    path = some (codes "/" ∷ codes "repo" ∷ codes "a.py" ∷ []);
    start_line = some n;
    start_col = none;
    end_line = none;
    end_col = none;
  });
}

abbrev violations : List Violation
violations = at_line info 7 ∷ at_line warn 2 ∷ at_line error 7 ∷ []

abbrev start : World machine hub
start = ([], [])

abbrev first_run : Option ℕ × World machine hub
first_run = post_pull_request_comments machine hub resolve root violations start

first_posts : first_run.0 ≡ some 2
unfolding post_pull_request_comments text_eq text_leb create_review_comment body_of splitlines join
first_posts = refl

-- The second run finds the markers of the first.
second_posts_nothing :
    (post_pull_request_comments machine hub resolve root violations first_run.1).0 ≡ some 0
unfolding post_pull_request_comments text_eq text_leb create_review_comment body_of splitlines join
second_posts_nothing = refl

-- A field of the path hides the key.
path_hides_key :
    extract_marker_key machine (comment_marker (codes "012345") (codes "a key=b.py") 3)
    ≡ some (codes "b.py")
unfolding comment_marker extract_marker_key text_eq
path_hides_key = refl

start_keys : (fetch_existing_keys machine hub start).0 ≡ some []
unfolding fetch_existing_keys
start_keys = refl

comments_exactly_example :
    let run = post_pull_request_comments machine hub resolve root violations start in
    let groups = sorted_groups machine hub resolve root violations in
    let todo = take 50 (select (is_new machine hub []) groups) in
    (run.0 ≡ some (length todo))
    × (creations machine hub run.1 ≡ creations machine hub start ++ map (creation machine hub) todo)
comments_exactly_example =
    comments_exactly machine hub (λ path line body state. (none, refl)) resolve root violations
      start [] start_keys

-- GitHub fails at every request.
abbrev down : Service
down = record { State = ℕ; send = λ request n. (http_error 503, n + 1) }

post_requests_le_example :
    length (post_pull_request_comments machine down resolve root violations (0, [])).1.1
    ≤ length {A = Request} []
      + (40 + 83 * length (sorted_groups machine down resolve root violations))
post_requests_le_example = post_requests_le machine down resolve root violations (0, [])

-- The comments can be read, and none is created.
abbrev full : Service
full = record {
  State = List Text;
  send = λ request bodies. elim request [
    | get_comments page ↦ serve (get_comments page) bodies
    | create_comment path line body ↦ (http_error 502, bodies)
  ];
}

abbrev commented : World machine full
commented = (comment_marker (codes "a.py-2") (codes "a.py") 2 ∷ [], [])

commented_keys : (fetch_existing_keys machine full commented).0 ≡ some (codes "a.py-2" ∷ [])
unfolding fetch_existing_keys comment_marker text_eq
commented_keys = refl

nothing_twice_example :
    all
      (creates_no_known machine full (codes "a.py-2" ∷ []))
      (post_pull_request_comments machine full resolve root violations commented).1.1
    ≡ true
nothing_twice_example =
    nothing_twice machine full resolve root violations commented (codes "a.py-2" ∷ [])
      commented_keys refl
