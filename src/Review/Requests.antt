-- ===== src/Review/Requests.antt =====
-- How many requests a run sends.
use slopsentinel.Base.{
  ℕ, zero, suc, ◌+◌, ◌-◌, ◌*◌, ◌≤◌, Text, text_eq, List, [], ◌∷◌, ◌++◌, Option, none, some, length,
  length-append, arith,
}
use slopsentinel.Types.{FilePath, Violation}
use slopsentinel.Review.Markers.{MarkerMachine}
use slopsentinel.Review.Pages.{page_keeps}
use slopsentinel.Review.{
  Request, get_comments, create_comment, Service, World, send_request, read_json_with_retry,
  fetch_pages, fetch_existing_keys, create_review_comment, Group, body_of, post_each, post_groups,
  sorted_groups, post_pull_request_comments,
}

abbrev known : Option (List Text) → List Text
known none = []
known (some keys) = keys

module _ (m : MarkerMachine) (g : Service) where
  read_count :
      (n : ℕ) (r : Request) (w : World m g)
      → length (read_json_with_retry m g n r w).1.1 ≤ length w.1 + n
  unfolding read_json_with_retry send_request
  read_count zero r w = omega arith
  read_count (suc n) r (state, sent) =
      ground
        (arith, length-append sent (r ∷ []), read_count n r ((g.send r state).1, sent ++ r ∷ []))

  fetch_count :
      (n page : ℕ) (keys : List Text) (w : World m g)
      → length (fetch_pages m g n page keys w).1.1 ≤ length w.1 + 4 * n
  unfolding fetch_pages
  fetch_count zero page keys w = omega arith
  fetch_count (suc n) page keys w =
      let step = read_json_with_retry m g 4 (get_comments page) w in
      let first = read_count 4 (get_comments page) w in
      page_keeps m g (λ after. length after.1 ≤ length w.1 + 4 * suc n) step.0 step.1 keys
        (λ more. fetch_pages m g n (suc page) more step.1) (omega (arith, first))
        (λ more. omega (arith, first, fetch_count n (suc page) more step.1))

  create_count :
      (path : Text) (line : ℕ) (body : Text) (n : ℕ) (w : World m g)
      → length (create_review_comment m g path line body n w).1.1 ≤ length w.1 + (41 * n - 40)
  unfolding create_review_comment fetch_existing_keys send_request
  create_count path line body zero w = omega arith
  create_count path line body (suc n) (state, sent) =
      let request = create_comment path line body in
      let after : World m g = ((g.send request state).1, sent ++ request ∷ []) in
      let checked = (fetch_pages m g 10 1 [] after).1 in
      ground (
        arith,
        length-append sent (request ∷ []),
        fetch_count 10 1 [] after,
        create_count path line body n checked,
      )

  post_count :
      (existing : List Text) (groups : List (Group m g)) (posted : ℕ) (w : World m g)
      → length (post_each m g existing groups posted w).1.1 ≤ length w.1 + 83 * length groups
  unfolding post_each
  post_count existing [] posted w = omega arith
  post_count existing (group ∷ groups) posted w =
      let step = create_review_comment m g group.0.0 group.0.1 (body_of m g group) 3 w in
      ground (
        arith,
        create_count group.0.0 group.0.1 (body_of m g group) 3 w,
        post_count existing groups posted w,
        post_count existing groups posted step.1,
        post_count existing groups (suc posted) step.1,
      )

  groups_count :
      (groups : List (Group m g)) (w : World m g)
      → length (post_groups m g groups w).1.1 ≤ length w.1 + (40 + 83 * length groups)
  unfolding post_groups fetch_existing_keys
  groups_count [] w = omega arith
  groups_count (group ∷ groups) w =
      let fetched = fetch_pages m g 10 1 [] w in
      ground
        (arith, fetch_count 10 1 [] w, post_count (known fetched.0) (group ∷ groups) 0 fetched.1)

  -- However GitHub answers, a run ends after at most 40 requests for the comments that are there and
  -- 83 for each line with violations: three attempts to create its comment, and two times at most
  -- 40 requests that look whether it is there.
  pub post_requests_le :
      (resolve : FilePath → Option FilePath) (project_root : FilePath) (violations : List Violation)
      (w : World m g)
      → length (post_pull_request_comments m g resolve project_root violations w).1.1
        ≤ length w.1 + (40 + 83 * length (sorted_groups m g resolve project_root violations))
  unfolding post_pull_request_comments
  post_requests_le resolve project_root violations w =
      groups_count (sorted_groups m g resolve project_root violations) w
