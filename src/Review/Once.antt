-- ===== src/Review/Once.antt =====
-- A run creates no comment that is there before it.
use slopsentinel.Base.{
  ℕ, zero, suc, Text, text_eq, List, [], ◌∷◌, ◌++◌, Option, some, Bool, true, false, ◌&&◌, not,
  contains, all, ◌≡◌, refl, ◌∙◌, arith,
}
use slopsentinel.Types.{FilePath, Violation}
use slopsentinel.Review.Markers.{MarkerMachine, comment_key}
use slopsentinel.Review.Pages.{page_keeps}
use slopsentinel.Review.{
  Request, get_comments, create_comment, Service, World, send_request, read_json_with_retry,
  fetch_pages, fetch_existing_keys, create_review_comment, Group, body_of, post_each, post_groups,
  sorted_groups, post_pull_request_comments,
}

all-append : (p : Request → Bool) (xs ys : List Request) → all p (xs ++ ys) ≡ (all p xs && all p ys)
all-append p [] ys = refl
all-append p (x ∷ xs) ys = ground (arith, all-append p xs ys)

module _ (m : MarkerMachine) (g : Service) (existing : List Text) where
  -- A request that creates no comment for a key among `existing`.
  abbrev pub creates_no_known : Request → Bool
  unfolding text_eq
  creates_no_known (get_comments page) = true
  creates_no_known (create_comment path line body) =
      not (contains existing (comment_key m path line))

  abbrev clean : World m g → Bool
  clean w = all creates_no_known w.1

  read-clean :
      (n page : ℕ) (w : World m g)
      → clean (read_json_with_retry m g n (get_comments page) w).1 ≡ clean w
  unfolding read_json_with_retry send_request creates_no_known
  read-clean zero page w = refl
  read-clean (suc n) page (state, sent) = ground (
    arith,
    all-append creates_no_known sent (get_comments page ∷ []),
    read-clean n page ((g.send (get_comments page) state).1, sent ++ get_comments page ∷ []),
  )

  fetch-clean :
      (n page : ℕ) (keys : List Text) (w : World m g)
      → clean (fetch_pages m g n page keys w).1 ≡ clean w
  unfolding fetch_pages
  fetch-clean zero page keys w = refl
  fetch-clean (suc n) page keys w =
      let step = read_json_with_retry m g 4 (get_comments page) w in
      let first = read-clean 4 page w in
      page_keeps m g (λ after. clean after ≡ clean w) step.0 step.1 keys
        (λ more. fetch_pages m g n (suc page) more step.1) first
        (λ more. fetch-clean n (suc page) more step.1 ∙ first)

  create-clean :
      (path : Text) (line : ℕ) (body : Text) (n : ℕ) (w : World m g)
      → contains existing (comment_key m path line) ≡ false
      → clean (create_review_comment m g path line body n w).1 ≡ clean w
  unfolding create_review_comment fetch_existing_keys send_request creates_no_known
  create-clean path line body zero w h = refl
  create-clean path line body (suc n) (state, sent) h =
      let request = create_comment path line body in
      let after : World m g = ((g.send request state).1, sent ++ request ∷ []) in
      let checked = (fetch_pages m g 10 1 [] after).1 in
      ground (
        arith,
        h,
        all-append creates_no_known sent (request ∷ []),
        fetch-clean 10 1 [] after,
        create-clean path line body n checked h,
      )

  post-clean :
      (groups : List (Group m g)) (posted : ℕ) (w : World m g)
      → clean (post_each m g existing groups posted w).1 ≡ clean w
  unfolding post_each
  post-clean [] posted w = refl
  post-clean (group ∷ groups) posted w =
      let step = create_review_comment m g group.0.0 group.0.1 (body_of m g group) 3 w in
      ground (
        arith,
        create-clean group.0.0 group.0.1 (body_of m g group) 3 w,
        post-clean groups posted w,
        post-clean groups posted step.1,
        post-clean groups (suc posted) step.1,
      )

  groups-clean :
      (groups : List (Group m g)) (w : World m g)
      → (fetch_existing_keys m g w).0 ≡ some existing
      → clean (post_groups m g groups w).1 ≡ clean w
  unfolding post_groups fetch_existing_keys
  groups-clean [] w e = refl
  groups-clean (group ∷ groups) w e =
      rw (post_groups, e)
        (post-clean (group ∷ groups) 0 (fetch_existing_keys m g w).1 ∙ fetch-clean 10 1 [] w)

-- However GitHub answers, no request of a run creates a comment for a path and a line whose key is in
-- one of the comments that the run fetched before, if no request sent before the run does.
pub nothing_twice :
    (m : MarkerMachine) (g : Service) (resolve : FilePath → Option FilePath)
    (project_root : FilePath) (violations : List Violation) (w : World m g) (existing : List Text)
    → (fetch_existing_keys m g w).0 ≡ some existing
    → all (creates_no_known m g existing) w.1 ≡ true
    → all
        (creates_no_known m g existing)
        (post_pull_request_comments m g resolve project_root violations w).1.1
      ≡ true
unfolding post_pull_request_comments
nothing_twice m g resolve project_root violations w existing e clean =
    groups-clean m g existing (sorted_groups m g resolve project_root violations) w e ∙ clean
