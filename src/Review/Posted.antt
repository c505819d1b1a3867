-- ===== src/Review/Posted.antt =====
-- Which comments a run creates.
use slopsentinel.Base.{
  ℕ, zero, suc, ◌+◌, ◌-◌, Text, text_eq, List, [], ◌∷◌, ◌++◌, append_assoc, append-nil, Option,
  some, Bool, true, false, not, contains, length, select, select-append, take, map, leb, ◌≡◌, refl,
  sym, ◌∙◌, ap, arith, Bool-cases, inl, inr,
}
use slopsentinel.Types.{FilePath, Violation}
use slopsentinel.Json.{Json}
use slopsentinel.Review.Markers.{MarkerMachine, comment_key}
use slopsentinel.Review.Pages.{page_keeps}
use slopsentinel.Review.{
  Request, get_comments, create_comment, answer, Service, World, send_request, read_json_with_retry,
  fetch_pages, fetch_existing_keys, create_review_comment, Group, body_of, post_each, post_groups,
  sorted_groups, post_pull_request_comments,
}

abbrev pub is_create : Request → Bool
is_create (get_comments page) = false
is_create (create_comment path line body) = true

take_nil {ℓ} : {A : Type ℓ} (n : ℕ) → take {A = A} n [] ≡ []
take_nil zero = refl
take_nil (suc n) = refl

module _ (m : MarkerMachine) (g : Service) where
  -- The comments that a run tried to create so far.
  abbrev pub creations : World m g → List Request
  creations w = select is_create w.1

  read-creations :
      (n page : ℕ) (w : World m g)
      → creations (read_json_with_retry m g n (get_comments page) w).1 ≡ creations w
  unfolding read_json_with_retry send_request
  read-creations zero page w = refl
  read-creations (suc n) page (state, sent) = ground (
    arith,
    select-append is_create sent (get_comments page ∷ []),
    append-nil (select is_create sent),
    read-creations n page ((g.send (get_comments page) state).1, sent ++ get_comments page ∷ []),
  )

  fetch-creations :
      (n page : ℕ) (keys : List Text) (w : World m g)
      → creations (fetch_pages m g n page keys w).1 ≡ creations w
  unfolding fetch_pages
  fetch-creations zero page keys w = refl
  fetch-creations (suc n) page keys w =
      let step = read_json_with_retry m g 4 (get_comments page) w in
      let first = read-creations 4 page w in
      page_keeps m g (λ after. creations after ≡ creations w) step.0 step.1 keys
        (λ more. fetch_pages m g n (suc page) more step.1) first
        (λ more. fetch-creations n (suc page) more step.1 ∙ first)

  abbrev pub creation : Group m g → Request
  creation group = create_comment group.0.0 group.0.1 (body_of m g group)

  abbrev pub is_new : List Text → Group m g → Bool
  unfolding text_eq
  is_new existing group = not (contains existing (comment_key m group.0.0 group.0.1))

  -- GitHub answers every request to create a comment.
  abbrev pub AnswersCreations : Type 0
  AnswersCreations =
      (path : Text) (line : ℕ) (body : Text) (state : g.State)
      → (json : Option Json) × ((g.send (create_comment path line body) state).0 ≡ answer json)

  module _ (answers : AnswersCreations) where
    create_answered :
        (path : Text) (line : ℕ) (body : Text) (w : World m g)
        → let run = create_review_comment m g path line body 3 w in
          (run.0 ≡ some true)
          × (creations run.1 ≡ creations w ++ create_comment path line body ∷ [])
    unfolding create_review_comment send_request
    create_answered path line body (state, sent) =
        let (json, e) = answers path line body state in
        (
          rw (create_review_comment, e) refl,
          rw (create_review_comment, e)
              (select-append is_create sent (create_comment path line body ∷ [])),
        )

    post_full :
        (existing : List Text) (groups : List (Group m g)) (posted : ℕ) (w : World m g)
        → leb 50 posted ≡ true
        → post_each m g existing groups posted w ≡ (some posted, w)
    unfolding post_each
    post_full existing [] posted w full = refl
    post_full existing (group ∷ groups) posted w full = rw (post_each, full) refl

    post_old :
        (existing : List Text) (group : Group m g) (groups : List (Group m g)) (posted : ℕ)
        (w : World m g)
        → leb 50 posted ≡ false
        → contains existing (comment_key m group.0.0 group.0.1) ≡ true
        → post_each m g existing (group ∷ groups) posted w ≡ post_each m g existing groups posted w
    unfolding post_each
    post_old existing group groups posted w room old = rw (post_each, room, old) refl

    post_new :
        (existing : List Text) (group : Group m g) (groups : List (Group m g)) (posted : ℕ)
        (w : World m g)
        → leb 50 posted ≡ false
        → contains existing (comment_key m group.0.0 group.0.1) ≡ false
        → post_each m g existing (group ∷ groups) posted w
          ≡ post_each m g existing groups
              (suc posted)
              (create_review_comment m g group.0.0 group.0.1 (body_of m g group) 3 w).1
    unfolding post_each
    post_new existing group groups posted w room new =
        rw (post_each, room, new, (create_answered group.0.0 group.0.1 (body_of m g group) w).0)
          refl

    post_each_exact :
        (existing : List Text) (groups : List (Group m g)) (posted : ℕ) (w : World m g)
        → let run = post_each m g existing groups posted w in
          let todo = take (50 - posted) (select (is_new existing) groups) in
          (run.0 ≡ some (posted + length todo))
          × (creations run.1 ≡ creations w ++ map creation todo)
    unfolding post_each is_new
    post_each_exact existing [] posted w =
        rw (take_nil {A = Group m g} (50 - posted))
          (ap some (omega arith), sym (append-nil (creations w)))
    post_each_exact existing (group ∷ groups) posted w = elim (Bool-cases (leb 50 posted)) [
      | inl full ↦
          let e : 50 - posted ≡ 0 = ground arith in
          rw (post_full existing (group ∷ groups) posted w full, e)
            (ap some (omega arith), sym (append-nil (creations w)))
      | inr room ↦ elim (Bool-cases (contains existing (comment_key m group.0.0 group.0.1))) [
        | inl old ↦
            rw (post_old existing group groups posted w room old, old)
              (post_each_exact existing groups posted w)
        | inr new ↦
            let made = create_answered group.0.0 group.0.1 (body_of m g group) w in
            let after = (create_review_comment m g group.0.0 group.0.1 (body_of m g group) 3 w).1 in
            let todo = select (is_new existing) groups in
            let rest = post_each_exact existing groups (suc posted) after in
            let e : 50 - posted ≡ suc (50 - suc posted) = ground arith in
            rw (post_new existing group groups posted w room new, new, e)
              (
                rest.0 ∙ ap some (omega arith),
                rest.1
                    ∙ ap (λ done. done ++ map creation (take (50 - suc posted) todo)) made.1
                    ∙ append_assoc (creations w) (creation group ∷ [])
                        (map creation (take (50 - suc posted) todo)),
              )
      ]
    ]

    groups_exact :
        (groups : List (Group m g)) (w : World m g) (existing : List Text)
        → (fetch_existing_keys m g w).0 ≡ some existing
        → let run = post_groups m g groups w in
          let todo = take 50 (select (is_new existing) groups) in
          (run.0 ≡ some (length todo)) × (creations run.1 ≡ creations w ++ map creation todo)
    unfolding post_groups fetch_existing_keys
    groups_exact [] w existing e = (refl, sym (append-nil (creations w)))
    groups_exact (group ∷ groups) w existing e =
        let after = (fetch_existing_keys m g w).1 in
        let todo = take 50 (select (is_new existing) (group ∷ groups)) in
        let run = post_each_exact existing (group ∷ groups) 0 after in
        rw (post_groups, e)
          (
            run.0 ∙ ap some (omega arith),
            run.1 ∙ ap (λ done. done ++ map creation todo) (fetch-creations 10 1 [] w),
          )

    -- Where GitHub answers the requests to create a comment, and the comments that are there can be
    -- fetched, a run creates one comment for each of the first 50 lines with violations, by path and
    -- line, whose key is in none of the fetched comments, and no other; it returns their number.
    pub comments_exactly :
        (resolve : FilePath → Option FilePath) (project_root : FilePath)
        (violations : List Violation) (w : World m g) (existing : List Text)
        → (fetch_existing_keys m g w).0 ≡ some existing
        → let run = post_pull_request_comments m g resolve project_root violations w in
          let groups = sorted_groups m g resolve project_root violations in
          let todo = take 50 (select (is_new existing) groups) in
          (run.0 ≡ some (length todo)) × (creations run.1 ≡ creations w ++ map creation todo)
    unfolding post_pull_request_comments
    comments_exactly resolve project_root violations w existing e =
        groups_exact (sorted_groups m g resolve project_root violations) w existing e
