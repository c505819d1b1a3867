-- ===== src/Lsp/Answered/Requests.antt =====
-- Every handler of a request answers it.
use slopsentinel.Base.{
  Text, codes, text_eq, List, [], ◌∷◌, Option, none, some, true, ℤ, Bool-cases, Option-cases, inl,
  inr, ◌≡◌, refl,
}
use slopsentinel.Json.{
  Json, null, bool, num, float, str, arr, obj, nil, Fields, get, int_of, str_of,
}
use slopsentinel.Dict.{lookup}
use slopsentinel.Lsp.Server.{
  ServerState, Machine, is_falsy, or_else, list_or_empty, on_initialize, on_hover, on_code_action,
  hover_at, actions_for, root_candidate, folder_candidate, folder_root,
}
use slopsentinel.Lsp.Answered.Protocol.{
  NeverRaises, refreshed-found, is_object, is_array, Answers, object_dict, first_of_array,
  answered-response, Answers-one,
}

module _ (m : Machine) (sound : NeverRaises m) where
  hover_at-Answers :
      (s : ServerState) (id : Json) (uri : Option Text) (line character : Option ℤ)
      → Answers (id ∷ []) (hover_at m s id uri line character)
  unfolding hover_at
  hover_at-Answers s id none line character = (s, _, refl, answered-response id null)
  hover_at-Answers s id (some uri) none character = (s, _, refl, answered-response id null)
  hover_at-Answers s id (some uri) (some l) none = (s, _, refl, answered-response id null)
  hover_at-Answers s id (some uri) (some l) (some c) = elim (Option-cases (lookup uri s.docs)) [
    | inl e ↦ rw (hover_at, e) (s, _, refl, answered-response id null)
    | inr (doc, e) ↦
        let (new, f) = refreshed-found m s doc sound in
        rw (hover_at, e, f) (_, _, refl, answered-response id _)
  ]

  actions_for-Answers :
      (s : ServerState) (id : Json) (uri : Option Text) (diags : Option (List Json))
      → Answers (id ∷ []) (actions_for m s id uri diags)
  unfolding actions_for
  actions_for-Answers s id none diags = (s, _, refl, answered-response id (arr nil))
  actions_for-Answers s id (some uri) none = (s, _, refl, answered-response id (arr nil))
  actions_for-Answers s id (some uri) (some ds) = elim (Option-cases (lookup uri s.docs)) [
    | inl e ↦ rw (actions_for, e) (s, _, refl, answered-response id (arr nil))
    | inr (doc, e) ↦
        let (new, f) = refreshed-found m s doc sound in
        rw (actions_for, e, f) (_, _, refl, answered-response id _)
  ]

  pub on_hover-Answers :
      (s : ServerState) (id : Json) (params : Fields)
      → is_object (get (codes "textDocument") params) ≡ true
      → is_object (get (codes "position") params) ≡ true
      → Answers (id ∷ []) (on_hover m s id params)
  unfolding on_hover
  on_hover-Answers s id params h k =
      let td = object_dict (get (codes "textDocument") params) h in
      let place = object_dict (get (codes "position") params) k in
      rw (on_hover, td.1, place.1)
        (hover_at-Answers s id (str_of (get (codes "uri") td.0))
          (int_of (get (codes "line") place.0)) (int_of (get (codes "character") place.0)))

  pub on_code_action-Answers :
      (s : ServerState) (id : Json) (params : Fields)
      → is_object (get (codes "textDocument") params) ≡ true
      → is_object (get (codes "context") params) ≡ true
      → Answers (id ∷ []) (on_code_action m s id params)
  unfolding on_code_action
  on_code_action-Answers s id params h k =
      let td = object_dict (get (codes "textDocument") params) h in
      let ctx = object_dict (get (codes "context") params) k in
      rw (on_code_action, td.1, ctx.1)
        (actions_for-Answers s id (str_of (get (codes "uri") td.0))
          (list_or_empty m (get (codes "diagnostics") ctx.0)))

  folder_found :
      (folders : Option Json)
      → is_array folders ≡ true
      → (candidate : Option Json) × (folder_candidate m folders ≡ some candidate)
  unfolding folder_candidate
  folder_found none h = (none, refl)
  folder_found (some j) h = elim (Bool-cases (is_falsy j)) [
    | inl e ↦ (none, rw (folder_candidate, e) refl)
    | inr e ↦
        let first = first_of_array j h e in
        (folder_root first.0, rw (folder_candidate, e, first.1) refl)
  ]

  root_found :
      (params : Fields)
      → is_array (get (codes "workspaceFolders") params) ≡ true
      → (candidate : Option Json) × (root_candidate m params ≡ some candidate)
  unfolding root_candidate
  root_found params h =
      by_given (or_else (get (codes "rootUri") params) (get (codes "rootPath") params))
    where
      found :
          (candidate : Option Json) × (folder_candidate m (get (codes "workspaceFolders") params)
            ≡ some candidate)
      found = folder_found (get (codes "workspaceFolders") params) h

      by_given :
          (given : Option Json)
          → (candidate : Option Json) × ((elim given [
            | none ↦ folder_candidate m (get (codes "workspaceFolders") params)
            | some null ↦ folder_candidate m (get (codes "workspaceFolders") params)
            | some j ↦ some (some j)
          ])
              ≡ some candidate)
      by_given none = found
      by_given (some null) = found
      by_given (some (bool b)) = (_, refl)
      by_given (some (num n)) = (_, refl)
      by_given (some (float n)) = (_, refl)
      by_given (some (str t)) = (_, refl)
      by_given (some (arr js)) = (_, refl)
      by_given (some (obj fs)) = (_, refl)

  pub on_initialize-Answers :
      (s : ServerState) (id : Json) (params : Fields)
      → is_array (get (codes "workspaceFolders") params) ≡ true
      → Answers (id ∷ []) (on_initialize m s id params)
  unfolding on_initialize
  on_initialize-Answers s id params h =
      rw (on_initialize, (root_found params h).1) (Answers-one _ id _)
