-- ===== src/Lsp/Answered.antt =====
-- Every request is answered once, with its id, in the order of arrival.
pub mod Protocol
mod Requests
mod Notifications
use slopsentinel.Base.{
  Text, codes, text_eq, List, [], ◌∷◌, ◌++◌, append_assoc, All, Option, none, some, Bool, true,
  false, ◌&&◌, ◌||◌, not, ◌==◌, if◌then◌else◌, ℤ, Bool-cases, Option-cases, inl, inr, ◌≡◌, refl,
  sym, ◌∙◌, ap, arith,
}
use slopsentinel.Json.{
  Json, null, bool, num, float, str, arr, obj, nil, cons, Fields, end, get, int_of, str_of,
}
use slopsentinel.Dict.{lookup}
use slopsentinel.Lsp.Server.{
  Document, ServerState, Machine, Outcome, goes_on, dict_or_empty, is_falsy, first_item,
  value_or_null, or_else, list_or_empty, response, publish, handle, by_method, dispatch,
  on_initialize, on_hover, on_code_action, on_did_open, on_did_change, on_did_save, hover_at,
  actions_for, opened, changed, change_first, change_text, saved, diagnosed, rooted, root_candidate,
  folder_candidate, folder_root, run_server, uri_to_path,
}
use slopsentinel.Lsp.Answered.Protocol.{
  NeverRaises, answered, is_request, requested, is_object, is_array, well_formed_params, no_exit,
  well_formed, Answers, Answers-one, answered-append,
}
use slopsentinel.Lsp.Answered.Requests.{
  on_hover-Answers, on_code_action-Answers, on_initialize-Answers,
}
use slopsentinel.Lsp.Answered.Notifications.{
  quiet, on_did_open-Answers, on_did_change-Answers, on_did_save-Answers,
}

module _ (m : Machine) (sound : NeverRaises m) where
  dispatch-Answers :
      (s : ServerState) (method : Text) (id : Json) (params : Fields)
      → (method == codes "exit") ≡ false
      → well_formed_params (some params) ≡ true
      → Answers (if is_request method then id ∷ [] else []) (dispatch m s method id (some params))
  unfolding dispatch
  dispatch-Answers s method id params running fine =
      elim (Bool-cases (method == codes "initialize")) [
        | inl a ↦ rw a (on_initialize-Answers m sound s id params (parts fine).3)
        | inr a ↦ elim (Bool-cases (method == codes "shutdown")) [
          | inl b ↦ rw (a, b) (Answers-one s id null)
          | inr b ↦ elim (Bool-cases (method == codes "textDocument/hover")) [
            | inl c ↦
                rw (a, b, running, c)
                  (on_hover-Answers m sound s id params (parts fine).0 (parts fine).1)
            | inr c ↦ elim (Bool-cases (method == codes "textDocument/codeAction")) [
              | inl d ↦
                  rw (a, b, running, c, d)
                    (on_code_action-Answers m sound s id params (parts fine).0 (parts fine).2)
              | inr d ↦ rw (a, b, running, c, d) (notified fine)
            ]
          ]
        ]
      ]
    where
      parts :
          well_formed_params (some params) ≡ true
          → (is_object (get (codes "textDocument") params) ≡ true)
            × (is_object (get (codes "position") params) ≡ true)
            × (is_object (get (codes "context") params) ≡ true)
            × (is_array (get (codes "workspaceFolders") params) ≡ true)
            × (is_array (get (codes "contentChanges") params) ≡ true)
      parts h = ground arith

      notified :
          well_formed_params (some params) ≡ true
          → Answers [] (
              if method == codes "textDocument/didOpen"
              then on_did_open m (rooted m s) params
              else if method == codes "textDocument/didChange"
              then on_did_change m (rooted m s) params
              else if method == codes "textDocument/didSave"
              then on_did_save m (rooted m s) params
              else goes_on s [])
      notified h = elim (Bool-cases (method == codes "textDocument/didOpen")) [
        | inl a ↦ rw a (on_did_open-Answers m sound (rooted m s) params (parts h).0)
        | inr a ↦ elim (Bool-cases (method == codes "textDocument/didChange")) [
          | inl b ↦
              rw (a, b) (on_did_change-Answers m sound (rooted m s) params (parts h).0 (parts h).4)
          | inr b ↦ elim (Bool-cases (method == codes "textDocument/didSave")) [
            | inl c ↦ rw (a, b, c) (on_did_save-Answers m sound (rooted m s) params (parts h).0)
            | inr c ↦ rw (a, b, c) (quiet m sound s)
          ]
        ]
      ]

  -- What the method of a message asks for.
  abbrev ids_by : Option Json → Json → List Json
  ids_by (some (str method)) id = if is_request method then id ∷ [] else []
  ids_by other id = []

  by_method-Answers :
      (s : ServerState) (method : Option Json) (id : Json) (params : Option Fields)
      → no_exit method ≡ true
      → well_formed_params params ≡ true
      → Answers (ids_by method id) (by_method m s method id params)
  unfolding by_method
  by_method-Answers s method id none h k = absurd (cc)
  by_method-Answers s none id (some params) h k = quiet m sound s
  by_method-Answers s (some null) id (some params) h k = quiet m sound s
  by_method-Answers s (some (bool b)) id (some params) h k = quiet m sound s
  by_method-Answers s (some (num n)) id (some params) h k = quiet m sound s
  by_method-Answers s (some (float n)) id (some params) h k = quiet m sound s
  by_method-Answers s (some (arr js)) id (some params) h k = absurd (cc)
  by_method-Answers s (some (obj fs)) id (some params) h k = absurd (cc)
  by_method-Answers s (some (str t)) id (some params) h k =
      dispatch-Answers s t id params (ground (arith, h)) k

  handle-Answers :
      (s : ServerState) (msg : Fields)
      → well_formed msg ≡ true
      → Answers
          (ids_by (get (codes "method") msg) (value_or_null (get (codes "id") msg)))
          (handle m s msg)
  unfolding handle
  handle-Answers s msg h =
      by_method-Answers s (get (codes "method") msg) (value_or_null (get (codes "id") msg))
        (dict_or_empty (get (codes "params") msg)) (both msg h).0 (both msg h).1
    where
      both :
          (msg : Fields)
          → well_formed msg ≡ true
          → (no_exit (get (codes "method") msg) ≡ true)
            × (well_formed_params (dict_or_empty (get (codes "params") msg)) ≡ true)
      both msg h = unfold well_formed in ground arith

  requested-cons :
      (msg : Fields) (msgs : List Fields)
      → requested (msg ∷ msgs)
        ≡ ids_by (get (codes "method") msg) (value_or_null (get (codes "id") msg)) ++ requested msgs
  unfolding requested
  requested-cons msg msgs = by_kind (get (codes "method") msg)
    where
      by_if :
          (b : Bool) (id : Json)
          → (if b then id ∷ requested msgs else requested msgs)
            ≡ (if b then id ∷ [] else []) ++ requested msgs
      by_if true id = refl
      by_if false id = refl

      by_kind :
          (method : Option Json)
          → (elim method [
            | some (str t) ↦
                if is_request t
                then value_or_null (get (codes "id") msg) ∷ requested msgs
                else requested msgs
            | other ↦ requested msgs
          ])
            ≡ ids_by method (value_or_null (get (codes "id") msg)) ++ requested msgs
      by_kind none = refl
      by_kind (some null) = refl
      by_kind (some (bool b)) = refl
      by_kind (some (num n)) = refl
      by_kind (some (float n)) = refl
      by_kind (some (arr js)) = refl
      by_kind (some (obj fs)) = refl
      by_kind (some (str t)) = by_if (is_request t) (value_or_null (get (codes "id") msg))

  -- A server whose engine raises no exception on any text, and that reads well-formed messages of the
  -- protocol, none of them `exit`, sends one response for each request, with the request's id and in
  -- the order of arrival, and no response besides.
  pub run_server-answered :
      (s : ServerState) (msgs : List Fields)
      → All (λ msg. well_formed msg ≡ true) msgs
      → answered (run_server m s msgs) ≡ requested msgs
  unfolding run_server answered requested
  run_server-answered s [] h = refl
  run_server-answered s (msg ∷ msgs) h =
      let step = handle-Answers s msg h.0 in
      rw (run_server, step.2)
        (answered-append step.1 (run_server m step.0 msgs)
          ∙ rw (step.3, requested-cons msg msgs)
              (ap
                (λ ids.
                  ids_by (get (codes "method") msg) (value_or_null (get (codes "id") msg)) ++ ids)
                (run_server-answered step.0 msgs h.1)))
