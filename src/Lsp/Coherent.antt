-- ===== src/Lsp/Coherent.antt =====
-- The violations that the server keeps for a document are those of its text.
use slopsentinel.Base.{
  Text, codes, text_eq, List, [], Option, none, some, Bool, true, false, ◌==◌, if◌then◌else◌,
  is_nil, ℤ, Bool-cases, Option-cases, inl, inr, ◌≡◌, refl, sym, ◌∙◌, ap, subst, arith,
}
use slopsentinel.Types.{FilePath}
use slopsentinel.Json.{Json, null, bool, num, float, str, arr, obj, Fields, get, int_of, str_of}
use slopsentinel.Dict.{lookup, insert, lookup-insert}
use slopsentinel.Lsp.Server.{
  Document, ServerState, Machine, Outcome, goes_on, stops, raises, dict_or_empty, is_falsy,
  first_item, value_or_null, list_or_empty, handle, by_method, dispatch, with_params, on_hover,
  on_code_action, on_did_open, on_did_change, on_did_save, hover_at, actions_for, opened, changed,
  change_first, change_text, saved, diagnosed, rooted, root_of, with_doc, refreshed,
  collect_violations, uri_to_path,
}

module _ (m : Machine) where
  -- The document is kept under its URI, with the violations of its text in the project at `root`.
  abbrev IsFresh : FilePath → Text → Document → Type 0
  IsFresh root uri doc =
      (doc.uri ≡ uri) × (collect_violations m root doc.path doc.text ≡ some doc.violations)

  abbrev AreFresh : FilePath → ServerState → Type 0
  AreFresh root s =
      (root_of m s ≡ root)
      × ((uri : Text) (doc : Document) → lookup uri s.docs ≡ some doc → IsFresh root uri doc)

  -- If the server goes on, its documents are fresh.
  abbrev Keeps : FilePath → Outcome → Type 0
  Keeps root (goes_on s sent) = AreFresh root s
  Keeps root stops = Unit
  Keeps root raises = Unit

  with_doc-AreFresh :
      (root : FilePath) (s : ServerState) (uri : Text) (doc : Document)
      → AreFresh root s
      → IsFresh root uri doc
      → AreFresh root (with_doc m s uri doc)
  with_doc-AreFresh root s uri doc fresh new = (fresh.0, all)
    where
      all : (j : Text) (d : Document) → lookup j (insert uri doc s.docs) ≡ some d → IsFresh root j d
      all j d e = ground (arith, lookup-insert uri j doc s.docs, fresh.1 j d)

  refreshed_fresh :
      (root : FilePath) (s : ServerState) (uri : Text) (doc : Document)
      → root_of m s ≡ root
      → IsFresh root uri doc
      → refreshed m s doc ≡ some doc
  unfolding refreshed
  refreshed_fresh root s uri doc e fresh = elim (Bool-cases (is_nil doc.violations)) [
    | inl empty ↦ rw (refreshed, empty, e, fresh.1) refl
    | inr full ↦ rw (refreshed, full) refl
  ]

  diagnosed-Keeps :
      (root : FilePath) (s : ServerState) (uri : Text) (doc : Document)
      → AreFresh root s
      → doc.uri ≡ uri
      → Keeps root (diagnosed m s uri doc)
  unfolding diagnosed
  diagnosed-Keeps root s uri doc fresh e =
      elim (Option-cases (collect_violations m (root_of m s) doc.path doc.text)) [
        | inl raised ↦ rw (diagnosed, raised) tt
        | inr (vs, found) ↦
            rw (diagnosed, found)
              (with_doc-AreFresh root s uri (record doc { violations = vs }) fresh
                (e, ap (λ r. collect_violations m r doc.path doc.text) (sym fresh.0) ∙ found))
      ]

  hover_at-Keeps :
      (root : FilePath) (s : ServerState) (id : Json) (uri : Option Text)
      (line character : Option ℤ)
      → AreFresh root s
      → Keeps root (hover_at m s id uri line character)
  unfolding hover_at
  hover_at-Keeps root s id none line character h = h
  hover_at-Keeps root s id (some uri) none character h = h
  hover_at-Keeps root s id (some uri) (some l) none h = h
  hover_at-Keeps root s id (some uri) (some l) (some c) h =
      elim (Option-cases (lookup uri s.docs)) [
        | inl e ↦ rw (hover_at, e) h
        | inr (doc, e) ↦
            rw (hover_at, e, refreshed_fresh root s uri doc h.0 (h.1 uri doc e))
              (with_doc-AreFresh root s uri doc h (h.1 uri doc e))
      ]

  actions_for-Keeps :
      (root : FilePath) (s : ServerState) (id : Json) (uri : Option Text)
      (diags : Option (List Json))
      → AreFresh root s
      → Keeps root (actions_for m s id uri diags)
  unfolding actions_for
  actions_for-Keeps root s id none diags h = h
  actions_for-Keeps root s id (some uri) none h = h
  actions_for-Keeps root s id (some uri) (some ds) h = elim (Option-cases (lookup uri s.docs)) [
    | inl e ↦ rw (actions_for, e) h
    | inr (doc, e) ↦
        rw (actions_for, e, refreshed_fresh root s uri doc h.0 (h.1 uri doc e))
          (with_doc-AreFresh root s uri doc h (h.1 uri doc e))
  ]

  opened-Keeps :
      (root : FilePath) (s : ServerState) (uri text : Option Text)
      → AreFresh root s
      → Keeps root (opened m s uri text)
  unfolding opened
  opened-Keeps root s none text h = h
  opened-Keeps root s (some uri) none h = h
  opened-Keeps root s (some uri) (some text) h = elim (Option-cases (uri_to_path m uri)) [
    | inl e ↦ rw (opened, e) h
    | inr (path, e) ↦
        rw (opened, e)
          (diagnosed-Keeps root s uri
            (record { uri = uri; path = path; text = text; violations = [] }) h refl)
  ]

  changed-Keeps :
      (root : FilePath) (s : ServerState) (uri : Text) (text : Option Text)
      → AreFresh root s
      → Keeps root (changed m s uri text)
  unfolding changed
  changed-Keeps root s uri none h = h
  changed-Keeps root s uri (some text) h = elim (Option-cases (lookup uri s.docs)) [
    | inr (doc, e) ↦
        rw (changed, e)
          (diagnosed-Keeps root s uri (record doc { text = text }) h (h.1 uri doc e).0)
    | inl e ↦ elim (Option-cases (uri_to_path m uri)) [
      | inl f ↦ rw (changed, e, f) h
      | inr (path, f) ↦
          rw (changed, e, f)
            (diagnosed-Keeps root s uri
              (record { uri = uri; path = path; text = text; violations = [] }) h refl)
    ]
  ]

  change_first-Keeps :
      (root : FilePath) (s : ServerState) (uri : Option Text) (changes : Option Json)
      → AreFresh root s
      → Keeps root (change_first m s uri changes)
  unfolding change_first
  change_first-Keeps root s none changes h = h
  change_first-Keeps root s (some uri) none h = h
  change_first-Keeps root s (some uri) (some j) h = elim (Bool-cases (is_falsy j)) [
    | inl e ↦ rw (change_first, e) h
    | inr e ↦ elim (Option-cases (first_item j)) [
      | inl f ↦ rw (change_first, e, f) tt
      | inr (first, f) ↦ rw (change_first, e, f) (changed-Keeps root s uri (change_text m first) h)
    ]
  ]

  saved-Keeps :
      (root : FilePath) (s : ServerState) (uri : Option Text)
      → AreFresh root s
      → Keeps root (saved m s uri)
  unfolding saved
  saved-Keeps root s none h = h
  saved-Keeps root s (some uri) h = elim (Option-cases (lookup uri s.docs)) [
    | inl e ↦ rw (saved, e) h
    | inr (doc, e) ↦ rw (saved, e) (diagnosed-Keeps root s uri doc h (h.1 uri doc e).0)
  ]

  module _ (root : FilePath) (s : ServerState) (params : Fields) (fresh : AreFresh root s) where
    on_hover-Keeps : (id : Json) → Keeps root (on_hover m s id params)
    unfolding on_hover
    on_hover-Keeps id = elim (Option-cases (dict_or_empty (get (codes "textDocument") params))) [
      | inl e ↦ rw (on_hover, e) tt
      | inr (td, e) ↦ elim (Option-cases (dict_or_empty (get (codes "position") params))) [
        | inl f ↦ rw (on_hover, e, f) tt
        | inr (place, f) ↦
            rw (on_hover, e, f)
              (hover_at-Keeps root s id (str_of (get (codes "uri") td))
                (int_of (get (codes "line") place)) (int_of (get (codes "character") place)) fresh)
      ]
    ]

    on_code_action-Keeps : (id : Json) → Keeps root (on_code_action m s id params)
    unfolding on_code_action
    on_code_action-Keeps id =
        elim (Option-cases (dict_or_empty (get (codes "textDocument") params))) [
          | inl e ↦ rw (on_code_action, e) tt
          | inr (td, e) ↦ elim (Option-cases (dict_or_empty (get (codes "context") params))) [
            | inl f ↦ rw (on_code_action, e, f) tt
            | inr (ctx, f) ↦
                rw (on_code_action, e, f)
                  (actions_for-Keeps root s id (str_of (get (codes "uri") td))
                    (list_or_empty m (get (codes "diagnostics") ctx)) fresh)
          ]
        ]

    on_did_open-Keeps : Keeps root (on_did_open m s params)
    unfolding on_did_open
    on_did_open-Keeps = elim (Option-cases (dict_or_empty (get (codes "textDocument") params))) [
      | inl e ↦ rw (on_did_open, e) tt
      | inr (td, e) ↦
          rw (on_did_open, e)
            (opened-Keeps root s (str_of (get (codes "uri") td)) (str_of (get (codes "text") td))
              fresh)
    ]

    on_did_change-Keeps : Keeps root (on_did_change m s params)
    unfolding on_did_change
    on_did_change-Keeps = elim (Option-cases (dict_or_empty (get (codes "textDocument") params))) [
      | inl e ↦ rw (on_did_change, e) tt
      | inr (td, e) ↦
          rw (on_did_change, e)
            (change_first-Keeps root s (str_of (get (codes "uri") td))
              (get (codes "contentChanges") params) fresh)
    ]

    on_did_save-Keeps : Keeps root (on_did_save m s params)
    unfolding on_did_save
    on_did_save-Keeps = elim (Option-cases (dict_or_empty (get (codes "textDocument") params))) [
      | inl e ↦ rw (on_did_save, e) tt
      | inr (td, e) ↦ rw (on_did_save, e) (saved-Keeps root s (str_of (get (codes "uri") td)) fresh)
    ]

  with_params-Keeps :
      (root : FilePath) (params : Option Fields) (handler : Fields → Outcome)
      → ((fs : Fields) → Keeps root (handler fs))
      → Keeps root (with_params m params handler)
  with_params-Keeps root none handler h = tt
  with_params-Keeps root (some fs) handler h = h fs

  dispatch-Keeps :
      (root : FilePath) (s : ServerState) (method : Text) (id : Json) (params : Option Fields)
      → (method == codes "initialize") ≡ false
      → AreFresh root s
      → Keeps root (dispatch m s method id params)
  unfolding dispatch
  dispatch-Keeps root s method id params other h = rw other (
      either (method == codes "shutdown") _ _ h (
        either (method == codes "exit") _ _ tt (
          either (method == codes "textDocument/hover") _ _
            (with_params-Keeps root params _ (λ fs. on_hover-Keeps root s fs h id))
            (either (method == codes "textDocument/codeAction") _ _
              (with_params-Keeps root params _ (λ fs. on_code_action-Keeps root s fs h id))
              (either (method == codes "textDocument/didOpen") _ _
                (with_params-Keeps root params _ (λ fs. on_did_open-Keeps root (rooted m s) fs h))
                (either (method == codes "textDocument/didChange") _ _
                  (with_params-Keeps root params _
                    (λ fs. on_did_change-Keeps root (rooted m s) fs h))
                  (either (method == codes "textDocument/didSave") _ _
                    (with_params-Keeps root params _
                      (λ fs. on_did_save-Keeps root (rooted m s) fs h))
                    h)))))))
    where
      either :
          (b : Bool) (x y : Outcome) → Keeps root x → Keeps root y → Keeps root (if b then x else y)
      either true x y p q = p
      either false x y p q = q

  -- `initialize` sets another root.
  abbrev pub is_initialize : Option Json → Bool
  unfolding text_eq
  is_initialize (some (str method)) = method == codes "initialize"
  is_initialize other = false

  by_method-Keeps :
      (root : FilePath) (s : ServerState) (method : Option Json) (id : Json)
      (params : Option Fields)
      → is_initialize method ≡ false
      → AreFresh root s
      → Keeps root (by_method m s method id params)
  unfolding by_method
  by_method-Keeps root s none id params h fresh = fresh
  by_method-Keeps root s (some null) id params h fresh = fresh
  by_method-Keeps root s (some (bool b)) id params h fresh = fresh
  by_method-Keeps root s (some (num n)) id params h fresh = fresh
  by_method-Keeps root s (some (float n)) id params h fresh = fresh
  by_method-Keeps root s (some (arr js)) id params h fresh = tt
  by_method-Keeps root s (some (obj fs)) id params h fresh = tt
  by_method-Keeps root s (some (str t)) id params h fresh =
      dispatch-Keeps root s t id params h fresh

  handle-Keeps :
      (root : FilePath) (s : ServerState) (msg : Fields)
      → is_initialize (get (codes "method") msg) ≡ false
      → AreFresh root s
      → Keeps root (handle m s msg)
  unfolding handle
  handle-Keeps root s msg h fresh =
      by_method-Keeps root s (get (codes "method") msg) (value_or_null (get (codes "id") msg))
        (dict_or_empty (get (codes "params") msg)) h fresh

  -- The states that a session reaches without another `initialize`.
  pub data Reaches (s : ServerState) : ServerState → Type 0 where
    starts : Reaches s s
    continues :
        {t : ServerState} (u : ServerState)
        → Reaches s t
        → (msg : Fields) (sent : List Json) → is_initialize (get (codes "method") msg) ≡ false
        → handle m t msg ≡ goes_on u sent
        → Reaches s u

  Reaches-AreFresh :
      (root : FilePath) (s t : ServerState) → AreFresh root s → Reaches s t → AreFresh root t
  Reaches-AreFresh root s t fresh starts = fresh
  Reaches-AreFresh root s t fresh (continues u before msg sent other e) =
      subst (Keeps root) e (handle-Keeps root _ msg other (Reaches-AreFresh root s _ fresh before))

  -- Whatever messages follow, other than another `initialize`, a document that the server keeps is
  -- stored under its own URI, and the violations kept with it are those that a detection on its
  -- present text in the project at the root finds.
  pub documents_fresh :
      (root : FilePath) (t : ServerState) (uri : Text) (doc : Document)
      → Reaches (record { project_root = some root; docs = [] }) t
      → lookup uri t.docs ≡ some doc
      → (doc.uri ≡ uri) × (collect_violations m root doc.path doc.text ≡ some doc.violations)
  documents_fresh root t uri doc reached e =
      (Reaches-AreFresh root (record { project_root = some root; docs = [] }) t (refl, no_documents)
          reached).1
        uri doc e
    where
      no_documents : (j : Text) (d : Document) → lookup j [] ≡ some d → IsFresh root j d
      no_documents j d e = unfold lookup in ground arith
