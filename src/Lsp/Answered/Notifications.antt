-- ===== src/Lsp/Answered/Notifications.antt =====
-- No handler of a notification answers anything.
use slopsentinel.Base.{
  Text, codes, text_eq, [], Option, none, some, true, Bool-cases, Option-cases, inl, inr, ◌≡◌, refl,
}
use slopsentinel.Json.{Json, Fields, get, str_of}
use slopsentinel.Dict.{lookup}
use slopsentinel.Lsp.Server.{
  root_of, Document, ServerState, Machine, goes_on, is_falsy, on_did_open, on_did_change,
  on_did_save, opened, changed, change_first, change_text, saved, diagnosed, uri_to_path,
}
use slopsentinel.Lsp.Answered.Protocol.{
  NeverRaises, collected, answered, is_object, is_array, Answers, object_dict, first_of_array,
  answered-publish,
}

module _ (m : Machine) (sound : NeverRaises m) where
  diagnosed-Answers :
      (s : ServerState) (uri : Text) (doc : Document) → Answers [] (diagnosed m s uri doc)
  unfolding diagnosed
  diagnosed-Answers s uri doc =
      let (vs, e) = collected m (root_of m s) doc.path doc.text sound in
      rw (diagnosed, e) (_, _, refl, answered-publish doc.uri _)

  pub quiet : (s : ServerState) → Answers [] (goes_on s [])
  unfolding answered
  quiet s = (s, [], refl, refl)

  opened-Answers : (s : ServerState) (uri text : Option Text) → Answers [] (opened m s uri text)
  unfolding opened
  opened-Answers s none text = quiet s
  opened-Answers s (some uri) none = quiet s
  opened-Answers s (some uri) (some text) = elim (Option-cases (uri_to_path m uri)) [
    | inl e ↦ rw (opened, e) (quiet s)
    | inr (path, e) ↦
        rw (opened, e)
          (diagnosed-Answers s uri
            (record { uri = uri; path = path; text = text; violations = [] }))
  ]

  changed-Answers :
      (s : ServerState) (uri : Text) (text : Option Text) → Answers [] (changed m s uri text)
  unfolding changed
  changed-Answers s uri none = quiet s
  changed-Answers s uri (some text) = elim (Option-cases (lookup uri s.docs)) [
    | inr (doc, e) ↦ rw (changed, e) (diagnosed-Answers s uri (record doc { text = text }))
    | inl e ↦ elim (Option-cases (uri_to_path m uri)) [
      | inl f ↦ rw (changed, e, f) (quiet s)
      | inr (path, f) ↦
          rw (changed, e, f)
            (diagnosed-Answers s uri
              (record { uri = uri; path = path; text = text; violations = [] }))
    ]
  ]

  change_first-Answers :
      (s : ServerState) (uri : Option Text) (changes : Option Json)
      → is_array changes ≡ true
      → Answers [] (change_first m s uri changes)
  unfolding change_first
  change_first-Answers s none changes h = quiet s
  change_first-Answers s (some uri) none h = quiet s
  change_first-Answers s (some uri) (some j) h = elim (Bool-cases (is_falsy j)) [
    | inl e ↦ rw (change_first, e) (quiet s)
    | inr e ↦
        let first = first_of_array j h e in
        rw (change_first, e, first.1) (changed-Answers s uri (change_text m first.0))
  ]

  saved-Answers : (s : ServerState) (uri : Option Text) → Answers [] (saved m s uri)
  unfolding saved
  saved-Answers s none = quiet s
  saved-Answers s (some uri) = elim (Option-cases (lookup uri s.docs)) [
    | inl e ↦ rw (saved, e) (quiet s)
    | inr (doc, e) ↦ rw (saved, e) (diagnosed-Answers s uri doc)
  ]

  pub on_did_open-Answers :
      (s : ServerState) (params : Fields)
      → is_object (get (codes "textDocument") params) ≡ true
      → Answers [] (on_did_open m s params)
  unfolding on_did_open
  on_did_open-Answers s params h =
      let td = object_dict (get (codes "textDocument") params) h in
      rw (on_did_open, td.1)
        (opened-Answers s (str_of (get (codes "uri") td.0)) (str_of (get (codes "text") td.0)))

  pub on_did_change-Answers :
      (s : ServerState) (params : Fields)
      → is_object (get (codes "textDocument") params) ≡ true
      → is_array (get (codes "contentChanges") params) ≡ true
      → Answers [] (on_did_change m s params)
  unfolding on_did_change
  on_did_change-Answers s params h k =
      let td = object_dict (get (codes "textDocument") params) h in
      rw (on_did_change, td.1)
        (change_first-Answers s (str_of (get (codes "uri") td.0))
          (get (codes "contentChanges") params) k)

  pub on_did_save-Answers :
      (s : ServerState) (params : Fields)
      → is_object (get (codes "textDocument") params) ≡ true
      → Answers [] (on_did_save m s params)
  unfolding on_did_save
  on_did_save-Answers s params h =
      let td = object_dict (get (codes "textDocument") params) h in
      rw (on_did_save, td.1) (saved-Answers s (str_of (get (codes "uri") td.0)))
