-- ===== src/Lsp/Server.antt =====
-- src/slopsentinel/lsp.py: the state of the server and the answer to each message. `none` stands for
-- an exception, which ends the server.
use slopsentinel.Base.{
  Text, codes, text_eq, texts_eq, List, [], ◌∷◌, ◌++◌, Option, none, some, Bool, true, false, ◌||◌,
  not, ◌==◌, if◌then◌else◌, length, select, contains, is_nil, eqb, ℤ, pos, sort, text_leb,
  starts_with, splitlines,
}
use slopsentinel.Types.{FilePath, Location, Violation, RuleMeta}
use slopsentinel.Json.{
  Json, null, bool, num, float, str, arr, obj, nil, cons, Fields, end, field, get, to_list,
  items_of, int_of, str_of,
}
use slopsentinel.Dict.{Dict, lookup, insert}
use slopsentinel.Cache.Serial.{parse_path}
use slopsentinel.Autofix.Merge.{distinct}
use slopsentinel.Autofix.Plan.{apply_fixes}
use slopsentinel.Autofix.Syntax
use slopsentinel.Lsp.Ranges.{
  range_for_violation, range_json, position_json, violations_to_diagnostics,
  find_violation_at_position, hover_text, RuleExample,
}

pub record Document : Type 0 where
  pub uri : Text
  pub path : FilePath
  pub text : Text
  pub violations : List Violation

pub record ServerState : Type 0 where
  pub project_root : Option FilePath
  pub docs : Dict Document

-- What the engine does with one text: the file has no context, the violations that it finds, or an
-- exception, of a configuration that is not valid or of rules that cannot be registered.
pub data Detected : Type 0 where
  no_context : Detected
  violations_found : List Violation → Detected
  detection_raises : Detected

-- What the server calls: the file system, the parser of URIs (`none` for its `ValueError`), the
-- engine on one text under a project's configuration, the rules' metadata and examples, and Python.
pub record Machine : Type 0 where
  pub cwd : FilePath
  pub resolve : FilePath → FilePath
  pub urlparse : Text → Option (Text × Text)
  pub unquote : Text → Text
  pub detect_text : FilePath → FilePath → Text → Detected
  pub rule_meta : Dict RuleMeta
  pub examples : Dict RuleExample
  pub python : Syntax.Python

-- `not value`
abbrev pub is_falsy : Json → Bool
is_falsy null = true
is_falsy (bool b) = not b
is_falsy (num (pos n)) = eqb n 0
is_falsy (num n) = false
is_falsy (float bits) = eqb bits 0 || eqb bits 0x8000000000000000
is_falsy (str s) = is_nil s
is_falsy (arr nil) = true
is_falsy (arr (cons j js)) = false
is_falsy (obj end) = true
is_falsy (obj (field k j fs)) = false

-- `d.get(key) or {}`, on which `get` is called next
abbrev pub dict_or_empty : Option Json → Option Fields
dict_or_empty none = some end
dict_or_empty (some (obj fs)) = some fs
dict_or_empty (some j) = if is_falsy j then some end else none

-- `value[0]` of a value that is not falsy
abbrev pub first_item : Json → Option Json
first_item (arr (cons j js)) = some j
first_item (str (c ∷ s)) = some (str (c ∷ []))
first_item j = none

-- `a or b`
abbrev pub or_else : Option Json → Option Json → Option Json
or_else none b = b
or_else (some a) b = if is_falsy a then b else some a

abbrev pub value_or_null : Option Json → Json
value_or_null none = null
value_or_null (some j) = j

abbrev pub or_path : Option FilePath → FilePath → FilePath
or_path none p = p
or_path (some q) p = q

-- What the first workspace folder names.
unfoldable pub folder_root : Json → Option Json
unfolding get
folder_root (obj fs) = or_else (get (codes "uri") fs) (get (codes "path") fs)
folder_root j = none

-- The answer to the request `id`.
unfoldable pub response : Json → Json → Json
response id result = obj (
    field (codes "jsonrpc") (str (codes "2.0"))
      (field (codes "id") id (field (codes "result") result end)))

-- `publishDiagnostics` for a document
unfoldable pub publish : Text → List Json → Json
publish uri diagnostics = obj (
    field (codes "jsonrpc") (str (codes "2.0")) (
      field (codes "method") (str (codes "textDocument/publishDiagnostics")) (
        field (codes "params")
          (obj (
            field (codes "uri") (str uri)
              (field (codes "diagnostics") (arr (items_of diagnostics)) end)))
          end)))

-- What a message leaves, and what is sent.
pub data Outcome : Type 0 where
  goes_on : ServerState → List Json → Outcome
  stops : Outcome
  raises : Outcome

-- `_FIXABLE_RULE_IDS`
unfoldable pub supported_rule_ids : List Text
supported_rule_ids =
    codes "A03"
    ∷ codes "A04"
    ∷ codes "A06"
    ∷ codes "A10"
    ∷ codes "C09"
    ∷ codes "D01"
    ∷ codes "E03"
    ∷ codes "E04"
    ∷ codes "E06"
    ∷ codes "E09"
    ∷ codes "E11"
    ∷ []

module _ (m : Machine) where
  -- `uri_to_path`
  unfoldable pub uri_to_path : Text → Option FilePath
  unfolding parse_path text_eq
  uri_to_path uri = elim (m.urlparse uri) [
    | none ↦ none
    | some (scheme, path) ↦
        if scheme == codes "file" then some (parse_path (m.unquote path)) else none
  ]

  -- Whether a violation lies in the file at `path`.
  unfoldable pub lies_in : FilePath → Option Location → Bool
  unfolding texts_eq
  lies_in path none = false
  lies_in path (some l) = elim l.path [ none ↦ false | some p ↦ m.resolve p == m.resolve path ]

  -- `_collect_violations`, `none` for an exception
  unfoldable pub collect_violations : FilePath → FilePath → Text → Option (List Violation)
  unfolding lies_in
  collect_violations root path text = elim (m.detect_text root path text) [
    | no_context ↦ some []
    | violations_found vs ↦ some (select (λ (v : Violation). lies_in path v.location) vs)
    | detection_raises ↦ none
  ]

  -- `project_root or Path.cwd()`
  abbrev pub root_of : ServerState → FilePath
  root_of s = or_path s.project_root m.cwd

  -- The root that `initialize` takes from its parameters; `none` outside is an exception, inside it
  -- stands for a root that is not set.
  unfoldable pub root_from : Option FilePath → Option Json → Option FilePath
  unfolding uri_to_path starts_with parse_path
  root_from old (some (str s)) =
      if starts_with s (codes "file:")
      then uri_to_path s
      else if is_nil s
      then old
      else some (parse_path s)
  root_from old candidate = old

  unfoldable pub folder_candidate : Option Json → Option (Option Json)
  unfolding folder_root
  folder_candidate none = some none
  folder_candidate (some folders) =
      if is_falsy folders
      then some none
      else elim (first_item folders) [ none ↦ none | some first ↦ some (folder_root first) ]

  -- `candidate`: a `null` is `None`
  unfoldable pub root_candidate : Fields → Option (Option Json)
  unfolding folder_candidate get
  root_candidate params =
      elim (or_else (get (codes "rootUri") params) (get (codes "rootPath") params)) [
        | none ↦ folder_candidate (get (codes "workspaceFolders") params)
        | some null ↦ folder_candidate (get (codes "workspaceFolders") params)
        | some j ↦ some (some j)
      ]

  unfoldable pub capabilities : Json
  capabilities = obj (
      field (codes "capabilities")
        (obj (
          field (codes "textDocumentSync") (num (pos 1)) (
            field (codes "hoverProvider") (bool true)
              (field (codes "codeActionProvider") (bool true) end))))
        end)

  unfoldable pub on_initialize : ServerState → Json → Fields → Outcome
  unfolding root_candidate root_from response capabilities
  on_initialize s id params = elim (root_candidate params) [
    | none ↦ raises
    | some candidate ↦
        goes_on
          (record {
            project_root = some (or_path (root_from s.project_root candidate) m.cwd);
            docs = s.docs;
          })
          (response id capabilities ∷ [])
  ]

  abbrev pub with_violations : Document → Option (List Violation) → Option Document
  with_violations doc none = none
  with_violations doc (some vs) = some (record doc { violations = vs })

  -- A document whose violations are collected if it has none.
  unfoldable pub refreshed : ServerState → Document → Option Document
  unfolding collect_violations
  refreshed s doc =
      if is_nil doc.violations
      then with_violations doc (collect_violations (root_of s) doc.path doc.text)
      else some doc

  abbrev pub with_doc : ServerState → Text → Document → ServerState
  with_doc s uri doc = record { project_root = s.project_root; docs = insert uri doc s.docs }

  -- The result of a hover over a violation.
  unfoldable pub hover_result : Text → Option Violation → Json
  unfolding hover_text range_for_violation range_json lookup
  hover_result text none = null
  hover_result text (some v) = elim (lookup v.rule_id m.rule_meta) [
    | none ↦ null
    | some meta ↦ obj (
        field (codes "contents")
          (obj (
            field (codes "kind") (str (codes "markdown")) (
              field (codes "value") (str (hover_text meta (lookup meta.rule_id m.examples) v))
                end)))
          (elim (range_for_violation v text) [
            | none ↦ end
            | some r ↦ field (codes "range") (range_json r) end
          ]))
  ]

  unfoldable pub hover_at : ServerState → Json → Option Text → Option ℤ → Option ℤ → Outcome
  unfolding response refreshed hover_result find_violation_at_position lookup insert
  hover_at s id (some uri) (some line0) (some character0) = elim (lookup uri s.docs) [
    | none ↦ goes_on s (response id null ∷ [])
    | some doc ↦ elim (refreshed s doc) [
      | none ↦ raises
      | some doc' ↦ goes_on (with_doc s uri doc') (
          response id (
            hover_result doc'.text
              (find_violation_at_position doc'.violations doc'.text (line0, character0)))
          ∷ [])
    ]
  ]
  hover_at s id uri line0 character0 = goes_on s (response id null ∷ [])

  unfoldable pub on_hover : ServerState → Json → Fields → Outcome
  unfolding hover_at get
  on_hover s id params = elim (dict_or_empty (get (codes "textDocument") params)) [
    | none ↦ raises
    | some td ↦ elim (dict_or_empty (get (codes "position") params)) [
      | none ↦ raises
      | some place ↦
          hover_at s id (str_of (get (codes "uri") td)) (int_of (get (codes "line") place))
            (int_of (get (codes "character") place))
    ]
  ]

  abbrev code_of : Json → List Text
  unfolding get
  code_of (obj fs) = elim (str_of (get (codes "code") fs)) [ none ↦ [] | some c ↦ c ∷ [] ]
  code_of j = []

  -- `diag_codes`
  unfoldable pub diag_codes : List Json → List Text
  unfolding code_of
  diag_codes [] = []
  diag_codes (j ∷ js) = code_of j ++ diag_codes js

  -- `requested_fixable`
  unfoldable pub requested_fixable : List Json → List Text
  unfolding diag_codes distinct sort text_leb text_eq supported_rule_ids
  requested_fixable diags =
      sort text_leb (select (contains supported_rule_ids) (distinct (diag_codes diags)))

  -- `_full_document_edit`
  unfoldable pub full_document_edit : Text → Text → Text → Json
  unfolding splitlines
  full_document_edit uri old_text new_text = obj (
      field (codes "changes")
        (obj (
          field uri
            (arr (
              cons
                (obj (
                  field (codes "range")
                    (obj (
                      field (codes "start") (position_json 0 0)
                        (field (codes "end") (position_json (length (splitlines old_text)) 0) end)))
                    (field (codes "newText") (str new_text) end)))
                nil))
            end))
        end)

  unfoldable pub quick_fix : Document → Text → Text → List Json
  unfolding full_document_edit text_eq
  quick_fix doc uri new_text =
      if new_text == doc.text
      then []
      else obj (
          field (codes "title") (str (codes "SlopSentinel: Apply safe fixes")) (
            field (codes "kind") (str (codes "quickfix")) (
              field (codes "isPreferred") (bool true)
                (field (codes "edit") (full_document_edit uri doc.text new_text) end))))
        ∷ []

  -- `actions`
  unfoldable pub code_actions : Document → Text → List Text → List Json
  unfolding quick_fix apply_fixes text_eq
  code_actions doc uri requested =
      (if is_nil requested
        then []
        else quick_fix doc uri (
            apply_fixes m.python doc.path doc.text
              (select (λ (v : Violation). contains requested v.rule_id) doc.violations)))
      ++ obj (
          field (codes "title") (str (codes "Organize Imports"))
            (field (codes "kind") (str (codes "source.organizeImports")) end))
        ∷ []

  unfoldable pub actions_for : ServerState → Json → Option Text → Option (List Json) → Outcome
  unfolding response refreshed code_actions requested_fixable lookup insert
  actions_for s id (some uri) (some diags) = elim (lookup uri s.docs) [
    | none ↦ goes_on s (response id (arr nil) ∷ [])
    | some doc ↦ elim (refreshed s doc) [
      | none ↦ raises
      | some doc' ↦
          goes_on (with_doc s uri doc')
            (response id (arr (items_of (code_actions doc' uri (requested_fixable diags)))) ∷ [])
    ]
  ]
  actions_for s id uri diags = goes_on s (response id (arr nil) ∷ [])

  -- `ctx.get("diagnostics") or []`, `none` for a value that is no list
  abbrev pub list_or_empty : Option Json → Option (List Json)
  list_or_empty none = some []
  list_or_empty (some (arr js)) = some (to_list js)
  list_or_empty (some j) = if is_falsy j then some [] else none

  unfoldable pub on_code_action : ServerState → Json → Fields → Outcome
  unfolding actions_for get
  on_code_action s id params = elim (dict_or_empty (get (codes "textDocument") params)) [
    | none ↦ raises
    | some td ↦ elim (dict_or_empty (get (codes "context") params)) [
      | none ↦ raises
      | some ctx ↦
          actions_for s id (str_of (get (codes "uri") td))
            (list_or_empty (get (codes "diagnostics") ctx))
    ]
  ]

  -- The root is the current directory from the first document on, if none is set.
  abbrev pub rooted : ServerState → ServerState
  rooted s = record { project_root = some (root_of s); docs = s.docs }

  -- `_diagnose_document`, and the message with its result
  unfoldable pub diagnosed : ServerState → Text → Document → Outcome
  unfolding collect_violations violations_to_diagnostics publish insert
  diagnosed s uri doc = elim (collect_violations (root_of s) doc.path doc.text) [
    | none ↦ raises
    | some violations ↦
        goes_on (with_doc s uri (record doc { violations = violations }))
          (publish doc.uri (violations_to_diagnostics violations doc.text) ∷ [])
  ]

  unfoldable pub opened : ServerState → Option Text → Option Text → Outcome
  unfolding uri_to_path diagnosed
  opened s (some uri) (some text) = elim (uri_to_path uri) [
    | none ↦ goes_on s []
    | some path ↦ diagnosed s uri (record { uri = uri; path = path; text = text; violations = [] })
  ]
  opened s uri text = goes_on s []

  unfoldable pub on_did_open : ServerState → Fields → Outcome
  unfolding opened get
  on_did_open s params = elim (dict_or_empty (get (codes "textDocument") params)) [
    | none ↦ raises
    | some td ↦ opened s (str_of (get (codes "uri") td)) (str_of (get (codes "text") td))
  ]

  unfoldable pub changed : ServerState → Text → Option Text → Outcome
  unfolding uri_to_path diagnosed lookup
  changed s uri none = goes_on s []
  changed s uri (some text) = elim (lookup uri s.docs) [
    | some doc ↦ diagnosed s uri (record doc { text = text })
    | none ↦ elim (uri_to_path uri) [
      | none ↦ goes_on s []
      | some path ↦
          diagnosed s uri (record { uri = uri; path = path; text = text; violations = [] })
    ]
  ]

  -- `change0.get("text") if isinstance(change0, dict) else None`
  abbrev pub change_text : Json → Option Text
  unfolding get
  change_text (obj fs) = str_of (get (codes "text") fs)
  change_text j = none

  unfoldable pub change_first : ServerState → Option Text → Option Json → Outcome
  unfolding changed get
  change_first s none changes = goes_on s []
  change_first s (some uri) none = goes_on s []
  change_first s (some uri) (some changes) =
      if is_falsy changes
      then goes_on s []
      else elim (first_item changes) [ none ↦ raises | some j ↦ changed s uri (change_text j) ]

  unfoldable pub on_did_change : ServerState → Fields → Outcome
  unfolding change_first get
  on_did_change s params = elim (dict_or_empty (get (codes "textDocument") params)) [
    | none ↦ raises
    | some td ↦ change_first s (str_of (get (codes "uri") td)) (get (codes "contentChanges") params)
  ]

  unfoldable pub saved : ServerState → Option Text → Outcome
  unfolding diagnosed lookup
  saved s none = goes_on s []
  saved s (some uri) = elim (lookup uri s.docs) [
    | none ↦ goes_on s []
    | some doc ↦ diagnosed s uri doc
  ]

  unfoldable pub on_did_save : ServerState → Fields → Outcome
  unfolding saved get
  on_did_save s params = elim (dict_or_empty (get (codes "textDocument") params)) [
    | none ↦ raises
    | some td ↦ saved s (str_of (get (codes "uri") td))
  ]

  -- `params.get`, where the parameters may be no object
  abbrev pub with_params : Option Fields → (Fields → Outcome) → Outcome
  with_params none handler = raises
  with_params (some params) handler = handler params

  -- The tests of a method that is a text.
  unfoldable pub dispatch : ServerState → Text → Json → Option Fields → Outcome
  unfolding on_initialize on_hover on_code_action on_did_open on_did_change on_did_save response
      text_eq
  dispatch s method id params =
      if method == codes "initialize"
      then with_params params (on_initialize s id)
      else if method == codes "shutdown"
      then goes_on s (response id null ∷ [])
      else if method == codes "exit"
      then stops
      else if method == codes "textDocument/hover"
      then with_params params (on_hover s id)
      else if method == codes "textDocument/codeAction"
      then with_params params (on_code_action s id)
      else if method == codes "textDocument/didOpen"
      then with_params params (on_did_open (rooted s))
      else if method == codes "textDocument/didChange"
      then with_params params (on_did_change (rooted s))
      else if method == codes "textDocument/didSave"
      then with_params params (on_did_save (rooted s))
      else goes_on s []

  -- A method that is an array or an object has no hash; one that is no text is unknown.
  unfoldable pub by_method : ServerState → Option Json → Json → Option Fields → Outcome
  unfolding dispatch
  by_method s (some (str method)) id params = dispatch s method id params
  by_method s (some (arr js)) id params = raises
  by_method s (some (obj fs)) id params = raises
  by_method s method id params = goes_on s []

  -- One round of the loop of `run_stdio_server`.
  unfoldable pub handle : ServerState → Fields → Outcome
  unfolding by_method get
  handle s msg =
      by_method s (get (codes "method") msg) (value_or_null (get (codes "id") msg))
        (dict_or_empty (get (codes "params") msg))

  -- The loop, over the messages that are read; what was sent stays sent when it ends.
  unfoldable pub run_server : ServerState → List Fields → List Json
  unfolding handle
  run_server s [] = []
  run_server s (msg ∷ msgs) = elim (handle s msg) [
    | goes_on after sent ↦ sent ++ run_server after msgs
    | stops ↦ []
    | raises ↦ []
  ]
