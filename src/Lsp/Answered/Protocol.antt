-- ===== src/Lsp/Answered/Protocol.antt =====
-- The messages of the protocol, and what it is to answer them.
use slopsentinel.Base.{
  select, ◌≢◌, is_nil, Bool-cases, inl, inr, Text, codes, text_eq, List, [], ◌∷◌, ◌++◌,
  append_assoc, Option, none, some, Bool, true, false, ◌&&◌, ◌||◌, not, ◌==◌, if◌then◌else◌, ◌≡◌,
  refl, sym, ◌∙◌, ap, arith,
}
use slopsentinel.Types.{FilePath, Violation}
use slopsentinel.Json.{Json, null, bool, num, float, str, arr, obj, nil, cons, Fields, end, get}
use slopsentinel.Lsp.Server.{
  Document, Machine, Detected, no_context, violations_found, detection_raises, collect_violations,
  lies_in, refreshed, root_of, ServerState, Outcome, goes_on, dict_or_empty, is_falsy, first_item,
  value_or_null, response, publish,
}

-- The ids of the responses among the messages sent: a notification has no result.
abbrev id_with : Option Json → Option Json → List Json
id_with none id = []
id_with (some result) id = value_or_null id ∷ []

abbrev ids_of : Json → List Json
unfolding get
ids_of (obj fs) = id_with (get (codes "result") fs) (get (codes "id") fs)
ids_of j = []

unfoldable pub answered : List Json → List Json
unfolding ids_of
answered [] = []
answered (j ∷ js) = ids_of j ++ answered js

abbrev pub is_request : Text → Bool
unfolding text_eq
is_request method =
    method == codes "initialize"
    || method == codes "shutdown"
    || method == codes "textDocument/hover"
    || method == codes "textDocument/codeAction"

-- The ids of the requests among the messages.
unfoldable pub requested : List Fields → List Json
unfolding get is_request
requested [] = []
requested (msg ∷ msgs) = elim (get (codes "method") msg) [
  | some (str method) ↦
      if is_request method
      then value_or_null (get (codes "id") msg) ∷ requested msgs
      else requested msgs
  | other ↦ requested msgs
]

-- Absent, empty or an object, as the protocol has it.
abbrev pub is_object : Option Json → Bool
is_object none = true
is_object (some (obj fs)) = true
is_object (some j) = is_falsy j

abbrev pub is_array : Option Json → Bool
is_array none = true
is_array (some (arr js)) = true
is_array (some j) = is_falsy j

abbrev pub well_formed_params : Option Fields → Bool
unfolding get
well_formed_params none = false
well_formed_params (some params) =
    is_object (get (codes "textDocument") params)
    && is_object (get (codes "position") params)
    && is_object (get (codes "context") params)
    && is_array (get (codes "workspaceFolders") params)
    && is_array (get (codes "contentChanges") params)

abbrev pub no_exit : Option Json → Bool
unfolding text_eq
no_exit (some (str method)) = not (method == codes "exit")
no_exit (some (arr js)) = false
no_exit (some (obj fs)) = false
no_exit other = true

-- A message of the protocol other than `exit`.
unfoldable pub well_formed : Fields → Bool
unfolding well_formed_params get no_exit
well_formed msg =
    no_exit (get (codes "method") msg)
    && well_formed_params (dict_or_empty (get (codes "params") msg))

-- The server goes on after it has answered these ids.
abbrev pub Answers : List Json → Outcome → Type 0
Answers ids o =
    (after : ServerState) × (sent : List Json) × (o ≡ goes_on after sent) × (answered sent ≡ ids)

pub object_dict :
    (o : Option Json) → is_object o ≡ true → (fs : Fields) × (dict_or_empty o ≡ some fs)
object_dict none h = (end, refl)
object_dict (some (obj fs)) h = (fs, refl)
object_dict (some null) h = (end, refl)
object_dict (some (bool b)) h = (end, rw h refl)
object_dict (some (num n)) h = (end, rw h refl)
object_dict (some (float n)) h = (end, rw h refl)
object_dict (some (str s)) h = (end, rw h refl)
object_dict (some (arr js)) h = (end, rw h refl)

pub first_of_array :
    (j : Json)
    → is_array (some j) ≡ true
    → is_falsy j ≡ false
    → (first : Json) × (first_item j ≡ some first)
first_of_array (arr nil) h k = ground arith
first_of_array (arr (cons j js)) h k = (j, refl)
first_of_array (obj fs) h k = ground arith
first_of_array null h k = ground arith
first_of_array (bool b) h k = ground arith
first_of_array (num n) h k = ground arith
first_of_array (float n) h k = ground arith
first_of_array (str s) h k = ground arith

pub answered-response : (id result : Json) → answered (response id result ∷ []) ≡ id ∷ []
unfolding answered response get text_eq
answered-response id result = refl

pub answered-publish :
    (uri : Text) (diagnostics : List Json) → answered (publish uri diagnostics ∷ []) ≡ []
unfolding answered publish get text_eq
answered-publish uri diagnostics = refl

pub Answers-one :
    (s : ServerState) (id result : Json) → Answers (id ∷ []) (goes_on s (response id result ∷ []))
Answers-one s id result = (s, response id result ∷ [], refl, answered-response id result)

pub answered-append : (xs ys : List Json) → answered (xs ++ ys) ≡ answered xs ++ answered ys
unfolding answered
answered-append [] ys = refl
answered-append (x ∷ xs) ys =
    ap (λ ids. ids_of x ++ ids) (answered-append xs ys)
    ∙ sym (append_assoc (ids_of x) (answered xs) (answered ys))

-- The engine raises no exception: the configuration of every project is valid, and its rules can be
-- registered.
abbrev pub NeverRaises : Machine → Type 0
NeverRaises m =
    (root path : FilePath) (text : Text) → m.detect_text root path text ≢ detection_raises

collected-found :
    (m : Machine) (root path : FilePath) (text : Text) (o : Detected)
    → m.detect_text root path text ≡ o
    → o ≢ detection_raises
    → (vs : List Violation) × (collect_violations m root path text ≡ some vs)
unfolding collect_violations
collected-found m root path text no_context e h = ([], rw (collect_violations, e) refl)
collected-found m root path text (violations_found vs) e h =
    (select (λ (v : Violation). lies_in m path v.location) vs, rw (collect_violations, e) refl)
collected-found m root path text detection_raises e h = absurd (h refl)

pub collected :
    (m : Machine) (root path : FilePath) (text : Text)
    → NeverRaises m
    → (vs : List Violation) × (collect_violations m root path text ≡ some vs)
collected m root path text h =
    collected-found m root path text (m.detect_text root path text) refl (h root path text)

pub refreshed-found :
    (m : Machine) (s : ServerState) (doc : Document)
    → NeverRaises m
    → (new : Document) × (refreshed m s doc ≡ some new)
unfolding refreshed
refreshed-found m s doc h = elim (Bool-cases (is_nil doc.violations)) [
  | inl empty ↦
      let (vs, e) = collected m (root_of m s) doc.path doc.text h in
      (record doc { violations = vs }, rw (refreshed, empty, e) refl)
  | inr full ↦ (doc, rw (refreshed, full) refl)
]
