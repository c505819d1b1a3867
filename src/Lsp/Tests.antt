-- ===== src/Lsp/Tests.antt =====
-- A session with the language server.
use slopsentinel.Base.{
  subst, ℕ, Text, codes, text_eq, texts_eq, List, [], ◌∷◌, Option, none, some, ℤ, pos, ◌≡◌, refl,
}
use slopsentinel.Types.{Violation, Severity, Dimension}
use slopsentinel.Json.{Json, null, num, str, obj, Fields, end, field, get}
use slopsentinel.Dict.{lookup}
use slopsentinel.Lsp.Ranges.{find_violation_at_position}
use slopsentinel.Lsp.Server.{
  Detected, violations_found, detection_raises, response, capabilities, Document, ServerState,
  Machine, publish, handle, run_server, collect_violations,
}
use slopsentinel.Lsp.Nearest.{IsNearest, find_violation_at_position-IsNearest}
use slopsentinel.Lsp.Answered.{run_server-answered}
use slopsentinel.Lsp.Answered.Protocol.{NeverRaises, answered, requested, well_formed}
use slopsentinel.Lsp.Coherent.{starts, continues, documents_fresh}

abbrev at : ℕ → Option ℤ → Option ℤ → Violation
at line end_line end_col = record {
  rule_id = codes "E07";
  severity = Severity.warn;
  message = codes "deep";
  dimension = Dimension.quality;
  suggestion = none;
  location = some (record {
    path = some (codes "/" ∷ codes "a.py" ∷ []);
    start_line = some line;
    start_col = none;
    end_line = end_line;
    end_col = end_col;
  });
}

abbrev a_machine : Machine
a_machine = record {
  cwd = codes "/" ∷ [];
  resolve = λ p. p;
  urlparse = λ uri. some (codes "file", codes "/a.py");
  unquote = λ t. t;
  detect_text = λ root path text. violations_found (at 1 none none ∷ []);
  rule_meta = [];
  examples = [];
  python = record {
    parse = λ text. none;
    generate_tokens = λ text. none;
    literal_eval = λ text. none;
    repr = λ text. text;
  };
}

abbrev text_document : Fields → Fields
text_document fs = field (codes "textDocument") (obj fs) end

abbrev message : Text → Json → Fields → Fields
message method id params =
    field (codes "id") id
      (field (codes "method") (str method) (field (codes "params") (obj params) end))

abbrev uri : Text
uri = codes "file:///a.py"

abbrev open_message : Fields
open_message =
    message (codes "textDocument/didOpen") null
      (text_document (field (codes "uri") (str uri) (field (codes "text") (str (codes "x\n")) end)))

abbrev hover_message : Fields
hover_message = message (codes "textDocument/hover") (num (pos 7)) (
    field (codes "textDocument") (obj (field (codes "uri") (str uri) end)) (
      field (codes "position")
        (obj (field (codes "line") (num (pos 0)) (field (codes "character") (num (pos 0)) end)))
        end))

abbrev session : List Fields
session =
    message (codes "initialize") (num (pos 1)) (field (codes "rootPath") (str (codes "/")) end)
    ∷ open_message
    ∷ hover_message
    ∷ message (codes "shutdown") (num (pos 9)) end
    ∷ []

abbrev not_started : ServerState
not_started = record { project_root = none; docs = [] }

IsFound : Detected → Type 0
IsFound (violations_found vs) = Unit
IsFound other = ⊥

a_machine-NeverRaises : NeverRaises a_machine
unfolding IsFound
a_machine-NeverRaises root path text e = subst IsFound e tt

-- A configuration that is not valid ends the server before the answer.
abbrev broken : Machine
broken = record a_machine { detect_text = λ root path text. detection_raises }

invalid_config_ends :
    run_server broken not_started session ≡ response (num (pos 1)) (capabilities broken) ∷ []
unfolding run_server text_eq get
invalid_config_ends = refl

run_server-answered_example :
    answered (run_server a_machine not_started session) ≡ requested session
unfolding well_formed get text_eq
run_server-answered_example =
    run_server-answered a_machine a_machine-NeverRaises not_started session
      (refl, (refl, (refl, (refl, tt))))

requested_runs : requested session ≡ num (pos 1) ∷ num (pos 7) ∷ num (pos 9) ∷ []
unfolding requested
requested_runs = refl

abbrev a_document : Document
a_document = record {
  uri = uri;
  path = codes "/" ∷ codes "a.py" ∷ [];
  text = codes "x\n";
  violations = at 1 none none ∷ [];
}

abbrev opened_state : ServerState
opened_state = record { project_root = some (codes "/" ∷ []); docs = (uri, a_document) ∷ [] }

abbrev sent_on_open : List Json
sent_on_open =
    publish uri (
      obj (
        field (codes "range")
          (obj (
            field (codes "start")
              (obj
                (field (codes "line") (num (pos 0)) (field (codes "character") (num (pos 0)) end)))
              (field (codes "end")
                (obj (
                  field (codes "line") (num (pos 0)) (field (codes "character") (num (pos 1)) end)))
                end)))
          (field (codes "severity") (num (pos 2)) (
            field (codes "code") (str (codes "E07")) (
              field (codes "source") (str (codes "slopsentinel"))
                (field (codes "message") (str (codes "deep")) end)))))
      ∷ [])
    ∷ []

documents_fresh_example :
    (a_document.uri ≡ uri)
    × (collect_violations a_machine (codes "/" ∷ []) a_document.path a_document.text
        ≡ some a_document.violations)
unfolding handle publish get text_eq texts_eq lookup
documents_fresh_example =
    documents_fresh a_machine (codes "/" ∷ []) opened_state uri a_document
      (continues opened_state starts open_message sent_on_open refl refl) refl

abbrev three : List Violation
three = at 1 (some (pos 9)) none ∷ at 2 (some (pos 3)) (some (pos 4)) ∷ at 7 none none ∷ []

find_runs :
    find_violation_at_position three (codes "ab\ncd\nef\n") (pos 2, pos 1)
    ≡ some (at 2 (some (pos 3)) (some (pos 4)))
unfolding find_violation_at_position native.Mathlib.Decide.ℕ_discrete
find_runs = refl

find_violation_at_position-IsNearest_example :
    IsNearest
      (codes "ab\ncd\nef\n")
      (pos 2, pos 1)
      three
      (find_violation_at_position three (codes "ab\ncd\nef\n") (pos 2, pos 1))
find_violation_at_position-IsNearest_example =
    find_violation_at_position-IsNearest (codes "ab\ncd\nef\n") (pos 2, pos 1) three
