-- ===== src/Baseline/File.antt =====
-- The baseline file: `load_baseline` and `save_baseline`, over the JSON value of the file.
use slopsentinel.Base.{
  ◌+◌, Text, codes, text_eq, List, [], ◌∷◌, ◌++◌, Option, none, some, Bool, true, false, ◌||◌,
  if◌then◌else◌, ◌==◌, ℤ, pos, pos_part, neg_part, int_eq, is_nil, strip, text_leb, leb, sort, map,
  eqb,
}
use slopsentinel.Json.{
  Json, null, bool, num, float, str, arr, obj, Fields, end, field, get, to_list, items_of, int_of,
  str_of,
}
use slopsentinel.Baseline.{FileEntry, RepoEntry, Baseline, canonical}

-- A `BaselineError`, or the `TypeError` of `version not in {1, 2}` at a list or an object.
pub data LoadError : Type 0 where
  baseline_error type_error : LoadError

pub data Loaded (A : Type 0) : Type 0 where
  ok : A → Loaded A
  raise : LoadError → Loaded A

-- `version in {1, 2}`: `True` and the floats 1.0 and 2.0 equal such an integer.
unfoldable pub supported_version : Option Json → Loaded Bool
supported_version none = ok false
supported_version (some null) = ok false
supported_version (some (bool b)) = ok b
supported_version (some (num n)) = ok (n == pos 1 || n == pos 2)
supported_version (some (float bits)) =
    ok (eqb bits 0x3ff0000000000000 || eqb bits 0x4000000000000000)
supported_version (some (str s)) = ok false
supported_version (some (arr items)) = raise type_error
supported_version (some (obj fs)) = raise type_error

-- `fp.strip() if isinstance(fp, str) else ""`
abbrev fingerprint_of : Option Text → Text
fingerprint_of none = []
fingerprint_of (some t) = strip t

unfoldable pub add_message : Text → Option Text → Baseline → Baseline
add_message rule none b = b
add_message rule (some message) b = record b {
  repo_entries = record { rule_id = rule; message = message } ∷ b.repo_entries;
}

-- An item with a rule id: a file entry if it has a path and a line, else a message.
unfoldable pub add_entry : Text → Option Text → Option ℤ → Fields → Baseline → Baseline
unfolding add_message get
add_entry rule (some path) (some line) fs b = record b {
  file_entries =
      record {
        rule_id = rule;
        path = path;
        line = line;
        fingerprint = fingerprint_of (str_of (get (codes "fingerprint") fs));
      }
      ∷ b.file_entries;
}
add_entry rule (some path) none fs b = add_message rule (str_of (get (codes "message") fs)) b
add_entry rule none line fs b = add_message rule (str_of (get (codes "message") fs)) b

unfoldable pub add_named : Option Text → Fields → Baseline → Baseline
unfolding add_entry
add_named none fs b = b
add_named (some rule_id) fs b =
    if is_nil rule_id
    then b
    else add_entry (canonical rule_id) (str_of (get (codes "path") fs))
        (int_of (get (codes "line") fs)) fs b

unfoldable pub add_item : Json → Baseline → Baseline
unfolding add_named
add_item (obj fs) b = add_named (str_of (get (codes "rule_id") fs)) fs b
add_item _ b = b

-- The loop over the items; a set does not tell in which order they were added.
unfoldable pub add_items : List Json → Baseline
unfolding add_item
add_items [] = record { file_entries = []; repo_entries = [] }
add_items (item ∷ items) = add_item item (add_items items)

unfoldable pub load_entries : Option Json → Loaded Baseline
unfolding add_items
load_entries none = ok (add_items [])
load_entries (some (arr items)) = ok (add_items (to_list items))
load_entries (some _) = raise baseline_error

unfoldable pub check_version : Loaded Bool → Loaded Baseline → Loaded Baseline
check_version (raise e) rest = raise e
check_version (ok false) rest = raise baseline_error
check_version (ok true) rest = rest

-- `none` is a file that cannot be read or is no JSON.
unfoldable pub load_baseline : Option Json → Loaded Baseline
unfolding supported_version load_entries check_version get
load_baseline (some (obj fs)) =
    check_version (supported_version (get (codes "version") fs))
      (load_entries (get (codes "entries") fs))
load_baseline _ = raise baseline_error

-- The order of tuples.
abbrev leb_ℤ : ℤ → ℤ → Bool
leb_ℤ a b = leb (pos_part a + neg_part b) (pos_part b + neg_part a)

unfoldable pub entry_leb : FileEntry → FileEntry → Bool
unfolding text_leb
entry_leb e f =
    if e.rule_id == f.rule_id
    then (if e.path == f.path
        then (if e.line == f.line
            then text_leb e.fingerprint f.fingerprint
            else leb_ℤ e.line f.line)
        else text_leb e.path f.path)
    else text_leb e.rule_id f.rule_id

unfoldable pub message_leb : RepoEntry → RepoEntry → Bool
unfolding text_leb
message_leb e f =
    if e.rule_id == f.rule_id then text_leb e.message f.message else text_leb e.rule_id f.rule_id

unfoldable pub entry_json : FileEntry → Json
entry_json e =
    let rest =
      if is_nil e.fingerprint then end else field (codes "fingerprint") (str e.fingerprint) end in
    obj (
      field (codes "rule_id") (str e.rule_id)
        (field (codes "path") (str e.path) (field (codes "line") (num e.line) rest)))

unfoldable pub message_json : RepoEntry → Json
message_json e =
    obj (field (codes "rule_id") (str e.rule_id) (field (codes "message") (str e.message) end))

-- The JSON value that `save_baseline` writes, with the time as a parameter.
unfoldable pub save_baseline : Text → Baseline → Json
unfolding entry_leb message_leb entry_json message_json sort
save_baseline now b = obj (
    field (codes "version") (num (pos 2)) (
      field (codes "generated_at") (str now) (
        field (codes "entries")
          (arr (
            items_of (
              map entry_json (sort entry_leb b.file_entries)
              ++ map message_json (sort message_leb b.repo_entries))))
          end)))
