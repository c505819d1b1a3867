-- ===== src/Languages.antt =====
-- src/slopsentinel/languages/registry.py: the supported languages and the detection by suffix.
mod Allowed
mod Tests
use slopsentinel.Base.{
  Text, codes, text_eq, List, [], ◌∷◌, ◌++◌, Option, Bool, true, false, ◌&&◌, ◌==◌, if◌then◌else◌,
  map, contains, strip, lower, is_nil, eqb, ends_with,
}
use slopsentinel.Types.{FilePath}
use slopsentinel.Dict.{Dict, lookup, insert}

pub record LanguageSpec : Type 0 where
  pub name : Text
  pub extensions : List Text

abbrev language : Text → List Text → LanguageSpec
language name extensions = record { name = name; extensions = extensions }

-- `LANGUAGES`
unfoldable pub languages : List LanguageSpec
languages =
    language (codes "python") (codes ".py" ∷ [])
    ∷ language (codes "javascript") (codes ".js" ∷ codes ".jsx" ∷ codes ".mjs" ∷ codes ".cjs" ∷ [])
    ∷ language (codes "typescript") (codes ".ts" ∷ codes ".tsx" ∷ [])
    ∷ language (codes "go") (codes ".go" ∷ [])
    ∷ language (codes "rust") (codes ".rs" ∷ [])
    ∷ language (codes "java") (codes ".java" ∷ [])
    ∷ language (codes "kotlin") (codes ".kt" ∷ codes ".kts" ∷ [])
    ∷ language (codes "ruby") (codes ".rb" ∷ [])
    ∷ language (codes "php") (codes ".php" ∷ [])
    ∷ []

abbrev pub add_extensions : Text → List Text → Dict Text → Dict Text
add_extensions name [] table = table
add_extensions name (ext ∷ exts) table = add_extensions name exts (insert ext name table)

-- `{ext: spec.name for spec in LANGUAGES for ext in spec.extensions}`
unfoldable pub extension_table : List LanguageSpec → Dict Text → Dict Text
unfolding insert
extension_table [] table = table
extension_table (spec ∷ specs) table =
    extension_table specs (add_extensions spec.name spec.extensions table)

-- The part from the last dot on, if that is not the first character of the name.
unfoldable pub from_last_dot : Bool → Text → Text
from_last_dot inside [] = []
from_last_dot inside (c ∷ s) =
    let later = from_last_dot true s in
    if is_nil later then (if inside && eqb c b'.' then c ∷ s else []) else later

-- A dot at the end of the name begins no suffix.
unfoldable pub name_suffix : Text → Text
unfolding from_last_dot ends_with
name_suffix name = if ends_with name (codes ".") then [] else from_last_dot false name

-- `path.suffix`: that of the last part
unfoldable pub suffix : FilePath → Text
unfolding name_suffix
suffix [] = []
suffix (part ∷ []) = name_suffix part
suffix (part ∷ next ∷ parts) = suffix (next ∷ parts)

-- `detect_language`
unfoldable pub detect_language : FilePath → Option Text
unfolding suffix lookup extension_table languages lower
detect_language path = lookup (lower (suffix path)) (extension_table languages [])

-- The loop of `allowed_extensions`.
unfoldable pub extensions_of : List Text → List LanguageSpec → List Text
unfolding text_eq
extensions_of enabled [] = []
extensions_of enabled (spec ∷ specs) =
    let rest = extensions_of enabled specs in
    if contains enabled spec.name then spec.extensions ++ rest else rest

-- `allowed_extensions`
unfoldable pub allowed_extensions : List Text → List Text
unfolding extensions_of languages lower strip
allowed_extensions enabled_languages =
    extensions_of (map (λ lang. lower (strip lang)) enabled_languages) languages

-- `tree_sitter_language_for_path`
unfoldable pub tree_sitter_language_for_path : FilePath → Text → Text
unfolding suffix lower text_eq
tree_sitter_language_for_path path detected_language =
    if detected_language == codes "typescript" && lower (suffix path) == codes ".tsx"
    then codes "tsx"
    else detected_language
