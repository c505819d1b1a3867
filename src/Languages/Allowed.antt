-- ===== src/Languages/Allowed.antt =====
-- The two readings of the table of languages agree: by language, and by suffix.
use slopsentinel.Base.{
  Text, text_eq, List, [], ◌∷◌, Option, none, some, Bool, true, false, ◌&&◌, not, if◌then◌else◌,
  map, contains, contains-append, any, all, strip, lower, ◌≡◌, refl, sym, ap, ◌∙◌, arith,
  Bool-cases, inl, inr,
}
use slopsentinel.Types.{FilePath}
use slopsentinel.Dict.{Dict, lookup, insert, lookup-insert}
use slopsentinel.Languages.{
  LanguageSpec, languages, add_extensions, extension_table, extensions_of, allowed_extensions,
  detect_language, suffix,
}

-- A language, if there is one, is among the enabled.
abbrev pub is_enabled : List Text → Option Text → Bool
is_enabled enabled none = false
is_enabled enabled (some name) = contains enabled name

-- Some language of the list has the suffix.
abbrev has_owner : Text → List LanguageSpec → Bool
has_owner ext = any (λ (s : LanguageSpec). contains s.extensions ext)

-- No suffix belongs to two languages.
abbrev AreDistinct : List LanguageSpec → Type 0
AreDistinct [] = Unit
AreDistinct (spec ∷ specs) =
    (all (λ ext. not (has_owner ext specs)) spec.extensions ≡ true) × AreDistinct specs

contains-extensions_of :
    (enabled : List Text) (specs : List LanguageSpec) (ext : Text)
    → contains (extensions_of enabled specs) ext
      ≡ any (λ (s : LanguageSpec). contains enabled s.name && contains s.extensions ext) specs
unfolding extensions_of
contains-extensions_of enabled [] ext = refl
contains-extensions_of enabled (s ∷ specs) ext = ground (
  arith,
  contains-extensions_of enabled specs ext,
  contains-append s.extensions (extensions_of enabled specs) ext,
)

lookup-add_extensions :
    (name : Text) (exts : List Text) (table : Dict Text) (ext : Text)
    → lookup ext (add_extensions name exts table)
      ≡ (if contains exts ext then some name else lookup ext table)
lookup-add_extensions name [] table ext = refl
lookup-add_extensions name (e ∷ exts) table ext =
    lookup-add_extensions name exts (insert e name table) ext ∙ rw lookup-insert (ground arith)

-- The last language of the list that has the suffix.
owner_from : Text → List LanguageSpec → Option Text → Option Text
owner_from ext [] o = o
owner_from ext (s ∷ specs) o =
    owner_from ext specs (if contains s.extensions ext then some s.name else o)

lookup-extension_table :
    (specs : List LanguageSpec) (table : Dict Text) (ext : Text)
    → lookup ext (extension_table specs table) ≡ owner_from ext specs (lookup ext table)
unfolding extension_table owner_from
lookup-extension_table [] table ext = refl
lookup-extension_table (s ∷ specs) table ext =
    lookup-extension_table specs (add_extensions s.name s.extensions table) ext
    ∙ ap (owner_from ext specs) (lookup-add_extensions s.name s.extensions table ext)

no_owner :
    (ext : Text) (specs : List LanguageSpec) (o : Option Text)
    → has_owner ext specs ≡ false
    → owner_from ext specs o ≡ o
unfolding owner_from
no_owner ext [] o h = refl
no_owner ext (s ∷ specs) o h = elim (Bool-cases (contains s.extensions ext)) [
  | inl has ↦ absurd (ground (arith, h, has))
  | inr not_here ↦
      let later : has_owner ext specs ≡ false = ground (arith, h) in
      rw not_here (no_owner ext specs o later)
]

none_enabled :
    (enabled : List Text) (specs : List LanguageSpec) (ext : Text)
    → has_owner ext specs ≡ false
    → any (λ (s : LanguageSpec). contains enabled s.name && contains s.extensions ext) specs ≡ false
none_enabled enabled [] ext h = refl
none_enabled enabled (s ∷ specs) ext h = ground (arith, h, none_enabled enabled specs ext)

all_holds :
    (p : Text → Bool) (exts : List Text) (ext : Text)
    → all p exts ≡ true
    → contains exts ext ≡ true
    → p ext ≡ true
all_holds p [] ext h k = absurd (ground arith)
all_holds p (e ∷ exts) ext h k = ground (arith, all_holds p exts ext)

any-owner :
    (enabled : List Text) (specs : List LanguageSpec) (ext : Text)
    → AreDistinct specs
    → any (λ (s : LanguageSpec). contains enabled s.name && contains s.extensions ext) specs
      ≡ is_enabled enabled (owner_from ext specs none)
unfolding owner_from
any-owner enabled [] ext d = refl
any-owner enabled (s ∷ specs) ext (d, ds) = elim (Bool-cases (contains s.extensions ext)) [
  | inr not_here ↦ rw not_here (ground (arith, any-owner enabled specs ext ds))
  | inl has ↦
      let alone : has_owner ext specs ≡ false =
        ground (arith, all_holds (λ e. not (has_owner e specs)) s.extensions ext d has) in
      rw (has, no_owner ext specs (some s.name) alone, none_enabled enabled specs ext alone)
        (ground arith)
]

languages-AreDistinct : AreDistinct languages
unfolding languages text_eq
languages-AreDistinct = (refl, (refl, (refl, (refl, (refl, (refl, (refl, (refl, (refl, tt)))))))))

-- The suffix of a file is allowed exactly if the file's language, as it is detected, is among the
-- enabled ones, read without regard to case and blanks; a file of no language has none that is.
pub allowed_exactly :
    (enabled_languages : List Text) (path : FilePath)
    → contains (allowed_extensions enabled_languages) (lower (suffix path))
      ≡ is_enabled (map (λ lang. lower (strip lang)) enabled_languages) (detect_language path)
unfolding allowed_extensions detect_language lookup
allowed_exactly enabled_languages path =
    let enabled = map (λ lang. lower (strip lang)) enabled_languages in
    let ext = lower (suffix path) in
    contains-extensions_of enabled languages ext
    ∙ any-owner enabled languages ext languages-AreDistinct
    ∙ ap (is_enabled enabled) (sym (lookup-extension_table languages [] ext))
