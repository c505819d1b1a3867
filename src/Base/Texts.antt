-- ===== src/Base/Texts.antt =====
-- Python's `str`, as its list of code points, and the methods of it that the program calls.
-- White space is Python's; the case mappings are those of the ASCII letters.
use Prim.Native.Nat.{ℕ, ◌+◌, ◌-◌}
use Prim.Native.Char.{code}
use Prim.Native.String.{String}
use mathlib.Core.Path.{◌≡◌, refl}
use mathlib.Core.Logic.{◌↔◌, dite}
use mathlib.Core.Bool.{Bool, true, false, ◌&&◌, ◌||◌, Bool-discrete}
use mathlib.Core.List.{List, [], ◌∷◌, ◌++◌, map}
use native.Mathlib.Omega.{arith}
use slopsentinel.Base.Tests.{leb, eqb, if◌then◌else◌, Eq, ◌==◌}
use slopsentinel.Base.Lists.{is_nil}

abbrev pub Text : Type 0
Text = List ℕ

abbrev pub codes : String → Text
codes String.[] = []
codes (String.◌∷◌ c s) = code c ∷ codes s

text_beq : Text → Text → Bool
text_beq [] [] = true
text_beq [] (d ∷ t) = false
text_beq (c ∷ s) [] = false
text_beq (c ∷ s) (d ∷ t) = eqb c d && text_beq s t

text_beq_iff : (s t : Text) → (text_beq s t ≡ true) ↔ (s ≡ t)
unfolding text_beq
text_beq_iff [] [] = (λ h. refl, λ h. refl)
text_beq_iff [] (d ∷ t) = (λ h. cc, λ h. cc)
text_beq_iff (c ∷ s) [] = (λ h. cc, λ h. cc)
text_beq_iff (c ∷ s) (d ∷ t) = ground (arith, text_beq_iff s t)

instance unfoldable pub text_eq : Eq Text
unfolding text_beq text_beq_iff
text_eq = record {
  dec = λ s t.
      dite (Bool-discrete (text_beq s t) true) (λ same. yes ((text_beq_iff s t).0 same))
        (λ differ. no (λ p. differ ((text_beq_iff s t).1 p)));
}

texts_beq : List Text → List Text → Bool
unfolding text_beq
texts_beq [] [] = true
texts_beq [] (t ∷ ts) = false
texts_beq (s ∷ ss) [] = false
texts_beq (s ∷ ss) (t ∷ ts) = text_beq s t && texts_beq ss ts

texts_beq_iff : (s t : List Text) → (texts_beq s t ≡ true) ↔ (s ≡ t)
unfolding texts_beq
texts_beq_iff [] [] = (λ h. refl, λ h. refl)
texts_beq_iff [] (d ∷ t) = (λ h. cc, λ h. cc)
texts_beq_iff (c ∷ s) [] = (λ h. cc, λ h. cc)
texts_beq_iff (c ∷ s) (d ∷ t) = ground (arith, text_beq_iff c d, texts_beq_iff s t)

-- The parts of a path are compared like a path.
instance unfoldable pub texts_eq : Eq (List Text)
unfolding texts_beq texts_beq_iff text_beq_iff
texts_eq = record {
  dec = λ s t.
      dite (Bool-discrete (texts_beq s t) true) (λ same. yes ((texts_beq_iff s t).0 same))
        (λ differ. no (λ p. differ ((texts_beq_iff s t).1 p)));
}

-- `str.isspace` of one character, which is also what `\s` matches.
abbrev pub is_space : ℕ → Bool
is_space c =
    (leb 9 c && leb c 13)
    || (leb 28 c && leb c 32)
    || eqb c 0x85
    || eqb c 0xa0
    || eqb c 0x1680
    || (leb 0x2000 c && leb c 0x200a)
    || (leb 0x2028 c && leb c 0x2029)
    || eqb c 0x202f
    || eqb c 0x205f
    || eqb c 0x3000

unfoldable pub to_upper : ℕ → ℕ
to_upper c = if leb b'a' c && leb c b'z' then c - 32 else c

unfoldable pub to_lower : ℕ → ℕ
to_lower c = if leb b'A' c && leb c b'Z' then c + 32 else c

-- `s.upper()`
unfoldable pub upper : Text → Text
unfolding to_upper
upper = map to_upper

-- `s.lower()`
unfoldable pub lower : Text → Text
unfolding to_lower
lower = map to_lower

-- `s.lstrip()`
unfoldable pub lstrip : Text → Text
lstrip [] = []
lstrip (c ∷ s) = let rest = lstrip s in if is_space c then rest else c ∷ s

-- `s.rstrip()`
unfoldable pub rstrip : Text → Text
rstrip [] = []
rstrip (c ∷ s) = let rest = rstrip s in if is_space c && is_nil rest then [] else c ∷ rest

-- `s.rstrip(sep)` of one character
unfoldable pub rstrip_char : ℕ → Text → Text
rstrip_char sep [] = []
rstrip_char sep (c ∷ s) =
    let rest = rstrip_char sep s in if eqb c sep && is_nil rest then [] else c ∷ rest

-- `s.strip()`
unfoldable pub strip : Text → Text
unfolding lstrip rstrip
strip s = rstrip (lstrip s)

-- `s.startswith(p)`
unfoldable pub starts_with : Text → Text → Bool
starts_with s [] = true
starts_with [] (d ∷ p) = false
starts_with (c ∷ s) (d ∷ p) = eqb c d && starts_with s p

-- `p in s`
unfoldable pub has_infix : Text → Text → Bool
unfolding starts_with
has_infix [] p = is_nil p
has_infix (c ∷ s) p = starts_with (c ∷ s) p || has_infix s p

-- `s.endswith(p)`
unfoldable pub ends_with : Text → Text → Bool
unfolding text_eq
ends_with [] p = is_nil p
ends_with (c ∷ s) p = (c ∷ s) == p || ends_with s p

-- `s.replace(a, b)` of one character by another
unfoldable pub replace_char : ℕ → ℕ → Text → Text
replace_char a b = map (λ c. if eqb c a then b else c)

-- `s.split(sep)` at one character
unfoldable pub split_at : ℕ → Text → List Text
split_at sep [] = [] ∷ []
split_at sep (c ∷ s) = elim (split_at sep s) [
  | [] ↦ (c ∷ []) ∷ []
  | part ∷ parts ↦ if eqb c sep then [] ∷ part ∷ parts else (c ∷ part) ∷ parts
]

-- `sep.join(parts)`
unfoldable pub join : Text → List Text → Text
join sep [] = []
join sep (p ∷ []) = p
join sep (p ∷ q ∷ ps) = p ++ (sep ++ join sep (q ∷ ps))

runs_off : (ℕ → Bool) → Text → Text → List Text
runs_off sep [] cur = if is_nil cur then [] else cur ∷ []
runs_off sep (c ∷ s) cur = elim (sep c) [
  | true ↦ if is_nil cur then runs_off sep s [] else cur ∷ runs_off sep s []
  | false ↦ runs_off sep s (cur ++ c ∷ [])
]

-- The maximal runs of characters that are no separators: `s.split()`, and a split by a class
-- of separators that drops empty tokens.
unfoldable pub split_on : (ℕ → Bool) → Text → List Text
unfolding runs_off
split_on sep s = runs_off sep s []

-- The characters that end a line for `str.splitlines`; a "\r\n" counts as one end.
abbrev pub is_line_end : ℕ → Bool
is_line_end c =
    (leb 10 c && leb c 13)
    || (leb 0x1c c && leb c 0x1e)
    || eqb c 0x85
    || eqb c 0x2028
    || eqb c 0x2029

lines_off : Bool → Text → Text → List Text
lines_off after_cr cur [] = if is_nil cur then [] else cur ∷ []
lines_off after_cr cur (c ∷ s) = elim (after_cr && eqb c 10) [
  | true ↦ lines_off false [] s
  | false ↦ elim (is_line_end c) [
    | true ↦ cur ∷ lines_off (eqb c 13) [] s
    | false ↦ lines_off false (cur ++ c ∷ []) s
  ]
]

-- `s.splitlines()`
unfoldable pub splitlines : Text → List Text
unfolding lines_off
splitlines s = lines_off false [] s
