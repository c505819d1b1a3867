-- ===== src/Config/Groups.antt =====
-- DEFAULT_RULE_GROUPS of src/slopsentinel/config.py.
use slopsentinel.Base.{
  Text, codes, text_eq, List, [], ◌∷◌, ◌++◌, map, Option, none, some, ◌==◌, if◌then◌else◌,
}

abbrev pub claude : List Text
claude = map codes (
    "A01" ∷ "A02" ∷ "A03" ∷ "A04" ∷ "A05" ∷ "A06" ∷ "A07" ∷ "A08" ∷ "A09" ∷ "A10" ∷ "A11" ∷ "A12"
    ∷ [])

abbrev pub cursor : List Text
cursor = map codes ("B01" ∷ "B02" ∷ "B03" ∷ "B04" ∷ "B05" ∷ "B06" ∷ "B07" ∷ "B08" ∷ [])

abbrev pub copilot : List Text
copilot =
    map codes
      ("C01" ∷ "C02" ∷ "C03" ∷ "C04" ∷ "C05" ∷ "C06" ∷ "C07" ∷ "C08" ∷ "C09" ∷ "C10" ∷ "C11" ∷ [])

abbrev pub gemini : List Text
gemini = map codes ("D01" ∷ "D02" ∷ "D03" ∷ "D04" ∷ "D05" ∷ "D06" ∷ [])

abbrev pub generic : List Text
generic = map codes (
    "E01" ∷ "E02" ∷ "E03" ∷ "E04" ∷ "E05" ∷ "E06" ∷ "E07" ∷ "E08" ∷ "E09" ∷ "E10" ∷ "E11" ∷ "E12"
    ∷ [])

abbrev pub go : List Text
go = map codes ("G01" ∷ "G02" ∷ "G03" ∷ "G04" ∷ "G05" ∷ "G06" ∷ "G07" ∷ [])

abbrev pub rust : List Text
rust = map codes ("R01" ∷ "R02" ∷ "R03" ∷ "R04" ∷ "R05" ∷ "R06" ∷ "R07" ∷ [])

abbrev pub java : List Text
java = map codes ("J01" ∷ "J02" ∷ "J03" ∷ [])

abbrev pub kotlin : List Text
kotlin = map codes ("K01" ∷ "K02" ∷ "K03" ∷ [])

abbrev pub ruby : List Text
ruby = map codes ("Y01" ∷ "Y02" ∷ "Y03" ∷ [])

abbrev pub php : List Text
php = map codes ("P01" ∷ "P02" ∷ "P03" ∷ [])

abbrev pub crossfile : List Text
crossfile = map codes ("X01" ∷ "X02" ∷ "X03" ∷ "X04" ∷ "X05" ∷ [])

-- DEFAULT_RULE_GROUPS["all"]
abbrev pub all_ids : List Text
all_ids =
    claude
    ++ (cursor
        ++ (copilot
            ++ (gemini
                ++ (generic
                    ++ (go ++ (rust ++ (java ++ (kotlin ++ (ruby ++ (php ++ (crossfile)))))))))))

-- DEFAULT_RULE_GROUPS.get(name)
unfoldable pub rule_group : Text → Option (List Text)
rule_group g =
    if g == codes "all"
    then some all_ids
    else if g == codes "claude"
    then some claude
    else if g == codes "cursor"
    then some cursor
    else if g == codes "copilot"
    then some copilot
    else if g == codes "gemini"
    then some gemini
    else if g == codes "generic"
    then some generic
    else if g == codes "go"
    then some go
    else if g == codes "rust"
    then some rust
    else if g == codes "java"
    then some java
    else if g == codes "kotlin"
    then some kotlin
    else if g == codes "ruby"
    then some ruby
    else if g == codes "php"
    then some php
    else if g == codes "crossfile"
    then some crossfile
    else none
