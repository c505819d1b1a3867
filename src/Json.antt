-- ===== src/Json.antt =====
-- The values of Python's `json`, with a float as its bit pattern. An object is a `dict`: no key twice.
use slopsentinel.Base.{
  ℕ, Text, text_eq, ℤ, pos, Bool, true, false, List, [], ◌∷◌, Option, none, some, ◌==◌,
  if◌then◌else◌, ◌≡◌, refl, ap,
}

mutual
  pub data Json : Type 0 where
    null : Json
    bool : Bool → Json
    num : ℤ → Json
    float : ℕ → Json
    str : Text → Json
    arr : Items → Json
    obj : Fields → Json

  pub data Items : Type 0 where
    nil : Items
    cons : Json → Items → Items

  pub data Fields : Type 0 where
    end : Fields
    field : Text → Json → Fields → Fields

-- `d.get(key)`
unfoldable pub get : Text → Fields → Option Json
get key end = none
get key (field k v fs) = if k == key then some v else get key fs

abbrev pub to_list : Items → List Json
to_list nil = []
to_list (cons j js) = j ∷ to_list js

abbrev pub items_of : List Json → Items
items_of [] = nil
items_of (j ∷ js) = cons j (items_of js)

pub to_list-items_of : (l : List Json) → to_list (items_of l) ≡ l
to_list-items_of [] = refl
to_list-items_of (j ∷ js) = ap (λ t. j ∷ t) (to_list-items_of js)

-- `isinstance(v, int)`, and `int(v)`: a `bool` is an `int`.
abbrev pub as_int : Json → Option ℤ
as_int (num n) = some n
as_int (bool true) = some (pos 1)
as_int (bool false) = some (pos 0)
as_int _ = none

abbrev pub as_str : Json → Option Text
as_str (str s) = some s
as_str _ = none

-- The same for what `get` returns: a missing key is no integer and no text.
abbrev pub int_of : Option Json → Option ℤ
int_of none = none
int_of (some j) = as_int j

abbrev pub str_of : Option Json → Option Text
str_of none = none
str_of (some j) = as_str j
