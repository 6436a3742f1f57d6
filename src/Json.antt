-- ===== src/Json.antt =====
-- The Python values that `json.loads` makes: what the pipeline knows of contexts and of specs.
-- A dict is a list of fields in insertion order. `None` and a missing key are `null` to every
-- reader in the program (`dict.get`), so an optional value is a `Json` too.
pub mod Show
pub mod Dumps
pub mod Loads
pub mod RoundTrip
use Prim.Native.String.{[], ◌∷◌}
use mathlib.Core.List.{[], ◌∷◌}
use mts_true_tech_hack.Base.{
  ℕ, zero, suc, String, Bool, true, false, not, ◌&&◌, ◌||◌, List, ◌==◌, code, eqb, leb,
  if◌then◌else◌,
}
use mts_true_tech_hack.Base.Int.{ℤ, pos, negsuc}
use mts_true_tech_hack.Text.{nonempty}

-- A float is carried by the text of its literal.
mutual
  pub data Json : Type 0 where
    null : Json
    bool : Bool → Json
    int : ℤ → Json
    float : String → Json
    str : String → Json
    arr : Items → Json
    obj : Fields → Json

  pub data Items : Type 0 where
    nil : Items
    cons : Json → Items → Items

  pub data Fields : Type 0 where
    end : Fields
    field : String → Json → Fields → Fields

-- A float is zero where no digit before its exponent is above 0.
abbrev is_zero_literal : String → Bool
is_zero_literal [] = true
is_zero_literal (c ∷ s) =
    let rest = is_zero_literal s in
    if eqb (code c) b'e' || eqb (code c) b'E'
    then true
    else if leb b'1' (code c) && leb (code c) b'9'
    then false
    else rest

-- `bool(value)`
abbrev pub truthy : Json → Bool
truthy null = false
truthy (bool b) = b
truthy (int (pos zero)) = false
truthy (int (pos (suc n))) = true
truthy (int (negsuc n)) = true
truthy (float s) = not (is_zero_literal s)
truthy (str s) = nonempty s
truthy (arr nil) = false
truthy (arr (cons x xs)) = true
truthy (obj end) = false
truthy (obj (field k v fs)) = true

-- `fields.get(key)`
unfoldable pub get : String → Fields → Json
get key end = null
get key (field k v fs) = if k == key then v else get key fs

-- `key in fields`
unfoldable pub has_key : String → Fields → Bool
has_key key end = false
has_key key (field k v fs) = k == key || has_key key fs

abbrev pub items : Items → List Json
items nil = []
items (cons x xs) = x ∷ items xs

abbrev pub fields : Fields → List (String × Json)
fields end = []
fields (field k v fs) = (k, v) ∷ fields fs

abbrev pub is_obj : Json → Bool
is_obj (obj fs) = true
is_obj _ = false

-- `type(value).__name__`
abbrev pub type_name : Json → String
type_name null = "NoneType"
type_name (bool b) = "bool"
type_name (int n) = "int"
type_name (float s) = "float"
type_name (str s) = "str"
type_name (arr xs) = "list"
type_name (obj fs) = "dict"

-- `value or {}` and the like: `value` where it is true.
abbrev pub value_or : Json → Json → Json
value_or a b = if truthy a then a else b

-- The text of an optional text as a value, and `value or ""`.
abbrev pub text_or_empty : Json → String
text_or_empty (str s) = s
text_or_empty _ = ""
