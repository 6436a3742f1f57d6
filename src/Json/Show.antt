-- ===== src/Json/Show.antt =====
-- Python's `str(value)` and `repr(value)`. A text's `repr` escapes quotes, backslashes and the
-- control characters; other code points that Python counts as not printable stay as they are.
use Prim.Native.Nat.{◌/◌, ◌%◌}
use Prim.Native.String.{[], ◌∷◌}
use mts_true_tech_hack.Base.{
  ℕ, zero, suc, ◌+◌, Char, code, String, true, false, not, ◌&&◌, ◌||◌, ◌≡◌, refl, eqb, ltb, leb,
  if◌then◌else◌,
}
use mts_true_tech_hack.Base.Int.{ℤ, pos, negsuc}
use mts_true_tech_hack.Text.{◌⊕◌, chr, contains}
use mts_true_tech_hack.Json.{
  Json, null, bool, int, float, str, arr, obj, Items, nil, cons, Fields, end, field,
}

-- The digits of a number below `base ^ fuel`, before `acc`.
unfoldable pub digits_from : ℕ → ℕ → String → String
digits_from zero n acc = acc
digits_from (suc f) n acc =
    let longer = digits_from f (n / 10) (chr (48 + n % 10) ∷ acc) in
    if ltb n 10 then chr (48 + n) ∷ acc else longer

unfoldable pub decimal : ℕ → String
unfolding digits_from
decimal n = digits_from (suc n) n ""

unfoldable pub show_int : ℤ → String
unfolding decimal
show_int (pos n) = decimal n
show_int (negsuc n) = "-" ⊕ decimal (suc n)

abbrev pub hex_digit : ℕ → Char
hex_digit n = if ltb n 10 then chr (48 + n) else chr (87 + n)

abbrev pub escape_repr : ℕ → Char → String
escape_repr quote ch =
    let c = code ch in
    if eqb c quote || eqb c 92
    then chr 92 ∷ ch ∷ []
    else if eqb c 9
    then "\\t"
    else if eqb c 10
    then "\\n"
    else if eqb c 13
    then "\\r"
    else if ltb c 32 || leb 127 c && leb c 160 || eqb c 173
    then "\\x" ⊕ (hex_digit (c / 16) ∷ hex_digit (c % 16) ∷ [])
    else ch ∷ []

unfoldable pub repr_chars : ℕ → String → String
repr_chars quote [] = chr quote ∷ []
repr_chars quote (c ∷ s) = escape_repr quote c ⊕ repr_chars quote s

unfoldable pub repr_text : String → String
unfolding repr_chars contains
repr_text s =
    let quote = if contains "'" s && not (contains "\"" s) then 34 else 39 in
    chr quote ∷ repr_chars quote s

unfoldable mutual
  unfolding repr_text show_int

  pub repr : Json → String
  repr null = "None"
  repr (bool true) = "True"
  repr (bool false) = "False"
  repr (int n) = show_int n
  repr (float s) = s
  repr (str s) = repr_text s
  repr (arr nil) = "[]"
  repr (arr (cons x xs)) = "[" ⊕ repr x ⊕ repr_items xs
  repr (obj end) = "{}"
  repr (obj (field k v fs)) = "{" ⊕ repr_text k ⊕ ": " ⊕ repr v ⊕ repr_fields fs

  pub repr_items : Items → String
  repr_items nil = "]"
  repr_items (cons x xs) = ", " ⊕ repr x ⊕ repr_items xs

  pub repr_fields : Fields → String
  repr_fields end = "}"
  repr_fields (field k v fs) = ", " ⊕ repr_text k ⊕ ": " ⊕ repr v ⊕ repr_fields fs

-- `str(value)`
unfoldable pub show : Json → String
unfolding repr
show (str s) = s
show v = repr v

show_test :
    show (arr (cons (str "it's") (cons (int (negsuc 11)) (cons (obj (field "a" null end)) nil))))
    ≡ "[\"it's\", -12, {'a': None}]"
unfolding show
show_test = refl
