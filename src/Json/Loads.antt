-- ===== src/Json/Loads.antt =====
-- `json.loads(text)` of Python 3.11: the grammar of its decoder, `NaN` and the infinities included, and
-- the limit on the digits of an int. Where Python keeps an escape of a lone surrogate, for which the
-- native texts have no character, the model stops. It has no limit on the nesting.
use Prim.Native.String.{[], ◌∷◌, count}
use mts_true_tech_hack.Base.{
  ℕ, zero, suc, ◌+◌, ◌-◌, ◌*◌, Char, code, String, Bool, true, false, not, ◌&&◌, ◌||◌, Option, none,
  some, ◌≡◌, refl, ◌==◌, eqb, ltb, leb, if◌then◌else◌,
}
use mts_true_tech_hack.Base.Int.{ℤ, pos, negsuc}
use mts_true_tech_hack.Base.Result.{
  Result, ok, raise, Error, json_decode_error, value_error, lone_surrogate,
}
use mts_true_tech_hack.Text.{◌⊕◌, chr, nonempty}
use mts_true_tech_hack.Json.{
  Json, null, bool, int, float, str, arr, obj, Items, nil, cons, Fields, end, field, get, has_key,
}

-- Why nothing is read: the text is no JSON, an int of it is too long, or a lone surrogate is escaped.
pub data Refusal : Type 0 where
  no_json long_int surrogate : Refusal

-- What is read with the text behind it, or a refusal.
pub data Parse (A : Type 0) : Type 0 where
  refused : Refusal → Parse A
  scanned : A × String → Parse A

abbrev pub and_then : {A B : Type 0} → Parse A → (A → String → Parse B) → Parse B
and_then (refused r) f = refused r
and_then (scanned (a, rest)) f = f a rest

abbrev pub is_blank : ℕ → Bool
is_blank c = eqb c 32 || eqb c 9 || eqb c 10 || eqb c 13

unfoldable pub skip_blanks : String → String
skip_blanks [] = []
skip_blanks (c ∷ s) = if is_blank (code c) then skip_blanks s else c ∷ s

-- The value of a hexadecimal digit, or 16.
abbrev pub hex_value : ℕ → ℕ
hex_value c =
    if leb b'0' c && leb c b'9'
    then c - b'0'
    else if leb b'a' c && leb c b'f'
    then c - 87
    else if leb b'A' c && leb c b'F'
    then c - 55
    else 16

-- Inside a text: behind a backslash, in the digits of `\u` (those left and their value so far), and
-- between the two escapes of a pair of surrogates.
pub data Mode : Type 0 where
  plain escaped : Mode
  digits : ℕ → ℕ → Mode
  paired paired_escape : ℕ → Mode
  low_digits : ℕ → ℕ → ℕ → Mode

-- What a letter behind a backslash stands for, or 0.
abbrev pub escape_code : ℕ → ℕ
escape_code c =
    if eqb c 34 || eqb c 92 || eqb c 47
    then c
    else if eqb c b'n'
    then 10
    else if eqb c b'r'
    then 13
    else if eqb c b't'
    then 9
    else if eqb c b'f'
    then 12
    else if eqb c b'b'
    then 8
    else 0

abbrev pub push : Char → Parse String → Parse String
push c p = and_then p (λ s rest. scanned (c ∷ s, rest))

unfoldable pub scan : Mode → String → Parse String
scan mode [] = refused no_json
scan plain (c ∷ s) =
    let next = push c (scan plain s) in
    let escape = scan escaped s in
    if eqb (code c) 34
    then scanned ("", s)
    else if eqb (code c) 92
    then escape
    else if ltb (code c) 32
    then refused no_json
    else next
scan escaped (c ∷ s) =
    let hex = scan (digits 4 0) s in
    let next = push (chr (escape_code (code c))) (scan plain s) in
    if eqb (code c) b'u'
    then hex
    else if eqb (escape_code (code c)) 0
    then refused no_json
    else next
scan (digits left acc) (c ∷ s) =
    let n = acc * 16 + hex_value (code c) in
    let more = scan (digits (left - 1) n) s in
    let pair = scan (paired n) s in
    let next = push (chr n) (scan plain s) in
    if eqb (hex_value (code c)) 16
    then refused no_json
    else if ltb 1 left
    then more
    else if leb 55296 n && leb n 56319
    then pair
    else if leb 56320 n && leb n 57343
    then refused surrogate
    else next
scan (paired high) (c ∷ s) =
    let next = scan (paired_escape high) s in if eqb (code c) 92 then next else refused surrogate
scan (paired_escape high) (c ∷ s) =
    let next = scan (low_digits high 4 0) s in if eqb (code c) b'u' then next else refused surrogate
scan (low_digits high left acc) (c ∷ s) =
    let n = acc * 16 + hex_value (code c) in
    let more = scan (low_digits high (left - 1) n) s in
    let next = push (chr (65536 + (high - 55296) * 1024 + (n - 56320))) (scan plain s) in
    if eqb (hex_value (code c)) 16
    then refused no_json
    else if ltb 1 left
    then more
    else if leb 56320 n && leb n 57343
    then next
    else refused surrogate

-- The text behind `start`.
abbrev pub strip_start : String → String → Option String
strip_start [] s = some s
strip_start (c ∷ start) [] = none
strip_start (c ∷ start) (d ∷ s) =
    let rest = strip_start start s in if eqb (code c) (code d) then rest else none

abbrev pub constant : Json → Option String → Parse Json
constant v none = refused no_json
constant v (some rest) = scanned (v, rest)

abbrev pub is_digit : ℕ → Bool
is_digit c = leb b'0' c && leb c b'9'

-- The digits at the beginning, and what follows them.
unfoldable pub take_digits : String → String × String
take_digits [] = ([], [])
take_digits (c ∷ s) =
    let (ds, rest) = take_digits s in if is_digit (code c) then (c ∷ ds, rest) else ([], c ∷ s)

abbrev pub value_of : ℕ → String → ℕ
value_of acc [] = acc
value_of acc (c ∷ s) = value_of (acc * 10 + (code c - b'0')) s

-- `(0|[1-9][0-9]*)`
abbrev pub whole_part : String → String × String
whole_part [] = ([], [])
whole_part (c ∷ s) = if eqb (code c) b'0' then (c ∷ [], s) else take_digits (c ∷ s)

-- `(\.[0-9]+)?`
abbrev pub fraction : String → String × String
fraction [] = ([], [])
fraction (c ∷ s) =
    let (ds, rest) = take_digits s in
    if eqb (code c) b'.' && nonempty ds then (c ∷ ds, rest) else ([], c ∷ s)

abbrev pub signed_digits : String → String × String
signed_digits [] = ([], [])
signed_digits (c ∷ s) =
    let (ds, rest) = take_digits s in
    if eqb (code c) b'+' || eqb (code c) b'-'
    then (if nonempty ds then (c ∷ ds, rest) else ([], c ∷ s))
    else take_digits (c ∷ s)

-- `([eE][-+]?[0-9]+)?`
abbrev pub exponent : String → String × String
exponent [] = ([], [])
exponent (c ∷ s) =
    let (ds, rest) = signed_digits s in
    if (eqb (code c) b'e' || eqb (code c) b'E') && nonempty ds then (c ∷ ds, rest) else ([], c ∷ s)

abbrev pub signed : Bool → ℕ → ℤ
signed false n = pos n
signed true zero = pos zero
signed true (suc n) = negsuc n

-- `sys.get_int_max_str_digits()`, the sign not counted.
abbrev max_int_digits : ℕ
max_int_digits = 4300

-- A number behind its sign.
unfoldable pub number : Bool → String → Parse Json
unfolding take_digits
number negative s =
    let (whole, rest) = whole_part s in
    let (frac, rest') = fraction rest in
    let (exp, rest'') = exponent rest' in
    let sign : String = if negative then "-" else "" in
    if not (nonempty whole)
    then refused no_json
    else if nonempty frac || nonempty exp
    then scanned (float (sign ⊕ whole ⊕ frac ⊕ exp), rest'')
    else if ltb max_int_digits (count whole)
    then refused long_int
    else scanned (int (signed negative (value_of 0 whole)), rest)

abbrev pub or_else_parse : Parse Json → Parse Json → Parse Json
or_else_parse (refused r) next = next
or_else_parse (scanned p) next = scanned p

-- A value that is no text, array or object.
unfoldable pub atom : String → Parse Json
unfolding number
atom [] = refused no_json
atom (c ∷ s) =
    if eqb (code c) b'n'
    then constant null (strip_start "ull" s)
    else if eqb (code c) b't'
    then constant (bool true) (strip_start "rue" s)
    else if eqb (code c) b'f'
    then constant (bool false) (strip_start "alse" s)
    else if eqb (code c) b'N'
    then constant (float "NaN") (strip_start "aN" s)
    else if eqb (code c) b'I'
    then constant (float "Infinity") (strip_start "nfinity" s)
    else if eqb (code c) b'-'
    then or_else_parse (constant (float "-Infinity") (strip_start "Infinity" s)) (number true s)
    else number false (c ∷ s)

-- A dict takes the last value of a key, at the place of the first.
unfoldable pub remove : String → Fields → Fields
remove key end = end
remove key (field k v fs) = let rest = remove key fs in if k == key then rest else field k v rest

unfoldable pub add_first : String → Json → Fields → Fields
unfolding get has_key remove
add_first key value fs = field key (if has_key key fs then get key fs else value) (remove key fs)

abbrev pub array_of : String → Parse Items → Parse Json
array_of [] xs = refused no_json
array_of (c ∷ s) xs =
    if eqb (code c) b']'
    then scanned (arr nil, s)
    else and_then xs (λ xs' rest. scanned (arr xs', rest))

abbrev pub object_of : String → Parse Fields → Parse Json
object_of [] fs = refused no_json
object_of (c ∷ s) fs =
    if eqb (code c) b'}'
    then scanned (obj end, s)
    else and_then fs (λ fs' rest. scanned (obj fs', rest))

abbrev pub items_after : Json → (String → Parse Items) → String → Parse Items
items_after x more [] = refused no_json
items_after x more (c ∷ s) =
    if eqb (code c) b']'
    then scanned (cons x nil, s)
    else if eqb (code c) b','
    then and_then (more (skip_blanks s)) (λ xs rest. scanned (cons x xs, rest))
    else refused no_json

abbrev pub fields_after : String → Json → (String → Parse Fields) → String → Parse Fields
fields_after k v more [] = refused no_json
fields_after k v more (c ∷ s) =
    if eqb (code c) b'}'
    then scanned (field k v end, s)
    else if eqb (code c) b','
    then and_then (more (skip_blanks s)) (λ fs rest. scanned (add_first k v fs, rest))
    else refused no_json

abbrev pub after_colon : String → Option String
after_colon [] = none
after_colon (c ∷ s) = if eqb (code c) b':' then some (skip_blanks s) else none

abbrev pub member_value : (String → Parse Json) → Option String → Parse Json
member_value value none = refused no_json
member_value value (some s) = value s

abbrev pub key_of : String → Parse String
key_of [] = refused no_json
key_of (c ∷ s) = if eqb (code c) 34 then scan plain s else refused no_json

-- The fuel bounds the depth of the calls.
unfoldable mutual
  unfolding skip_blanks scan atom add_first

  pub parse_value : ℕ → String → Parse Json
  parse_value zero s = refused no_json
  parse_value (suc f) [] = refused no_json
  parse_value (suc f) (c ∷ s) =
      let array = array_of (skip_blanks s) (parse_items f (skip_blanks s)) in
      let object = object_of (skip_blanks s) (parse_fields f (skip_blanks s)) in
      if eqb (code c) 34
      then and_then (scan plain s) (λ t rest. scanned (str t, rest))
      else if eqb (code c) b'['
      then array
      else if eqb (code c) b'{'
      then object
      else atom (c ∷ s)

  pub parse_items : ℕ → String → Parse Items
  parse_items zero s = refused no_json
  parse_items (suc f) s =
      let more = parse_items f in
      and_then (parse_value f s) (λ x rest. items_after x more (skip_blanks rest))

  pub parse_fields : ℕ → String → Parse Fields
  parse_fields zero s = refused no_json
  parse_fields (suc f) s =
      let more = parse_fields f in
      let value = parse_value f in
      and_then (key_of s) (λ k rest.
        and_then (member_value value (after_colon (skip_blanks rest)))
          (λ v rest'. fields_after k v more (skip_blanks rest')))

abbrev pub refusal : Refusal → Error
refusal no_json = json_decode_error "invalid JSON"
refusal long_int = value_error "Exceeds the limit (4300 digits) for integer string conversion"
refusal surrogate = lone_surrogate "a lone surrogate"

abbrev pub whole_text : Parse Json → Result Json
whole_text (refused r) = raise (refusal r)
whole_text (scanned (v, rest)) =
    if nonempty (skip_blanks rest) then raise (json_decode_error "Extra data") else ok v

-- Two calls stand between two characters read, so this fuel is enough.
unfoldable pub loads : String → Result Json
unfolding parse_value skip_blanks
loads s = whole_text (parse_value (2 * count s + 2) (skip_blanks s))

loads_test :
    loads " {\"a\": [1, -20, 1.5e3, \"x\\u0436\\ud83d\\ude00\\n\"], \"b\" : {}, \"a\":null } "
    ≡ ok (obj (field "a" null (field "b" (obj end) end)))
unfolding loads
loads_test = refl

loads_test₂ :
    loads "[1, -20, 1.5e3, \"x\\u0436\\ud83d\\ude00\\n\"]"
    ≡ ok (
        arr (
          cons
            (int (pos 1))
            (cons (int (negsuc 19)) (cons (float "1.5e3") (cons (str "xж😀\n") nil)))))
unfolding loads
loads_test₂ = refl

-- Python goes on with a text that the model has not, and it raises no `JSONDecodeError` here.
lone_surrogate_test : loads "{\"a\": \"\\ud800\"}" ≡ raise (lone_surrogate "a lone surrogate")
unfolding loads
lone_surrogate_test = refl
