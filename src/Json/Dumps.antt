-- ===== src/Json/Dumps.antt =====
-- `json.dumps(value)` with its default separators. Each printer puts its text before `rest`.
use Prim.Native.Nat.{◌/◌, ◌%◌}
use Prim.Native.String.{[], ◌∷◌}
use mts_true_tech_hack.Base.{
  ℕ, ◌+◌, ◌-◌, Char, code, String, Bool, true, false, ◌&&◌, ◌≡◌, refl, eqb, ltb, leb, if◌then◌else◌,
}
use mts_true_tech_hack.Base.Int.{pos}
use mts_true_tech_hack.Text.{◌⊕◌}
use mts_true_tech_hack.Json.{
  Json, null, bool, int, float, str, arr, obj, Items, nil, cons, Fields, end, field,
}
use mts_true_tech_hack.Json.Show.{show_int, hex_digit}

abbrev pub quote : Char
quote = "\""

abbrev pub backslash : Char
backslash = "\\"

-- `\uXXXX`
unfoldable pub dump_hex : ℕ → String → String
dump_hex n rest =
    backslash
    ∷ "u"
    ∷ hex_digit (n / 4096)
    ∷ hex_digit (n / 256 % 16)
    ∷ hex_digit (n / 16 % 16)
    ∷ hex_digit (n % 16)
    ∷ rest

-- A character above U+FFFF is a pair of surrogates.
abbrev pub dump_wide : ℕ → String → String
dump_wide n rest =
    if ltb n 65536
    then dump_hex n rest
    else dump_hex (55296 + (n - 65536) / 1024) (dump_hex (56320 + (n - 65536) % 1024) rest)

-- `ascii` is `ensure_ascii`.
unfoldable pub dump_char : Bool → Char → String → String
unfolding dump_hex
dump_char ascii ch rest =
    let c = code ch in
    if eqb c 34
    then backslash ∷ quote ∷ rest
    else if eqb c 92
    then backslash ∷ backslash ∷ rest
    else if eqb c 10
    then backslash ∷ "n" ∷ rest
    else if eqb c 13
    then backslash ∷ "r" ∷ rest
    else if eqb c 9
    then backslash ∷ "t" ∷ rest
    else if eqb c 12
    then backslash ∷ "f" ∷ rest
    else if eqb c 8
    then backslash ∷ "b" ∷ rest
    else if ltb c 32
    then dump_hex c rest
    else if ascii && leb 127 c
    then dump_wide c rest
    else ch ∷ rest

unfoldable pub dump_chars : Bool → String → String → String
unfolding dump_char
dump_chars ascii [] rest = quote ∷ rest
dump_chars ascii (c ∷ s) rest = dump_char ascii c (dump_chars ascii s rest)

abbrev pub dump_text : Bool → String → String → String
dump_text ascii s rest = quote ∷ dump_chars ascii s rest

unfoldable mutual
  unfolding dump_chars show_int

  pub dump : Bool → Json → String → String
  dump ascii null rest = "n" ∷ "u" ∷ "l" ∷ "l" ∷ rest
  dump ascii (bool true) rest = "t" ∷ "r" ∷ "u" ∷ "e" ∷ rest
  dump ascii (bool false) rest = "f" ∷ "a" ∷ "l" ∷ "s" ∷ "e" ∷ rest
  dump ascii (int n) rest = show_int n ⊕ rest
  dump ascii (float s) rest = s ⊕ rest
  dump ascii (str s) rest = dump_text ascii s rest
  dump ascii (arr nil) rest = "[" ∷ "]" ∷ rest
  dump ascii (arr (cons x xs)) rest = "[" ∷ dump ascii x (dump_items ascii xs rest)
  dump ascii (obj end) rest = "{" ∷ "}" ∷ rest
  dump ascii (obj (field k v fs)) rest =
      "{" ∷ dump_text ascii k (":" ∷ " " ∷ dump ascii v (dump_fields ascii fs rest))

  pub dump_items : Bool → Items → String → String
  dump_items ascii nil rest = "]" ∷ rest
  dump_items ascii (cons x xs) rest = "," ∷ " " ∷ dump ascii x (dump_items ascii xs rest)

  pub dump_fields : Bool → Fields → String → String
  dump_fields ascii end rest = "}" ∷ rest
  dump_fields ascii (field k v fs) rest =
      "," ∷ " " ∷ dump_text ascii k (":" ∷ " " ∷ dump ascii v (dump_fields ascii fs rest))

-- `json.dumps(value, ensure_ascii=False)`
unfoldable pub dumps : Json → String
unfolding dump
dumps v = dump false v ""

-- `json.dumps(value)`
unfoldable pub dumps_ascii : Json → String
unfolding dump
dumps_ascii v = dump true v ""

dumps_test :
    dumps
      (obj (field "a\n" (arr (cons null (cons (str "ж\"") nil))) (field "b" (int (pos 10)) end)))
    ≡ "{\"a\\n\": [null, \"ж\\\"\"], \"b\": 10}"
unfolding dumps
dumps_test = refl

dumps_ascii_test : dumps_ascii (str "ж😀") ≡ "\"\\u0436\\ud83d\\ude00\""
unfolding dumps_ascii
dumps_ascii_test = refl
