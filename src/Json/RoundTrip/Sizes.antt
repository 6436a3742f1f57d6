-- ===== src/Json/RoundTrip/Sizes.antt =====
-- The text of a value is as long as its reading goes deep.
use Prim.Native.String.{[], ◌∷◌, count}
use text.Mathlib.TextLemmas.{length-nil, length-cons}
use mts_true_tech_hack.Base.{
  ℕ, suc, ◌+◌, ◌≤◌, Char, String, Bool, true, false, ◌≡◌, arith, if◌then◌else◌, ap, ◌∙◌, code, eqb,
  ltb, leb, ◌&&◌,
}
use mts_true_tech_hack.Json.{
  Json, null, bool, int, float, str, arr, obj, Items, nil, cons, Fields, end, field,
}
use mts_true_tech_hack.Json.Dumps.{
  dump, dump_items, dump_fields, dump_chars, dump_char, dump_wide, dump_hex,
}
use mts_true_tech_hack.Json.RoundTrip.Plain.{
  IsPlain, ArePlainItems, ArePlainFields, size, size_items, size_fields,
}

abbrev pub chars : String → ℕ
chars [] = 0
chars (c ∷ s) = suc (chars s)

pub count-eq-chars : (s : String) → count s ≡ chars s
count-eq-chars [] = length-nil
count-eq-chars (c ∷ s) = length-cons c s ∙ ap suc (count-eq-chars s)

if_size :
    (n : ℕ) (b : Bool) (x y : String) → n ≤ chars x → n ≤ chars y → n ≤ chars (if b then x else y)
if_size n true x y h k = h
if_size n false x y h k = k

dump_wide_size : (n : ℕ) (rest : String) → chars rest ≤ chars (dump_wide n rest)
unfolding dump_hex
dump_wide_size n rest = if_size (chars rest) (ltb n 65536) _ _ (omega arith) (omega arith)

dump_char_size :
    (ascii : Bool) (c : Char) (rest : String) → chars rest ≤ chars (dump_char ascii c rest)
unfolding dump_char dump_hex
dump_char_size ascii c rest =
    let n = chars rest in
    if_size n (eqb (code c) 34) _ _ (omega arith) (
      if_size n (eqb (code c) 92) _ _ (omega arith) (
        if_size n (eqb (code c) 10) _ _ (omega arith) (
          if_size n (eqb (code c) 13) _ _ (omega arith) (
            if_size n (eqb (code c) 9) _ _ (omega arith) (
              if_size n (eqb (code c) 12) _ _ (omega arith) (
                if_size n (eqb (code c) 8) _ _ (omega arith) (
                  if_size n (ltb (code c) 32) _ _ (omega arith) (
                    if_size n (ascii && leb 127 (code c)) _ _ (dump_wide_size (code c) rest)
                      (omega arith)))))))))

dump_chars_size :
    (ascii : Bool) (s rest : String) → suc (chars rest) ≤ chars (dump_chars ascii s rest)
unfolding dump_chars
dump_chars_size ascii [] rest = omega arith
dump_chars_size ascii (c ∷ s) rest =
    omega (arith, dump_chars_size ascii s rest, dump_char_size ascii c (dump_chars ascii s rest))

mutual
  unfolding dump IsPlain size

  pub size-dump :
      (v : Json) (ascii : Bool) (rest : String)
      → IsPlain v
      → size v + chars rest ≤ chars (dump ascii v rest)
  size-dump null ascii rest p = omega arith
  size-dump (bool true) ascii rest p = omega arith
  size-dump (bool false) ascii rest p = omega arith
  size-dump (int n) ascii rest p = absurd p
  size-dump (float s) ascii rest p = absurd p
  size-dump (str s) ascii rest p = omega (arith, dump_chars_size ascii s rest)
  size-dump (arr nil) ascii rest p = omega arith
  size-dump (arr (cons x xs)) ascii rest (p, ps) =
      omega
        (arith, size-dump x ascii (dump_items ascii xs rest) p, dump_items_size xs ascii rest ps)
  size-dump (obj end) ascii rest p = omega arith
  size-dump (obj (field k v fs)) ascii rest (fresh, p, ps) = omega (
    arith,
    dump_chars_size ascii k (":" ∷ " " ∷ dump ascii v (dump_fields ascii fs rest)),
    size-dump v ascii (dump_fields ascii fs rest) p,
    dump_fields_size fs ascii rest ps,
  )

  dump_items_size :
      (xs : Items) (ascii : Bool) (rest : String)
      → ArePlainItems xs
      → suc (size_items xs + chars rest) ≤ chars (dump_items ascii xs rest)
  dump_items_size nil ascii rest p = omega arith
  dump_items_size (cons x xs) ascii rest (p, ps) =
      omega
        (arith, size-dump x ascii (dump_items ascii xs rest) p, dump_items_size xs ascii rest ps)

  dump_fields_size :
      (fs : Fields) (ascii : Bool) (rest : String)
      → ArePlainFields fs
      → suc (size_fields fs + chars rest) ≤ chars (dump_fields ascii fs rest)
  dump_fields_size end ascii rest p = omega arith
  dump_fields_size (field k v fs) ascii rest (fresh, p, ps) = omega (
    arith,
    dump_chars_size ascii k (":" ∷ " " ∷ dump ascii v (dump_fields ascii fs rest)),
    size-dump v ascii (dump_fields ascii fs rest) p,
    dump_fields_size fs ascii rest ps,
  )
