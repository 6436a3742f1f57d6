-- ===== src/Json/RoundTrip/Values.antt =====
-- Reading a value that `dump` has written, whatever stands behind it.
use Prim.Native.String.{[], ◌∷◌}
use mts_true_tech_hack.Base.{
  ℕ, zero, suc, ◌+◌, ◌≤◌, String, Bool, true, false, ◌≡◌, refl, ap, ◌∙◌, arith,
}
use mts_true_tech_hack.Json.{
  Json, null, bool, int, float, str, arr, obj, Items, nil, cons, Fields, end, field, has_key,
}
use mts_true_tech_hack.Json.Dumps.{dump, dump_items, dump_fields, dump_text, dump_chars}
use mts_true_tech_hack.Json.Loads.{
  Parse, scanned, and_then, push, plain, scan, skip_blanks, items_after, fields_after, array_of,
  parse_value, parse_items, parse_fields, atom,
}
use mts_true_tech_hack.Json.RoundTrip.Chars.{scan-dump_char}
use mts_true_tech_hack.Json.RoundTrip.Plain.{
  IsPlain, ArePlainItems, ArePlainFields, size, size_items, size_fields, size_pos, add_first_absent,
}

scan-dump_chars :
    (ascii : Bool) (s rest : String) → scan plain (dump_chars ascii s rest) ≡ scanned (s, rest)
unfolding dump_chars scan
scan-dump_chars ascii [] rest = refl
scan-dump_chars ascii (c ∷ s) rest =
    scan-dump_char ascii c (dump_chars ascii s rest) ∙ ap (push c) (scan-dump_chars ascii s rest)

-- What is written begins with no blank.
pub skip_blanks-dump :
    (ascii : Bool) (v : Json) (rest : String)
    → IsPlain v
    → skip_blanks (dump ascii v rest) ≡ dump ascii v rest
unfolding skip_blanks dump IsPlain
skip_blanks-dump ascii null rest p = refl
skip_blanks-dump ascii (bool true) rest p = refl
skip_blanks-dump ascii (bool false) rest p = refl
skip_blanks-dump ascii (int n) rest p = absurd p
skip_blanks-dump ascii (float s) rest p = absurd p
skip_blanks-dump ascii (str s) rest p = refl
skip_blanks-dump ascii (arr nil) rest p = refl
skip_blanks-dump ascii (arr (cons x xs)) rest p = refl
skip_blanks-dump ascii (obj end) rest p = refl
skip_blanks-dump ascii (obj (field k v fs)) rest p = refl

-- The items and the fields behind the first.
abbrev dump_item_list : Bool → Items → String → String
dump_item_list ascii nil rest = rest
dump_item_list ascii (cons x xs) rest = dump ascii x (dump_items ascii xs rest)

abbrev dump_field_list : Bool → Fields → String → String
dump_field_list ascii end rest = rest
dump_field_list ascii (field k v fs) rest =
    dump_text ascii k (":" ∷ " " ∷ dump ascii v (dump_fields ascii fs rest))

str_read :
    (f : ℕ) (ascii : Bool) (s rest : String)
    → parse_value (suc f) (dump ascii (str s) rest) ≡ scanned (str s, rest)
unfolding parse_value dump
str_read f ascii s rest = rw (scan-dump_chars ascii s rest) refl

member_read :
    (f : ℕ) (ascii : Bool) (k : String) (v : Json) (fs : Fields) (rest : String)
    → IsPlain v
    → parse_value f (dump ascii v (dump_fields ascii fs rest))
      ≡ scanned (v, dump_fields ascii fs rest)
    → parse_fields (suc f) (dump_field_list ascii (field k v fs) rest)
      ≡ fields_after k v (parse_fields f) (skip_blanks (dump_fields ascii fs rest))
unfolding parse_fields
member_read f ascii k v fs rest p h =
    rw (scan-dump_chars ascii k (":" ∷ " " ∷ dump ascii v (dump_fields ascii fs rest)))
      (rw (skip_blanks-dump ascii v (dump_fields ascii fs rest) p, h) refl)

abbrev array_then : Parse Items → Parse Json
array_then xs = and_then xs (λ xs' rest. scanned (arr xs', rest))

-- An array with an item does not look like an empty one.
array_of-dump :
    (ascii : Bool) (v : Json) (rest : String) (xs : Parse Items)
    → IsPlain v
    → array_of (dump ascii v rest) xs ≡ array_then xs
unfolding dump IsPlain
array_of-dump ascii null rest xs p = refl
array_of-dump ascii (bool true) rest xs p = refl
array_of-dump ascii (bool false) rest xs p = refl
array_of-dump ascii (int n) rest xs p = absurd p
array_of-dump ascii (float s) rest xs p = absurd p
array_of-dump ascii (str s) rest xs p = refl
array_of-dump ascii (arr nil) rest xs p = refl
array_of-dump ascii (arr (cons y ys)) rest xs p = refl
array_of-dump ascii (obj end) rest xs p = refl
array_of-dump ascii (obj (field k v fs)) rest xs p = refl

array_read :
    (f : ℕ) (ascii : Bool) (x : Json) (xs : Items) (rest : String)
    → IsPlain x
    → parse_items f (dump_item_list ascii (cons x xs) rest) ≡ scanned (cons x xs, rest)
    → parse_value (suc f) (dump ascii (arr (cons x xs)) rest) ≡ scanned (arr (cons x xs), rest)
unfolding parse_value dump
array_read f ascii x xs rest p h =
    rw (skip_blanks-dump ascii x (dump_items ascii xs rest) p)
      (array_of-dump ascii x (dump_items ascii xs rest) _ p ∙ ap array_then h)

object_read :
    (f : ℕ) (ascii : Bool) (k : String) (v : Json) (fs : Fields) (rest : String)
    → parse_fields f (dump_field_list ascii (field k v fs) rest) ≡ scanned (field k v fs, rest)
    → parse_value (suc f) (dump ascii (obj (field k v fs)) rest)
      ≡ scanned (obj (field k v fs), rest)
unfolding parse_value dump
object_read f ascii k v fs rest h = rw h refl

items_next :
    (f : ℕ) (ascii : Bool) (x : Json) (xs : Items) (rest : String)
    → parse_value f (dump ascii x (dump_items ascii xs rest))
      ≡ scanned (x, dump_items ascii xs rest)
    → parse_items (suc f) (dump_item_list ascii (cons x xs) rest)
      ≡ items_after x (parse_items f) (skip_blanks (dump_items ascii xs rest))
unfolding parse_items
items_next f ascii x xs rest h = rw h refl

items_last :
    (f : ℕ) (ascii : Bool) (x : Json) (rest : String)
    → items_after x (parse_items f) (skip_blanks (dump_items ascii nil rest))
      ≡ scanned (cons x nil, rest)
unfolding dump_items skip_blanks
items_last f ascii x rest = refl

items_more :
    (f : ℕ) (ascii : Bool) (x y : Json) (ys : Items) (rest : String)
    → IsPlain y
    → parse_items f (dump_item_list ascii (cons y ys) rest) ≡ scanned (cons y ys, rest)
    → items_after x (parse_items f) (skip_blanks (dump_items ascii (cons y ys) rest))
      ≡ scanned (cons x (cons y ys), rest)
unfolding dump_items skip_blanks
items_more f ascii x y ys rest p h =
    rw (skip_blanks-dump ascii y (dump_items ascii ys rest) p, h) refl

fields_last :
    (f : ℕ) (ascii : Bool) (k : String) (v : Json) (rest : String)
    → fields_after k v (parse_fields f) (skip_blanks (dump_fields ascii end rest))
      ≡ scanned (field k v end, rest)
unfolding dump_fields skip_blanks
fields_last f ascii k v rest = refl

fields_more :
    (f : ℕ) (ascii : Bool) (k l : String) (v w : Json) (fs : Fields) (rest : String)
    → has_key k (field l w fs) ≡ false
    → parse_fields f (dump_field_list ascii (field l w fs) rest) ≡ scanned (field l w fs, rest)
    → fields_after k v (parse_fields f) (skip_blanks (dump_fields ascii (field l w fs) rest))
      ≡ scanned (field k v (field l w fs), rest)
unfolding dump_fields skip_blanks
fields_more f ascii k l v w fs rest fresh h = rw (h, add_first_absent k v (field l w fs) fresh) refl

null_read :
    (f : ℕ) (ascii : Bool) (rest : String)
    → parse_value (suc f) (dump ascii null rest) ≡ scanned (null, rest)
unfolding parse_value dump atom
null_read f ascii rest = refl

bool_read :
    (f : ℕ) (ascii b : Bool) (rest : String)
    → parse_value (suc f) (dump ascii (bool b) rest) ≡ scanned (bool b, rest)
unfolding parse_value dump atom
bool_read f ascii true rest = refl
bool_read f ascii false rest = refl

empty_array_read :
    (f : ℕ) (ascii : Bool) (rest : String)
    → parse_value (suc f) (dump ascii (arr nil) rest) ≡ scanned (arr nil, rest)
unfolding parse_value dump skip_blanks
empty_array_read f ascii rest = refl

empty_object_read :
    (f : ℕ) (ascii : Bool) (rest : String)
    → parse_value (suc f) (dump ascii (obj end) rest) ≡ scanned (obj end, rest)
unfolding parse_value dump skip_blanks
empty_object_read f ascii rest = refl

mutual
  unfolding IsPlain size

  pub value_read :
      (v : Json) (f : ℕ) (ascii : Bool) (rest : String)
      → IsPlain v
      → size v ≤ f
      → parse_value f (dump ascii v rest) ≡ scanned (v, rest)
  value_read v zero ascii rest p h = absurd (omega (arith, size_pos v))
  value_read null (suc f) ascii rest p h = null_read f ascii rest
  value_read (bool b) (suc f) ascii rest p h = bool_read f ascii b rest
  value_read (int n) (suc f) ascii rest p h = absurd p
  value_read (float s) (suc f) ascii rest p h = absurd p
  value_read (str s) (suc f) ascii rest p h = str_read f ascii s rest
  value_read (arr nil) (suc f) ascii rest p h = empty_array_read f ascii rest
  value_read (arr (cons x xs)) (suc f) ascii rest (p, ps) h =
      array_read f ascii x xs rest p (items_read x xs f ascii rest p ps (omega arith))
  value_read (obj end) (suc f) ascii rest p h = empty_object_read f ascii rest
  value_read (obj (field k v fs)) (suc f) ascii rest (fresh, p, ps) h =
      object_read f ascii k v fs rest (fields_read k v fs f ascii rest fresh p ps (omega arith))

  items_read :
      (x : Json) (xs : Items) (f : ℕ) (ascii : Bool) (rest : String)
      → IsPlain x
      → ArePlainItems xs
      → suc (size x + size_items xs) ≤ f
      → parse_items f (dump_item_list ascii (cons x xs) rest) ≡ scanned (cons x xs, rest)
  items_read x xs zero ascii rest p ps h = absurd (omega arith)
  items_read x nil (suc f) ascii rest p ps h =
      items_next f ascii x nil rest
        (value_read x f ascii (dump_items ascii nil rest) p (omega arith))
      ∙ items_last f ascii x rest
  items_read x (cons y ys) (suc f) ascii rest p (q, qs) h =
      items_next f ascii x (cons y ys) rest
        (value_read x f ascii (dump_items ascii (cons y ys) rest) p (omega arith))
      ∙ items_more f ascii x y ys rest q (items_read y ys f ascii rest q qs (omega arith))

  fields_read :
      (k : String) (v : Json) (fs : Fields) (f : ℕ) (ascii : Bool) (rest : String)
      → has_key k fs ≡ false
      → IsPlain v
      → ArePlainFields fs
      → suc (size v + size_fields fs) ≤ f
      → parse_fields f (dump_field_list ascii (field k v fs) rest) ≡ scanned (field k v fs, rest)
  fields_read k v fs zero ascii rest fresh p ps h = absurd (omega arith)
  fields_read k v end (suc f) ascii rest fresh p ps h =
      member_read f ascii k v end rest p
        (value_read v f ascii (dump_fields ascii end rest) p (omega arith))
      ∙ fields_last f ascii k v rest
  fields_read k v (field l w fs) (suc f) ascii rest fresh p (q, qs, qss) h =
      member_read f ascii k v (field l w fs) rest p
        (value_read v f ascii (dump_fields ascii (field l w fs) rest) p (omega arith))
      ∙ fields_more f ascii k l v w fs rest fresh
          (fields_read l w fs f ascii rest q qs qss (omega arith))
