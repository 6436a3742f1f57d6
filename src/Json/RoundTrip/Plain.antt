-- ===== src/Json/RoundTrip/Plain.antt =====
-- The values that are written and read without a change, and how deep their reading goes.
use mts_true_tech_hack.Base.{
  ℕ, suc, ◌+◌, ◌≤◌, ◌≡◌, refl, ap, String, Bool, false, arith, ◌||◌, ◌==◌,
}
use mts_true_tech_hack.Json.{
  Json, null, bool, int, float, str, arr, obj, Items, nil, cons, Fields, end, field, has_key,
}
use mts_true_tech_hack.Json.Loads.{remove, add_first}

-- No number in it, and no key twice in one object.
unfoldable mutual
  pub IsPlain : Json → Type 0
  IsPlain null = Unit
  IsPlain (bool b) = Unit
  IsPlain (int n) = ⊥
  IsPlain (float s) = ⊥
  IsPlain (str s) = Unit
  IsPlain (arr xs) = ArePlainItems xs
  IsPlain (obj fs) = ArePlainFields fs

  pub ArePlainItems : Items → Type 0
  ArePlainItems nil = Unit
  ArePlainItems (cons x xs) = IsPlain x × ArePlainItems xs

  pub ArePlainFields : Fields → Type 0
  ArePlainFields end = Unit
  ArePlainFields (field k v fs) = (has_key k fs ≡ false) × IsPlain v × ArePlainFields fs

-- The fuel that reading takes.
unfoldable mutual
  pub size : Json → ℕ
  size (arr xs) = suc (size_items xs)
  size (obj fs) = suc (size_fields fs)
  size v = 1

  pub size_items : Items → ℕ
  size_items nil = 0
  size_items (cons x xs) = suc (size x + size_items xs)

  pub size_fields : Fields → ℕ
  size_fields end = 0
  size_fields (field k v fs) = suc (size v + size_fields fs)

pub size_pos : (v : Json) → 1 ≤ size v
unfolding size
size_pos (arr xs) = omega arith
size_pos (obj fs) = omega arith
size_pos null = omega arith
size_pos (bool b) = omega arith
size_pos (int n) = omega arith
size_pos (float s) = omega arith
size_pos (str s) = omega arith

or_false_left : (a b : Bool) → a || b ≡ false → a ≡ false
or_false_left a b h = ground arith

or_false_right : (a b : Bool) → a || b ≡ false → b ≡ false
or_false_right a b h = ground arith

remove_absent : (key : String) (fs : Fields) → has_key key fs ≡ false → remove key fs ≡ fs
unfolding remove has_key
remove_absent key end h = refl
remove_absent key (field k v fs) h =
    rw (or_false_left (k == key) (has_key key fs) h)
      (ap (field k v) (remove_absent key fs (or_false_right (k == key) (has_key key fs) h)))

pub add_first_absent :
    (key : String) (v : Json) (fs : Fields)
    → has_key key fs ≡ false
    → add_first key v fs ≡ field key v fs
unfolding add_first
add_first_absent key v fs h = rw (h, remove_absent key fs h) refl
