-- ===== src/Text.antt =====
-- Python's `str` methods that services/llm uses, over the native texts (sequences of code points).
-- `lower` and `is_word` cover ASCII, Latin-1 and the Cyrillic letters U+0400 to U+045F; other
-- letters are left as they are and are no word characters.
mod Tests
pub mod Codes
pub mod Ends
use Prim.Native.Nat.{compare, Ordering}
use Prim.Native.Char.{IsLt, char, nul}
use Prim.Native.String.{[], ◌∷◌, ◌++◌ as append}
use mathlib.Core.List.{[], ◌∷◌}
use mts_true_tech_hack.Base.{
  ℕ, suc, ◌+◌, Char, code, String, Bool, true, false, not, ◌&&◌, ◌||◌, List, ◌==◌, leb, eqb,
  if◌then◌else◌, starts_with,
}

-- Concatenation of texts, as `+` and the parts of an f-string.
infixr 65 ◌⊕◌
abbrev pub ◌⊕◌ : String → String → String
s ⊕ t = append s t

-- `bool(s)`
abbrev pub nonempty : String → Bool
nonempty [] = false
nonempty (c ∷ s) = true

-- `a or b` of two texts
abbrev pub or_else : String → String → String
or_else a b = if nonempty a then a else b

-- White space, as `strip` removes it and `\s` matches it.
unfoldable pub is_space : ℕ → Bool
is_space c =
    leb 9 c && leb c 13
    || leb 28 c && leb c 32
    || eqb c 133
    || eqb c 160
    || eqb c 5760
    || leb 8192 c && leb c 8202
    || eqb c 8232
    || eqb c 8233
    || eqb c 8239
    || eqb c 8287
    || eqb c 12288

unfoldable pub lstrip : String → String
unfolding is_space
lstrip [] = []
lstrip (c ∷ s) = if is_space (code c) then lstrip s else c ∷ s

unfoldable pub rstrip : String → String
unfolding is_space
rstrip [] = []
rstrip (c ∷ s) =
    let rest = rstrip s in
    if is_space (code c) then (if nonempty rest then c ∷ rest else []) else c ∷ rest

unfoldable pub strip : String → String
unfolding lstrip rstrip
strip s = rstrip (lstrip s)

-- The three comparisons of `IsScalar`, named so that they can be decided.
abbrev pub BothLt : Ordering → Ordering → Type 0
BothLt Ordering.lt o = IsLt o
BothLt Ordering.eq _ = ⊥
BothLt Ordering.gt _ = ⊥

abbrev pub Scalar : Ordering → Ordering → Ordering → Type 0
Scalar Ordering.lt _ _ = Unit
Scalar Ordering.eq o p = BothLt o p
Scalar Ordering.gt o p = BothLt o p

abbrev pub above_surrogates : (p q : Ordering) → (BothLt p q → Char) → Char → Char
above_surrogates Ordering.lt Ordering.lt make other = make tt
above_surrogates _ _ make other = other

abbrev pub decide_scalar : (o p q : Ordering) → (Scalar o p q → Char) → Char → Char
decide_scalar Ordering.lt p q make other = make tt
decide_scalar Ordering.eq p q make other = above_surrogates p q make other
decide_scalar Ordering.gt p q make other = above_surrogates p q make other

-- The character of a code point; a number that is none gives U+0000.
abbrev pub chr : ℕ → Char
chr n = decide_scalar (compare n 55296) (compare 57343 n) (compare n 1114112) (char n) nul

-- How far above an upper-case letter its lower-case letter stands.
abbrev pub lower_shift : ℕ → ℕ
lower_shift c =
    if leb b'A' c && leb c b'Z'
    then 32
    else if leb 192 c && leb c 222 && not (eqb c 215)
    then 32
    else if leb 1040 c && leb c 1071
    then 32
    else if leb 1024 c && leb c 1039
    then 80
    else 0

-- `str.lower` of one character
unfoldable pub lower_char : Char → Char
lower_char ch =
    let shift = lower_shift (code ch) in if eqb shift 0 then ch else chr (code ch + shift)

unfoldable pub lower : String → String
unfolding lower_char
lower [] = []
lower (c ∷ s) = lower_char c ∷ lower s

-- `needle in s`
unfoldable pub contains : String → String → Bool
contains needle [] = needle == ""
contains needle (c ∷ s) = starts_with (c ∷ s) needle || contains needle s

-- `any(marker in s for marker in markers)`
unfoldable pub contains_any : List String → String → Bool
unfolding contains
contains_any [] s = false
contains_any (m ∷ ms) s = contains m s || contains_any ms s

-- `s.endswith(tail)`
unfoldable pub ends_with : String → String → Bool
ends_with [] tail = tail == ""
ends_with (c ∷ s) tail = (c ∷ s) == tail || ends_with s tail

-- `s in texts`
unfoldable pub is_one_of : List String → String → Bool
is_one_of [] s = false
is_one_of (t ∷ ts) s = s == t || is_one_of ts s

-- `list(dict.fromkeys(texts))`: the first of equal texts stays, in order.
unfoldable pub without : String → List String → List String
without t [] = []
without t (s ∷ ss) = let rest = without t ss in if s == t then rest else s ∷ rest

unfoldable pub dedup : List String → List String
unfolding without
dedup [] = []
dedup (s ∷ ss) = s ∷ without s (dedup ss)

abbrev cons_head : Char → List String → List String
cons_head c [] = (c ∷ []) ∷ []
cons_head c (w ∷ ws) = (c ∷ w) ∷ ws

-- `s.split(".")`
unfoldable pub split_dots : String → List String
split_dots [] = [] ∷ []
split_dots (c ∷ s) =
    let rest = split_dots s in if eqb (code c) b'.' then [] ∷ rest else cons_head c rest

-- `s.count(".")`
unfoldable pub count_dots : String → ℕ
count_dots [] = 0
count_dots (c ∷ s) = if eqb (code c) b'.' then suc (count_dots s) else count_dots s

-- `s.rsplit(".", 1)[0]`: what stands before the last dot, all of `s` where there is none.
unfoldable pub before_last_dot : String → String
unfolding count_dots
before_last_dot [] = []
before_last_dot (c ∷ s) =
    let rest = before_last_dot s in
    if leb 1 (count_dots s) then c ∷ rest else if eqb (code c) b'.' then [] else c ∷ s

-- `s.replace("[]", "")`
unfoldable pub drop_brackets : String → String
drop_brackets [] = []
drop_brackets (c ∷ []) = c ∷ []
drop_brackets (c ∷ d ∷ s) =
    let after = drop_brackets s in
    let next = drop_brackets (d ∷ s) in
    if eqb (code c) b'[' && eqb (code d) b']' then after else c ∷ next

-- `sep.join(texts)`
unfoldable pub join : String → List String → String
join sep [] = ""
join sep (s ∷ []) = s
join sep (s ∷ t ∷ ts) = s ⊕ sep ⊕ join sep (t ∷ ts)
