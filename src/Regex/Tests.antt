-- ===== src/Regex/Tests.antt =====
-- Patterns at concrete texts.
use mts_true_tech_hack.Base.{String, ◌≡◌, refl, Option, none, some, [], ◌∷◌, map}
use mts_true_tech_hack.Regex.{
  Regex, Match, one, seq, group, lazy_star, lit, plus, ident, any_char, word_boundary, re_search,
  re_find_all, re_sub, re_split, group_of,
}

abbrev found : Option Match → Option String
found none = none
found (some m) = some (group_of 1 m)

abbrev fenced : Regex
fenced = seq (lit "<") (seq (group 1 (lazy_star (one any_char))) (lit ">"))

lazy_test : found (re_search fenced "x <ab> c>") ≡ some "ab"
unfolding re_search group_of
lazy_test = refl

idents : map (group_of 1) (re_find_all (group 1 ident) "12 ab_1 + c3 Ж") ≡ "ab_1" ∷ "c3" ∷ []
unfolding re_find_all group_of
idents = refl

replaced : re_sub (lit "ab") (λ m. "-") "abcabab" ≡ "-c--"
unfolding re_sub
replaced = refl

pieces : re_split (plus (lit ".")) "a..b.c" ≡ "a" ∷ "b" ∷ "c" ∷ []
unfolding re_split
pieces = refl

bounded : found (re_search (seq word_boundary (group 1 (lit "wf"))) "xwf wf") ≡ some "wf"
unfolding re_search group_of
bounded = refl
