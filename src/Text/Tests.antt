-- ===== src/Text/Tests.antt =====
-- Runs of the text operations.
use mts_true_tech_hack.Base.{[], ◌∷◌, ◌≡◌, refl, true}
use mts_true_tech_hack.Text.{
  strip, lower, contains, dedup, split_dots, before_last_dot, drop_brackets, join,
}

strip_run : strip "  a b \n" ≡ "a b"
unfolding strip
strip_run = refl

lower_run : lower "Ab Я ё Ё" ≡ "ab я ё ё"
unfolding lower
lower_run = refl

contains_run : contains "bc" "abcd" ≡ true
unfolding contains
contains_run = refl

split_dots_run : split_dots "wf.vars.a" ≡ "wf" ∷ "vars" ∷ "a" ∷ []
unfolding split_dots
split_dots_run = refl

before_last_dot_run : before_last_dot "wf.vars.a" ≡ "wf.vars"
unfolding before_last_dot
before_last_dot_run = refl

drop_brackets_run : drop_brackets "wf[].vars[]a[" ≡ "wf.varsa["
unfolding drop_brackets
drop_brackets_run = refl

dedup_run : dedup ("a" ∷ "b" ∷ "a" ∷ []) ≡ "a" ∷ "b" ∷ []
unfolding dedup
dedup_run = refl

join_run : join ", " ("a" ∷ "b" ∷ []) ≡ "a, b"
unfolding join
join_run = refl
