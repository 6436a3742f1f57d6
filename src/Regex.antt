-- ===== src/Regex.antt =====
-- The part of Python's `re` that services/llm and services/lua-validator use: a backtracking
-- matcher over patterns built from the same pieces as the pattern texts. A pattern's matches come
-- as a list in the order in which `re` tries them, so that the first is the one that `re` returns.
pub mod Tests
use Prim.Native.String.{[], ◌∷◌, count, ◌++◌ as append}
use mathlib.Core.List.{[], ◌∷◌}
use mts_true_tech_hack.Base.{
  ℕ, zero, suc, ◌+◌, ◌-◌, Char, code, String, Bool, true, false, not, ◌&&◌, ◌||◌, Option, none,
  some, List, ◌++◌, map, concat_map, leb, eqb, if◌then◌else◌,
}
use mts_true_tech_hack.Text.{lower_shift}

-- `one p` reads a character; `group n` stands for the n-th pair of capturing parentheses.
pub data Regex : Type 0 where
  eps : Regex
  one : (ℕ → Bool) → Regex
  seq alt : Regex → Regex → Regex
  star lazy_star : Regex → Regex
  group : ℕ → Regex → Regex
  word_boundary text_start text_end : Regex

-- Where the matcher stands: the character before, the text ahead, and what the groups hold, the
-- latest first.
pub record Cursor : Type 0 where
  pub prev : Option Char
  pub rest : String
  pub groups : List (ℕ × String)

-- `\w`
unfoldable pub is_word : ℕ → Bool
is_word c =
    leb b'a' c && leb c b'z'
    || leb b'A' c && leb c b'Z'
    || leb b'0' c && leb c b'9'
    || eqb c b'_'
    || leb 192 c && leb c 255 && not (eqb c 215) && not (eqb c 247)
    || leb 1024 c && leb c 1119

abbrev word_before : Option Char → Bool
word_before none = false
word_before (some c) = is_word (code c)

abbrev word_after : String → Bool
word_after [] = false
word_after (c ∷ s) = is_word (code c)

abbrev differ : Bool → Bool → Bool
differ a b = a && not b || b && not a

abbrev at_start : Option Char → Bool
at_start none = true
at_start (some c) = false

-- `$` also matches before a line break that ends the text.
abbrev at_end : String → Bool
at_end [] = true
at_end (c ∷ []) = eqb (code c) 10
at_end (c ∷ d ∷ s) = false

abbrev when : Bool → Cursor → List Cursor
when b c = if b then c ∷ [] else []

-- The first `n` characters.
unfoldable pub take_chars : ℕ → String → String
take_chars zero s = []
take_chars (suc n) [] = []
take_chars (suc n) (c ∷ s) = c ∷ take_chars n s

-- What was read on the way from one cursor to a later one.
unfoldable pub text_between : Cursor → Cursor → String
unfolding take_chars
text_between c d = take_chars (count c.rest - count d.rest) c.rest

abbrev capture : ℕ → Cursor → Cursor → Cursor
capture n c d = record d { groups = (n, text_between c d) ∷ d.groups }

abbrev read_one : (ℕ → Bool) → String → Cursor → List Cursor
read_one p [] c = []
read_one p (ch ∷ s) c = if p (code ch) then record c { prev = some ch; rest = s } ∷ [] else []

-- At most `n` rounds of a body that reads something: as many as the text ahead has characters.
unfoldable pub greedy : (Cursor → List Cursor) → ℕ → Cursor → List Cursor
greedy body zero c = c ∷ []
greedy body (suc n) c = concat_map (greedy body n) (body c) ++ c ∷ []

unfoldable pub lazy : (Cursor → List Cursor) → ℕ → Cursor → List Cursor
lazy body zero c = c ∷ []
lazy body (suc n) c = c ∷ concat_map (lazy body n) (body c)

-- Where the pattern may end when it begins at `c`, in the order of the attempts.
unfoldable pub ends : Regex → Cursor → List Cursor
unfolding greedy lazy is_word text_between
ends eps c = c ∷ []
ends (one p) c = read_one p c.rest c
ends (seq a b) c = concat_map (ends b) (ends a c)
ends (alt a b) c = ends a c ++ ends b c
ends (star a) c = greedy (ends a) (count c.rest) c
ends (lazy_star a) c = lazy (ends a) (count c.rest) c
ends (group n a) c = map (capture n c) (ends a c)
ends word_boundary c = when (differ (word_before c.prev) (word_after c.rest)) c
ends text_start c = when (at_start c.prev) c
ends text_end c = when (at_end c.rest) c

-- A match: the cursors at its two ends.
pub record Match : Type 0 where
  pub from : Cursor
  pub to : Cursor

abbrev match_here : Cursor → List Cursor → Option Match
match_here c [] = none
match_here c (d ∷ ds) = some (record { from = c; to = d })

-- The leftmost match in `s`, where `prev` is the character before `s`.
unfoldable pub search_from : Regex → Option Char → String → Option Match
unfolding ends
search_from r prev [] =
    let c : Cursor = record { prev = prev; rest = []; groups = [] } in match_here c (ends r c)
search_from r prev (ch ∷ s) =
    let later = search_from r (some ch) s in
    let c : Cursor = record { prev = prev; rest = ch ∷ s; groups = [] } in
    elim (ends r c) [ [] ↦ later | d ∷ ds ↦ some (record { from = c; to = d }) ]

-- `re.search(r, s)`
unfoldable pub re_search : Regex → String → Option Match
unfolding search_from
re_search r s = search_from r none s

abbrev group_in : ℕ → List (ℕ × String) → String
group_in n [] = ""
group_in n ((m, s) ∷ gs) = if eqb n m then s else group_in n gs

-- `match.group(n)` or ""
unfoldable pub group_of : ℕ → Match → String
group_of n m = group_in n m.to.groups

-- The loops below look for the next match behind the last one. Their patterns read at least one
-- character, so a text of `n` characters has at most `n` matches and `suc n` rounds are enough.
unfoldable pub matches_from : ℕ → Regex → Option Char → String → List Match
unfolding search_from
matches_from zero r prev s = []
matches_from (suc n) r prev s = elim (search_from r prev s) [
  | none ↦ []
  | some m ↦ m ∷ matches_from n r m.to.prev m.to.rest
]

-- `re.findall(r, s)`, as matches
unfoldable pub re_find_all : Regex → String → List Match
unfolding matches_from
re_find_all r s = matches_from (suc (count s)) r none s

abbrev cursor_at : Option Char → String → Cursor
cursor_at prev s = record { prev = prev; rest = s; groups = [] }

unfoldable pub sub_from : ℕ → Regex → (Match → String) → Option Char → String → String
unfolding search_from
sub_from zero r f prev s = s
sub_from (suc n) r f prev s = elim (search_from r prev s) [
  | none ↦ s
  | some m ↦
      append (text_between (cursor_at prev s) m.from)
        (append (f m) (sub_from n r f m.to.prev m.to.rest))
]

-- `re.sub(r, f, s)`
unfoldable pub re_sub : Regex → (Match → String) → String → String
unfolding sub_from
re_sub r f s = sub_from (suc (count s)) r f none s

unfoldable pub split_from : ℕ → Regex → Option Char → String → List String
unfolding search_from
split_from zero r prev s = s ∷ []
split_from (suc n) r prev s = elim (search_from r prev s) [
  | none ↦ s ∷ []
  | some m ↦ text_between (cursor_at prev s) m.from ∷ split_from n r m.to.prev m.to.rest
]

-- `re.split(r, s)`
unfoldable pub re_split : Regex → String → List String
unfolding split_from
re_split r s = split_from (suc (count s)) r none s

-- The pieces of a pattern text.
abbrev pub is_ch : ℕ → ℕ → Bool
is_ch c d = eqb d c

-- A literal.
abbrev pub lit : String → Regex
lit [] = eps
lit (c ∷ []) = one (is_ch (code c))
lit (c ∷ d ∷ s) = seq (one (is_ch (code c))) (lit (d ∷ s))

-- A literal in lower case, under IGNORECASE.
abbrev pub is_letter : ℕ → ℕ → Bool
is_letter c d = eqb (d + lower_shift d) c

abbrev pub lit_nocase : String → Regex
lit_nocase [] = eps
lit_nocase (c ∷ []) = one (is_letter (code c))
lit_nocase (c ∷ d ∷ s) = seq (one (is_letter (code c))) (lit_nocase (d ∷ s))

-- `(?:a|b|c)` of literals under IGNORECASE
abbrev pub words_nocase : List String → Regex
words_nocase [] = eps
words_nocase (w ∷ []) = lit_nocase w
words_nocase (w ∷ v ∷ ws) = alt (lit_nocase w) (words_nocase (v ∷ ws))

-- `r+` and `r?`
abbrev pub plus : Regex → Regex
plus r = seq r (star r)

abbrev pub maybe : Regex → Regex
maybe r = alt r eps

-- `[A-Za-z_]`, `[A-Za-z0-9_]`, `\s` and `.` under DOTALL
abbrev pub ident_start : ℕ → Bool
ident_start c = leb b'a' c && leb c b'z' || leb b'A' c && leb c b'Z' || eqb c b'_'

abbrev pub ident_char : ℕ → Bool
ident_char c = ident_start c || leb b'0' c && leb c b'9'

abbrev pub any_char : ℕ → Bool
any_char c = true

-- `[A-Za-z_][A-Za-z0-9_]*`
abbrev pub ident : Regex
ident = seq (one ident_start) (star (one ident_char))
