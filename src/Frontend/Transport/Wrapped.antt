-- ===== src/Frontend/Transport/Wrapped.antt =====
-- What the page reads of a wrapped text.
use Prim.Native.Nat.{◌-◌}
use Prim.Native.String.{[], ◌∷◌, count}
use package.text.Mathlib.TextLemmas.{length-append}
use package.text.Mathlib.TextPositions.{starts_with-append}
use mts_true_tech_hack.Base.{
  ℕ, ◌+◌, String, ◌≡◌, refl, sym, ap, ◌∙◌, true, false, some, starts_with, arith, Bool-cases, inl,
  inr, code,
}
use package.text.Mathlib.TextEquality.{starts_with_iff}
use mts_true_tech_hack.Text.{◌⊕◌, is_space, rstrip, strip, ends_with}
use mts_true_tech_hack.Text.Ends.{
  spelled, spelled-eq-append, EndsBare, EndsBare-append, strip_bare, ends_with-append,
  take_chars-append, ends_with-behind,
}
use mts_true_tech_hack.Frontend.Transport.{lua, text, drop_chars, inner, parse_transport_content}

bare_lua : rstrip "}lua" ≡ "}lua"
unfolding rstrip
bare_lua = refl

bare_text : rstrip "}text" ≡ "}text"
unfolding rstrip
bare_text = refl

lua_bare : EndsBare "}lua"
lua_bare = record { bare = bare_lua; filled = refl }

text_bare : EndsBare "}text"
text_bare = record { bare = bare_text; filled = refl }

-- A code in its wrapper.
abbrev pub wrapped_lua : String → String
wrapped_lua content = "lua{" ⊕ content ⊕ "}lua"

abbrev pub wrapped_text : String → String
wrapped_text content = "text{" ⊕ content ⊕ "}text"

-- The wrappers, with their first characters in sight.
lua_spelled : (content : String) → spelled "lua{" (content ⊕ "}lua") ≡ wrapped_lua content
lua_spelled content = spelled-eq-append "lua{" (content ⊕ "}lua")

text_spelled : (content : String) → spelled "text{" (content ⊕ "}text") ≡ wrapped_text content
text_spelled content = spelled-eq-append "text{" (content ⊕ "}text")

strip-wrapped_lua : (content : String) → strip (wrapped_lua content) ≡ wrapped_lua content
unfolding is_space
strip-wrapped_lua content =
    let bare : EndsBare (spelled "lua{" (content ⊕ "}lua")) =
      rw (lua_spelled content)
        (EndsBare-append "lua{" _ (EndsBare-append content "}lua" lua_bare)) in
    rw (← lua_spelled content) (strip_bare "l" (spelled "ua{" (content ⊕ "}lua")) refl bare)

strip-wrapped_text : (content : String) → strip (wrapped_text content) ≡ wrapped_text content
unfolding is_space
strip-wrapped_text content =
    let bare : EndsBare (spelled "text{" (content ⊕ "}text")) =
      rw (text_spelled content)
        (EndsBare-append "text{" _ (EndsBare-append content "}text" text_bare)) in
    rw (← text_spelled content) (strip_bare "t" (spelled "ext{" (content ⊕ "}text")) refl bare)

wrapped_count :
    (o content e : String) → count (o ⊕ content ⊕ e) ≡ count o + (count content + count e)
wrapped_count o content e =
    length-append o (content ⊕ e) ∙ ap (λ n. count o + n) (length-append content e)

inner-wrapped_lua : (content : String) → inner 4 (wrapped_lua content) ≡ content
unfolding inner
inner-wrapped_lua content =
    let long : count (wrapped_lua content) - 4 - 4 ≡ count content =
      omega (arith, wrapped_count "lua{" content "}lua") in
    let behind : drop_chars 4 (wrapped_lua content) ≡ content ⊕ "}lua" =
      ap (drop_chars 4) (sym (lua_spelled content)) in
    rw (long, behind) (take_chars-append content "}lua")

inner-wrapped_text : (content : String) → inner 5 (wrapped_text content) ≡ content
unfolding inner
inner-wrapped_text content =
    let long : count (wrapped_text content) - 5 - 5 ≡ count content =
      omega (arith, wrapped_count "text{" content "}text") in
    let behind : drop_chars 5 (wrapped_text content) ≡ content ⊕ "}text" =
      ap (drop_chars 5) (sym (text_spelled content)) in
    rw (long, behind) (take_chars-append content "}text")

opens_lua : (content : String) → starts_with (wrapped_lua content) "lua{" ≡ true
opens_lua content = starts_with-append "lua{" (content ⊕ "}lua")

opens_text : (content : String) → starts_with (wrapped_text content) "text{" ≡ true
opens_text content = starts_with-append "text{" (content ⊕ "}text")

closes_lua : (content : String) → ends_with (wrapped_lua content) "}lua" ≡ true
closes_lua content =
    ends_with-behind "lua{" (content ⊕ "}lua") "}lua" (ends_with-append content "}lua")

closes_text : (content : String) → ends_with (wrapped_text content) "}text" ≡ true
closes_text content =
    ends_with-behind "text{" (content ⊕ "}text") "}text" (ends_with-append content "}text")

head_code : String → ℕ
head_code [] = 0
head_code (c ∷ s) = code c

-- A text that starts like one literal starts with no other whose first character differs.
text_not_lua : (content : String) → starts_with (wrapped_text content) "lua{" ≡ false
unfolding head_code
text_not_lua content = elim (Bool-cases (starts_with (wrapped_text content) "lua{")) [
  | inl e ↦
      let (rest, same) = (starts_with_iff (wrapped_text content) "lua{").0 e in
      let heads : 108 ≡ 116 =
        ap head_code (spelled-eq-append "lua{" rest ∙ same ∙ sym (text_spelled content)) in
      absurd (omega (arith, heads))
  | inr e ↦ e
]

-- The page reads every code that comes in its wrapper, whatever the code is, wrappers and blanks
-- included.
pub parse-wrapped_lua :
    (content : String) → parse_transport_content (some (wrapped_lua content)) ≡ (lua, content)
unfolding parse_transport_content
parse-wrapped_lua content =
    rw (strip-wrapped_lua content, opens_lua content, closes_lua content)
      (ap (λ (s : String). (lua, s)) (inner-wrapped_lua content))

-- The page reads every question that comes in its wrapper, whatever the question is.
pub parse-wrapped_text :
    (content : String) → parse_transport_content (some (wrapped_text content)) ≡ (text, content)
unfolding parse_transport_content
parse-wrapped_text content =
    rw (strip-wrapped_text content, text_not_lua content, opens_text content, closes_text content)
      (ap (λ (s : String). (text, s)) (inner-wrapped_text content))
