-- ===== src/Frontend/Transport.antt =====
-- services/frontend/transport.py: the wrapper that the backend puts around code and questions.
pub mod Wrapped
use Prim.Native.Nat.{◌-◌}
use Prim.Native.String.{[], ◌∷◌, count}
use mts_true_tech_hack.Base.{
  ℕ, zero, suc, String, Bool, ◌&&◌, Option, none, some, ◌≡◌, refl, if◌then◌else◌, starts_with,
}
use mts_true_tech_hack.Text.{strip, ends_with}
use mts_true_tech_hack.Regex.{take_chars}

pub data Kind : Type 0 where
  empty lua text plain : Kind

abbrev pub drop_chars : ℕ → String → String
drop_chars zero s = s
drop_chars (suc n) [] = []
drop_chars (suc n) (c ∷ s) = drop_chars n s

-- `s[n:-n]`
unfoldable pub inner : ℕ → String → String
unfolding take_chars
inner n s = take_chars (count s - n - n) (drop_chars n s)

-- `parse_transport_content`
unfoldable pub parse_transport_content : Option String → Kind × String
unfolding strip ends_with inner
parse_transport_content none = (empty, "")
parse_transport_content (some value) =
    let stripped = strip value in
    if starts_with stripped "lua{" && ends_with stripped "}lua"
    then (lua, inner 4 stripped)
    else if starts_with stripped "text{" && ends_with stripped "}text"
    then (text, inner 5 stripped)
    else (plain, value)
