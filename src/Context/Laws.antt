-- ===== src/Context/Laws.antt =====
-- The form of every context that the normaliser lets through.
use mts_true_tech_hack.Base.{String, ◌≡◌, sym, ap, ◌∙◌, Option, none, some, if-cases, ◌⊎◌, inl, inr}
use mts_true_tech_hack.Base.Result.{
  Result, ok, raise, Error, context_error, bind-eq-ok, ok-injective,
}
use mts_true_tech_hack.Text.{nonempty, strip}
use mts_true_tech_hack.Json.{Json, null, bool, int, float, str, arr, obj, Fields, end, get}
use mts_true_tech_hack.Json.Loads.{loads}
use mts_true_tech_hack.Json.Dumps.{dumps}
use mts_true_tech_hack.Context.{
  workflow, default_text, section_or, wf_section, normalize_value, as_context_error, normalize_text,
  normalize_context, or_default, normalize_context_safe,
}

-- The text is the print of an object `wf` with the two sections, both of them objects.
abbrev pub IsNormalised : String → Type 0
IsNormalised s = (vars : Fields) × (init : Fields) × (s ≡ dumps (workflow (obj vars) (obj init)))

object_normalises :
    (fs : Fields) {v : Json}
    → normalize_value (obj fs) ≡ ok v
    → (vars : Fields) × (init : Fields) × (v ≡ workflow (obj vars) (obj init))
unfolding normalize_value
object_normalises fs h =
    let (wf, found, h') = bind-eq-ok (wf_section (get "wf" fs)) _ h in
    let (vars, found_vars, h'') = bind-eq-ok (section_or _ (get "vars" wf)) _ h' in
    let (init, found_init, e) = bind-eq-ok (section_or _ (get "initVariables" wf)) _ h'' in
    (vars, init, sym (ok-injective e))

value_normalises :
    (j : Json) {v : Json}
    → normalize_value j ≡ ok v
    → (vars : Fields) × (init : Fields) × (v ≡ workflow (obj vars) (obj init))
unfolding normalize_value
value_normalises (obj fs) h = object_normalises fs h
value_normalises null h = cc
value_normalises (bool b) h = cc
value_normalises (int n) h = cc
value_normalises (float t) h = cc
value_normalises (str t) h = cc
value_normalises (arr vs) h = cc

text_normalises : (raw : String) {s : String} → normalize_text raw ≡ ok s → IsNormalised s
text_normalises raw h =
    let (parsed, read, h') = bind-eq-ok (as_context_error (loads raw)) _ h in
    let (v, made, e) = bind-eq-ok (normalize_value parsed) _ h' in
    let (vars, init, same) = value_normalises parsed made in
    (vars, init, sym (ok-injective e) ∙ ap dumps same)

default_normalises : {s : String} → ok default_text ≡ ok s → IsNormalised s
default_normalises h = (end, end, sym (ok-injective h))

pub normalize_context-IsNormalised :
    (raw : Option String) {s : String} → normalize_context raw ≡ ok s → IsNormalised s
unfolding normalize_context
normalize_context-IsNormalised none h = default_normalises h
normalize_context-IsNormalised (some raw) h = elim (if-cases (nonempty (strip raw)) h) [
  | inl (filled, e) ↦ text_normalises raw e
  | inr (blank, e) ↦ default_normalises e
]

or_default-eq-ok :
    (r : Result String) {s : String} → or_default r ≡ ok s → (r ≡ ok s) ⊎ (default_text ≡ s)
or_default-eq-ok (ok t) h = inl h
or_default-eq-ok (raise (context_error m)) h = inr (ok-injective h)
or_default-eq-ok (raise (Error.json_decode_error m)) h = cc
or_default-eq-ok (raise (Error.value_error m)) h = cc
or_default-eq-ok (raise (Error.lone_surrogate m)) h = cc
or_default-eq-ok (raise (Error.attribute_error m)) h = cc
or_default-eq-ok (raise (Error.recursion_error m)) h = cc
or_default-eq-ok (raise (Error.other_error m)) h = cc

-- Every context that `normalize_context_safe` returns is the print of an object whose only key is
-- "wf", with an object under each of "vars" and "initVariables", and nothing else.
pub normalize_context_safe-IsNormalised :
    (raw : Option String) {s : String} → normalize_context_safe raw ≡ ok s → IsNormalised s
unfolding normalize_context_safe
normalize_context_safe-IsNormalised raw h = elim (or_default-eq-ok (normalize_context raw) h) [
  | inl made ↦ normalize_context-IsNormalised raw made
  | inr e ↦ default_normalises (ap ok e)
]
