-- ===== src/Context.antt =====
-- services/llm/context_normalizer.py: the context in the form that the pipeline and the sandbox read.
pub mod Laws
pub mod Total
use mts_true_tech_hack.Base.{String, Option, none, some, ◌≡◌, refl, if◌then◌else◌}
use mts_true_tech_hack.Base.Result.{
  Result, ok, raise, Error, json_decode_error, context_error, ◌>>=◌,
}
use mts_true_tech_hack.Text.{◌⊕◌, nonempty, strip}
use mts_true_tech_hack.Json.{Json, null, obj, Fields, end, field, get, type_name}
use mts_true_tech_hack.Json.Dumps.{dumps}
use mts_true_tech_hack.Json.Loads.{loads}

-- `{"wf": {"vars": vars, "initVariables": init}}`
abbrev pub workflow : Json → Json → Json
workflow vars init = obj (field "wf" (obj (field "vars" vars (field "initVariables" init end))) end)

abbrev pub default_context : Json
default_context = workflow (obj end) (obj end)

-- A section that must be an object: `None` stands for an empty one.
abbrev pub section_or : String → Json → Result Fields
section_or complaint null = ok end
section_or complaint (obj fs) = ok fs
section_or complaint v = raise (context_error complaint)

abbrev pub wf_section : Json → Result Fields
wf_section v = section_or ("Context 'wf' must be a JSON object, got " ⊕ type_name v) v

-- From the decoded context on.
unfoldable pub normalize_value : Json → Result Json
unfolding get
normalize_value (obj parsed) = do
  wf ← wf_section (get "wf" parsed)
  vars ← section_or "Context 'wf.vars' must be a JSON object" (get "vars" wf)
  init ← section_or "Context 'wf.initVariables' must be a JSON object" (get "initVariables" wf)
  ok (workflow (obj vars) (obj init))
normalize_value v = raise (context_error ("Context must be a JSON object, got " ⊕ type_name v))

-- A decoding error is raised again as a `ContextError`.
abbrev pub as_context_error : Result Json → Result Json
as_context_error (raise (json_decode_error s)) =
    raise (context_error ("Invalid context JSON: " ⊕ s))
as_context_error (raise (Error.attribute_error s)) = raise (Error.attribute_error s)
as_context_error (raise (Error.value_error s)) = raise (Error.value_error s)
as_context_error (raise (context_error s)) = raise (context_error s)
as_context_error (raise (Error.lone_surrogate s)) = raise (Error.lone_surrogate s)
as_context_error (raise (Error.recursion_error s)) = raise (Error.recursion_error s)
as_context_error (raise (Error.other_error s)) = raise (Error.other_error s)
as_context_error (ok v) = ok v

abbrev pub default_text : String
default_text = dumps default_context

abbrev pub normalize_text : String → Result String
normalize_text s = do
  parsed ← as_context_error (loads s)
  normalised ← normalize_value parsed
  ok (dumps normalised)

-- `normalize_context`
unfoldable pub normalize_context : Option String → Result String
unfolding strip loads normalize_value dumps
normalize_context none = ok default_text
normalize_context (some raw) = if nonempty (strip raw) then normalize_text raw else ok default_text

-- Only a `ContextError` is caught.
abbrev pub or_default : Result String → Result String
or_default (raise (context_error s)) = ok default_text
or_default (raise (json_decode_error s)) = raise (json_decode_error s)
or_default (raise (Error.value_error s)) = raise (Error.value_error s)
or_default (raise (Error.lone_surrogate s)) = raise (Error.lone_surrogate s)
or_default (raise (Error.attribute_error s)) = raise (Error.attribute_error s)
or_default (raise (Error.recursion_error s)) = raise (Error.recursion_error s)
or_default (raise (Error.other_error s)) = raise (Error.other_error s)
or_default (ok s) = ok s

-- `normalize_context_safe`
unfoldable pub normalize_context_safe : Option String → Result String
unfolding normalize_context
normalize_context_safe raw = or_default (normalize_context raw)

normalize_test :
    normalize_context (some "{\"vars\": 1, \"wf\": {\"vars\": {\"a\": [1]}, \"x\": 2}}")
    ≡ ok "{\"wf\": {\"vars\": {\"a\": [1]}, \"initVariables\": {}}}"
unfolding normalize_context
normalize_test = refl

normalize_fallback :
    normalize_context_safe (some "{\"wf\": 3}")
    ≡ ok "{\"wf\": {\"vars\": {}, \"initVariables\": {}}}"
unfolding normalize_context_safe
normalize_fallback = refl
