-- ===== src/Context/Total.antt =====
-- Which exceptions the normaliser can raise, and where the safe one raises none.
use mts_true_tech_hack.Base.{
  String, ◌≡◌, refl, Bool, true, false, Option, none, some, if◌then◌else◌, ◌⊎◌, inl, inr,
}
use mts_true_tech_hack.Base.Result.{
  Result, ok, raise, Error, context_error, json_decode_error, ◌>>=◌,
}
use mts_true_tech_hack.Text.{nonempty, strip}
use mts_true_tech_hack.Json.{Json, null, bool, int, float, str, arr, obj, get}
use mts_true_tech_hack.Json.Loads.{loads}
use mts_true_tech_hack.Context.{
  section_or, wf_section, normalize_value, as_context_error, normalize_text, normalize_context,
  or_default, normalize_context_safe, default_text,
}

-- A result, or a `ContextError`.
abbrev OnlyContext : {A : Type 0} → Result A → Type 0
OnlyContext (ok a) = Unit
OnlyContext (raise (context_error m)) = Unit
OnlyContext (raise _) = ⊥

bind-OnlyContext :
    {A B : Type 0} (m : Result A) (f : A → Result B)
    → OnlyContext m
    → ((a : A) → OnlyContext (f a))
    → OnlyContext (m >>= f)
bind-OnlyContext (ok a) f h k = k a
bind-OnlyContext (raise (context_error m)) f h k = tt
bind-OnlyContext (raise (Error.json_decode_error m)) f h k = h
bind-OnlyContext (raise (Error.value_error m)) f h k = h
bind-OnlyContext (raise (Error.lone_surrogate m)) f h k = h
bind-OnlyContext (raise (Error.attribute_error m)) f h k = h
bind-OnlyContext (raise (Error.recursion_error m)) f h k = h
bind-OnlyContext (raise (Error.other_error m)) f h k = h

if-OnlyContext :
    {A : Type 0} (b : Bool) (x y : Result A)
    → OnlyContext x
    → OnlyContext y
    → OnlyContext (if b then x else y)
if-OnlyContext true x y h k = h
if-OnlyContext false x y h k = k

-- Python makes a value of the text, or finds that it is no JSON: it has no int of more than 4300
-- digits, on which `json.loads` raises another `ValueError`, and no escape of a lone surrogate.
abbrev pub Readable : Option String → Type 0
Readable none = Unit
Readable (some text) =
    ((v : Json) × (loads text ≡ ok v)) ⊎ ((m : String) × (loads text ≡ raise (json_decode_error m)))

loads-OnlyContext : (s : String) → Readable (some s) → OnlyContext (as_context_error (loads s))
loads-OnlyContext s (inl (v, h)) = rw h tt
loads-OnlyContext s (inr (m, h)) = rw h tt

section_or-OnlyContext : (complaint : String) (v : Json) → OnlyContext (section_or complaint v)
section_or-OnlyContext complaint null = tt
section_or-OnlyContext complaint (obj fs) = tt
section_or-OnlyContext complaint (bool b) = tt
section_or-OnlyContext complaint (int n) = tt
section_or-OnlyContext complaint (float t) = tt
section_or-OnlyContext complaint (str t) = tt
section_or-OnlyContext complaint (arr vs) = tt

normalize_value-OnlyContext : (v : Json) → OnlyContext (normalize_value v)
unfolding normalize_value
normalize_value-OnlyContext (obj fs) =
    bind-OnlyContext (wf_section (get "wf" fs)) _ (section_or-OnlyContext _ (get "wf" fs)) (λ wf.
      bind-OnlyContext (section_or _ (get "vars" wf)) _ (section_or-OnlyContext _ (get "vars" wf))
        (λ vars.
          bind-OnlyContext (section_or _ (get "initVariables" wf)) _
            (section_or-OnlyContext _ (get "initVariables" wf)) (λ init. tt)))
normalize_value-OnlyContext null = tt
normalize_value-OnlyContext (bool b) = tt
normalize_value-OnlyContext (int n) = tt
normalize_value-OnlyContext (float t) = tt
normalize_value-OnlyContext (str t) = tt
normalize_value-OnlyContext (arr vs) = tt

normalize_text-OnlyContext : (s : String) → Readable (some s) → OnlyContext (normalize_text s)
normalize_text-OnlyContext s h =
    bind-OnlyContext (as_context_error (loads s)) _ (loads-OnlyContext s h) (λ parsed.
      bind-OnlyContext (normalize_value parsed) _ (normalize_value-OnlyContext parsed) (λ v. tt))

normalize_context-OnlyContext :
    (raw : Option String) → Readable raw → OnlyContext (normalize_context raw)
unfolding normalize_context
normalize_context-OnlyContext none h = tt
normalize_context-OnlyContext (some raw) h =
    if-OnlyContext (nonempty (strip raw)) (normalize_text raw) (ok default_text)
      (normalize_text-OnlyContext raw h) tt

or_default_returns : (r : Result String) → OnlyContext r → (s : String) × (or_default r ≡ ok s)
or_default_returns (ok s) h = (s, refl)
or_default_returns (raise (context_error m)) h = (default_text, refl)
or_default_returns (raise (Error.json_decode_error m)) h = absurd h
or_default_returns (raise (Error.value_error m)) h = absurd h
or_default_returns (raise (Error.lone_surrogate m)) h = absurd h
or_default_returns (raise (Error.attribute_error m)) h = absurd h
or_default_returns (raise (Error.recursion_error m)) h = absurd h
or_default_returns (raise (Error.other_error m)) h = absurd h

-- `normalize_context_safe` returns a context for none, and for every text that `json.loads` decodes or
-- refuses with a `JSONDecodeError`, whatever the value is: no `ContextError` leaves it.
pub normalize_context_safe_returns :
    (raw : Option String) → Readable raw → (s : String) × (normalize_context_safe raw ≡ ok s)
unfolding normalize_context_safe
normalize_context_safe_returns raw h =
    or_default_returns (normalize_context raw) (normalize_context-OnlyContext raw h)
