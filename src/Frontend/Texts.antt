-- ===== src/Frontend/Texts.antt =====
-- Replies of the backend whose code and question are texts or absent.
use mathlib.Core.Path.{subst}
use mts_true_tech_hack.Base.{
  String, ◌≡◌, refl, sym, ap, ◌∙◌, false, none, some, Option, ◌==◌, eq_iff, Bool-cases, inl, inr,
}
use mts_true_tech_hack.Base.Int.{ℤ}
use mts_true_tech_hack.Json.Show.{show_int}
use mts_true_tech_hack.Base.Result.{
  Result, ok, raise, ok-injective, bind-eq-ok, json_decode_error, value_error, lone_surrogate,
  other_error, attribute_error, context_error, recursion_error,
}
use mts_true_tech_hack.Json.{Json, null, str, bool, int, float, arr, obj, Fields, end, field, get}
use mts_true_tech_hack.Frontend.Session.{set_key, no_body, read_body, HttpResponse, call_backend}
use mts_true_tech_hack.Frontend.Reply.{parse_value}
use mts_true_tech_hack.Frontend.Transport.{Kind}

-- A value that Python reads as a text or as `None`.
abbrev pub IsText : Json → Type 0
IsText null = Unit
IsText (str s) = Unit
IsText _ = ⊥

pub parse_text : (v : Json) → IsText v → (k : Kind × String) × (parse_value v ≡ ok k)
parse_text null h = (_, refl)
parse_text (str s) h = (_, refl)
parse_text (bool b) h = absurd h
parse_text (int n) h = absurd h
parse_text (float s) h = absurd h
parse_text (arr xs) h = absurd h
parse_text (obj fs) h = absurd h

-- The body's values under other keys than the status are the reply's.
pub get-set_key :
    (key other : String) (v : Json) (fs : Fields)
    → (other == key) ≡ false
    → get key (set_key other v fs) ≡ get key fs
unfolding get
get-set_key key other v end h = rw h refl
get-set_key key other v (field k w fs) h = elim (Bool-cases (k == other)) [
  | inl e ↦
      let differs : (k == key) ≡ false = ap (λ k. k == key) ((eq_iff k other).0 e) ∙ h in
      rw (e, differs) refl
  | inr e ↦ rw (e, get-set_key key other v fs h) refl
]

-- The backend's replies have a text, or nothing, as their code and as their question.
abbrev pub Texts : Fields → Type 0
Texts body = IsText (get "code" body) × IsText (get "question" body)

Texts-with_status :
    (status_code : ℤ) (body : Fields)
    → Texts body
    → Texts (set_key "_http_status" (int status_code) body)
Texts-with_status status_code body (hc, hq) = (
  subst IsText (sym (get-set_key "code" "_http_status" _ body refl)) hc,
  subst IsText (sym (get-set_key "question" "_http_status" _ body refl)) hq,
)

no_body-Texts :
    (status_code : ℤ) (status_error : Option String) {reply : Fields}
    → no_body status_code status_error ≡ ok reply
    → Texts reply
unfolding get show_int
no_body-Texts status_code (some m) h = cc
no_body-Texts status_code none h = subst Texts (ok-injective h) (tt, tt)

read_body-Texts :
    (resp : HttpResponse) (json : Result Json) {reply : Fields}
    → ((body : Fields) → json ≡ ok (obj body) → Texts body)
    → read_body resp json ≡ ok reply
    → Texts reply
read_body-Texts resp (ok (obj body)) texts h =
    subst Texts (ok-injective h) (Texts-with_status resp.status_code body (texts body refl))
read_body-Texts resp (ok null) texts h = cc
read_body-Texts resp (ok (bool b)) texts h = cc
read_body-Texts resp (ok (int n)) texts h = cc
read_body-Texts resp (ok (float s)) texts h = cc
read_body-Texts resp (ok (str s)) texts h = cc
read_body-Texts resp (ok (arr xs)) texts h = cc
read_body-Texts resp (raise (json_decode_error m)) texts h =
    no_body-Texts resp.status_code resp.status_error h
read_body-Texts resp (raise (value_error m)) texts h =
    no_body-Texts resp.status_code resp.status_error h
read_body-Texts resp (raise (lone_surrogate m)) texts h = cc
read_body-Texts resp (raise (attribute_error m)) texts h = cc
read_body-Texts resp (raise (context_error m)) texts h = cc
read_body-Texts resp (raise (recursion_error m)) texts h = cc
read_body-Texts resp (raise (other_error m)) texts h = cc

abbrev pub TextReplies : (Fields → Result HttpResponse) → Type 0
TextReplies post =
    (payload : Fields) (resp : HttpResponse) (body : Fields)
    → post payload ≡ ok resp
    → resp.json ≡ ok (obj body)
    → Texts body

pub call_backend-Texts :
    (post : Fields → Result HttpResponse) (payload : Fields) {reply : Fields}
    → TextReplies post
    → call_backend post payload ≡ ok reply
    → Texts reply
unfolding call_backend
call_backend-Texts post payload texts h =
    let (resp, posted, read) = bind-eq-ok (post payload) (λ resp. read_body resp resp.json) h in
    read_body-Texts resp resp.json (λ body. texts payload resp body posted) read
