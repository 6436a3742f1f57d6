-- ===== src/Frontend/Session.antt =====
-- services/frontend/app.py: the page's state, the side bar that reads the context, and the requests
-- to the backend.
use mathlib.Core.List.{[], ◌∷◌, ◌++◌}
use mts_true_tech_hack.Base.{
  String, Bool, true, false, not, ◌&&◌, ◌||◌, Option, none, some, List, ◌==◌, if◌then◌else◌,
}
use mts_true_tech_hack.Base.Int.{ℤ}
use mts_true_tech_hack.Base.Result.{
  Result, ok, raise, json_decode_error, value_error, lone_surrogate, other_error, ◌>>=◌,
}
use mts_true_tech_hack.Text.{◌⊕◌, join}
use mts_true_tech_hack.Json.{Json, null, int, str, arr, obj, Fields, end, field, truthy, type_name}
use mts_true_tech_hack.Json.Loads.{loads}
use mts_true_tech_hack.Json.Show.{show_int}

pub record Message : Type 0 where
  pub role : String
  pub content : String

pub record PendingRequest : Type 0 where
  pub prompt : String
  pub payload : Fields
  pub inflight : Bool

-- `st.session_state`
pub record Session : Type 0 where
  pub messages : List Message
  pub pending_session_id : Json
  pub pending_request : Option PendingRequest
  pub context_json : String
  pub context_data : Fields
  pub json_valid : Bool
  pub json_error : String

abbrev pub greeting : String
greeting = join "" (
    "👋 Привет! Я **Ocean Cucumber** — твой помощник для написания Lua-скриптов.\n\n"
    ∷ "Контекст в формате JSON улучшает качество генерации, позволяя системе учитывать "
    ∷ "реальные данные и их структуру. Без контекста система также работает - просто "
    ∷ "опишите задачу текстом.\n\n" ∷ "Переменные (`wf.vars`) указывайте в боковой панели слева."
    ∷ [])

abbrev pub default_json : String
default_json = "{\n  \"wf\": {\n    \"vars\": {}\n  }\n}"

abbrev pub default_data : Fields
default_data = field "wf" (obj (field "vars" (obj end) end)) end

-- The state of a first visit.
unfoldable pub initial : Session
unfolding join
initial = record {
  messages = record { role = "assistant"; content = greeting } ∷ [];
  pending_session_id = null;
  pending_request = none;
  context_json = default_json;
  context_data = default_data;
  json_valid = true;
  json_error = "";
}

-- The side bar: the field's text becomes the context where it is a JSON object, and the last such
-- object stays the context where it is not. A text with a lone surrogate, which the model has no value
-- for, counts as refused.
abbrev pub rejected : String → Session → Session
rejected m s = record s { json_valid = false; json_error = m }

abbrev pub parsed_context : Session → Result Json → Result Session
parsed_context s (ok (obj parsed)) =
    ok (record s { context_data = parsed; json_valid = true; json_error = "" })
parsed_context s (ok v) = ok (rejected "JSON должен быть объектом" s)
parsed_context s (raise (json_decode_error m)) = ok (rejected m s)
parsed_context s (raise (value_error m)) = ok (rejected m s)
parsed_context s (raise (lone_surrogate m)) = ok (rejected m s)
parsed_context s (raise e) = raise e

unfoldable pub sidebar : String → Session → Result Session
unfolding loads
sidebar current_input s =
    parsed_context (record s { context_json = current_input }) (loads current_input)

abbrev pub has_fields : Fields → Bool
has_fields end = false
has_fields (field k v fs) = true

unfoldable pub build_payload : String → Session → Fields
build_payload prompt s =
    if truthy s.pending_session_id
    then field "session_id" s.pending_session_id (field "clarification_answer" (str prompt) end)
    else field "prompt" (str prompt) (
        if s.json_valid && has_fields s.context_data
        then field "context" (obj s.context_data) end
        else end)

-- What `requests.post` returns: the status, what `json()` comes to, and what `raise_for_status()`
-- raises where it does.
pub record HttpResponse : Type 0 where
  pub status_code : ℤ
  pub json : Result Json
  pub status_error : Option String

-- `data[key] = value`
abbrev pub set_key : String → Json → Fields → Fields
set_key key v end = field key v end
set_key key v (field k w fs) =
    let rest = set_key key v fs in if k == key then field k v fs else field k w rest

-- The error of `value["_http_status"] = …` on what is no dict.
abbrev pub assignment_error : Json → String
assignment_error (arr xs) = "list indices must be integers or slices, not str"
assignment_error v = "'" ⊕ type_name v ⊕ "' object does not support item assignment"

abbrev pub no_body : ℤ → Option String → Result Fields
no_body status_code (some m) = raise (other_error m)
no_body status_code none =
    ok (field "error" (str ("Пустой ответ от backend: HTTP " ⊕ show_int status_code)) end)

abbrev pub read_body : HttpResponse → Result Json → Result Fields
read_body resp (ok (obj body)) = ok (set_key "_http_status" (int resp.status_code) body)
read_body resp (ok v) = raise (other_error (assignment_error v))
read_body resp (raise (json_decode_error m)) = no_body resp.status_code resp.status_error
read_body resp (raise (value_error m)) = no_body resp.status_code resp.status_error
read_body resp (raise e) = raise e

unfoldable pub call_backend : (Fields → Result HttpResponse) → Fields → Result Fields
unfolding show_int
call_backend post payload = post payload >>= λ resp. read_body resp resp.json

unfoldable pub chat_disabled : Session → Bool
chat_disabled s = not s.json_valid || elim s.pending_request [ none ↦ false | some p ↦ true ]

abbrev pub say : String → String → Session → Session
say role content s = record s {
  messages = s.messages ++ record { role = role; content = content } ∷ [];
}

unfoldable pub submit : String → Session → Session
unfolding build_payload
submit prompt s = say "user" prompt (record s {
  pending_request =
      some (record { prompt = prompt; payload = build_payload prompt s; inflight = false });
})
