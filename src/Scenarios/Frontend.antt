-- ===== src/Scenarios/Frontend.antt =====
-- Visits to the chat page, and what the theorems say of them.
use Prim.Native.String.{[], ◌∷◌}
use mathlib.Core.List.{[], ◌∷◌, ◌++◌}
use mts_true_tech_hack.Base.{String, ◌≡◌, refl, ap, ◌∙◌, true, false, Option, none, some, List}
use mathlib.Core.Path.{subst}
use mts_true_tech_hack.Base.Int.{pos}
use mts_true_tech_hack.Base.Result.{Result, ok, raise, attribute_error, ok-injective}
use mts_true_tech_hack.Text.{◌⊕◌, strip, join}
use mts_true_tech_hack.Json.{Json, null, str, int, obj, Fields, end, field, get}
use mts_true_tech_hack.Json.Loads.{loads}
use mts_true_tech_hack.Json.Show.{show}
use mts_true_tech_hack.Frontend.Transport.{lua, text, plain, parse_transport_content}
use mts_true_tech_hack.Frontend.Transport.Wrapped.{
  wrapped_lua, wrapped_text, parse-wrapped_lua, parse-wrapped_text,
}
use mts_true_tech_hack.Frontend.Session.{
  Message, PendingRequest, Session, sidebar, default_json, default_data, HttpResponse, call_backend,
  chat_disabled, build_payload, submit,
}
use mts_true_tech_hack.Frontend.Reply.{
  parse_value, show_reply, settle, error_parts, answer_parts, next_session_id,
}
use mts_true_tech_hack.Frontend.Script.{Outcome, rests, process, chat, run_script, visit}
use mts_true_tech_hack.Frontend.Sidebar.{InSync, run_script-InSync}
use mts_true_tech_hack.Frontend.Texts.{Texts, TextReplies}
use mts_true_tech_hack.Frontend.Script.Visits.{Exchanged, with_context, in_flight, visit-Exchanged}
use mts_true_tech_hack.Frontend.Script.Stuck.{
  Stuck, visits, visits-Stuck, visits-Stuck_after_failure,
}
use mts_true_tech_hack.Frontend.Script.Dialogue.{Asks, visit-answers_question}

parse-wrapped_lua_example :
    parse_transport_content (some (wrapped_lua "return {1}")) ≡ (lua, "return {1}")
parse-wrapped_lua_example = parse-wrapped_lua "return {1}"

parse-wrapped_text_example :
    parse_transport_content (some (wrapped_text " Which? ")) ≡ (text, " Which? ")
parse-wrapped_text_example = parse-wrapped_text " Which? "

decoded_default : loads default_json ≡ ok (obj default_data)
unfolding loads
decoded_default = refl

abbrev start : Session
start = record {
  messages = [];
  pending_session_id = null;
  pending_request = none;
  context_json = default_json;
  context_data = default_data;
  json_valid = true;
  json_error = "";
}

-- A backend that answers every request with code.
abbrev code_body : Fields
code_body = field "session_id" (str "s1") (field "code" (str "lua{return 1}lua") end)

abbrev answers : Json → HttpResponse
answers body = record { status_code = pos 200; json = ok body; status_error = none }

abbrev with_code : Fields → Result HttpResponse
with_code payload = ok (answers (obj code_body))

obj-injective : {fs gs : Fields} → obj fs ≡ obj gs → fs ≡ gs
obj-injective h = cc

with_code_texts : TextReplies with_code
unfolding get
with_code_texts payload resp body posted read =
    let same : ok (obj code_body) ≡ ok (obj body) =
      ap (λ (r : HttpResponse). r.json) (ok-injective posted) ∙ read in
    subst Texts (obj-injective (ok-injective same)) (tt, tt)

visit-Exchanged_example :
    (t : Session) × (visit with_code 3 default_json (some "one") start
      ≡ some (t, rests, build_payload "one" (with_context default_json default_data start) ∷ []))
    × Exchanged "one" start t
    × (chat_disabled t ≡ false)
visit-Exchanged_example =
    visit-Exchanged with_code default_json default_data with_code_texts decoded_default "one" start
      refl refl

run_script-InSync_example : InSync (run_script with_code "[1]" (some "one") start).0
run_script-InSync_example = run_script-InSync with_code "[1]" (some "one") start

abbrev pending : PendingRequest
pending = record { prompt = "one"; payload = field "prompt" (str "one") end; inflight = true }

abbrev sent : Session
sent = record start { pending_request = some pending }

visits-Stuck_example :
    (t : Session) × (visits with_code (("{}", some "two") ∷ (default_json, none) ∷ []) sent
      ≡ some (t, []))
    × Stuck pending sent t
visits-Stuck_example =
    visits-Stuck with_code pending refl (("{}", some "two") ∷ (default_json, none) ∷ []) sent refl

-- A backend whose code is a number.
abbrev number_body : Fields
number_body = field "code" (int (pos 1)) (field "_http_status" (int (pos 200)) end)

abbrev with_number : Fields → Result HttpResponse
with_number payload = ok (answers (obj (field "code" (int (pos 1)) end)))

number_called :
    call_backend with_number (build_payload "one" (with_context default_json default_data start))
    ≡ ok number_body
unfolding call_backend
number_called = refl

number_code :
    parse_value (get "code" number_body)
    ≡ raise (attribute_error "'int' object has no attribute 'strip'")
unfolding get
number_code = refl

visits-Stuck_after_failure_example :
    (t : Session) × (visits with_number ((default_json, some "one") ∷ ("{}", some "two") ∷ []) start
      ≡ some (t, build_payload "one" (with_context default_json default_data start) ∷ []))
    × Stuck
        (record {
          prompt = "one";
          payload = build_payload "one" (with_context default_json default_data start);
          inflight = true;
        })
        (in_flight "one" start)
        t
visits-Stuck_after_failure_example =
    visits-Stuck_after_failure with_number default_json default_data "one" start number_body
      (attribute_error "'int' object has no attribute 'strip'") decoded_default refl refl
      number_called number_code (("{}", some "two") ∷ [])

-- A backend that asks, with its fields in the order in which the handler writes them.
abbrev asking_body : Fields
asking_body = field "question" (str "text{Which list?}text") (field "session_id" (str "s1") end)

abbrev asks : Fields → Result HttpResponse
asks payload = ok (answers (obj asking_body))

asking_body-Asks : Asks asking_body "s1" "Which list?"
unfolding get
asking_body-Asks = record { error = refl; code = refl; question = refl; session_id = refl }

visit-answers_question_example :
    (t : Session) × (visit asks 3 default_json (some "one") start
      ≡ some (t, rests, build_payload "one" (with_context default_json default_data start) ∷ []))
    × (t.messages
        ≡ ([] ++ record { role = "user"; content = "one" } ∷ [])
          ++ record { role = "assistant"; content = "❓ **Уточнение:** " ⊕ strip "Which list?" }
            ∷ [])
    × ((answer : String)
        → build_payload answer t
          ≡ field "session_id" (str "s1") (field "clarification_answer" (str answer) end))
unfolding strip
visit-answers_question_example =
    visit-answers_question asks default_json default_data "one" start "s1" "Which list?"
      (answers (obj asking_body)) asking_body decoded_default refl refl refl refl refl refl
      asking_body-Asks

-- The page on concrete replies.
chat_of : Option Outcome → List String
chat_of none = []
chat_of (some (t, ending, posted)) = contents t.messages
  where
    contents : List Message → List String
    contents [] = []
    contents (m ∷ ms) = m.content ∷ contents ms

visit_run :
    chat_of (visit with_code 3 default_json (some "one") start)
    ≡ "one" ∷ "**Сгенерированный код:**\n```lua\nreturn 1\n```" ∷ []
unfolding visit run_script chat process sidebar loads submit build_payload call_backend show_reply
    settle answer_parts next_session_id get parse_transport_content strip join chat_disabled chat_of
visit_run = refl

abbrev lost : Fields → Result HttpResponse
lost payload = ok (record {
  status_code = pos 404;
  json = ok (obj (field "error" (str "session state not found") end));
  status_error = some "404";
})

lost_run :
    chat_of
      (visit lost 3 default_json (some "one") (record start { pending_session_id = str "s1" }))
    ≡ "one" ∷ "**Ошибка:** session state not found" ∷ []
unfolding visit run_script chat process sidebar loads submit build_payload call_backend show_reply
    show settle error_parts get parse_transport_content join chat_disabled chat_of
lost_run = refl

lua_code : parse_transport_content (some " lua{return {1}}lua\n") ≡ (lua, "return {1}")
unfolding parse_transport_content
lua_code = refl

half_open : parse_transport_content (some "lua{return 1") ≡ (plain, "lua{return 1")
unfolding parse_transport_content
half_open = refl
