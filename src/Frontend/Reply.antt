-- ===== src/Frontend/Reply.antt =====
-- services/frontend/app.py: what the page makes of the backend's reply.
use mathlib.Core.List.{[], ◌∷◌, ◌++◌}
use mts_true_tech_hack.Base.{String, Bool, false, not, ◌&&◌, ◌||◌, none, some, List, if◌then◌else◌}
use mts_true_tech_hack.Base.Int.{pos, eqb_ℤ}
use mts_true_tech_hack.Base.Result.{Result, ok, raise, attribute_error, ◌>>=◌}
use mts_true_tech_hack.Text.{◌⊕◌, nonempty, strip, join}
use mts_true_tech_hack.Json.{Json, null, int, str, Fields, get, truthy, type_name}
use mts_true_tech_hack.Json.Show.{show}
use mts_true_tech_hack.Frontend.Transport.{Kind, lua, text, plain, parse_transport_content}
use mts_true_tech_hack.Frontend.Session.{Session, say}

-- `parse_transport_content` of a value of the reply.
abbrev pub parse_value : Json → Result (Kind × String)
parse_value null = ok (parse_transport_content none)
parse_value (str value) = ok (parse_transport_content (some value))
parse_value v = raise (attribute_error ("'" ⊕ type_name v ⊕ "' object has no attribute 'strip'"))

abbrev pub code_of : Kind × String → String
unfolding strip
code_of (lua, content) = strip content
code_of (plain, content) = strip content
code_of (_, content) = ""

abbrev pub question_of : Kind × String → String
unfolding strip
question_of (text, content) = strip content
question_of (plain, content) = strip content
question_of (_, content) = ""

-- The error branch: the parts of the message, and the dialogue that it ends or keeps.
abbrev pub part_if : Json → String → String → List String
unfolding show
part_if v before behind = if truthy v then (before ⊕ show v ⊕ behind) ∷ [] else []

unfoldable pub error_parts : Fields → List String
unfolding show get
error_parts body =
    ("**Ошибка:** " ⊕ show (get "error" body))
    ∷ (part_if (get "validation_error" body) "**Validation error:** " ""
        ++ part_if (get "validation_output" body) "**Validation output:**\n```text\n" "\n```")

abbrev pub ends_session : Json → Bool
ends_session (int status) = eqb_ℤ status (pos 404) || eqb_ℤ status (pos 422)
ends_session v = false

-- The other branch: the code, the question, and the text for neither.
unfoldable pub answer_parts : String → String → List String
answer_parts code_str question =
    (if nonempty code_str
      then ("**Сгенерированный код:**\n```lua\n" ⊕ code_str ⊕ "\n```") ∷ []
      else [])
    ++ (if nonempty question then ("❓ **Уточнение:** " ⊕ question) ∷ [] else [])
    ++ (if not (nonempty code_str) && not (nonempty question)
        then "Пустой ответ от сервера. Попробуйте переформулировать задачу." ∷ []
        else [])

unfoldable pub next_session_id : Json → String → String → Json → Json
next_session_id pending code_str question session_id =
    let after_code = if nonempty code_str then null else pending in
    if nonempty question then session_id else after_code

unfoldable pub settle : List String → Json → Session → Session
unfolding join
settle ans_parts pending s = record (say "assistant" (join "\n\n" ans_parts) s) {
  pending_session_id = pending;
  pending_request = none;
}

-- The answer to a request that is in flight, from what the backend has replied.
unfoldable pub show_reply : Fields → Session → Result Session
unfolding get parse_transport_content error_parts answer_parts next_session_id strip
show_reply body s = parse_value (get "code" body) >>= λ code.
    parse_value (get "question" body) >>= λ question. ok (
      if truthy (get "error" body)
      then settle (error_parts body)
          (if ends_session (get "_http_status" body) then null else s.pending_session_id) s
      else settle (answer_parts (code_of code) (question_of question))
          (next_session_id s.pending_session_id (code_of code) (question_of question)
            (get "session_id" body))
          s)
