-- ===== src/Frontend/Script/Dialogue.antt =====
-- A question of the backend and the prompt that answers it.
use mathlib.Core.List.{[], ◌∷◌, ◌++◌}
use mts_true_tech_hack.Base.{String, ◌≡◌, refl, ap, ◌∙◌, true, false, ◌==◌, none, some}
use mts_true_tech_hack.Base.Int.{ℤ}
use mts_true_tech_hack.Base.Result.{Result, ok, ◌>>=◌}
use mts_true_tech_hack.Text.{◌⊕◌, nonempty, strip, join}
use mts_true_tech_hack.Json.{null, truthy, str, int, obj, Fields, end, field, get}
use mts_true_tech_hack.Json.Loads.{loads}
use mts_true_tech_hack.Frontend.Transport.Wrapped.{wrapped_text, parse-wrapped_text}
use mts_true_tech_hack.Frontend.Session.{
  Session, HttpResponse, read_body, set_key, call_backend, submit, build_payload,
}
use mts_true_tech_hack.Frontend.Reply.{show_reply, settle, answer_parts, next_session_id}
use mts_true_tech_hack.Frontend.Script.{rests, after_send, sent_before, after_reply, again, visit}
use mts_true_tech_hack.Frontend.Texts.{get-set_key}
use mts_true_tech_hack.Frontend.Script.Visits.{with_context, in_flight, visit_request, run_idle}

-- The body of a reply that asks: no error and no code, and a question in its wrapper. What else it
-- holds, and in which order, does not matter.
pub record Asks (body : Fields) (id asked : String) : Type 0 where
  pub error : truthy (get "error" body) ≡ false
  pub code : get "code" body ≡ null
  pub question : get "question" body ≡ str (wrapped_text asked)
  pub session_id : get "session_id" body ≡ str id

Asks-set_key :
    (status_code : ℤ) (body : Fields) (session_id question : String)
    → Asks body session_id question
    → Asks (set_key "_http_status" (int status_code) body) session_id question
Asks-set_key status_code body session_id question asks =
    let kept = λ (key : String) (h : ("_http_status" == key) ≡ false).
      get-set_key key "_http_status" (int status_code) body h in
    record {
      error = ap truthy (kept "error" refl) ∙ asks.error;
      code = kept "code" refl ∙ asks.code;
      question = kept "question" refl ∙ asks.question;
      session_id = kept "session_id" refl ∙ asks.session_id;
    }

abbrev pub shown_question : String → String → Session → Session
shown_question session_id question s =
    settle (("❓ **Уточнение:** " ⊕ strip question) ∷ []) (str session_id) s

question_shown :
    (reply : Fields) (session_id question : String) (s : Session)
    → Asks reply session_id question
    → nonempty (strip question) ≡ true
    → show_reply reply s ≡ ok (shown_question session_id question s)
unfolding show_reply answer_parts next_session_id
question_shown reply session_id question s asks h =
    rw (asks.code, asks.question, asks.error, asks.session_id, parse-wrapped_text question, h) refl

replied :
    (post : Fields → Result HttpResponse) (payload : Fields) (resp : HttpResponse) (body : Fields)
    → post payload ≡ ok resp
    → resp.json ≡ ok (obj body)
    → call_backend post payload ≡ ok (set_key "_http_status" (int resp.status_code) body)
unfolding call_backend
replied post payload resp body posted decoded =
    ap (λ (r : Result HttpResponse). r >>= λ resp. read_body resp resp.json) posted
    ∙ ap (read_body resp) decoded

-- Where the side bar holds a JSON object, no request is pending and the prompt is not empty, and the
-- backend answers the prompt with no error, no code, a session id that is not empty and a question
-- in its wrapper that is not blank: the visit sends one request and shows the question behind the prompt, and the request
-- of the next prompt answers that question in the session that the backend has named.
pub visit-answers_question :
    (post : Fields → Result HttpResponse) (input : String) (context : Fields) (prompt : String)
    (s : Session) (session_id question : String) (resp : HttpResponse) (body : Fields)
    → loads input ≡ ok (obj context)
    → s.pending_request ≡ none
    → nonempty prompt ≡ true
    → nonempty session_id ≡ true
    → nonempty (strip question) ≡ true
    → post (build_payload prompt (with_context input context s)) ≡ ok resp
    → resp.json ≡ ok (obj body)
    → Asks body session_id question
    → (t : Session) × (visit post 3 input (some prompt) s
        ≡ some (t, rests, build_payload prompt (with_context input context s) ∷ []))
      × (t.messages
          ≡ (s.messages ++ record { role = "user"; content = prompt } ∷ [])
            ++ record { role = "assistant"; content = "❓ **Уточнение:** " ⊕ strip question } ∷ [])
      × ((answer : String)
          → build_payload answer t
            ≡ field "session_id" (str session_id) (field "clarification_answer" (str answer) end))
unfolding in_flight submit settle join build_payload visit
visit-answers_question post input context prompt s session_id question resp body object free h named
      filled posted decoded asks =
    let start = with_context input context s in
    let flight = in_flight prompt start in
    let payload = build_payload prompt start in
    let t = shown_question session_id question flight in
    let called = replied post (build_payload prompt start) resp body posted decoded in
    let shown =
      question_shown _ session_id question flight
        (Asks-set_key resp.status_code body session_id question asks) filled in
    (
      with_context input context t,
      visit_request post input context object prompt s free h
          ∙ ap
              (λ call.
                again (λ t. visit post 1 input none t) (after_send flight (call, payload ∷ [])))
              called
          ∙ ap
              (λ r.
                again (λ t. visit post 1 input none t)
                  ((after_reply flight r).0, (after_reply flight r).1, payload ∷ []))
              shown
          ∙ ap (λ r. sent_before (payload ∷ []) (again (λ t. none) r))
              (run_idle post input context object t refl),
      refl,
      λ answer. rw named refl,
    )
