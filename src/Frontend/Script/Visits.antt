-- ===== src/Frontend/Script/Visits.antt =====
-- A visit to the page in which the user sends a prompt.
use mathlib.Core.List.{[], ◌∷◌, ◌++◌}
use mts_true_tech_hack.Base.{
  String, ◌≡◌, refl, ap, ◌∙◌, true, false, none, some, List, Bool, if◌then◌else◌,
}
use mts_true_tech_hack.Base.Result.{Result, ok, raise, bind_ok_ok}
use mts_true_tech_hack.Text.{nonempty}
use mts_true_tech_hack.Json.{Json, obj, Fields, get, truthy}
use mts_true_tech_hack.Json.Loads.{loads}
use mts_true_tech_hack.Frontend.Session.{
  Session, sidebar, HttpResponse, call_backend, chat_disabled, build_payload, submit,
}
use mts_true_tech_hack.Frontend.Texts.{IsText, parse_text, TextReplies, call_backend-Texts}
use mts_true_tech_hack.Frontend.Reply.{settle, show_reply}
use mts_true_tech_hack.Frontend.Script.{
  rests, reruns, after_call, after_send, send, sent_before, after_reply, again, process, chat,
  run_script, visit,
}

-- The state with a JSON object in the side bar's field.
abbrev pub with_context : String → Fields → Session → Session
with_context input context s = record s {
  context_json = input;
  context_data = context;
  json_valid = true;
  json_error = "";
}

-- The state while the prompt's request is in flight.
unfoldable pub in_flight : String → Session → Session
unfolding submit
in_flight prompt s = record (submit prompt s) {
  pending_request =
      some (record { prompt = prompt; payload = build_payload prompt s; inflight = true });
}

pub sidebar_object :
    (input : String) (context : Fields) (s : Session)
    → loads input ≡ ok (obj context)
    → sidebar input s ≡ ok (with_context input context s)
unfolding sidebar
sidebar_object input context s h = rw h refl

module _ (post : Fields → Result HttpResponse) (input : String) (context : Fields)
    (object : loads input ≡ ok (obj context)) where
  pub run_idle :
      (s : Session)
      → s.pending_request ≡ none
      → run_script post input none s ≡ (with_context input context s, rests, [])
  unfolding run_script chat process
  run_idle s free =
      rw (sidebar_object input context (record s { context_json = input }) object, free) refl

  run_submit :
      (prompt : String) (s : Session)
      → s.pending_request ≡ none
      → nonempty prompt ≡ true
      → run_script post input (some prompt) s
        ≡ (submit prompt (with_context input context s), reruns, [])
  unfolding run_script chat chat_disabled submit
  run_submit prompt s free h =
      rw (sidebar_object input context (record s { context_json = input }) object, free, h) refl

  run_request :
      (prompt : String) (s : Session)
      → let flight = in_flight prompt (with_context input context s) in
        run_script post input none (submit prompt (with_context input context s))
        ≡ after_send flight (send post (build_payload prompt (with_context input context s)))
  unfolding run_script chat process call_backend submit in_flight
  run_request prompt s = rw (sidebar_object input context _ object) refl

-- The page has said one thing more and waits for no reply.
pub record Said (role : String) (s t : Session) : Type 0 where
  pub content : String
  pub said : t.messages ≡ s.messages ++ record { role = role; content = content } ∷ []
  pub free : t.pending_request ≡ none

settled :
    (parts : List String) (pending : Json) (s : Session)
    → Said "assistant" s (settle parts pending s)
unfolding settle
settled parts pending s = record { content = _; said = refl; free = refl }

if_settled :
    (b : Bool) (parts others : List String) (pending other : Json) (s : Session)
    → Said "assistant" s (if b then settle parts pending s else settle others other s)
if_settled true parts others pending other s = settled parts pending s
if_settled false parts others pending other s = settled others other s

pub show_reply-Said :
    (reply : Fields) (s : Session)
    → IsText (get "code" reply)
    → IsText (get "question" reply)
    → (t : Session) × (show_reply reply s ≡ ok t) × Said "assistant" s t
unfolding show_reply
show_reply-Said reply s hc hq =
    let (code, c) = parse_text (get "code" reply) hc in
    let (question, q) = parse_text (get "question" reply) hq in
    (_, bind_ok_ok _ c q, if_settled (truthy (get "error" reply)) _ _ _ _ s)

after_call-Said :
    (s : Session) (call : Result Fields)
    → ((reply : Fields)
        → call ≡ ok reply
        → IsText (get "code" reply) × IsText (get "question" reply))
    → (t : Session) × (after_call s call ≡ (t, reruns)) × Said "assistant" s t
after_call-Said s (raise e) texts = (_, refl, record { content = _; said = refl; free = refl })
after_call-Said s (ok reply) texts =
    let (hc, hq) = texts reply refl in
    let (t, shown, said) = show_reply-Said reply s hc hq in (t, ap (after_reply s) shown, said)

-- What a prompt comes to: the two messages of the exchange, behind those before, and nothing pending.
pub record Exchanged (prompt : String) (s t : Session) : Type 0 where
  pub answer : String
  pub messages :
      t.messages
      ≡ (s.messages ++ record { role = "user"; content = prompt } ∷ [])
        ++ record { role = "assistant"; content = answer } ∷ []
  pub free : t.pending_request ≡ none

-- A visit with a prompt, up to what the request comes to.
pub visit_request :
    (post : Fields → Result HttpResponse) (input : String) (context : Fields)
    → loads input ≡ ok (obj context)
    → (prompt : String) (s : Session) → s.pending_request ≡ none
    → nonempty prompt ≡ true
    → visit post 3 input (some prompt) s
      ≡ again
          (λ t. visit post 1 input none t)
          (after_send
            (in_flight prompt (with_context input context s))
            (send post (build_payload prompt (with_context input context s))))
unfolding visit run_script
visit_request post input context object prompt s free h =
    ap (again (λ t. visit post 2 input none t))
      (run_submit post input context object prompt s free h)
    ∙ ap (again (λ t. visit post 1 input none t)) (run_request post input context object prompt s)

-- A visit with a context that is a JSON object, a prompt that is not empty and no request pending
-- comes to rest after three runs of the script, where the backend's replies carry texts: whatever
-- the backend does, an error included, it is sent one request, the chat has the prompt and one
-- answer more, and the next prompt can be sent.
pub visit-Exchanged :
    (post : Fields → Result HttpResponse) (input : String) (context : Fields)
    → TextReplies post
    → loads input ≡ ok (obj context)
    → (prompt : String) (s : Session) → s.pending_request ≡ none
    → nonempty prompt ≡ true
    → (t : Session) × (visit post 3 input (some prompt) s
        ≡ some (t, rests, build_payload prompt (with_context input context s) ∷ []))
      × Exchanged prompt s t
      × (chat_disabled t ≡ false)
unfolding in_flight submit chat_disabled visit
visit-Exchanged post input context texts object prompt s free h =
    let start = with_context input context s in
    let payload = build_payload prompt start in
    let (t, called, said) =
      after_call-Said (in_flight prompt start) (call_backend post payload)
        (λ reply. call_backend-Texts post payload texts) in
    (
      with_context input context t,
      visit_request post input context object prompt s free h
          ∙ ap (λ r. again (λ t. visit post 1 input none t) (r.0, r.1, payload ∷ [])) called
          ∙ ap (λ r. sent_before (payload ∷ []) (again (λ t. none) r))
              (run_idle post input context object t said.free),
      record { answer = said.content; messages = said.said; free = said.free },
      rw said.free refl,
    )
