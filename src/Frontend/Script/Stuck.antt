-- ===== src/Frontend/Script/Stuck.antt =====
-- A request that stays in flight, since its run was broken off while the backend worked or failed on
-- the backend's reply.
use mathlib.Core.List.{[], ◌∷◌, ◌++◌}
use mts_true_tech_hack.Base.{
  String, ◌≡◌, refl, ap, ◌∙◌, true, Option, none, some, List, Bool-cases, inl, inr,
}
use mts_true_tech_hack.Base.Result.{Result, ok, raise, Error}
use mts_true_tech_hack.Text.{nonempty}
use mts_true_tech_hack.Json.{Fields, obj, get}
use mts_true_tech_hack.Json.Loads.{loads}
use mts_true_tech_hack.Frontend.Session.{
  PendingRequest, Session, HttpResponse, call_backend, build_payload, chat_disabled,
}
use mts_true_tech_hack.Frontend.Reply.{parse_value, show_reply}
use mts_true_tech_hack.Frontend.Script.{
  Outcome, stops, fails, after_send, after_reply, again, process, chat, run_script, visit,
}
use mts_true_tech_hack.Frontend.Sidebar.{sidebar-Read}
use mts_true_tech_hack.Frontend.Script.Visits.{with_context, in_flight, visit_request}

-- One visit after the other, each with the text in the side bar's field and the prompt that is sent:
-- the last state, and the payloads that were posted.
abbrev pub posted_before :
    List Fields → Option (Session × List Fields) → Option (Session × List Fields)
posted_before sent none = none
posted_before sent (some (t, later)) = some (t, sent ++ later)

abbrev pub visits_then :
    (Session → Option (Session × List Fields)) → Option Outcome → Option (Session × List Fields)
visits_then more none = none
visits_then more (some (t, ending, sent)) = posted_before sent (more t)

unfoldable pub visits :
    (Fields → Result HttpResponse)
    → List (String × Option String)
    → Session
    → Option (Session × List Fields)
visits post [] s = some (s, [])
visits post ((input, prompt) ∷ later) s =
    visits_then (λ t. visits post later t) (visit post 3 input prompt s)

-- The chat of `s`, with a request in flight.
pub record Stuck (p : PendingRequest) (s t : Session) : Type 0 where
  pub messages : t.messages ≡ s.messages
  pub pending_request : t.pending_request ≡ some p

module _ (post : Fields → Result HttpResponse) (p : PendingRequest)
    (inflight : p.inflight ≡ true) where
  chat_stuck :
      (prompt : Option String) (t : Session)
      → t.pending_request ≡ some p
      → chat post prompt t ≡ (t, stops, [])
  unfolding chat process chat_disabled
  chat_stuck none t h = rw (h, inflight) refl
  chat_stuck (some prompt) t h = elim (Bool-cases t.json_valid) [
    | inl e ↦ rw (e, h, inflight) refl
    | inr e ↦ rw (e, h, inflight) refl
  ]

  visit-Stuck :
      (input : String) (prompt : Option String) (s : Session)
      → s.pending_request ≡ some p
      → (t : Session) × (visit post 3 input prompt s ≡ some (t, stops, [])) × Stuck p s t
  unfolding visit run_script
  visit-Stuck input prompt s h =
      let (t, e, read) = sidebar-Read input s in
      let same = read.pending_request ∙ h in
      (
        t,
        rw e (ap (again (λ t. visit post 2 input none t)) (chat_stuck prompt t same)),
        record { messages = read.messages; pending_request = same },
      )

  -- While a request is in flight, no visit to the page changes the chat or posts a request, whatever
  -- stands in the side bar's field and whatever the user tries to send.
  pub visits-Stuck :
      (events : List (String × Option String)) (s : Session)
      → s.pending_request ≡ some p
      → (t : Session) × (visits post events s ≡ some (t, [])) × Stuck p s t
  unfolding visits
  visits-Stuck [] s h = (s, refl, record { messages = refl; pending_request = h })
  visits-Stuck ((input, prompt) ∷ later) s h =
      let (t, e, stuck) = visit-Stuck input prompt s h in
      let (u, after, still) = visits-Stuck later t stuck.pending_request in
      (
        u,
        ap (visits_then (λ t. visits post later t)) e ∙ ap (posted_before []) after,
        record {
          messages = still.messages ∙ stuck.messages;
          pending_request = still.pending_request;
        },
      )

-- A reply whose code is neither a text nor null: the script fails on it after the request has been
-- marked as in flight, and from then on the page stays as it is, with the prompt and no answer, and
-- posts nothing more, however often the user comes back.
pub visits-Stuck_after_failure :
    (post : Fields → Result HttpResponse) (input : String) (context : Fields) (prompt : String)
    (s : Session) (body : Fields) (e : Error)
    → loads input ≡ ok (obj context)
    → s.pending_request ≡ none
    → nonempty prompt ≡ true
    → call_backend post (build_payload prompt (with_context input context s)) ≡ ok body
    → parse_value (get "code" body) ≡ raise e
    → (events : List (String × Option String))
    → (t : Session) × (visits post ((input, some prompt) ∷ events) s
        ≡ some (t, build_payload prompt (with_context input context s) ∷ []))
      × Stuck
          (record {
            prompt = prompt;
            payload = build_payload prompt (with_context input context s);
            inflight = true;
          })
          (in_flight prompt s)
          t
unfolding visits show_reply in_flight
visits-Stuck_after_failure post input context prompt s body e object free h called code events =
    let flight = in_flight prompt (with_context input context s) in
    let payload = build_payload prompt (with_context input context s) in
    let failed : after_reply flight (show_reply body flight) ≡ (flight, fails e) = rw code refl in
    let visited : visit post 3 input (some prompt) s ≡ some (flight, fails e, payload ∷ []) =
      visit_request post input context object prompt s free h
      ∙ ap (λ call. again (λ t. visit post 1 input none t) (after_send flight (call, payload ∷ [])))
          called
      ∙ ap (λ r. again (λ t. visit post 1 input none t) (r.0, r.1, payload ∷ [])) failed in
    let (t, after, stuck) = visits-Stuck post _ refl events flight refl in
    (
      t,
      ap (visits_then (λ t. visits post events t)) visited
          ∙ ap (posted_before (payload ∷ [])) after,
      record { messages = stuck.messages; pending_request = stuck.pending_request },
    )
