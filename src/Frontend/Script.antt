-- ===== src/Frontend/Script.antt =====
-- services/frontend/app.py: the script from its top. Streamlit keeps `st.session_state` between the
-- runs; `st.rerun()` starts the script again, and an exception that it does not catch leaves the
-- state as it is at that moment. What the page only draws is left out.
pub mod Visits
pub mod Stuck
pub mod Dialogue
use mathlib.Core.List.{[], ◌∷◌, ◌++◌}
use mts_true_tech_hack.Base.{
  List, ℕ, zero, suc, String, Bool, true, false, not, ◌&&◌, Option, none, some, if◌then◌else◌,
}
use mts_true_tech_hack.Base.Result.{Result, ok, raise, Error, message}
use mts_true_tech_hack.Text.{◌⊕◌, nonempty}
use mts_true_tech_hack.Json.{Fields}
use mts_true_tech_hack.Frontend.Session.{
  PendingRequest, Session, sidebar, HttpResponse, call_backend, chat_disabled, say, submit,
}
use mts_true_tech_hack.Frontend.Reply.{show_reply}

-- How a run of the script ends: at its last line, by `st.stop()`, by `st.rerun()`, or by an
-- exception.
pub data Ending : Type 0 where
  rests stops reruns : Ending
  fails : Error → Ending

abbrev pub show_exception : Error → Session → Session
show_exception e s = record (say "assistant" ("**Ошибка: " ⊕ message e ⊕ "**") s) {
  pending_request = none;
}

abbrev pub after_reply : Session → Result Session → Session × Ending
after_reply s (ok t) = (t, reruns)
after_reply s (raise e) = (s, fails e)

abbrev pub after_call : Session → Result Fields → Session × Ending
after_call s (raise e) = (show_exception e s, reruns)
after_call s (ok body) = after_reply s (show_reply body s)

-- What a run leaves: the state, how it ended, and the payloads that it has posted to the backend.
abbrev pub Outcome : Type 0
Outcome = Session × Ending × List Fields

-- A call of the backend, with what it posts.
abbrev pub send : (Fields → Result HttpResponse) → Fields → Result Fields × List Fields
send post payload = (call_backend post payload, payload ∷ [])

abbrev pub after_send : Session → Result Fields × List Fields → Outcome
after_send s (call, sent) = ((after_call s call).0, (after_call s call).1, sent)

-- The end of the script: the request that is pending.
unfoldable pub process : (Fields → Result HttpResponse) → Option PendingRequest → Session → Outcome
unfolding show_reply call_backend
process post none s = (s, rests, [])
process post (some p) s =
    if p.inflight
    then (s, stops, [])
    else let s = record s { pending_request = some (record p { inflight = true }) } in
      after_send s (send post p.payload)

-- `if prompt := st.chat_input(…, disabled=chat_disabled)`: a disabled field gives no prompt.
unfoldable pub chat : (Fields → Result HttpResponse) → Option String → Session → Outcome
unfolding chat_disabled submit
chat post none s = process post s.pending_request s
chat post (some prompt) s =
    if not (chat_disabled s) && nonempty prompt
    then (submit prompt s, reruns, [])
    else process post s.pending_request s

abbrev pub after_sidebar :
    (Fields → Result HttpResponse) → Option String → Session → Result Session → Outcome
after_sidebar post prompt s (ok t) = chat post prompt t
after_sidebar post prompt s (raise e) = (s, fails e, [])

-- A run of the script: the text in the side bar's field, and the prompt that has been sent.
unfoldable pub run_script :
    (Fields → Result HttpResponse) → String → Option String → Session → Outcome
unfolding sidebar chat_disabled submit show_reply call_backend
run_script post current_input prompt s =
    after_sidebar post prompt (record s { context_json = current_input }) (sidebar current_input s)

-- What was posted before comes first.
abbrev pub sent_before : List Fields → Option Outcome → Option Outcome
sent_before [] o = o
sent_before (payload ∷ sent) none = none
sent_before (payload ∷ sent) (some (t, ending, later)) = some (t, ending, payload ∷ (sent ++ later))

-- A visit: the script runs again, with no prompt, for as long as it asks for it.
abbrev pub again : (Session → Option Outcome) → Outcome → Option Outcome
again rerun (t, reruns, sent) = sent_before sent (rerun t)
again rerun (t, ending, sent) = some (t, ending, sent)

unfoldable pub visit :
    (Fields → Result HttpResponse) → ℕ → String → Option String → Session → Option Outcome
unfolding run_script
visit post zero current_input prompt s = none
visit post (suc fuel) current_input prompt s =
    again (λ t. visit post fuel current_input none t) (run_script post current_input prompt s)
