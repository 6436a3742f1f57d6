-- ===== src/Service/Answers.antt =====
-- What the calls of services/llm/main.py keep of a session: its fields, its dialogue.
use Prim.Native.String.{[], ◌∷◌}
use mathlib.Core.List.{[], ◌∷◌}
use mts_true_tech_hack.Base.{
  ℕ, String, ◌≡◌, refl, sym, ap, ◌∙◌, inl, inr, true, false, not, ◌||◌, Option, none, some, ◌++◌,
  ◌==◌, eq_iff, arith, if_true, if_false,
}
use mts_true_tech_hack.Base.Result.{Result, ok, bind-eq-ok, ok-injective, ◌>>=◌}
use mts_true_tech_hack.Text.{nonempty}
use mts_true_tech_hack.Json.{Json}
use mts_true_tech_hack.Spec.History.{Entry}
use mts_true_tech_hack.Graph.State.{PipelineState, Env}
use mts_true_tech_hack.Graph.Nodes.{text_of}
use mts_true_tech_hack.Graph.Run.Asked.{invoke_ask-IsAsked}
use mts_true_tech_hack.Service.Proto.{
  StateMessage, EntryMessage, read_raw_context, state_with, proto_state_to_dict,
  dict_to_proto_state, write_raw_context, write_history, write_entry, string_field, fits_int32,
}
use mts_true_tech_hack.Service.Proto.RoundTrip.{
  dict_to_proto_state-proto_state_to_dict, proto_state_to_dict_then, write_history-append,
}
use mts_true_tech_hack.Service.{
  session, response_state, state_to_response, with_error, error_message, resumed, continue_session,
  handle_state, handle_answer, start_or_continue, answered_entry, answer_clarification,
}
use mts_true_tech_hack.Service.Laws.{run_pipeline_answers}
use mts_true_tech_hack.Service.Calls.{handle_answer_ran}

with_error_same : (o : Option String) → with_error (text_of o) o ≡ o
with_error_same none = refl
with_error_same (some []) = refl
with_error_same (some (c ∷ s)) = refl

-- A session that is done is answered as it is.
response_state_same :
    (s : PipelineState) → (s.phase == "error") ≡ false → response_state s.session_id s ≡ s
response_state_same s h =
    let same : error_message s ≡ text_of s.error = rw h refl in
    let kept : with_error (error_message s) s.error ≡ s.error =
      ap (λ e. with_error e s.error) same ∙ with_error_same s.error in
    ap (λ (e : Option String). record s { error = e }) kept

done_not_error : (p : String) → p ≡ "done" → (p == "error") ≡ false
done_not_error p h = ground (arith, eq_iff p "error", eq_iff "done" "error")

done_not_waiting : (p : String) → p ≡ "done" → (p == "clarification_needed") ≡ false
done_not_waiting p h =
    ground (arith, eq_iff p "clarification_needed", eq_iff "done" "clarification_needed")

is_finished : (p : String) → p ≡ "done" → (p == "done" || p == "error") ≡ true
is_finished p h = ground (arith, eq_iff p "done")

done_nonempty : (p : String) → p ≡ "done" → nonempty p ≡ true
done_nonempty p h = rw h refl

pub written_answer :
    (e : Entry) {item : EntryMessage}
    → write_entry e ≡ ok item
    → string_field e.answer ≡ ok item.answer
written_answer e h =
    let (q, wrote_question, k) = bind-eq-ok (string_field e.question) _ h in
    let (a, wrote_answer, l) = bind-eq-ok (string_field e.answer) _ k in
    let (t, wrote_target, m) = bind-eq-ok (string_field e.target) _ l in
    wrote_answer ∙ ap (λ (r : Result EntryMessage). r >>= (λ item. ok item.answer)) m

session_of :
    (r : Result StateMessage) (m : StateMessage)
    → r ≡ ok m
    → (r >>= (λ msg. ok (session msg))) ≡ ok (session m)
session_of r m h = rw h refl

done_state_to_response :
    (s : PipelineState) (m : StateMessage)
    → s.phase ≡ "done"
    → dict_to_proto_state s ≡ ok m
    → state_to_response s.session_id s ≡ ok (session m)
unfolding state_to_response
done_state_to_response s m h written =
    session_of (dict_to_proto_state (response_state s.session_id s)) m
      (ap dict_to_proto_state (response_state_same s (done_not_error s.phase h)) ∙ written)

module _ (env : Env) (limit : ℕ) where
  done_continue_session :
      (s : PipelineState)
      → s.phase ≡ "done"
      → continue_session env limit s ≡ state_to_response s.session_id s
  unfolding continue_session
  done_continue_session s h =
      if_false (s.phase == "clarification_needed") _ _ (done_not_waiting s.phase h)
      ∙ if_true (s.phase == "done" || s.phase == "error") _ _ (is_finished s.phase h)

  done_handle_state :
      (s : PipelineState)
      → nonempty s.session_id ≡ true
      → s.phase ≡ "done"
      → handle_state env limit s ≡ state_to_response s.session_id s
  unfolding handle_state
  done_handle_state s named h =
      if_false (not (nonempty s.session_id)) _ _ (ap not named)
      ∙ if_true (nonempty s.phase) _ _ (done_nonempty s.phase h)
      ∙ done_continue_session s h

  decoded_done :
      (msg : StateMessage) (raw_context : Json)
      → read_raw_context msg.raw_context_json ≡ ok raw_context
      → proto_state_to_dict msg ≡ ok (state_with msg raw_context)
  unfolding proto_state_to_dict
  decoded_done msg raw_context decoded = rw decoded refl

  -- `StartOrContinue` on a session that is done, whose id is not empty, whose raw context decodes or is
  -- absent and whose count of attempts is one of an int32 field, runs nothing: it answers the message
  -- that was sent, but for its raw context, which is printed anew, or left out where it is absent or
  -- `null`, whatever the models would say.
  pub start_or_continue_done :
      (msg : StateMessage) (raw_context : Json)
      → nonempty msg.session_id ≡ true
      → msg.phase ≡ "done"
      → read_raw_context msg.raw_context_json ≡ ok raw_context
      → fits_int32 msg.generation_attempt ≡ true
      → start_or_continue env limit (some msg)
        ≡ ok (session (record msg { raw_context_json = write_raw_context raw_context }))
  unfolding start_or_continue
  start_or_continue_done msg raw_context named is_done decoded fits =
      let read = decoded_done msg raw_context decoded in
      let written =
        sym (ap (λ r. r >>= dict_to_proto_state) read)
        ∙ dict_to_proto_state-proto_state_to_dict msg raw_context decoded fits in
      ap (λ r. r >>= handle_state env limit) read
      ∙ done_handle_state (state_with msg raw_context) named is_done
      ∙ done_state_to_response (state_with msg raw_context) _ is_done written

  -- Where the service answers an answer with another question, the dialogue that it returns is the
  -- one that was sent with one entry more, which holds that answer.
  pub answer_clarification_appends :
      (request_id answer : String) (msg : StateMessage) {m : StateMessage}
      → answer_clarification env limit request_id answer (some msg) ≡ ok (session m)
      → m.phase ≡ "clarification_needed"
      → (item : EntryMessage) × (m.clarification_history ≡ msg.clarification_history ++ item ∷ [])
        × (item.answer ≡ answer)
  unfolding answer_clarification
  answer_clarification_appends request_id answer msg {m} h q =
      let (raw, decoded, h') =
        proto_state_to_dict_then msg (handle_answer env limit request_id answer) h in
      let (p, target, found, ran) =
        handle_answer_ran env limit request_id answer (state_with msg raw) h' in
      elim (run_pipeline_answers env limit _ (resumed (state_with msg raw) answer target) ran) [
        | inr (e, w) ↦ ground (arith, eq_iff "error" "clarification_needed")
        | inl (t, done_run, w) ↦
            let asked = invoke_ask-IsAsked env limit _ done_run (sym w.same_phase ∙ q) in
            let (item, wrote, appended) =
              write_history-append msg.clarification_history
                (answered_entry (state_with msg raw) answer target)
                (ap write_history asked.kept.history ∙ w.history_written) in
            (
              item,
              appended,
              ok-injective
                  (sym (written_answer (answered_entry (state_with msg raw) answer target) wrote)),
            )
      ]
