-- ===== src/Service/Asked.antt =====
-- The answer to a question that the service has asked.
use mts_true_tech_hack.Base.{
  ℕ, String, ◌≡◌, refl, sym, ap, ◌∙◌, true, some, inl, inr, arith, eq_iff, if_true,
}
use mts_true_tech_hack.Base.Result.{ok}
use mts_true_tech_hack.Text.{nonempty}
use mts_true_tech_hack.Json.{Json, str, get}
use mts_true_tech_hack.Json.Loads.{loads}
use mts_true_tech_hack.Spec.Policy.{target_name}
use mts_true_tech_hack.Spec.Evaluate.{NormalizedSpec}
use mts_true_tech_hack.Graph.State.{PipelineState, Env}
use mts_true_tech_hack.Graph.Texts.{spec_fields}
use mts_true_tech_hack.Graph.Nodes.{text_of, spec_text}
use mts_true_tech_hack.Graph.Run.Specs.{
  HasSpec, loads-spec_text, spec_text_filled, invoke_ask-HasSpec,
}
use mts_true_tech_hack.Service.Proto.{StateMessage, read_raw_context, state_with, fits_int32}
use mts_true_tech_hack.Service.Proto.RoundTrip.{proto_state_to_dict_then}
use mts_true_tech_hack.Service.{
  Response, session, target_of, current_target, run_pipeline, start_or_continue, handle_answer,
  answer_clarification,
}
use mts_true_tech_hack.Service.Laws.{run_pipeline_answers}
use mts_true_tech_hack.Service.Calls.{start_or_continue_answers, handle_answer_ran}
use mts_true_tech_hack.Service.Total.{answer_clarification_returns}

target_in :
    (sp : NormalizedSpec)
    → get "clarification_target" (spec_fields sp) ≡ str (target_name sp.clarification_target)
unfolding spec_fields get
target_in sp = refl

-- A state that holds a spec of the pipeline gives the spec's blocker as the target of an answer.
current_target_of :
    (s : PipelineState) (h : HasSpec s)
    → current_target s ≡ ok (str (target_name h.spec.clarification_target))
unfolding current_target
current_target_of s h =
    let same = ap text_of h.held in
    if_true (nonempty (text_of s.spec_json)) _ _ (ap nonempty same ∙ spec_text_filled h.spec)
    ∙ ap (λ t. target_of (loads t)) same
    ∙ ap target_of (loads-spec_text h.spec)
    ∙ ap ok (target_in h.spec)

-- A session that is answered as waiting has a spec of the pipeline, and its count of attempts fits.
record Waits (m : StateMessage) : Type 0 where
  spec : NormalizedSpec
  held : m.spec_json ≡ spec_text spec
  fits : fits_int32 m.generation_attempt ≡ true

module _ (env : Env) (limit : ℕ) where
  run_pipeline-Waits :
      (id : String) (s : PipelineState) {m : StateMessage}
      → run_pipeline env limit id s ≡ ok (session m)
      → m.phase ≡ "clarification_needed"
      → Waits m
  run_pipeline-Waits id s h p = elim (run_pipeline_answers env limit id s h) [
    | inr (e, w) ↦ ground (arith, eq_iff "error" "clarification_needed")
    | inl (t, ran, w) ↦
        let held = invoke_ask-HasSpec env limit s ran (sym w.same_phase ∙ p) in
        record { spec = held.spec; held = w.same_spec ∙ held.held; fits = w.fits }
  ]

  start_or_continue-Waits :
      (msg : StateMessage) {m : StateMessage}
      → start_or_continue env limit (some msg) ≡ ok (session m)
      → m.phase ≡ "clarification_needed"
      → Waits m
  start_or_continue-Waits msg {m} h p = elim (start_or_continue_answers env limit msg h) [
    | inl (same, id, inl q) ↦ ground (arith, eq_iff "done" "clarification_needed")
    | inl (same, id, inr q) ↦ ground (arith, eq_iff "error" "clarification_needed")
    | inr (s, ran) ↦ run_pipeline-Waits msg.session_id s ran p
  ]

  answer_clarification-Waits :
      (request_id answer : String) (msg : StateMessage) {m : StateMessage}
      → answer_clarification env limit request_id answer (some msg) ≡ ok (session m)
      → m.phase ≡ "clarification_needed"
      → Waits m
  unfolding answer_clarification
  answer_clarification-Waits request_id answer msg {m} h p =
      let (raw, decoded, h') =
        proto_state_to_dict_then msg (handle_answer env limit request_id answer) h in
      let (q, target, found, ran) =
        handle_answer_ran env limit request_id answer (state_with msg raw) {m = m} h' in
      run_pipeline-Waits _ _ ran p

  -- How a session comes to wait for an answer: one of the two calls has answered it.
  pub data SentBack (m : StateMessage) : Type 0 where
    by_request :
        (msg : StateMessage) → start_or_continue env limit (some msg) ≡ ok (session m) → SentBack m
    by_answer :
        (request_id answer : String) (msg : StateMessage)
        → answer_clarification env limit request_id answer (some msg) ≡ ok (session m)
        → SentBack m

  SentBack-Waits : (m : StateMessage) → SentBack m → m.phase ≡ "clarification_needed" → Waits m
  SentBack-Waits m (by_request msg h) p = start_or_continue-Waits msg h p
  SentBack-Waits m (by_answer id answer msg h) p = answer_clarification-Waits id answer msg h p

  -- Where either call has answered with a question, the session that it sent can be answered: for
  -- every answer, and whatever the models and the Lua services do then, `AnswerClarification`
  -- returns, where the session's context decodes.
  pub asked_answer_returns :
      (m : StateMessage)
      → SentBack m
      → m.phase ≡ "clarification_needed"
      → (raw_context : Json) → read_raw_context m.raw_context_json ≡ ok raw_context
      → (later : Env) (later_limit : ℕ) (request_id answer : String)
      → (r : Response) × (answer_clarification later later_limit request_id answer (some m) ≡ ok r)
  asked_answer_returns m asked p raw_context decoded later later_limit request_id answer =
      let w = SentBack-Waits m asked p in
      let held : HasSpec (state_with m raw_context) = record { spec = w.spec; held = w.held } in
      answer_clarification_returns later later_limit request_id answer m raw_context
        (str (target_name w.spec.clarification_target)) _ decoded w.fits
        (current_target_of (state_with m raw_context) held) refl
