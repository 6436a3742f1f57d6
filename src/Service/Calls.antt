-- ===== src/Service/Calls.antt =====
-- `StartOrContinue` and `AnswerClarification` of services/llm/main.py as the backend sees them.
use mts_true_tech_hack.Base.{
  ℕ, String, ◌≡◌, ◌≢◌, ◌⊎◌, inl, inr, true, false, not, ◌||◌, some, ◌==◌, eq_iff, arith, if-cases,
}
use mts_true_tech_hack.Base.Result.{ok, bind-eq-ok}
use mts_true_tech_hack.Text.{nonempty}
use mts_true_tech_hack.Json.{Json}
use mts_true_tech_hack.Graph.State.{PipelineState, Env}
use mts_true_tech_hack.Graph.Run.Outcomes.{IsTerminal}
use mts_true_tech_hack.Service.Proto.{StateMessage, state_with}
use mts_true_tech_hack.Service.Proto.RoundTrip.{proto_state_to_dict_then}
use mts_true_tech_hack.Service.{
  session, make_initial_state, run_pipeline, resumed, resume_with_clarification, continue_session,
  start_session, handle_state, start_or_continue, handle_answer, either_id, answer_clarification,
  current_target,
}
use mts_true_tech_hack.Service.Laws.{
  Writes, state_to_response-Writes, HasValidCode, run_pipeline-IsTerminal, run_pipeline_done,
}

finished : (p : String) → (p == "done" || p == "error") ≡ true → (p ≡ "done") ⊎ (p ≡ "error")
finished p h = ground (arith, eq_iff p "done", eq_iff p "error")

waiting : (p : String) → not (p == "clarification_needed") ≡ false → p ≡ "clarification_needed"
waiting p h = ground (arith, eq_iff p "clarification_needed")

module _ (env : Env) (limit : ℕ) where
  -- How a call comes to answer with a session: it passes the state on, or a run has made it.
  abbrev pub Ran : String → StateMessage → Type 0
  Ran id m = (s : PipelineState) × (run_pipeline env limit id s ≡ ok (session m))

  start_session-Ran :
      (s : PipelineState) {m : StateMessage}
      → start_session env limit s ≡ ok (session m)
      → Ran s.session_id m
  unfolding start_session
  start_session-Ran s h =
      let (initial, made, h') =
        bind-eq-ok (make_initial_state s.session_id s.request s.context) _ h in
      (initial, h')

  continue_session_answers :
      (s : PipelineState) {m : StateMessage}
      → continue_session env limit s ≡ ok (session m)
      → (Writes s.session_id s m × ((s.phase ≡ "done") ⊎ (s.phase ≡ "error"))) ⊎ Ran s.session_id m
  unfolding continue_session
  continue_session_answers s h = elim (if-cases (s.phase == "clarification_needed") h) [
    | inl (p, e) ↦ cc
    | inr (p, h') ↦ elim (if-cases (s.phase == "done" || s.phase == "error") h') [
      | inl (p', e) ↦ inl (state_to_response-Writes s.session_id s e, finished s.phase p')
      | inr (p', e) ↦ inr (s, e)
    ]
  ]

  handle_state_answers :
      (s : PipelineState) {m : StateMessage}
      → handle_state env limit s ≡ ok (session m)
      → (Writes s.session_id s m × ((s.phase ≡ "done") ⊎ (s.phase ≡ "error"))) ⊎ Ran s.session_id m
  unfolding handle_state
  handle_state_answers s h = elim (if-cases (not (nonempty s.session_id)) h) [
    | inl (p, e) ↦ cc
    | inr (p, h') ↦ elim (if-cases (nonempty s.phase) h') [
      | inl (p', e) ↦ continue_session_answers s e
      | inr (p', e) ↦ inr (start_session-Ran s e)
    ]
  ]

  pub start_or_continue_answers :
      (msg : StateMessage) {m : StateMessage}
      → start_or_continue env limit (some msg) ≡ ok (session m)
      → ((m.phase ≡ msg.phase)
          × (m.session_id ≡ msg.session_id)
          × ((msg.phase ≡ "done") ⊎ (msg.phase ≡ "error")))
        ⊎ Ran msg.session_id m
  unfolding start_or_continue
  start_or_continue_answers msg {m} h =
      let (raw, decoded, h') = proto_state_to_dict_then msg (handle_state env limit) h in
      elim (handle_state_answers (state_with msg raw) {m = m} h') [
        | inl (w, p) ↦ inl (w.same_phase, w.same_id, p)
        | inr ran ↦ inr ran
      ]

  -- A session that `StartOrContinue` answers is the one that was sent, in a terminal phase: the
  -- backend never stores a session that is still running.
  pub start_or_continue-IsTerminal :
      (msg : StateMessage) {m : StateMessage}
      → start_or_continue env limit (some msg) ≡ ok (session m)
      → IsTerminal m.phase × (m.session_id ≡ msg.session_id)
  start_or_continue-IsTerminal msg h = elim (start_or_continue_answers msg h) [
    | inl (same, id, p) ↦ (inr (rw same p), id)
    | inr (s, ran) ↦ run_pipeline-IsTerminal env limit msg.session_id s ran
  ]

  -- A session that was not done, and that `StartOrContinue` answers as done, carries code that both
  -- Lua services have passed.
  pub start_or_continue_done-HasValidCode :
      (msg : StateMessage) {m : StateMessage}
      → msg.phase ≢ "done"
      → start_or_continue env limit (some msg) ≡ ok (session m)
      → m.phase ≡ "done"
      → HasValidCode env limit m
  start_or_continue_done-HasValidCode msg undone h p = elim (start_or_continue_answers msg h) [
    | inr (s, ran) ↦ run_pipeline_done env limit msg.session_id s ran p
    | inl (same, id, inl q) ↦ absurd (undone q)
    | inl (same, id, inr q) ↦ ground (arith, eq_iff "error" "done")
  ]

  pub handle_answer_ran :
      (request_id answer : String) (s : PipelineState) {m : StateMessage}
      → handle_answer env limit request_id answer s ≡ ok (session m)
      → (s.phase ≡ "clarification_needed")
        × (target : Json) × (current_target s ≡ ok target)
        × (run_pipeline env limit
              (either_id env limit request_id s.session_id)
              (resumed s answer target)
            ≡ ok (session m))
  unfolding handle_answer resume_with_clarification
  handle_answer_ran request_id answer s h =
      elim (if-cases (not (nonempty (either_id env limit request_id s.session_id))) h) [
        | inl (p, e) ↦ cc
        | inr (p, h') ↦ elim (if-cases (not (s.phase == "clarification_needed")) h') [
          | inl (p', e) ↦ cc
          | inr (p', e) ↦
              let (target, found, ran) = bind-eq-ok (current_target s) _ e in
              (waiting s.phase p', target, found, ran)
        ]
      ]

  -- A session that `AnswerClarification` answers was waiting for an answer, and is in a terminal
  -- phase after the run.
  pub answer_clarification-IsTerminal :
      (request_id answer : String) (msg : StateMessage) {m : StateMessage}
      → answer_clarification env limit request_id answer (some msg) ≡ ok (session m)
      → (msg.phase ≡ "clarification_needed") × IsTerminal m.phase
  unfolding answer_clarification
  answer_clarification-IsTerminal request_id answer msg {m} h =
      let (raw, decoded, h') =
        proto_state_to_dict_then msg (handle_answer env limit request_id answer) h in
      let (p, target, found, ran) = handle_answer_ran request_id answer (state_with msg raw) h' in
      (p, (run_pipeline-IsTerminal env limit _ _ ran).0)

  -- A session that `AnswerClarification` answers as done carries code that both Lua services have
  -- passed.
  pub answer_clarification_done-HasValidCode :
      (request_id answer : String) (msg : StateMessage) {m : StateMessage}
      → answer_clarification env limit request_id answer (some msg) ≡ ok (session m)
      → m.phase ≡ "done"
      → HasValidCode env limit m
  unfolding answer_clarification
  answer_clarification_done-HasValidCode request_id answer msg {m} h q =
      let (raw, decoded, h') =
        proto_state_to_dict_then msg (handle_answer env limit request_id answer) h in
      let (p, target, found, ran) =
        handle_answer_ran request_id answer (state_with msg raw) {m = m} h' in
      run_pipeline_done env limit _ _ ran q
