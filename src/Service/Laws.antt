-- ===== src/Service/Laws.antt =====
-- What the two calls of the service answer.
use mathlib.Core.Path.{subst}
use mts_true_tech_hack.Base.{
  ℕ, String, ◌≡◌, refl, sym, ◌∙◌, ◌⊎◌, inl, inr, eq_iff, arith, true, if-cases,
}
use mts_true_tech_hack.Base.Int.{ℤ}
use mts_true_tech_hack.Base.Result.{Result, ok, raise, Error, bind-eq-ok, ok-injective, ◌>>=◌}
use mts_true_tech_hack.Graph.State.{PipelineState, Env}
use mts_true_tech_hack.Graph.Run.{invoke}
use mts_true_tech_hack.Graph.Run.Outcomes.{IsTerminal, invoke-IsTerminal}
use mts_true_tech_hack.Graph.Run.Validated.{IsValidated, invoke_done-IsValidated}
use mts_true_tech_hack.Service.Proto.{
  StateMessage, dict_to_proto_state, write_history, int32_field, fits_int32,
}
use mts_true_tech_hack.Service.{
  Response, session, response_state, state_to_response, failed, or_failed, run_pipeline,
}

-- What a state leaves in the message that answers with it.
pub record Writes (session_id : String) (s : PipelineState) (m : StateMessage) : Type 0 where
  pub same_id : m.session_id ≡ session_id
  pub same_phase : m.phase ≡ s.phase
  pub same_code : m.code ≡ s.code
  pub same_spec : m.spec_json ≡ s.spec_json
  pub fits : fits_int32 m.generation_attempt ≡ true
  pub history_written : write_history s.clarification_history ≡ ok m.clarification_history

session-injective : {a b : StateMessage} → session a ≡ session b → a ≡ b
session-injective h = cc

int32_field_fits : (n : ℤ) {k : ℤ} → int32_field n ≡ ok k → fits_int32 k ≡ true
int32_field_fits n h = elim (if-cases (fits_int32 n) h) [
  | inl (fits, e) ↦ subst (λ k. fits_int32 k ≡ true) (ok-injective e) fits
  | inr (wide, e) ↦ cc
]

dict_to_proto_state-Writes :
    (s : PipelineState) {m : StateMessage} → dict_to_proto_state s ≡ ok m → Writes s.session_id s m
unfolding dict_to_proto_state
dict_to_proto_state-Writes s h =
    let (attempt, fits, h') = bind-eq-ok (int32_field s.generation_attempt) _ h in
    let (items, written, e) = bind-eq-ok (write_history s.clarification_history) _ h' in
    subst (Writes s.session_id s) (ok-injective e) (record {
      same_id = refl;
      same_phase = refl;
      same_code = refl;
      same_spec = refl;
      fits = int32_field_fits s.generation_attempt fits;
      history_written = written;
    })

pub state_to_response-Writes :
    (session_id : String) (s : PipelineState) {m : StateMessage}
    → state_to_response session_id s ≡ ok (session m)
    → Writes session_id s m
unfolding state_to_response
state_to_response-Writes session_id s h =
    let (msg, written, e) = bind-eq-ok (dict_to_proto_state (response_state session_id s)) _ h in
    let w = dict_to_proto_state-Writes (response_state session_id s) written in
    subst (Writes session_id s) (session-injective (ok-injective e)) (record {
      same_id = w.same_id;
      same_phase = w.same_phase;
      same_code = w.same_code;
      same_spec = w.same_spec;
      fits = w.fits;
      history_written = w.history_written;
    })

answered :
    (session_id : String) (s : PipelineState) (a : Result Response) {r : Response}
    → or_failed session_id s a ≡ ok r
    → (a ≡ ok r) ⊎ ((e : Error) × (state_to_response session_id (failed s e) ≡ ok r))
answered session_id s (ok r) h = inl h
answered session_id s (raise e) h = inr (e, h)

module _ (env : Env) (limit : ℕ) where
  -- The state that a run answers with: the graph's, or the one of its failure.
  pub run_pipeline_answers :
      (session_id : String) (s : PipelineState) {m : StateMessage}
      → run_pipeline env limit session_id s ≡ ok (session m)
      → ((t : PipelineState) × (invoke env limit s ≡ ok t) × Writes session_id t m)
        ⊎ ((e : Error) × Writes session_id (failed s e) m)
  unfolding run_pipeline
  run_pipeline_answers session_id s h =
      elim (answered session_id s (invoke env limit s >>= state_to_response session_id) h) [
        | inr (e, written) ↦ inr (e, state_to_response-Writes session_id (failed s e) written)
        | inl h' ↦
            let (t, ran, written) = bind-eq-ok (invoke env limit s) _ h' in
            inl (t, ran, state_to_response-Writes session_id t written)
      ]

  pub run_pipeline-IsTerminal :
      (session_id : String) (s : PipelineState) {m : StateMessage}
      → run_pipeline env limit session_id s ≡ ok (session m)
      → IsTerminal m.phase × (m.session_id ≡ session_id)
  run_pipeline-IsTerminal session_id s h = elim (run_pipeline_answers session_id s h) [
    | inr (e, w) ↦ (inr (inr w.same_phase), w.same_id)
    | inl (t, ran, w) ↦
        (subst IsTerminal (sym w.same_phase) (invoke-IsTerminal env limit s ran), w.same_id)
  ]

  -- A session that is answered in the phase "done" after a run carries code that was validated.
  pub record HasValidCode (m : StateMessage) : Type 0 where
    pub final : PipelineState
    pub validated : IsValidated env final
    pub same : m.code ≡ final.code

  pub run_pipeline_done :
      (session_id : String) (s : PipelineState) {m : StateMessage}
      → run_pipeline env limit session_id s ≡ ok (session m)
      → m.phase ≡ "done"
      → HasValidCode m
  run_pipeline_done session_id s h p = elim (run_pipeline_answers session_id s h) [
    | inr (e, w) ↦ ground (arith, eq_iff "error" "done")
    | inl (t, ran, w) ↦ record {
      final = t;
      validated = invoke_done-IsValidated env limit s ran (sym w.same_phase ∙ p);
      same = w.same_code;
    }
  ]
