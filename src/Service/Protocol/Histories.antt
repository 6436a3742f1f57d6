-- ===== src/Service/Protocol/Histories.antt =====
-- The dialogue in the messages that the calls of the service send back.
use Prim.Native.String.{[]}
use mathlib.Core.List.{[]}
use mts_true_tech_hack.Base.{
  ℕ, String, ◌≡◌, sym, ap, ◌∙◌, Bool, true, false, not, ◌||◌, Option, inl, inr, ◌==◌, if-cases,
}
use mts_true_tech_hack.Base.Result.{ok, bind-eq-ok, ok-injective}
use mts_true_tech_hack.Text.{nonempty}
use mts_true_tech_hack.Context.{normalize_context_safe}
use mts_true_tech_hack.Graph.State.{PipelineState, Env}
use mts_true_tech_hack.Graph.Run.History.{invoke_same_history}
use mts_true_tech_hack.Graph.Run.Outcomes.{IsTerminal}
use mts_true_tech_hack.Service.Proto.{StateMessage, write_history}
use mts_true_tech_hack.Service.{
  session, make_initial_state, run_pipeline, continue_session, start_session, handle_state,
}
use mts_true_tech_hack.Service.Laws.{Writes, run_pipeline_answers, state_to_response-Writes}

not_both : {b : Bool} → b ≡ true → b ≡ false → ⊥
not_both h k = cc

unnamed_phase : (p : String) → p ≡ "" → nonempty p ≡ true → ⊥
unnamed_phase p h q = not_both q (ap nonempty h)

terminal_named : (p : String) → IsTerminal p → nonempty p ≡ false → ⊥
terminal_named p (inl h) q = not_both (ap nonempty h) q
terminal_named p (inr (inl h)) q = not_both (ap nonempty h) q
terminal_named p (inr (inr h)) q = not_both (ap nonempty h) q

terminal_known :
    (p : String)
    → IsTerminal p
    → (p == "clarification_needed") ≡ false
    → (p == "done" || p == "error") ≡ false
    → ⊥
terminal_known p (inl h) w d = not_both (ap (λ p. p == "clarification_needed") h) w
terminal_known p (inr (inl h)) w d = not_both (ap (λ p. p == "done" || p == "error") h) d
terminal_known p (inr (inr h)) w d = not_both (ap (λ p. p == "done" || p == "error") h) d

module _ (env : Env) (limit : ℕ) where
  -- The message of a run has the dialogue that the run began with.
  pub run_history :
      (id : String) (s : PipelineState) {m : StateMessage}
      → run_pipeline env limit id s ≡ ok (session m)
      → write_history s.clarification_history ≡ ok m.clarification_history
  run_history id s h = elim (run_pipeline_answers env limit id s h) [
    | inl (t, ran, w) ↦ ap write_history (invoke_same_history env limit s ran) ∙ w.history_written
    | inr (e, w) ↦ w.history_written
  ]

  initial_history :
      (id text : String) (context : Option String) {s : PipelineState}
      → make_initial_state id text context ≡ ok s
      → s.clarification_history ≡ []
  unfolding make_initial_state
  initial_history id text context h =
      let (c, normalised, made) = bind-eq-ok (normalize_context_safe context) _ h in
      ap (λ (s : PipelineState). s.clarification_history) (sym (ok-injective made))

  start_history :
      (s : PipelineState) {m : StateMessage}
      → start_session env limit s ≡ ok (session m)
      → m.clarification_history ≡ []
  unfolding start_session
  start_history s h =
      let (initial, made, ran) =
        bind-eq-ok (make_initial_state s.session_id s.request s.context) _ h in
      let none_yet = initial_history s.session_id s.request s.context made in
      ok-injective (sym (run_history s.session_id initial ran) ∙ ap write_history none_yet)

  pub fresh_history :
      (s : PipelineState) {m : StateMessage}
      → s.phase ≡ ""
      → handle_state env limit s ≡ ok (session m)
      → m.clarification_history ≡ []
  unfolding handle_state
  fresh_history s p h = elim (if-cases (not (nonempty s.session_id)) h) [
    | inl (unnamed, e) ↦ cc
    | inr (named, h') ↦ elim (if-cases (nonempty s.phase) h') [
      | inl (q, e) ↦ absurd (unnamed_phase s.phase p q)
      | inr (q, e) ↦ start_history s e
    ]
  ]

  -- A session that is in a terminal phase is answered as it is, or not at all.
  pub terminal_answers :
      (s : PipelineState) {m : StateMessage}
      → IsTerminal s.phase
      → handle_state env limit s ≡ ok (session m)
      → Writes s.session_id s m
  unfolding handle_state continue_session
  terminal_answers s t h = elim (if-cases (not (nonempty s.session_id)) h) [
    | inl (unnamed, e) ↦ cc
    | inr (named, h') ↦ elim (if-cases (nonempty s.phase) h') [
      | inr (q, e) ↦ absurd (terminal_named s.phase t q)
      | inl (q, e) ↦ elim (if-cases (s.phase == "clarification_needed") e) [
        | inl (w, e') ↦ cc
        | inr (w, e') ↦ elim (if-cases (s.phase == "done" || s.phase == "error") e') [
          | inl (d, e'') ↦ state_to_response-Writes s.session_id s e''
          | inr (d, e'') ↦ absurd (terminal_known s.phase t w d)
        ]
      ]
    ]
  ]
