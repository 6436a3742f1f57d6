-- ===== src/Graph/Run/History.antt =====
-- The dialogue of a session in a run of the graph.
use mathlib.Core.Path.{subst}
use mts_true_tech_hack.Base.{ℕ, String, ◌≡◌, refl, ◌∙◌, Bool, true, false, if◌then◌else◌}
use mts_true_tech_hack.Base.Result.{Result, ok, raise, ok-injective}
use mts_true_tech_hack.Spec.Evaluate.{NormalizedSpec}
use mts_true_tech_hack.Spec.Decision.{
  ClarifierDecision, approved, question, blocked, build_clarifier_decision,
}
use mts_true_tech_hack.Graph.State.{PipelineState, CheckResponse, ValidateResponse, Env}
use mts_true_tech_hack.Graph.Nodes.{
  text_of, apply_decision, after_checker, after_validator, clarification_needed_node, done_node,
  error_node,
}
use mts_true_tech_hack.Graph.Run.{
  Node, extract_context, spec, update_spec, clarifier, generate, validate, clarification_needed,
  done, error, run_node, invoke,
}
use mts_true_tech_hack.Graph.Run.Nodes.{
  extract_context_node_keeps, spec_node_keeps, update_spec_node_keeps, clarifier_node_decides,
  generate_node_writes, validate_node_judges,
}
use mts_true_tech_hack.Graph.Run.Induction.{run_induction}

-- Two states with the same dialogue.
abbrev SameHistory : PipelineState → PipelineState → Type 0
SameHistory s t = s.clarification_history ≡ t.clarification_history

decision_same :
    (s : PipelineState) (sp : NormalizedSpec) (d : ClarifierDecision)
    → SameHistory s (apply_decision s sp d)
decision_same s sp approved = refl
decision_same s sp (question q reason) = refl
decision_same s sp (blocked reason) = refl

either_same :
    (b : Bool) (s t u : PipelineState)
    → SameHistory s t
    → SameHistory s u
    → SameHistory s (if b then t else u)
either_same true s t u h k = h
either_same false s t u h k = k

module _ (env : Env) where
  validator_same :
      (s : PipelineState) (r : Result ValidateResponse) → SameHistory s (after_validator s r)
  validator_same s (ok r) = refl
  validator_same s (raise e) = refl

  checker_same :
      (s : PipelineState) (env_vars : String) (r : Result CheckResponse)
      → SameHistory s (after_checker env s env_vars r)
  checker_same s env_vars (ok r) =
      either_same r.valid s _ _
        (validator_same s (env.validate s.generation_attempt (text_of s.code) env_vars)) refl
  checker_same s env_vars (raise e) = refl

  node_same : (n : Node) (s t : PipelineState) → run_node env n s ≡ ok t → SameHistory s t
  unfolding run_node clarification_needed_node done_node error_node
  node_same extract_context s t h = (extract_context_node_keeps env s h).history
  node_same spec s t h = (spec_node_keeps env s h).history
  node_same update_spec s t h = (update_spec_node_keeps env s h).history
  node_same clarifier s t h =
      let (sp, loaded, decided) = clarifier_node_decides env s h in
      subst (SameHistory s) decided
        (decision_same s sp (build_clarifier_decision sp s.clarification_history))
  node_same generate s t h =
      let (code, written) = generate_node_writes env s h in subst (SameHistory s) written refl
  node_same validate s t h =
      let (context, normalised, judged) = validate_node_judges env s h in
      subst (SameHistory s) judged
        (checker_same s _ (env.check s.generation_attempt (text_of s.code)))
  node_same clarification_needed s t h = subst (SameHistory s) (ok-injective h) refl
  node_same done s t h = subst (SameHistory s) (ok-injective h) refl
  node_same error s t h = subst (SameHistory s) (ok-injective h) refl

-- A run leaves the dialogue as it was.
pub invoke_same_history :
    (env : Env) (limit : ℕ) (s : PipelineState) {t : PipelineState}
    → invoke env limit s ≡ ok t
    → s.clarification_history ≡ t.clarification_history
unfolding invoke
invoke_same_history env limit s h =
    run_induction env (λ n t. SameHistory s t) (λ t. SameHistory s t)
      (λ n m t u i r e. i ∙ node_same env n t u r) (λ n t u i r e. i ∙ node_same env n t u r) limit
      extract_context s refl h
