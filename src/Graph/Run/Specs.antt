-- ===== src/Graph/Run/Specs.antt =====
-- The spec in a state that the clarifier has left: what a reader decodes is the spec that it decided
-- on.
use mts_true_tech_hack.Base.{
  ℕ, String, ◌≡◌, refl, sym, ap, ◌∙◌, true, Option, none, some, arith, eq_iff,
}
use mts_true_tech_hack.Base.Result.{ok, ok-injective}
use mts_true_tech_hack.Json.{obj, has_key}
use mts_true_tech_hack.Json.Loads.{loads}
use mts_true_tech_hack.Json.Dumps.{dump, dumps}
use mts_true_tech_hack.Text.{nonempty}
use mts_true_tech_hack.Json.RoundTrip.Plain.{IsPlain}
use mts_true_tech_hack.Json.RoundTrip.Whole.{loads-dumps}
use mts_true_tech_hack.Spec.Evaluate.{NormalizedSpec}
use mts_true_tech_hack.Spec.Decision.{
  ClarifierDecision, approved, question, blocked, load_spec_json, build_clarifier_decision,
}
use mts_true_tech_hack.Graph.State.{PipelineState, Env}
use mts_true_tech_hack.Graph.Texts.{spec_fields, optional_text}
use mts_true_tech_hack.Graph.Nodes.{
  request_of, text_of, spec_text, apply_decision, clarifier_node, clarification_needed_node,
  done_node, error_node,
}
use mts_true_tech_hack.Graph.Run.{
  Node, extract_context, clarification_needed, done, error, run_node, next, invoke,
}
use mts_true_tech_hack.Graph.Run.Nodes.{clarifier_node_decides}
use mts_true_tech_hack.Graph.Run.Edges.{
  Edge, start, resume, review, review_again, block, ask, approve, judge, accept, repair, give_up,
}
use mts_true_tech_hack.Graph.Run.Induction.{run_induction}

optional_text-IsPlain : (o : Option String) → IsPlain (optional_text o)
unfolding IsPlain
optional_text-IsPlain none = tt
optional_text-IsPlain (some s) = tt

spec_fields-IsPlain : (sp : NormalizedSpec) → IsPlain (obj (spec_fields sp))
unfolding IsPlain spec_fields has_key
spec_fields-IsPlain sp =
    let q = optional_text-IsPlain sp.clarification_question in
    let r = optional_text-IsPlain sp.clarification_reason in
    (
      refl,
      tt,
      (
        refl,
        tt,
        (
          refl,
          tt,
          (
            refl,
            tt,
            (
              refl,
              tt,
              (refl, tt, (refl, tt, (refl, tt, (refl, tt, (refl, q, (refl, tt, (refl, r, tt))))))),
            ),
          ),
        ),
      ),
    )

pub loads-spec_text :
    (sp : NormalizedSpec) → loads (text_of (spec_text sp)) ≡ ok (obj (spec_fields sp))
loads-spec_text sp = loads-dumps (obj (spec_fields sp)) (spec_fields-IsPlain sp)

pub spec_text_filled : (sp : NormalizedSpec) → nonempty (text_of (spec_text sp)) ≡ true
unfolding spec_fields dumps dump
spec_text_filled sp = refl

-- The state holds a spec that the pipeline has written.
pub record HasSpec (s : PipelineState) : Type 0 where
  pub spec : NormalizedSpec
  pub held : s.spec_json ≡ spec_text spec

pub apply_decision_spec :
    (s : PipelineState) (sp : NormalizedSpec) (d : ClarifierDecision)
    → (apply_decision s sp d).spec_json ≡ spec_text sp
apply_decision_spec s sp approved = refl
apply_decision_spec s sp (question q reason) = refl
apply_decision_spec s sp (blocked reason) = refl

-- Whatever the clarifier decides, the spec that it leaves in the state is the one that it decided on.
pub clarifier_node_spec :
    (env : Env) (s t : PipelineState)
    → clarifier_node env s ≡ ok t
    → (sp : NormalizedSpec) × (load_spec_json env.set_order (request_of s) s.spec_json ≡ ok sp)
      × (t.spec_json ≡ spec_text sp)
clarifier_node_spec env s t h =
    let (sp, loaded, decided) = clarifier_node_decides env s h in
    let d = build_clarifier_decision sp s.clarification_history in
    (sp, loaded, ap (λ (s : PipelineState). s.spec_json) (sym decided) ∙ apply_decision_spec s sp d)

clarifier_node-HasSpec : (env : Env) (s t : PipelineState) → clarifier_node env s ≡ ok t → HasSpec t
clarifier_node-HasSpec env s t h =
    let (sp, loaded, held) = clarifier_node_spec env s t h in record { spec = sp; held = held }

module _ (env : Env) where
  abbrev SpecInv : Node → PipelineState → Type 0
  SpecInv clarification_needed s = HasSpec s
  SpecInv _ s = Unit

  SpecInv-step :
      (n m : Node) (s t : PipelineState)
      → SpecInv n s
      → run_node env n s ≡ ok t
      → Edge t n m
      → SpecInv m t
  unfolding run_node
  SpecInv-step n m s t i h (start p) = tt
  SpecInv-step n m s t i h (resume p) = tt
  SpecInv-step n m s t i h review = tt
  SpecInv-step n m s t i h review_again = tt
  SpecInv-step n m s t i h (block p) = tt
  SpecInv-step n m s t i h (ask p q) = clarifier_node-HasSpec env s t h
  SpecInv-step n m s t i h (approve p q) = tt
  SpecInv-step n m s t i h judge = tt
  SpecInv-step n m s t i h (accept p) = tt
  SpecInv-step n m s t i h (repair p q) = tt
  SpecInv-step n m s t i h (give_up p q) = tt

  same_spec : (s t : PipelineState) → HasSpec s → clarification_needed_node s ≡ ok t → HasSpec t
  unfolding clarification_needed_node
  same_spec s t a h = record {
    spec = a.spec;
    held = ap (λ (s : PipelineState). s.spec_json) (sym (ok-injective h)) ∙ a.held;
  }

  SpecInv-stop :
      (n : Node) (s t : PipelineState)
      → SpecInv n s
      → run_node env n s ≡ ok t
      → next n t ≡ none
      → t.phase ≡ "clarification_needed"
      → HasSpec t
  unfolding run_node next done_node error_node
  SpecInv-stop clarification_needed s t i h e p = same_spec s t i h
  SpecInv-stop done s t i h e p = ground (arith, eq_iff "clarification_needed" "done")
  SpecInv-stop error s t i h e p = ground (arith, eq_iff "clarification_needed" "error")
  SpecInv-stop _ s t i h e p = cc

pub invoke_ask-HasSpec :
    (env : Env) (limit : ℕ) (s : PipelineState) {t : PipelineState}
    → invoke env limit s ≡ ok t
    → t.phase ≡ "clarification_needed"
    → HasSpec t
unfolding invoke
invoke_ask-HasSpec env limit s h =
    run_induction env (SpecInv env) (λ t. t.phase ≡ "clarification_needed" → HasSpec t)
      (SpecInv-step env) (SpecInv-stop env) limit extract_context s tt h
