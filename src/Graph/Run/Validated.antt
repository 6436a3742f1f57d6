-- ===== src/Graph/Run/Validated.antt =====
-- What a run that ends in the phase "done" has done: its code passed both Lua services.
use mathlib.Core.Path.{subst}
use mts_true_tech_hack.Base.{
  ℕ, String, ◌≡◌, refl, sym, ◌∙◌, ap, inl, inr, Bool, true, false, none, arith, eq_iff, Bool-cases,
}
use mts_true_tech_hack.Base.Result.{Result, ok, raise, ok-injective}
use mts_true_tech_hack.Json.{str, obj, end, field}
use mts_true_tech_hack.Json.Dumps.{dumps_ascii}
use mts_true_tech_hack.Context.{normalize_context_safe}
use mts_true_tech_hack.Spec.Evaluate.{NormalizedSpec}
use mts_true_tech_hack.Spec.Decision.{
  ClarifierDecision, approved, question, blocked, build_clarifier_decision,
}
use mts_true_tech_hack.Graph.State.{PipelineState, Env, CheckResponse, ValidateResponse}
use mts_true_tech_hack.Graph.Nodes.{
  text_of, apply_decision, after_checker, after_validator, verdict, clarification_needed_node,
  done_node, error_node, validate_node, generate_node, clarifier_node,
}
use mts_true_tech_hack.Graph.Run.{
  Node, extract_context, generate, validate, clarification_needed, done, error, run_node, next,
  invoke,
}
use mts_true_tech_hack.Graph.Run.Nodes.{
  clarifier_node_decides, generate_node_writes, validate_node_judges,
}
use mts_true_tech_hack.Graph.Run.Edges.{
  has_error, Edge, start, resume, review, review_again, block, ask, approve, judge, accept, repair,
  give_up,
}
use mts_true_tech_hack.Graph.Run.Induction.{run_induction}

-- The code of the state has passed both Lua services, in the attempt that the state counts.
pub record IsValidated (env : Env) (s : PipelineState) : Type 0 where
  pub checked : CheckResponse
  pub context : String
  pub result : ValidateResponse
  pub check_replied : env.check s.generation_attempt (text_of s.code) ≡ ok checked
  pub check_passed : checked.valid ≡ true
  pub normalised : normalize_context_safe s.context ≡ ok context
  pub validator_replied :
      env.validate s.generation_attempt
        (text_of s.code)
        (dumps_ascii (obj (field "CONTEXT_JSON" (str context) end)))
      ≡ ok result
  pub validator_passed : result.success ≡ true
  pub spec_approved : s.spec_approved ≡ true

after_validator_passes :
    (s : PipelineState) (v : Result ValidateResponse)
    → (after_validator s v).validation_success ≡ true
    → (r : ValidateResponse) × (v ≡ ok r) × (r.success ≡ true)
after_validator_passes s (ok r) h = (r, refl, h)
after_validator_passes s (raise e) h = cc

module _ (env : Env) (s : PipelineState) (env_vars : String) where
  -- The checker has replied `c`, and the validator what is `result`.
  record Passed (c : Result CheckResponse) : Type 0 where
    checked : CheckResponse
    result : ValidateResponse
    check_replied : c ≡ ok checked
    check_passed : checked.valid ≡ true
    validator_replied : env.validate s.generation_attempt (text_of s.code) env_vars ≡ ok result
    validator_passed : result.success ≡ true

  after_checker_passes :
      (c : Result CheckResponse)
      → (after_checker env s env_vars c).validation_success ≡ true
      → Passed c
  after_checker_passes (raise e) h = cc
  after_checker_passes (ok r) h = elim (Bool-cases r.valid) [
    | inl p ↦
        let (v, replied, passed) = after_validator_passes s _ (rw p at h) in
        record {
          checked = r;
          result = v;
          check_replied = refl;
          check_passed = p;
          validator_replied = replied;
          validator_passed = passed;
        }
    | inr p ↦ let impossible : false ≡ true = rw p at h in cc
  ]

  after_checker-eq-verdict :
      (c : Result CheckResponse)
      → (success : Bool) × (output : String) × (complaint : String) × (after_checker env s env_vars
            c
          ≡ verdict s success output complaint)
  after_checker-eq-verdict c =
      let t = after_checker env s env_vars c in
      (t.validation_success, text_of t.validation_output, text_of t.validation_error, ground arith)

  verdict-IsValidated :
      (context : String)
      → normalize_context_safe s.context ≡ ok context
      → env_vars ≡ dumps_ascii (obj (field "CONTEXT_JSON" (str context) end))
      → s.spec_approved ≡ true
      → Passed (env.check s.generation_attempt (text_of s.code))
      → (success : Bool) (output complaint : String)
      → IsValidated env (verdict s success output complaint)
  verdict-IsValidated context normalised vars was_approved p success output complaint = record {
    checked = p.checked;
    context = context;
    result = p.result;
    check_replied = p.check_replied;
    check_passed = p.check_passed;
    normalised = normalised;
    validator_replied = rw (← vars) p.validator_replied;
    validator_passed = p.validator_passed;
    spec_approved = was_approved;
  }

validate_success-IsValidated :
    (env : Env) (s t : PipelineState)
    → s.spec_approved ≡ true
    → validate_node env s ≡ ok t
    → t.validation_success ≡ true
    → IsValidated env t
validate_success-IsValidated env s t was_approved h success =
    let (context, normalised, judged) = validate_node_judges env s h in
    let env_vars = dumps_ascii (obj (field "CONTEXT_JSON" (str context) end)) in
    let reply = env.check s.generation_attempt (text_of s.code) in
    let passed = after_checker_passes env s env_vars reply (rw (← judged) at success) in
    let (b, output, complaint, same) = after_checker-eq-verdict env s env_vars reply in
    subst (IsValidated env) (sym same ∙ judged) (
      verdict-IsValidated env s env_vars context normalised refl was_approved passed b output
        complaint)

approves :
    (s : PipelineState) (sp : NormalizedSpec) (d : ClarifierDecision)
    → (apply_decision s sp d).is_ambiguous ≡ false
    → has_error (apply_decision s sp d) ≡ false
    → (apply_decision s sp d).spec_approved ≡ true
approves s sp approved p q = refl
approves s sp (question reason q) p r = cc
approves s sp (blocked reason) p q = ground arith

abbrev DoneInv : Env → Node → PipelineState → Type 0
DoneInv env generate s = s.spec_approved ≡ true
DoneInv env validate s = s.spec_approved ≡ true
DoneInv env done s = IsValidated env s
DoneInv env _ s = Unit

module _ (env : Env) where
  generate_keeps_approval :
      (s t : PipelineState)
      → s.spec_approved ≡ true
      → generate_node env s ≡ ok t
      → t.spec_approved ≡ true
  generate_keeps_approval s t a h = let (code, e) = generate_node_writes env s h in rw (← e) a

  validate_keeps_approval :
      (s t : PipelineState)
      → s.spec_approved ≡ true
      → validate_node env s ≡ ok t
      → t.spec_approved ≡ true
  validate_keeps_approval s t a h =
      let (context, normalised, judged) = validate_node_judges env s h in
      let env_vars = dumps_ascii (obj (field "CONTEXT_JSON" (str context) end)) in
      let reply = env.check s.generation_attempt (text_of s.code) in
      let (b, output, complaint, same) = after_checker-eq-verdict env s env_vars reply in
      rw (← judged, same) a

  pub validate_keeps_attempt :
      (s t : PipelineState)
      → validate_node env s ≡ ok t
      → s.generation_attempt ≡ t.generation_attempt
  validate_keeps_attempt s t h =
      let (context, normalised, judged) = validate_node_judges env s h in
      let env_vars = dumps_ascii (obj (field "CONTEXT_JSON" (str context) end)) in
      let reply = env.check s.generation_attempt (text_of s.code) in
      let (b, output, complaint, same) = after_checker-eq-verdict env s env_vars reply in
      ap (λ (t : PipelineState). t.generation_attempt) (sym same ∙ judged)

  clarifier_approves :
      (s t : PipelineState)
      → clarifier_node env s ≡ ok t
      → has_error t ≡ false
      → t.is_ambiguous ≡ false
      → t.spec_approved ≡ true
  clarifier_approves s t h p q =
      let (sp, loaded, decided) = clarifier_node_decides env s h in
      rw (← decided) (
        approves s sp (build_clarifier_decision sp s.clarification_history) (rw (← decided) at q)
          (rw (← decided) at p))

  DoneInv-step :
      (n m : Node) (s t : PipelineState)
      → DoneInv env n s
      → run_node env n s ≡ ok t
      → Edge t n m
      → DoneInv env m t
  unfolding run_node
  DoneInv-step n m s t i h (start p) = tt
  DoneInv-step n m s t i h (resume p) = tt
  DoneInv-step n m s t i h review = tt
  DoneInv-step n m s t i h review_again = tt
  DoneInv-step n m s t i h (block p) = tt
  DoneInv-step n m s t i h (ask p q) = tt
  DoneInv-step n m s t i h (approve p q) = clarifier_approves s t h p q
  DoneInv-step n m s t i h judge = generate_keeps_approval s t i h
  DoneInv-step n m s t i h (accept p) = validate_success-IsValidated env s t i h p
  DoneInv-step n m s t i h (repair p q) = validate_keeps_approval s t i h
  DoneInv-step n m s t i h (give_up p q) = tt

  same_but_phase :
      (s t : PipelineState) → IsValidated env s → done_node s ≡ ok t → IsValidated env t
  unfolding done_node
  same_but_phase s t v h = subst (IsValidated env) (ok-injective h) (record {
    checked = v.checked;
    context = v.context;
    result = v.result;
    check_replied = v.check_replied;
    check_passed = v.check_passed;
    normalised = v.normalised;
    validator_replied = v.validator_replied;
    validator_passed = v.validator_passed;
    spec_approved = v.spec_approved;
  })

  DoneInv-stop :
      (n : Node) (s t : PipelineState)
      → DoneInv env n s
      → run_node env n s ≡ ok t
      → next n t ≡ none
      → t.phase ≡ "done"
      → IsValidated env t
  unfolding run_node next clarification_needed_node error_node
  DoneInv-stop done s t i h e p = same_but_phase s t i h
  DoneInv-stop clarification_needed s t i h e p =
      ground (arith, eq_iff "clarification_needed" "done")
  DoneInv-stop error s t i h e p = ground (arith, eq_iff "error" "done")
  DoneInv-stop _ s t i h e p = cc

-- A run of the graph that ends in the phase "done" has an approved spec, and the code of its state
-- was passed by the checker and, in the normalised context, by the validator, both asked about
-- exactly this code in the attempt that the state counts.
pub invoke_done-IsValidated :
    (env : Env) (limit : ℕ) (s : PipelineState) {t : PipelineState}
    → invoke env limit s ≡ ok t
    → t.phase ≡ "done"
    → IsValidated env t
unfolding invoke
invoke_done-IsValidated env limit s h =
    run_induction env (DoneInv env) (λ t. t.phase ≡ "done" → IsValidated env t) (DoneInv-step env)
      (DoneInv-stop env) limit extract_context s tt h
