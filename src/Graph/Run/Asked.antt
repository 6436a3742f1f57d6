-- ===== src/Graph/Run/Asked.antt =====
-- What a run that ends in the phase "clarification_needed" leaves: one new question, and no code.
use mathlib.Core.Path.{subst}
use mts_true_tech_hack.Base.{ℕ, String, ◌≡◌, refl, true, false, none, some, arith, eq_iff}
use mts_true_tech_hack.Base.Result.{ok, ok-injective}
use mts_true_tech_hack.Text.{nonempty}
use mts_true_tech_hack.Spec.Evaluate.{NormalizedSpec}
use mts_true_tech_hack.Spec.Decision.{
  ClarifierDecision, approved, question, blocked, was_asked, build_clarifier_decision,
}
use mts_true_tech_hack.Spec.Decision.Laws.{question_sound}
use mts_true_tech_hack.Graph.State.{PipelineState, Env}
use mts_true_tech_hack.Graph.Nodes.{
  apply_decision, clarifier_node, clarification_needed_node, done_node, error_node,
}
use mts_true_tech_hack.Graph.Run.{
  Node, extract_context, spec, update_spec, clarifier, clarification_needed, done, error, run_node,
  next, invoke,
}
use mts_true_tech_hack.Graph.Run.Nodes.{
  Kept, Kept-trans, clarifier_node_decides, extract_context_node_keeps, spec_node_keeps,
  update_spec_node_keeps,
}
use mts_true_tech_hack.Graph.Run.Edges.{
  Edge, start, resume, review, review_again, block, ask, approve, judge, accept, repair, give_up,
}
use mts_true_tech_hack.Graph.Run.Induction.{run_induction}

-- From `s` the graph came to ask: the question of `t` is not among those of the history, the spec is
-- not approved, and history, code and attempts are those of `s`.
pub record IsAsked (s t : PipelineState) : Type 0 where
  pub question : String
  pub asks : t.clarification_question ≡ some question
  pub filled : nonempty question ≡ true
  pub fresh : was_asked question s.clarification_history ≡ false
  pub unapproved : t.spec_approved ≡ false
  pub kept : Kept s t

Kept-refl : (s : PipelineState) → Kept s s
Kept-refl s = record { history = refl; code = refl; attempt = refl }

decision-IsAsked :
    (s : PipelineState) (sp : NormalizedSpec) (d : ClarifierDecision)
    → build_clarifier_decision sp s.clarification_history ≡ d
    → (apply_decision s sp d).is_ambiguous ≡ true
    → IsAsked s (apply_decision s sp d)
decision-IsAsked s sp approved e p = cc
decision-IsAsked s sp (blocked reason) e p = cc
decision-IsAsked s sp (question q reason) e p =
    let (asks, fresh, same) = question_sound sp s.clarification_history q reason e in
    record {
      question = q;
      asks = refl;
      filled = asks.filled;
      fresh = fresh;
      unapproved = refl;
      kept = record { history = refl; code = refl; attempt = refl };
    }

clarifier-IsAsked :
    (env : Env) (s t : PipelineState)
    → clarifier_node env s ≡ ok t
    → t.is_ambiguous ≡ true
    → IsAsked s t
clarifier-IsAsked env s t h p =
    let (sp, loaded, decided) = clarifier_node_decides env s h in
    subst (IsAsked s) decided (
      decision-IsAsked s sp (build_clarifier_decision sp s.clarification_history) refl
        (rw (← decided) at p))

IsAsked-after : {s t u : PipelineState} → Kept s t → IsAsked t u → IsAsked s u
IsAsked-after k a = record {
  question = a.question;
  asks = a.asks;
  filled = a.filled;
  fresh = rw k.history a.fresh;
  unapproved = a.unapproved;
  kept = Kept-trans k a.kept;
}

module _ (env : Env) (s₀ : PipelineState) where
  abbrev AskInv : Node → PipelineState → Type 0
  AskInv extract_context s = Kept s₀ s
  AskInv spec s = Kept s₀ s
  AskInv update_spec s = Kept s₀ s
  AskInv clarifier s = Kept s₀ s
  AskInv clarification_needed s = IsAsked s₀ s
  AskInv _ s = Unit

  AskInv-step :
      (n m : Node) (s t : PipelineState)
      → AskInv n s
      → run_node env n s ≡ ok t
      → Edge t n m
      → AskInv m t
  unfolding run_node
  AskInv-step n m s t i h (start p) = Kept-trans i (extract_context_node_keeps env s h)
  AskInv-step n m s t i h (resume p) = Kept-trans i (extract_context_node_keeps env s h)
  AskInv-step n m s t i h review = Kept-trans i (spec_node_keeps env s h)
  AskInv-step n m s t i h review_again = Kept-trans i (update_spec_node_keeps env s h)
  AskInv-step n m s t i h (block p) = tt
  AskInv-step n m s t i h (ask p q) = IsAsked-after i (clarifier-IsAsked env s t h q)
  AskInv-step n m s t i h (approve p q) = tt
  AskInv-step n m s t i h judge = tt
  AskInv-step n m s t i h (accept p) = tt
  AskInv-step n m s t i h (repair p q) = tt
  AskInv-step n m s t i h (give_up p q) = tt

  same_but_phase :
      (s t : PipelineState) → IsAsked s₀ s → clarification_needed_node s ≡ ok t → IsAsked s₀ t
  unfolding clarification_needed_node
  same_but_phase s t a h = subst (IsAsked s₀) (ok-injective h) (record {
    question = a.question;
    asks = a.asks;
    filled = a.filled;
    fresh = a.fresh;
    unapproved = a.unapproved;
    kept = record { history = a.kept.history; code = a.kept.code; attempt = a.kept.attempt };
  })

  AskInv-stop :
      (n : Node) (s t : PipelineState)
      → AskInv n s
      → run_node env n s ≡ ok t
      → next n t ≡ none
      → t.phase ≡ "clarification_needed"
      → IsAsked s₀ t
  unfolding run_node next done_node error_node
  AskInv-stop clarification_needed s t i h e p = same_but_phase s t i h
  AskInv-stop done s t i h e p = ground (arith, eq_iff "clarification_needed" "done")
  AskInv-stop error s t i h e p = ground (arith, eq_iff "clarification_needed" "error")
  AskInv-stop _ s t i h e p = cc

-- A run of the graph that ends in the phase "clarification_needed" leaves a question that is not
-- empty and that no entry of the history has asked; the spec is not approved, and the history, the
-- code and the count of attempts are those that the run began with.
pub invoke_ask-IsAsked :
    (env : Env) (limit : ℕ) (s : PipelineState) {t : PipelineState}
    → invoke env limit s ≡ ok t
    → t.phase ≡ "clarification_needed"
    → IsAsked s t
unfolding invoke
invoke_ask-IsAsked env limit s h =
    run_induction env (AskInv env s) (λ t. t.phase ≡ "clarification_needed" → IsAsked s t)
      (AskInv-step env s) (AskInv-stop env s) limit extract_context s (Kept-refl s) h
