-- ===== src/Graph/Run/Failed.antt =====
-- How often a run of the graph asks the generator, and what it leaves in the phase "error".
use mathlib.Core.Path.{subst}
use mts_true_tech_hack.Base.{ℕ, ◌≤◌, String, ◌≡◌, refl, true, Option, none, some, arith, eq_iff}
use mts_true_tech_hack.Base.Int.{ℤ, pos, pos_part, leb_ℤ, ◌+ℤ◌}
use mts_true_tech_hack.Base.Result.{ok, ok-injective}
use mts_true_tech_hack.Text.{nonempty}
use mts_true_tech_hack.Graph.State.{PipelineState, Env}
use mts_true_tech_hack.Graph.Nodes.{text_or, clarification_needed_node, done_node, error_node}
use mts_true_tech_hack.Graph.Run.{
  Node, extract_context, validate, clarification_needed, done, error, run_node, next, invoke,
}
use mts_true_tech_hack.Graph.Run.Nodes.{
  extract_context_node_keeps, spec_node_keeps, update_spec_node_keeps,
}
use mts_true_tech_hack.Graph.Run.Edges.{
  Edge, start, resume, review, review_again, block, ask, approve, judge, accept, repair, give_up,
}
use mts_true_tech_hack.Graph.Run.Induction.{run_induction}
use mts_true_tech_hack.Graph.Run.Validated.{validate_keeps_attempt}
use mts_true_tech_hack.Graph.Run.Termination.{clarifier_keeps, generate_counts}

text_or_filled :
    (o : Option String) (d : String) → nonempty d ≡ true → nonempty (text_or o d) ≡ true
text_or_filled none d h = h
text_or_filled (some s) d h = ground arith

-- The phase "error" comes with a message.
pub record HasMessage (t : PipelineState) : Type 0 where
  pub complaint : String
  pub shown : t.error ≡ some complaint
  pub filled : nonempty complaint ≡ true

error_node-HasMessage : (s t : PipelineState) → error_node s ≡ ok t → HasMessage t
unfolding error_node
error_node-HasMessage s t h = subst HasMessage (ok-injective h) (record {
  complaint = text_or s.validation_error (text_or s.error "unknown error");
  shown = refl;
  filled = text_or_filled s.validation_error _ (text_or_filled s.error "unknown error" refl);
})

error_stop :
    (env : Env) (n : Node) (s t : PipelineState)
    → run_node env n s ≡ ok t
    → next n t ≡ none
    → t.phase ≡ "error"
    → HasMessage t
unfolding run_node next done_node clarification_needed_node
error_stop env clarification_needed s t h e p =
    ground (arith, eq_iff "clarification_needed" "error")
error_stop env done s t h e p = ground (arith, eq_iff "done" "error")
error_stop env error s t h e p = error_node-HasMessage s t h
error_stop env _ s t h e p = cc

abbrev Always : Node → PipelineState → Type 0
Always n s = Unit

-- A run of the graph that ends in the phase "error" leaves an error message that is not empty.
pub invoke_error-HasMessage :
    (env : Env) (limit : ℕ) (s : PipelineState) {t : PipelineState}
    → invoke env limit s ≡ ok t
    → t.phase ≡ "error"
    → HasMessage t
unfolding invoke
invoke_error-HasMessage env limit s h =
    run_induction env Always (λ t. t.phase ≡ "error" → HasMessage t) (λ n m s t i r e. tt)
      (λ n s t i r e. error_stop env n s t r e) limit extract_context s tt h

abbrev AtMost : ℕ → ℤ → Type 0
AtMost k a = pos_part a ≤ k

-- Before the generator there is room for one more attempt.
abbrev CountInv : Node → PipelineState → Type 0
CountInv validate s = AtMost 3 s.generation_attempt
CountInv clarification_needed s = AtMost 3 s.generation_attempt
CountInv done s = AtMost 3 s.generation_attempt
CountInv error s = AtMost 3 s.generation_attempt
CountInv _ s = AtMost 2 s.generation_attempt

attempt_counted : (a : ℤ) → AtMost 2 a → AtMost 3 (a +ℤ pos 1)
unfolding ◌+ℤ◌
attempt_counted a h = ground arith

AtMost-of_leb : (a : ℤ) → leb_ℤ a (pos 2) ≡ true → AtMost 2 a
AtMost-of_leb a h = ground arith

module _ (env : Env) where
  CountInv-step :
      (n m : Node) (s t : PipelineState)
      → CountInv n s
      → run_node env n s ≡ ok t
      → Edge t n m
      → CountInv m t
  unfolding run_node
  CountInv-step n m s t i h (start p) = rw (← (extract_context_node_keeps env s h).attempt) i
  CountInv-step n m s t i h (resume p) = rw (← (extract_context_node_keeps env s h).attempt) i
  CountInv-step n m s t i h review = rw (← (spec_node_keeps env s h).attempt) i
  CountInv-step n m s t i h review_again = rw (← (update_spec_node_keeps env s h).attempt) i
  CountInv-step n m s t i h (block p) = rw (← clarifier_keeps env s t h) (omega arith)
  CountInv-step n m s t i h (ask p q) = rw (← clarifier_keeps env s t h) (omega arith)
  CountInv-step n m s t i h (approve p q) = rw (← clarifier_keeps env s t h) i
  CountInv-step n m s t i h judge =
      rw (← generate_counts env s t h) (attempt_counted s.generation_attempt i)
  CountInv-step n m s t i h (accept p) = rw (← validate_keeps_attempt env s t h) i
  CountInv-step n m s t i h (repair p q) = AtMost-of_leb t.generation_attempt q
  CountInv-step n m s t i h (give_up p q) = rw (← validate_keeps_attempt env s t h) i

  CountInv-stop :
      (n : Node) (s t : PipelineState)
      → CountInv n s
      → run_node env n s ≡ ok t
      → next n t ≡ none
      → AtMost 3 t.generation_attempt
  unfolding run_node next done_node error_node clarification_needed_node
  CountInv-stop clarification_needed s t i h e = ground arith
  CountInv-stop done s t i h e = ground arith
  CountInv-stop error s t i h e = ground arith
  CountInv-stop _ s t i h e = cc

-- A run of the graph from a state that counts at most two attempts leaves a state that counts at
-- most three: the first generation and `MAX_REPAIRS` repairs.
pub invoke_attempts :
    (env : Env) (limit : ℕ) (s : PipelineState) {t : PipelineState}
    → pos_part s.generation_attempt ≤ 2
    → invoke env limit s ≡ ok t
    → pos_part t.generation_attempt ≤ 3
unfolding invoke
invoke_attempts env limit s few h =
    run_induction env CountInv (λ t. AtMost 3 t.generation_attempt) (CountInv-step env)
      (CountInv-stop env) limit extract_context s few h
