-- ===== src/Graph/Run/Outcomes.antt =====
-- How a run of the graph ends: what its state shows in each phase.
use mts_true_tech_hack.Base.{ℕ, String, ◌≡◌, ◌⊎◌, none, arith}
use mts_true_tech_hack.Base.Result.{ok}
use mts_true_tech_hack.Graph.State.{PipelineState, Env}
use mts_true_tech_hack.Graph.Nodes.{clarification_needed_node, done_node, error_node}
use mts_true_tech_hack.Graph.Run.{
  Node, extract_context, clarification_needed, done, error, run_node, next, invoke,
}
use mts_true_tech_hack.Graph.Run.Induction.{run_induction}

abbrev pub IsTerminal : String → Type 0
IsTerminal phase = (phase ≡ "clarification_needed") ⊎ (phase ≡ "done") ⊎ (phase ≡ "error")

abbrev Always : Node → PipelineState → Type 0
Always n s = Unit

stops-IsTerminal :
    (env : Env) (n : Node) (s t : PipelineState)
    → run_node env n s ≡ ok t
    → next n t ≡ none
    → IsTerminal t.phase
unfolding run_node next clarification_needed_node done_node error_node
stops-IsTerminal env clarification_needed s t h e = ground arith
stops-IsTerminal env done s t h e = ground arith
stops-IsTerminal env error s t h e = ground arith
stops-IsTerminal env _ s t h e = cc

-- A run of the graph that returns ends in one of the three terminal phases.
pub invoke-IsTerminal :
    (env : Env) (limit : ℕ) (s : PipelineState) {t : PipelineState}
    → invoke env limit s ≡ ok t
    → IsTerminal t.phase
unfolding invoke
invoke-IsTerminal env limit s h =
    run_induction env Always (λ t. IsTerminal t.phase) (λ n m s t i r e. tt)
      (λ n s t i r e. stops-IsTerminal env n s t r e) limit extract_context s tt h
