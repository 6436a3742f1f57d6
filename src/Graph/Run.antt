-- ===== src/Graph/Run.antt =====
-- The edges of the graph of services/llm/graph.py, and `graph.invoke`.
pub mod Nodes
pub mod Edges
pub mod Induction
pub mod Outcomes
pub mod Validated
pub mod Termination
pub mod Asked
pub mod Specs
pub mod History
pub mod Mode
pub mod Failed
use mts_true_tech_hack.Base.{ℕ, zero, suc, ◌||◌, Option, none, some, ◌==◌, if◌then◌else◌}
use mts_true_tech_hack.Base.Int.{pos, leb_ℤ}
use mts_true_tech_hack.Base.Result.{Result, ok, raise, recursion_error, ◌>>=◌}
use mts_true_tech_hack.Text.{nonempty}
use mts_true_tech_hack.Graph.State.{PipelineState, Env}
use mts_true_tech_hack.Graph.Nodes.{
  text_of, extract_context_node, spec_node, update_spec_node, clarifier_node, generate_node,
  validate_node, clarification_needed_node, done_node, error_node,
}

pub data Node : Type 0 where
  extract_context spec update_spec clarifier generate validate : Node
  clarification_needed done error : Node

abbrev pub max_repairs : ℕ
max_repairs = 2

-- `route_entry`
unfoldable pub route_entry : PipelineState → Node
route_entry s = if s.clarifying then update_spec else spec

-- `route_after_clarifier`
unfoldable pub route_after_clarifier : PipelineState → Node
route_after_clarifier s =
    if s.phase == "error" || nonempty (text_of s.error)
    then error
    else if s.is_ambiguous
    then clarification_needed
    else generate

-- `route_after_validate`
unfoldable pub route_after_validate : PipelineState → Node
route_after_validate s =
    if s.validation_success
    then done
    else if leb_ℤ s.generation_attempt (pos max_repairs)
    then generate
    else error

-- The edges out of a node, at the state that it leaves; a node without one ends the run.
unfoldable pub next : Node → PipelineState → Option Node
unfolding route_entry route_after_clarifier route_after_validate
next extract_context s = some (route_entry s)
next spec s = some clarifier
next update_spec s = some clarifier
next clarifier s = some (route_after_clarifier s)
next generate s = some validate
next validate s = some (route_after_validate s)
next clarification_needed s = none
next done s = none
next error s = none

abbrev pub go_on :
    (Node → PipelineState → Result PipelineState)
    → Option Node
    → PipelineState
    → Result PipelineState
go_on more none s = ok s
go_on more (some n) s = more n s

module _ (env : Env) where
  unfoldable pub run_node : Node → PipelineState → Result PipelineState
  run_node extract_context s = extract_context_node s
  run_node spec s = spec_node env s
  run_node update_spec s = update_spec_node env s
  run_node clarifier s = clarifier_node env s
  run_node generate s = generate_node env s
  run_node validate s = validate_node env s
  run_node clarification_needed s = clarification_needed_node s
  run_node done s = done_node s
  run_node error s = error_node s

  -- LangGraph runs a node, merges its update and follows an edge, and raises where the run takes
  -- more than `limit` nodes (its `recursion_limit`).
  unfoldable pub run : ℕ → Node → PipelineState → Result PipelineState
  run zero n s = raise (recursion_error "Recursion limit reached without hitting a stop condition.")
  run (suc limit) n s = let more = run limit in run_node n s >>= (λ s'. go_on more (next n s') s')

  -- `graph.invoke(state)` starts at the edge from START.
  unfoldable pub invoke : ℕ → PipelineState → Result PipelineState
  invoke limit s = run limit extract_context s
