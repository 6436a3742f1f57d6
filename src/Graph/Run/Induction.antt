-- ===== src/Graph/Run/Induction.antt =====
-- The one rule by which facts about a run of the graph are proved: an invariant for each node.
use mathlib.Core.Path.{subst}
use mts_true_tech_hack.Base.{ℕ, zero, suc, ◌≡◌, Option, none, some, Option-cases, inl, inr}
use mts_true_tech_hack.Base.Result.{Result, ok, bind-eq-ok}
use mts_true_tech_hack.Graph.State.{PipelineState, Env}
use mts_true_tech_hack.Graph.Run.Edges.{Edge, next_follows}
use mts_true_tech_hack.Graph.Run.{Node, run_node, next, run, go_on}

module _ (more : Node → PipelineState → Result PipelineState) {s t : PipelineState} where
  go_on_stops : (o : Option Node) → o ≡ none → go_on more o s ≡ ok t → s ≡ t
  go_on_stops none e h = cc
  go_on_stops (some m) e h = cc

  go_on_moves : {m : Node} (o : Option Node) → o ≡ some m → go_on more o s ≡ ok t → more m s ≡ ok t
  go_on_moves none e h = cc
  go_on_moves (some n) e h = cc

module _ (env : Env) (Inv : Node → PipelineState → Type 0) (Final : PipelineState → Type 0)
    (step : (n m : Node) (s t : PipelineState)
      → Inv n s
      → run_node env n s ≡ ok t
      → Edge t n m
      → Inv m t)
    (stop : (n : Node) (s t : PipelineState)
      → Inv n s
      → run_node env n s ≡ ok t
      → next n t ≡ none
      → Final t) where
  -- A run that returns from a node whose invariant holds returns a state that is final.
  pub run_induction :
      (limit : ℕ) (n : Node) (s : PipelineState) {t : PipelineState}
      → Inv n s
      → run env limit n s ≡ ok t
      → Final t
  unfolding run
  run_induction zero n s inv h = cc
  run_induction (suc limit) n s inv h =
      let more = run env limit in
      let (s', ran, h') = bind-eq-ok (run_node env n s) (λ s'. go_on more (next n s') s') h in
      elim (Option-cases (next n s')) [
        | inl ends ↦ subst Final (go_on_stops more _ ends h') (stop n s s' inv ran ends)
        | inr (m, moves) ↦
            run_induction limit m s' (step n m s s' inv ran (next_follows s' n m moves))
              (go_on_moves more _ moves h')
      ]
