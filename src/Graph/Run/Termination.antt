-- ===== src/Graph/Run/Termination.antt =====
-- Every run of the graph ends, after a number of nodes that the attempts made so far bound.
use mts_true_tech_hack.Base.{
  ℕ, zero, suc, ◌+◌, ◌-◌, ◌*◌, ◌≤◌, ◌<◌, ◌≡◌, refl, ap, inl, inr, true, none, some, Option-cases,
  arith,
}
use mts_true_tech_hack.Base.Int.{ℤ, pos, pos_part, neg_part, leb_ℤ, ◌+ℤ◌}
use mts_true_tech_hack.Base.Result.{Result, Error, ok, raise, Result-cases}
use mts_true_tech_hack.Spec.Decision.{
  ClarifierDecision, approved, question, blocked, build_clarifier_decision,
}
use mts_true_tech_hack.Spec.Evaluate.{NormalizedSpec}
use mts_true_tech_hack.Graph.State.{PipelineState, Env}
use mts_true_tech_hack.Graph.Nodes.{apply_decision, clarifier_node, generate_node}
use mts_true_tech_hack.Graph.Run.{
  Node, extract_context, spec, update_spec, clarifier, generate, validate, clarification_needed,
  done, error, run_node, next, run, invoke,
}
use mts_true_tech_hack.Graph.Run.Nodes.{
  extract_context_node_keeps, spec_node_keeps, update_spec_node_keeps, clarifier_node_decides,
  generate_node_writes,
}
use mts_true_tech_hack.Graph.Run.Edges.{
  Edge, start, resume, review, review_again, block, ask, approve, judge, accept, repair, give_up,
  next_follows,
}
use mts_true_tech_hack.Graph.Run.Validated.{validate_keeps_attempt}

-- A run of `k` nodes from a node and a state, with its outcome, with no limit on its length.
pub data Runs (env : Env) : ℕ → Node → PipelineState → Result PipelineState → Type 0 where
  raises :
      {n : Node} {s : PipelineState} {e : Error}
      → run_node env n s ≡ raise e
      → Runs env 1 n s (raise e)
  stops :
      {n : Node} {s t : PipelineState}
      → run_node env n s ≡ ok t
      → next n t ≡ none
      → Runs env 1 n s (ok t)
  moves :
      {k : ℕ} {n m : Node} {s t : PipelineState} {r : Result PipelineState}
      → run_node env n s ≡ ok t
      → next n t ≡ some m
      → Runs env k m t r
      → Runs env (suc k) n s r

-- How many generations are left until the attempts pass `MAX_REPAIRS`.
abbrev remaining : ℤ → ℕ
remaining a = 3 - pos_part a + neg_part a

-- A bound on the nodes that a run from a node takes, the node itself counted.
abbrev rank : Node → ℤ → ℕ
rank extract_context a = 6 + 2 * (remaining a - 1)
rank spec a = 5 + 2 * (remaining a - 1)
rank update_spec a = 5 + 2 * (remaining a - 1)
rank clarifier a = 4 + 2 * (remaining a - 1)
rank generate a = 3 + 2 * (remaining a - 1)
rank validate a = 2 + 2 * remaining a
rank clarification_needed a = 1
rank done a = 1
rank error a = 1

rank_pos : (n : Node) (a : ℤ) → 0 < rank n a
rank_pos extract_context a = omega arith
rank_pos _ a = omega arith

-- One more attempt leaves one generation less.
remaining-attempt : (a : ℤ) → remaining (a +ℤ pos 1) ≡ remaining a - 1
unfolding ◌+ℤ◌
remaining-attempt a = ground arith

remaining_of_le : (a : ℤ) → leb_ℤ a (pos 2) ≡ true → 0 < remaining a
remaining_of_le a h = ground arith

decision_keeps :
    (s : PipelineState) (sp : NormalizedSpec) (d : ClarifierDecision)
    → s.generation_attempt ≡ (apply_decision s sp d).generation_attempt
decision_keeps s sp approved = refl
decision_keeps s sp (question q r) = refl
decision_keeps s sp (blocked r) = refl

module _ (env : Env) where
  pub clarifier_keeps :
      (s t : PipelineState)
      → clarifier_node env s ≡ ok t
      → s.generation_attempt ≡ t.generation_attempt
  clarifier_keeps s t h =
      let (sp, loaded, decided) = clarifier_node_decides env s h in
      rw (← decided) (decision_keeps s sp (build_clarifier_decision sp s.clarification_history))

  pub generate_counts :
      (s t : PipelineState)
      → generate_node env s ≡ ok t
      → s.generation_attempt +ℤ pos 1 ≡ t.generation_attempt
  generate_counts s t h =
      let (code, written) = generate_node_writes env s h in
      ap (λ (t : PipelineState). t.generation_attempt) written

  -- Along an edge the rank falls.
  rank_falls :
      (n m : Node) (s t : PipelineState)
      → run_node env n s ≡ ok t
      → Edge t n m
      → rank m t.generation_attempt < rank n s.generation_attempt
  unfolding run_node
  rank_falls n m s t h (start p) = rw (extract_context_node_keeps env s h).attempt (omega arith)
  rank_falls n m s t h (resume p) = rw (extract_context_node_keeps env s h).attempt (omega arith)
  rank_falls n m s t h review = rw (spec_node_keeps env s h).attempt (omega arith)
  rank_falls n m s t h review_again = rw (update_spec_node_keeps env s h).attempt (omega arith)
  rank_falls n m s t h (block p) = omega arith
  rank_falls n m s t h (ask p q) = omega arith
  rank_falls n m s t h (approve p q) = rw (clarifier_keeps s t h) (omega arith)
  rank_falls n m s t h judge = rw (← generate_counts s t h, remaining-attempt) (omega arith)
  rank_falls n m s t h (accept p) = omega arith
  rank_falls n m s t h (repair p q) =
      rw (validate_keeps_attempt env s t h) (omega (arith, remaining_of_le t.generation_attempt q))
  rank_falls n m s t h (give_up p q) = omega arith

  Runs-within :
      (b : ℕ) (n : Node) (s : PipelineState)
      → rank n s.generation_attempt ≤ b
      → (k : ℕ) × (r : Result PipelineState) × (k ≤ rank n s.generation_attempt) × Runs env k n s r
  Runs-within zero n s h = absurd (omega (arith, rank_pos n s.generation_attempt))
  Runs-within (suc b) n s h = elim (Result-cases (run_node env n s)) [
    | inr (e, raised) ↦ (1, raise e, rank_pos n s.generation_attempt, raises raised)
    | inl (t, ran) ↦ elim (Option-cases (next n t)) [
      | inl ends ↦ (1, ok t, rank_pos n s.generation_attempt, stops ran ends)
      | inr (m, leads) ↦
          let falls = rank_falls n m s t ran (next_follows t n m leads) in
          let (k, r, short, rest) = Runs-within b m t (omega arith) in
          (suc k, r, omega arith, moves ran leads rest)
    ]
  ]

  -- A limit that the run keeps is as good as none.
  run_of_Runs :
      {k : ℕ} {n : Node} {s : PipelineState} {r : Result PipelineState}
      → Runs env k n s r
      → (limit : ℕ) → k ≤ limit
      → run env limit n s ≡ r
  unfolding run
  run_of_Runs (raises e) zero h = absurd (omega arith)
  run_of_Runs (raises e) (suc limit) h = rw e
  run_of_Runs (stops e p) zero h = absurd (omega arith)
  run_of_Runs (stops e p) (suc limit) h = rw (e, p)
  run_of_Runs (moves e p rest) zero h = absurd (omega arith)
  run_of_Runs (moves e p rest) (suc limit) h = rw (e, p) (run_of_Runs rest limit (omega arith))

-- From a state that counts `a` attempts, `a` at least 0, the graph comes to an end after at most
-- ten nodes, with a state or with the exception of a node, and `graph.invoke` has that outcome
-- under every recursion limit from ten on: the limit never stops the pipeline.
pub invoke_terminates :
    (env : Env) (s : PipelineState) (a : ℕ)
    → s.generation_attempt ≡ pos a
    → (k : ℕ) × (r : Result PipelineState) × (k ≤ 10)
      × Runs env k extract_context s r
      × ((limit : ℕ) → 10 ≤ limit → invoke env limit s ≡ r)
unfolding invoke
invoke_terminates env s a counted =
    let bound : rank extract_context s.generation_attempt ≤ 10 = rw counted (omega arith) in
    let (k, r, short, outcome) = Runs-within env 10 extract_context s bound in
    let small : k ≤ 10 = omega arith in
    (k, r, small, outcome, λ limit h. run_of_Runs env outcome limit (omega arith))
