-- ===== src/Graph/Run/Edges.antt =====
-- The edges of the graph as a relation, with the condition of each: an independent description of
-- the routing functions.
use mathlib.Core.Path.{subst}
use mts_true_tech_hack.Base.{◌≡◌, refl, ◌||◌, Bool, true, false, some, ◌==◌, if◌then◌else◌}
use mts_true_tech_hack.Base.Int.{pos, leb_ℤ}
use mts_true_tech_hack.Text.{nonempty}
use mts_true_tech_hack.Graph.State.{PipelineState}
use mts_true_tech_hack.Graph.Nodes.{text_of}
use mts_true_tech_hack.Graph.Run.{
  Node, extract_context, spec, update_spec, clarifier, generate, validate, clarification_needed,
  done, error, next, max_repairs, route_entry, route_after_clarifier, route_after_validate,
}

abbrev pub has_error : PipelineState → Bool
has_error t = t.phase == "error" || nonempty (text_of t.error)

pub data Edge (t : PipelineState) : Node → Node → Type 0 where
  start : t.clarifying ≡ false → Edge t extract_context spec
  resume : t.clarifying ≡ true → Edge t extract_context update_spec
  review : Edge t spec clarifier
  review_again : Edge t update_spec clarifier
  block : has_error t ≡ true → Edge t clarifier error
  ask : has_error t ≡ false → t.is_ambiguous ≡ true → Edge t clarifier clarification_needed
  approve : has_error t ≡ false → t.is_ambiguous ≡ false → Edge t clarifier generate
  judge : Edge t generate validate
  accept : t.validation_success ≡ true → Edge t validate done
  repair :
      t.validation_success ≡ false
      → leb_ℤ t.generation_attempt (pos max_repairs) ≡ true
      → Edge t validate generate
  give_up :
      t.validation_success ≡ false
      → leb_ℤ t.generation_attempt (pos max_repairs) ≡ false
      → Edge t validate error

module _ (t : PipelineState) where
  choose :
      {n x y : Node} (b : Bool)
      → (b ≡ true → Edge t n x)
      → (b ≡ false → Edge t n y)
      → Edge t n (if b then x else y)
  choose true yes_edge no_edge = yes_edge refl
  choose false yes_edge no_edge = no_edge refl

  entry_edge : Edge t extract_context (route_entry t)
  unfolding route_entry
  entry_edge = choose t.clarifying resume start

  clarifier_edge : Edge t clarifier (route_after_clarifier t)
  unfolding route_after_clarifier
  clarifier_edge =
      choose (has_error t) block (λ clean. choose t.is_ambiguous (ask clean) (approve clean))

  validate_edge : Edge t validate (route_after_validate t)
  unfolding route_after_validate
  validate_edge = choose t.validation_success accept (λ failed.
      choose (leb_ℤ t.generation_attempt (pos max_repairs)) (repair failed) (give_up failed))

  along : {n x m : Node} → Edge t n x → some x ≡ some m → Edge t n m
  along {n} {x} {m} e p = let same : x ≡ m = cc in subst (Edge t n) same e

  -- Every edge that the run follows is one of the relation.
  pub next_follows : (n m : Node) → next n t ≡ some m → Edge t n m
  unfolding next
  next_follows extract_context m e = along entry_edge e
  next_follows spec m e = along review e
  next_follows update_spec m e = along review_again e
  next_follows clarifier m e = along clarifier_edge e
  next_follows generate m e = along judge e
  next_follows validate m e = along validate_edge e
  next_follows clarification_needed m e = cc
  next_follows done m e = cc
  next_follows error m e = cc
