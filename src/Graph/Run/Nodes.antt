-- ===== src/Graph/Run/Nodes.antt =====
-- What a node of the graph leaves, where it returns.
use mts_true_tech_hack.Base.{String, ◌≡◌, ◌∙◌, some, arith}
use mts_true_tech_hack.Base.Int.{pos, ◌+ℤ◌}
use mts_true_tech_hack.Base.Result.{ok, bind-eq-ok}
use mts_true_tech_hack.Json.{str, obj, end, field}
use mts_true_tech_hack.Json.Dumps.{dumps_ascii}
use mts_true_tech_hack.Context.{normalize_context_safe}
use mts_true_tech_hack.Spec.Evaluate.{NormalizedSpec}
use mts_true_tech_hack.Spec.Decision.{load_spec_json, build_clarifier_decision}
use mts_true_tech_hack.Graph.State.{PipelineState, Env}
use mts_true_tech_hack.Graph.Texts.{extract_code}
use mts_true_tech_hack.Graph.Nodes.{
  call_spec_agent, evaluate_reply, extract_context_node, spec_node, update_spec_node, request_of,
  text_of, apply_decision, after_checker, clarifier_node, generator_reply, generate_node,
  validate_node,
}

-- What the nodes before the generator leave as it was.
pub record Kept (s t : PipelineState) : Type 0 where
  pub history : s.clarification_history ≡ t.clarification_history
  pub code : s.code ≡ t.code
  pub attempt : s.generation_attempt ≡ t.generation_attempt

pub Kept-trans : {s t u : PipelineState} → Kept s t → Kept t u → Kept s u
Kept-trans a b = record {
  history = a.history ∙ b.history;
  code = a.code ∙ b.code;
  attempt = a.attempt ∙ b.attempt;
}

module _ (env : Env) (s : PipelineState) {t : PipelineState} where
  pub clarifier_node_decides :
      clarifier_node env s ≡ ok t
      → (spec : NormalizedSpec) × (load_spec_json env.set_order (request_of s) s.spec_json
          ≡ ok spec)
        × (apply_decision s spec (build_clarifier_decision spec s.clarification_history) ≡ t)
  unfolding clarifier_node
  clarifier_node_decides h =
      let (spec, loaded, e) = bind-eq-ok _ _ h in (spec, loaded, ground arith)

  pub generate_node_writes :
      generate_node env s ≡ ok t
      → (code : String) × (record s {
        code = some code;
        generation_attempt = s.generation_attempt +ℤ pos 1;
      }
          ≡ t)
  unfolding generate_node
  generate_node_writes h =
      let (content, replied, e) = bind-eq-ok (generator_reply env s) _ h in
      (extract_code content, ground arith)

  pub validate_node_judges :
      validate_node env s ≡ ok t
      → (context : String) × (normalize_context_safe s.context ≡ ok context)
        × (after_checker env s
              (dumps_ascii (obj (field "CONTEXT_JSON" (str context) end)))
              (env.check s.generation_attempt (text_of s.code))
            ≡ t)
  unfolding validate_node
  validate_node_judges h =
      let (context, normalised, e) = bind-eq-ok _ _ h in (context, normalised, ground arith)

  pub extract_context_node_keeps : extract_context_node s ≡ ok t → Kept s t
  unfolding extract_context_node
  extract_context_node_keeps h = ground arith

  pub spec_node_keeps : spec_node env s ≡ ok t → Kept s t
  unfolding spec_node
  spec_node_keeps h =
      let (reply, e₁, h₁) = bind-eq-ok (call_spec_agent env _) _ h in
      let (sp, e₂, h₂) = bind-eq-ok (evaluate_reply env s reply) _ h₁ in ground arith

  pub update_spec_node_keeps : update_spec_node env s ≡ ok t → Kept s t
  unfolding update_spec_node
  update_spec_node_keeps h =
      let (reply, e₁, h₁) = bind-eq-ok (call_spec_agent env _) _ h in
      let (sp, e₂, h₂) = bind-eq-ok (evaluate_reply env s reply) _ h₁ in ground arith
