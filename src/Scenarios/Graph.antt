-- ===== src/Scenarios/Graph.antt =====
-- Runs of the graph, and what its theorems say of them.
use mts_true_tech_hack.Base.{ℕ, ◌≤◌, ◌≡◌, refl, true, some, arith}
use mts_true_tech_hack.Base.Int.{pos, ◌+ℤ◌}
use mts_true_tech_hack.Base.Result.{Result, ok}
use mts_true_tech_hack.Json.{str, get}
use mts_true_tech_hack.Json.Loads.{loads}
use mts_true_tech_hack.Json.Dumps.{dumps, dumps_ascii}
use mts_true_tech_hack.Text.{join}
use mts_true_tech_hack.Context.{normalize_context_safe}
use mts_true_tech_hack.Spec.Evaluate.{NormalizedSpec, evaluate_spec}
use mts_true_tech_hack.Spec.Decision.{load_spec_json, build_clarifier_decision}
use mts_true_tech_hack.Graph.Nodes.{
  extract_context_node, spec_node, call_spec_agent, update_spec_node, clarifier_node, generate_node,
  generator_reply, ask_generator, request_of, validate_node, done_node, clarification_needed_node,
  error_node,
}
use mts_true_tech_hack.Prompts.{make_generate_prompt, make_repair_prompt}
use mts_true_tech_hack.Graph.Texts.{
  build_spec_user_text, parse_json_response, extract_code, spec_fields, task_mode_name,
}
use mts_true_tech_hack.Graph.Schema.{build_context_schema}
use mts_true_tech_hack.Graph.Run.{
  extract_context, invoke, run, run_node, next, route_entry, route_after_clarifier,
  route_after_validate,
}
use mts_true_tech_hack.Graph.Run.Outcomes.{IsTerminal, invoke-IsTerminal}
use mts_true_tech_hack.Graph.Run.Validated.{IsValidated, invoke_done-IsValidated}
use mts_true_tech_hack.Graph.Run.Termination.{invoke_terminates, Runs}
use mts_true_tech_hack.Graph.Run.Mode.{generator_reply_mode}
use mts_true_tech_hack.Graph.Run.Asked.{IsAsked, invoke_ask-IsAsked}
use mts_true_tech_hack.Graph.Run.Failed.{HasMessage, invoke_error-HasMessage, invoke_attempts}
use mts_true_tech_hack.Graph.State.{PipelineState}
use mts_true_tech_hack.Scenarios.{
  reply, vague_reply, env_with, strict_env, start, final, asking, refused, emails, emails_schema,
  approved_spec,
}

invoke_final : invoke (env_with reply) 25 start ≡ ok final
unfolding invoke run run_node next route_entry route_after_clarifier route_after_validate
    extract_context_node spec_node call_spec_agent update_spec_node clarifier_node generate_node
    generator_reply validate_node done_node clarification_needed_node error_node
    build_spec_user_text parse_json_response loads dumps dumps_ascii evaluate_spec load_spec_json
    build_clarifier_decision build_context_schema extract_code make_generate_prompt
    make_repair_prompt normalize_context_safe spec_fields get join ◌+ℤ◌
invoke_final = refl

invoke-asking : invoke (env_with vague_reply) 25 start ≡ ok asking
unfolding invoke run run_node next route_entry route_after_clarifier route_after_validate
    extract_context_node spec_node call_spec_agent update_spec_node clarifier_node generate_node
    generator_reply validate_node done_node clarification_needed_node error_node
    build_spec_user_text parse_json_response loads dumps dumps_ascii evaluate_spec load_spec_json
    build_clarifier_decision build_context_schema extract_code make_generate_prompt
    make_repair_prompt normalize_context_safe spec_fields get join ◌+ℤ◌
invoke-asking = refl

invoke-refused : invoke strict_env 25 start ≡ ok refused
unfolding invoke run run_node next route_entry route_after_clarifier route_after_validate
    extract_context_node spec_node call_spec_agent update_spec_node clarifier_node generate_node
    generator_reply validate_node done_node clarification_needed_node error_node
    build_spec_user_text parse_json_response loads dumps dumps_ascii evaluate_spec load_spec_json
    build_clarifier_decision build_context_schema extract_code make_generate_prompt
    make_repair_prompt normalize_context_safe spec_fields get join ◌+ℤ◌
invoke-refused = refl

invoke_done-IsValidated_example : IsValidated (env_with reply) final
invoke_done-IsValidated_example =
    invoke_done-IsValidated (env_with reply) 25 start invoke_final refl

invoke-IsTerminal_example : IsTerminal "error"
invoke-IsTerminal_example = invoke-IsTerminal strict_env 25 start invoke-refused

invoke_ask-IsAsked_example : IsAsked start asking
invoke_ask-IsAsked_example = invoke_ask-IsAsked (env_with vague_reply) 25 start invoke-asking refl

invoke_error-HasMessage_example : HasMessage refused
invoke_error-HasMessage_example = invoke_error-HasMessage strict_env 25 start invoke-refused refl

invoke_attempts_example : 3 ≤ 3
invoke_attempts_example = invoke_attempts strict_env 25 start (omega arith) invoke-refused

invoke_terminates_example :
    (k : ℕ) × (r : Result PipelineState) × (k ≤ 10)
    × Runs strict_env k extract_context start r
    × ((limit : ℕ) → 10 ≤ limit → invoke strict_env limit start ≡ r)
invoke_terminates_example = invoke_terminates strict_env start 0 refl

-- The state in front of the clarifier, and the one behind it.
abbrev judged : PipelineState
judged = record start {
  raw_context = emails;
  context_schema = some emails_schema;
  spec_json = some approved_spec;
}

abbrev approved_state : PipelineState
approved_state = record judged { spec_approved = true }

judged_approved : clarifier_node (env_with reply) judged ≡ ok approved_state
unfolding clarifier_node load_spec_json evaluate_spec build_clarifier_decision loads dumps
    spec_fields get join
judged_approved = refl

generator_reply_mode_example :
    (sp : NormalizedSpec) × (load_spec_json
        (env_with reply).set_order
        (request_of judged)
        judged.spec_json
      ≡ ok sp)
    × (generator_reply (env_with reply) approved_state
        ≡ ask_generator
            (env_with reply)
            approved_state
            (str (task_mode_name sp.task_mode))
            (approved_state.generation_attempt +ℤ pos 1))
generator_reply_mode_example =
    generator_reply_mode (env_with reply) judged approved_state approved_state judged_approved refl
