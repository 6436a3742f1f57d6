-- ===== src/Scenarios/Sandbox.antt =====
-- Runs of the Lua validator and of the pipeline with it, and what the theorems say of them.
use Prim.Native.String.{[]}
use mathlib.Core.List.{[]}
use mts_true_tech_hack.Base.{String, ◌≡◌, ◌↔◌, refl, true, some, ap}
use mts_true_tech_hack.Base.Int.{ℤ, pos, ◌+ℤ◌}
use mts_true_tech_hack.Base.Result.{Result, ok, raise, other_error, ok-injective}
use mts_true_tech_hack.Json.{Fields, get}
use mts_true_tech_hack.Json.Loads.{loads}
use mts_true_tech_hack.Json.Dumps.{dumps, dumps_ascii}
use mts_true_tech_hack.Text.{◌⊕◌, join}
use mts_true_tech_hack.Context.{normalize_context_safe}
use mts_true_tech_hack.Spec.Evaluate.{evaluate_spec}
use mts_true_tech_hack.Spec.Decision.{load_spec_json, build_clarifier_decision}
use mts_true_tech_hack.Graph.Nodes.{
  extract_context_node, spec_node, call_spec_agent, update_spec_node, clarifier_node, generate_node,
  generator_reply, validate_node, done_node, clarification_needed_node, error_node,
}
use mts_true_tech_hack.Prompts.{make_generate_prompt, make_repair_prompt}
use mts_true_tech_hack.Graph.Texts.{
  build_spec_user_text, parse_json_response, extract_code, spec_fields,
}
use mts_true_tech_hack.Graph.Schema.{build_context_schema}
use mts_true_tech_hack.Graph.Run.{
  invoke, run, run_node, next, route_entry, route_after_clarifier, route_after_validate,
}
use mts_true_tech_hack.Graph.State.{CheckResponse, Env}
use mts_true_tech_hack.Sandbox.{
  ValidateRequest, ExecResponse, Answer, reply, invalid_argument, unavailable, internal, Execution,
  exited, clean_code, sandbox_code, validate,
}
use mts_true_tech_hack.Sandbox.Frame.{lines_before, lines_after}
use mts_true_tech_hack.Sandbox.Code.{sandbox_code_lem}
use mts_true_tech_hack.Sandbox.Success.{Succeeds, Ran, validate-Ran_iff}
use mts_true_tech_hack.Sandbox.Clients.{CheckRequest, with_clients, client_check, client_validate}
use mts_true_tech_hack.Sandbox.Pipeline.{Delivers, IsExecuted, invoke_done-IsExecuted}
use mts_true_tech_hack.Scenarios.{reply as final_reply, env_with, start, final}

-- An interpreter that runs every script well.
abbrev lua : String → Fields → ℤ → Execution
lua script env_vars timeout_ms = exited (pos 0) "ok" "" (pos 7)

abbrev request : ValidateRequest
request = record { code = "return 1"; timeout_ms = some (pos 100); env_vars = "{}" }

sandbox_code_lem_example :
    sandbox_code "return {{1}}" ≡ some (join "" lines_before ⊕ "return {{1}}" ⊕ join "" lines_after)
sandbox_code_lem_example = sandbox_code_lem "return {{1}}"

validate-Ran_iff_example :
    ((r : ExecResponse) × Succeeds (validate "lua5.4" lua request) r)
    ↔ ((r : ExecResponse) × Ran "lua5.4" lua request r)
validate-Ran_iff_example = validate-Ran_iff "lua5.4" lua request

-- What gRPC delivers of an answer.
abbrev delivered : Result Answer → Result ExecResponse
delivered (ok (reply r)) = ok r
delivered (ok (invalid_argument m)) = raise (other_error m)
delivered (ok (unavailable m)) = raise (other_error m)
delivered (ok (internal m)) = raise (other_error m)
delivered (raise e) = raise e

abbrev checker : ℤ → CheckRequest → Result CheckResponse
checker attempt r = ok (record { valid = true; violations = [] })

abbrev validator : ℤ → ValidateRequest → Result ExecResponse
validator attempt r = delivered (validate "lua5.4" lua r)

delivered-reply : (a : Result Answer) (r : ExecResponse) → delivered a ≡ ok r → a ≡ ok (reply r)
delivered-reply (ok (reply s)) r h = ap (λ (s : ExecResponse). ok (reply s)) (ok-injective h)
delivered-reply (ok (invalid_argument m)) r h = cc
delivered-reply (ok (unavailable m)) r h = cc
delivered-reply (ok (internal m)) r h = cc
delivered-reply (raise e) r h = cc

delivers : Delivers (env_with final_reply) "lua5.4" (λ attempt. lua) checker validator
delivers attempt r answer h = delivered-reply (validate "lua5.4" lua r) answer h

abbrev env : Env
env = with_clients (env_with final_reply) checker validator

invoke-executed : invoke env 25 start ≡ ok final
unfolding invoke run run_node next route_entry route_after_clarifier route_after_validate
    extract_context_node spec_node call_spec_agent update_spec_node clarifier_node generate_node
    generator_reply validate_node done_node clarification_needed_node error_node
    build_spec_user_text parse_json_response loads dumps dumps_ascii evaluate_spec load_spec_json
    build_clarifier_decision build_context_schema extract_code make_generate_prompt
    make_repair_prompt normalize_context_safe spec_fields get join ◌+ℤ◌ with_clients client_check
    client_validate validate sandbox_code clean_code
invoke-executed = refl

invoke_done-IsExecuted_example :
    IsExecuted (env_with final_reply) "lua5.4" (λ attempt. lua) checker validator final
invoke_done-IsExecuted_example =
    invoke_done-IsExecuted (env_with final_reply) "lua5.4" (λ attempt. lua) checker validator
      delivers 25 start invoke-executed refl

clean_code_run : clean_code "```Lua\nreturn {}\n```" ≡ "return {}"
unfolding clean_code
clean_code_run = refl

clean_code_wrapped : clean_code "lua{return 1}lua" ≡ "return 1"
unfolding clean_code
clean_code_wrapped = refl
