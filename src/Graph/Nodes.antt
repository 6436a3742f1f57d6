-- ===== src/Graph/Nodes.antt =====
-- The nodes of services/llm/graph.py. A node returns the state with its update merged in.
use mts_true_tech_hack.Base.{
  String, Bool, true, false, Option, none, some, List, [], ◌∷◌, if◌then◌else◌,
}
use mts_true_tech_hack.Base.Int.{ℤ, pos, ◌+ℤ◌, ltb_ℤ}
use mts_true_tech_hack.Base.Result.{
  Result, ok, raise, attribute_error, json_decode_error, value_error, context_error, lone_surrogate,
  recursion_error, other_error, message, ◌>>=◌,
}
use mts_true_tech_hack.Text.{◌⊕◌, nonempty, join}
use mts_true_tech_hack.Json.{Json, null, str, obj, end, field, get, truthy, type_name}
use mts_true_tech_hack.Json.Dumps.{dumps, dumps_ascii}
use mts_true_tech_hack.Json.Loads.{loads}
use mts_true_tech_hack.Context.{normalize_context_safe}
use mts_true_tech_hack.Spec.Evaluate.{NormalizedSpec, Request, evaluate_spec}
use mts_true_tech_hack.Spec.Decision.{
  ClarifierDecision, approved, question, blocked, load_spec_json, build_clarifier_decision,
}
use mts_true_tech_hack.Graph.State.{PipelineState, Env, CheckResponse, ValidateResponse}
use mts_true_tech_hack.Graph.Schema.{build_context_schema}
use mts_true_tech_hack.Prompts.{spec_agent_prompt, make_generate_prompt, make_repair_prompt}
use mts_true_tech_hack.Graph.Texts.{
  extract_code, parse_json_response, build_spec_user_text, spec_fields,
}

abbrev pub text_of : Option String → String
text_of none = ""
text_of (some s) = s

-- `f"{value}"` of an optional text
abbrev formatted : Option String → String
formatted none = "None"
formatted (some s) = s

-- `value or default`
abbrev pub text_or : Option String → String → String
text_or none default = default
text_or (some s) default = if nonempty s then s else default

abbrev parsed_context : PipelineState → Result Json → Result PipelineState
parsed_context s (ok parsed) =
    ok (record s { raw_context = parsed; context_schema = build_context_schema parsed })
parsed_context s (raise (json_decode_error m)) =
    ok (record s { raw_context = null; context_schema = none })
parsed_context s (raise (attribute_error m)) = raise (attribute_error m)
parsed_context s (raise (value_error m)) = raise (value_error m)
parsed_context s (raise (context_error m)) = raise (context_error m)
parsed_context s (raise (lone_surrogate m)) = raise (lone_surrogate m)
parsed_context s (raise (recursion_error m)) = raise (recursion_error m)
parsed_context s (raise (other_error m)) = raise (other_error m)

-- `extract_context_node`
unfoldable pub extract_context_node : PipelineState → Result PipelineState
extract_context_node s =
    if nonempty (text_of s.context)
    then parsed_context s (loads (text_of s.context))
    else ok (record s { raw_context = null; context_schema = none })

-- What the spec agent's reply comes to: the decoded value, or none where decoding fails.
abbrev parse_reply : Result Json → Result (Option Json)
parse_reply (ok v) = ok (some v)
parse_reply (raise (json_decode_error m)) = ok none
parse_reply (raise (attribute_error m)) = raise (attribute_error m)
parse_reply (raise (value_error m)) = raise (value_error m)
parse_reply (raise (context_error m)) = raise (context_error m)
parse_reply (raise (lone_surrogate m)) = raise (lone_surrogate m)
parse_reply (raise (recursion_error m)) = raise (recursion_error m)
parse_reply (raise (other_error m)) = raise (other_error m)

abbrev pub request_of : PipelineState → Request
request_of s = record {
  request = s.request;
  raw_context = s.raw_context;
  dialog_language = s.dialog_language;
  history = s.clarification_history;
}

abbrev pub spec_text : NormalizedSpec → Option String
spec_text spec = some (dumps (obj (spec_fields spec)))

abbrev unresolved_error : String
unresolved_error =
    "Clarification is still unresolved after the same question was already asked. Please answer that blocker directly or restart with a reformulated request."

abbrev pub apply_decision : PipelineState → NormalizedSpec → ClarifierDecision → PipelineState
apply_decision s spec (question q reason) = record s {
  is_ambiguous = true;
  clarification_question = some q;
  spec_approved = false;
  spec_json = spec_text spec;
}
apply_decision s spec (blocked reason) = record s {
  is_ambiguous = false;
  clarification_question = none;
  spec_approved = false;
  spec_json = spec_text spec;
  phase = "error";
  error = some unresolved_error;
}
apply_decision s spec approved = record s {
  is_ambiguous = false;
  clarification_question = none;
  spec_approved = true;
  spec_json = spec_text spec;
}

-- The spec that the generator reads its mode from: `{}` where decoding fails.
abbrev pub decoded_spec : Result Json → Result Json
decoded_spec (ok v) = ok v
decoded_spec (raise (json_decode_error m)) = ok (obj end)
decoded_spec (raise (attribute_error m)) = raise (attribute_error m)
decoded_spec (raise (value_error m)) = raise (value_error m)
decoded_spec (raise (context_error m)) = raise (context_error m)
decoded_spec (raise (lone_surrogate m)) = raise (lone_surrogate m)
decoded_spec (raise (recursion_error m)) = raise (recursion_error m)
decoded_spec (raise (other_error m)) = raise (other_error m)

-- `json.loads(spec_json) if spec_json else {}`
abbrev pub read_spec : String → Result Json
read_spec s = if nonempty s then decoded_spec (loads s) else ok (obj end)

abbrev pub task_mode_of : Json → Result Json
task_mode_of (obj fs) =
    ok (if truthy (get "task_mode" fs) then get "task_mode" fs else str "standalone")
task_mode_of v = raise (attribute_error ("'" ⊕ type_name v ⊕ "' object has no attribute 'get'"))

abbrev pub generator_input : PipelineState → String
generator_input s =
    "Specification:\n"
    ⊕ formatted s.spec_json
    ⊕ "\n\nContext schema summary:\n"
    ⊕ text_or s.context_schema "No workflow context provided."

abbrev pub repair_input : PipelineState → String
repair_input s =
    generator_input s
    ⊕ "\n\nPrevious code (failed validation):\n"
    ⊕ text_of s.code
    ⊕ "\n\nValidation error: "
    ⊕ text_or s.validation_error "unknown error"
    ⊕ "\nValidation output: "
    ⊕ text_of s.validation_output
    ⊕ "\n\nFix the code. Return ONLY raw Lua code, no markdown fences."

abbrev pub verdict : PipelineState → Bool → String → String → PipelineState
verdict s success output error = record s {
  validation_success = success;
  validation_output = some output;
  validation_error = some error;
}

abbrev static_summary : List String → String
static_summary [] = "Static validation failed before runtime validation."
static_summary (v ∷ vs) = "Static validation failed: " ⊕ v

-- The second `try` of `validate_node`: the validator runs the code.
abbrev pub after_validator : PipelineState → Result ValidateResponse → PipelineState
after_validator s (ok r) = verdict s r.success r.output r.error
after_validator s (raise e) = verdict s false "" (message e)

-- The terminal nodes.
unfoldable pub clarification_needed_node : PipelineState → Result PipelineState
clarification_needed_node s = ok (record s { phase = "clarification_needed" })

unfoldable pub done_node : PipelineState → Result PipelineState
done_node s = ok (record s { phase = "done" })

unfoldable pub error_node : PipelineState → Result PipelineState
error_node s = ok (record s {
  phase = "error";
  error = some (text_or s.validation_error (text_or s.error "unknown error"));
})

module _ (env : Env) where
  -- `_call_spec_agent`
  unfoldable pub call_spec_agent : String → Result (Option Json)
  call_spec_agent user_text = do
    text ← env.llm_zero spec_agent_prompt user_text
    parse_reply (parse_json_response text)

  abbrev pub evaluate_reply : PipelineState → Option Json → Result NormalizedSpec
  evaluate_reply s none = evaluate_spec env.set_order (request_of s) true null
  evaluate_reply s (some raw_spec) = evaluate_spec env.set_order (request_of s) false raw_spec

  -- `spec_node`
  unfoldable pub spec_node : PipelineState → Result PipelineState
  spec_node s = do
    reply ← call_spec_agent (build_spec_user_text s.request s.context_schema [])
    spec ← evaluate_reply s reply
    ok (record s { spec_json = spec_text spec })

  -- `update_spec_node`
  unfoldable pub update_spec_node : PipelineState → Result PipelineState
  update_spec_node s = do
    reply ←
        call_spec_agent (build_spec_user_text s.request s.context_schema s.clarification_history)
    spec ← evaluate_reply s reply
    ok (record s { spec_json = spec_text spec; clarification_answer = none; clarifying = false })

  -- `clarifier_node`. The question of a decision is never empty, so its test adds nothing.
  unfoldable pub clarifier_node : PipelineState → Result PipelineState
  clarifier_node s = do
    spec ← load_spec_json env.set_order (request_of s) s.spec_json
    ok (apply_decision s spec (build_clarifier_decision spec s.clarification_history))

  abbrev pub ask_generator : PipelineState → Json → ℤ → Result String
  ask_generator s task_mode attempt =
      if ltb_ℤ (pos 1) attempt
      then env.llm_generate attempt (make_repair_prompt s.dialog_language task_mode)
          (repair_input s)
      else env.llm_generate attempt (make_generate_prompt s.dialog_language task_mode)
          (generator_input s)

  -- The model's reply to the prompt of this attempt.
  unfoldable pub generator_reply : PipelineState → Result String
  generator_reply s = do
    spec ← read_spec (text_of s.spec_json)
    task_mode ← task_mode_of spec
    ask_generator s task_mode (s.generation_attempt +ℤ pos 1)

  -- `generate_node`
  unfoldable pub generate_node : PipelineState → Result PipelineState
  generate_node s = do
    content ← generator_reply s
    ok (record s {
      code = some (extract_code content);
      generation_attempt = s.generation_attempt +ℤ pos 1;
    })

  -- The first one: the checker reads the code, and only code that passes is run.
  abbrev pub after_checker : PipelineState → String → Result CheckResponse → PipelineState
  after_checker s env_vars (ok r) =
      if r.valid
      then after_validator s (env.validate s.generation_attempt (text_of s.code) env_vars)
      else verdict s false (join "\n" r.violations) (static_summary r.violations)
  after_checker s env_vars (raise e) = verdict s false "" ("Lua checker unavailable: " ⊕ message e)

  -- `validate_node`
  unfoldable pub validate_node : PipelineState → Result PipelineState
  validate_node s = do
    normalised_context ← normalize_context_safe s.context
    let env_vars = dumps_ascii (obj (field "CONTEXT_JSON" (str normalised_context) end))
    ok (after_checker s env_vars (env.check s.generation_attempt (text_of s.code)))
