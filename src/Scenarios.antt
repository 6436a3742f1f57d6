-- ===== src/Scenarios.antt =====
-- Runs of the pipeline with models and Lua services that answer in a fixed way.
pub mod Graph
pub mod Service
pub mod Spec
pub mod Parts
pub mod Sandbox
pub mod Frontend
use mts_true_tech_hack.Base.{String, true, false, Option, none, some, List, [], ◌∷◌}
use mts_true_tech_hack.Base.Int.{pos}
use mts_true_tech_hack.Base.Result.{ok, raise, other_error}
use mts_true_tech_hack.Json.{Json, null, str, arr, obj, nil, cons, end, field}
use mts_true_tech_hack.Graph.State.{PipelineState, ValidateResponse, Env}
use mts_true_tech_hack.Service.Proto.{StateMessage, EntryMessage}

abbrev pub reply : String
reply =
    "{\"goal\": \"return the last email\", \"return_value\": \"the last email\", \"input_path\": \"wf.vars.emails\"}"

abbrev pub vague_reply : String
vague_reply = "{\"input_path\": \"wf.vars.emails\"}"

abbrev pub accepts : ValidateResponse
accepts = record { success = true; output = "ok"; error = "" }

abbrev pub env_with : String → Env
env_with spec_reply = record {
  llm_zero = λ system user. ok spec_reply;
  llm_generate = λ attempt system user. ok "return wf.vars.emails[#wf.vars.emails]";
  check = λ attempt code. ok (record { valid = true; violations = [] });
  validate = λ attempt code env_vars. ok accepts;
  set_order = λ terms. terms;
}

-- The decoded context, and what the spec agent is shown of it.
abbrev pub emails : Json
emails =
    obj (
      field "wf" (obj (field "vars" (obj (field "emails" (arr (cons (str "a") nil)) end)) end)) end)

abbrev pub emails_schema : String
emails_schema =
    "- wf.vars: object keys=['emails']\n- wf.vars.emails: array len=1 item=string\n  sample_item=\"a\""

abbrev pub start : PipelineState
start = record {
  session_id = "s1";
  request = "last email";
  context = some "{\"wf\": {\"vars\": {\"emails\": [\"a\"]}}}";
  raw_context = null;
  context_schema = none;
  dialog_language = "en";
  clarification_answer = none;
  clarification_question = none;
  clarification_history = [];
  is_ambiguous = false;
  clarifying = false;
  spec_json = none;
  spec_approved = false;
  code = none;
  generation_attempt = pos 0;
  validation_success = false;
  validation_output = none;
  validation_error = none;
  phase = "running";
  error = none;
}

-- The models of `env_with reply`, and a checker that refuses every code.
abbrev pub strict_env : Env
strict_env = record (env_with reply) {
  check = λ attempt code. ok (record { valid = false; violations = "no os" ∷ [] });
}

-- The models of `env_with reply`, but for the spec agent, which cannot be reached.
abbrev pub broken_env : Env
broken_env = record (env_with reply) {
  llm_zero = λ system user. raise (other_error "no connection");
}

abbrev pub sent : StateMessage
sent = record {
  session_id = "s1";
  request = "last email";
  context = some "{\"wf\": {\"vars\": {\"emails\": [\"a\"]}}}";
  raw_context_json = none;
  dialog_language = "";
  clarification_answer = none;
  clarification_question = none;
  clarification_history = [];
  is_ambiguous = false;
  clarifying = false;
  spec_json = none;
  spec_approved = false;
  code = none;
  generation_attempt = pos 0;
  validation_success = false;
  validation_output = none;
  validation_error = none;
  phase = "";
  error = none;
}

abbrev pub waiting_spec : String
waiting_spec = "{\"clarification_target\": \"goal\"}"

abbrev pub waiting_message : StateMessage
waiting_message = record sent {
  clarification_question = some "What exactly should the final Lua code do?";
  is_ambiguous = true;
  spec_json = some waiting_spec;
  phase = "clarification_needed";
}

abbrev pub approved_spec : String
approved_spec =
    "{\"goal\": \"return the last email\", \"task_mode\": \"context_aware\", \"input_path\": \"wf.vars.emails\", \"output_type\": \"return_value\", \"transformation\": \"as requested by user\", \"return_value\": \"the last email\", \"spec_parse_failed\": false, \"clarification_required\": false, \"clarification_target\": \"none\", \"clarification_question\": null, \"need_clarification\": false, \"clarification_reason\": null}"

abbrev pub asked_spec : String
asked_spec =
    "{\"goal\": \"\", \"task_mode\": \"context_aware\", \"input_path\": \"wf.vars.emails\", \"output_type\": \"return_value\", \"transformation\": \"as requested by user\", \"return_value\": \"\", \"spec_parse_failed\": false, \"clarification_required\": true, \"clarification_target\": \"goal\", \"clarification_question\": \"What exactly should the final Lua code do?\", \"need_clarification\": true, \"clarification_reason\": \"goal is missing or too generic\"}"

abbrev pub asked_again_spec : String
asked_again_spec =
    "{\"goal\": \"Return the last email address\", \"task_mode\": \"context_aware\", \"input_path\": \"wf.vars.emails\", \"output_type\": \"return_value\", \"transformation\": \"as requested by user\", \"return_value\": \"\", \"spec_parse_failed\": false, \"clarification_required\": true, \"clarification_target\": \"return_value\", \"clarification_question\": \"What exactly should the final Lua code return?\", \"need_clarification\": true, \"clarification_reason\": \"return_value is missing or too generic\"}"

-- The run that ends well.
abbrev pub final : PipelineState
final = record start {
  raw_context = emails;
  context_schema = some emails_schema;
  spec_json = some approved_spec;
  spec_approved = true;
  code = some "return wf.vars.emails[#wf.vars.emails]";
  generation_attempt = pos 1;
  validation_success = true;
  validation_output = some "ok";
  validation_error = some "";
  phase = "done";
}

-- The run that asks for the goal.
abbrev pub asking : PipelineState
asking = record start {
  raw_context = emails;
  context_schema = some emails_schema;
  clarification_question = some "What exactly should the final Lua code do?";
  is_ambiguous = true;
  spec_json = some asked_spec;
  phase = "clarification_needed";
}

-- The run that gives up after two repairs.
abbrev pub refused : PipelineState
refused = record final {
  generation_attempt = pos 3;
  validation_success = false;
  validation_output = some "no os";
  validation_error = some "Static validation failed: no os";
  phase = "error";
  error = some "Static validation failed: no os";
}

abbrev pub normalised : String
normalised = "{\"wf\": {\"vars\": {\"emails\": [\"a\"]}, \"initVariables\": {}}}"

-- The answer to `sent`.
abbrev pub finished_message : StateMessage
finished_message = record sent {
  context = some normalised;
  raw_context_json = some normalised;
  dialog_language = "en";
  spec_json = some approved_spec;
  spec_approved = true;
  code = some "return wf.vars.emails[#wf.vars.emails]";
  generation_attempt = pos 1;
  validation_success = true;
  validation_output = some "ok";
  validation_error = some "";
  phase = "done";
}

abbrev pub goal_entry : EntryMessage
goal_entry = record {
  question = "What exactly should the final Lua code do?";
  answer = "Return the last email address";
  target = "goal";
}

-- What comes of `waiting_message`, with either model.
abbrev pub answered_message : StateMessage
answered_message = record finished_message {
  context = waiting_message.context;
  raw_context_json = waiting_message.context;
  dialog_language = "";
  clarification_history = goal_entry ∷ [];
}

abbrev pub asked_again_message : StateMessage
asked_again_message = record waiting_message {
  raw_context_json = waiting_message.context;
  clarification_question = some "What exactly should the final Lua code return?";
  clarification_history = goal_entry ∷ [];
  spec_json = some asked_again_spec;
}
