-- ===== src/Scenarios/Service.antt =====
-- Calls of the service, and what its theorems say of them.
use mts_true_tech_hack.Base.{◌≡◌, ◌≢◌, refl, inl, List, [], ◌∷◌, ◌++◌, some, arith, eq_iff}
use mts_true_tech_hack.Base.Int.{◌+ℤ◌}
use mts_true_tech_hack.Base.Result.{ok, ◌>>=◌}
use mts_true_tech_hack.Json.{null, Json, get, str, obj, field, end, arr, nil, cons}
use mts_true_tech_hack.Json.Loads.{loads}
use mts_true_tech_hack.Json.Dumps.{dumps, dumps_ascii}
use mts_true_tech_hack.Text.{join}
use mts_true_tech_hack.Context.{normalize_context_safe}
use mts_true_tech_hack.Spec.Evaluate.{evaluate_spec}
use mts_true_tech_hack.Spec.Decision.{load_spec_json, build_clarifier_decision}
use mts_true_tech_hack.Graph.Nodes.{
  extract_context_node, spec_node, call_spec_agent, update_spec_node, clarifier_node, generate_node,
  generator_reply, validate_node, done_node, clarification_needed_node, error_node,
}
use mts_true_tech_hack.Prompts.{make_generate_prompt, make_repair_prompt}
use mts_true_tech_hack.Graph.Texts.{
  build_spec_user_text, detect_language, parse_json_response, extract_code, spec_fields,
}
use mts_true_tech_hack.Graph.Schema.{build_context_schema}
use mts_true_tech_hack.Graph.Run.{
  invoke, run, run_node, next, route_entry, route_after_clarifier, route_after_validate,
}
use mts_true_tech_hack.Graph.Run.Outcomes.{IsTerminal}
use mts_true_tech_hack.Service.Proto.{
  EntryMessage, proto_state_to_dict, dict_to_proto_state, read_raw_context, write_raw_context,
}
use mts_true_tech_hack.Service.Proto.RoundTrip.{dict_to_proto_state-proto_state_to_dict}
use mts_true_tech_hack.Service.{
  Response, session, start_or_continue, answer_clarification, handle_state, handle_answer,
  continue_session, start_session, run_pipeline, resume_with_clarification, state_to_response,
  make_initial_state, current_target,
}
use mts_true_tech_hack.Service.Laws.{HasValidCode}
use mts_true_tech_hack.Service.Calls.{
  start_or_continue-IsTerminal, start_or_continue_done-HasValidCode,
  answer_clarification-IsTerminal, answer_clarification_done-HasValidCode,
}
use mts_true_tech_hack.Service.Asked.{by_answer, asked_answer_returns}
use mts_true_tech_hack.Service.Protocol.{Call, request, answer, Steps, dialogue_of, serve, fresh}
use mts_true_tech_hack.Service.Protocol.Follows.{serve-Steps}
use mts_true_tech_hack.Service.Answers.{start_or_continue_done, answer_clarification_appends}
use mts_true_tech_hack.Context.Total.{Readable}
use mts_true_tech_hack.Service.Total.{start_or_continue_returns}
use mts_true_tech_hack.Scenarios.{
  broken_env, emails, reply, vague_reply, env_with, strict_env, sent, waiting_message,
  finished_message, answered_message, asked_again_message,
}

sent_finishes : start_or_continue (env_with reply) 25 (some sent) ≡ ok (session finished_message)
unfolding invoke run run_node next route_entry route_after_clarifier route_after_validate
    extract_context_node spec_node call_spec_agent update_spec_node clarifier_node generate_node
    generator_reply validate_node done_node clarification_needed_node error_node
    build_spec_user_text parse_json_response loads dumps dumps_ascii evaluate_spec load_spec_json
    build_clarifier_decision build_context_schema extract_code make_generate_prompt
    make_repair_prompt normalize_context_safe spec_fields get join ◌+ℤ◌ start_or_continue
    answer_clarification proto_state_to_dict dict_to_proto_state handle_state handle_answer
    continue_session start_session run_pipeline resume_with_clarification state_to_response
    make_initial_state current_target detect_language
sent_finishes = refl

waiting_finishes :
    answer_clarification
      (env_with reply)
      25
      ""
      "Return the last email address"
      (some waiting_message)
    ≡ ok (session answered_message)
unfolding invoke run run_node next route_entry route_after_clarifier route_after_validate
    extract_context_node spec_node call_spec_agent update_spec_node clarifier_node generate_node
    generator_reply validate_node done_node clarification_needed_node error_node
    build_spec_user_text parse_json_response loads dumps dumps_ascii evaluate_spec load_spec_json
    build_clarifier_decision build_context_schema extract_code make_generate_prompt
    make_repair_prompt normalize_context_safe spec_fields get join ◌+ℤ◌ start_or_continue
    answer_clarification proto_state_to_dict dict_to_proto_state handle_state handle_answer
    continue_session start_session run_pipeline resume_with_clarification state_to_response
    make_initial_state current_target detect_language
waiting_finishes = refl

waiting_asks_again :
    answer_clarification
      (env_with vague_reply)
      25
      ""
      "Return the last email address"
      (some waiting_message)
    ≡ ok (session asked_again_message)
unfolding invoke run run_node next route_entry route_after_clarifier route_after_validate
    extract_context_node spec_node call_spec_agent update_spec_node clarifier_node generate_node
    generator_reply validate_node done_node clarification_needed_node error_node
    build_spec_user_text parse_json_response loads dumps dumps_ascii evaluate_spec load_spec_json
    build_clarifier_decision build_context_schema extract_code make_generate_prompt
    make_repair_prompt normalize_context_safe spec_fields get join ◌+ℤ◌ start_or_continue
    answer_clarification proto_state_to_dict dict_to_proto_state handle_state handle_answer
    continue_session start_session run_pipeline resume_with_clarification state_to_response
    make_initial_state current_target detect_language
waiting_asks_again = refl

start_or_continue-IsTerminal_example :
    IsTerminal finished_message.phase × (finished_message.session_id ≡ sent.session_id)
start_or_continue-IsTerminal_example =
    start_or_continue-IsTerminal (env_with reply) 25 sent sent_finishes

sent_not_done : sent.phase ≢ "done"
sent_not_done = λ h. ground (arith, eq_iff "" "done")

start_or_continue_done-HasValidCode_example : HasValidCode (env_with reply) 25 finished_message
start_or_continue_done-HasValidCode_example =
    start_or_continue_done-HasValidCode (env_with reply) 25 sent sent_not_done sent_finishes refl

answer_clarification-IsTerminal_example :
    (waiting_message.phase ≡ "clarification_needed") × IsTerminal "clarification_needed"
answer_clarification-IsTerminal_example =
    answer_clarification-IsTerminal (env_with vague_reply) 25 "" "Return the last email address"
      waiting_message waiting_asks_again

answer_clarification_done-HasValidCode_example : HasValidCode (env_with reply) 25 answered_message
answer_clarification_done-HasValidCode_example =
    answer_clarification_done-HasValidCode (env_with reply) 25 "" "Return the last email address"
      waiting_message waiting_finishes refl

answer_clarification_appends_example :
    (item : EntryMessage) × (asked_again_message.clarification_history
      ≡ waiting_message.clarification_history ++ item ∷ [])
    × (item.answer ≡ "Return the last email address")
answer_clarification_appends_example =
    answer_clarification_appends (env_with vague_reply) 25 "" "Return the last email address"
      waiting_message waiting_asks_again refl

abbrev normalised_emails : Json
normalised_emails = obj (
    field "wf"
      (obj (
        field "vars" (obj (field "emails" (arr (cons (str "a") nil)) end))
          (field "initVariables" (obj end) end)))
      end)

finished_decodes : read_raw_context finished_message.raw_context_json ≡ ok normalised_emails
unfolding loads
finished_decodes = refl

start_or_continue_done_example :
    start_or_continue strict_env 25 (some finished_message)
    ≡ ok (
        session
          (record finished_message { raw_context_json = write_raw_context normalised_emails }))
start_or_continue_done_example =
    start_or_continue_done strict_env 25 finished_message normalised_emails refl refl
      finished_decodes refl

dict_to_proto_state-proto_state_to_dict_example :
    (proto_state_to_dict finished_message >>= dict_to_proto_state)
    ≡ ok (record finished_message { raw_context_json = write_raw_context normalised_emails })
dict_to_proto_state-proto_state_to_dict_example =
    dict_to_proto_state-proto_state_to_dict finished_message normalised_emails finished_decodes refl

sent-Readable : Readable sent.context
unfolding loads
sent-Readable = inl (emails, refl)

start_or_continue_returns_example :
    (r : Response) × (start_or_continue broken_env 25 (some sent) ≡ ok r)
start_or_continue_returns_example =
    start_or_continue_returns broken_env 25 sent null sent-Readable refl refl

asked_again_decoded : read_raw_context asked_again_message.raw_context_json ≡ ok emails
unfolding loads
asked_again_decoded = refl

asked_answer_returns_example :
    (r : Response) × (answer_clarification strict_env 25 "" "the address" (some asked_again_message)
      ≡ ok r)
asked_answer_returns_example =
    asked_answer_returns (env_with vague_reply) 25 asked_again_message
      (by_answer "" "Return the last email address" waiting_message waiting_asks_again) refl emails
      asked_again_decoded strict_env 25 "" "the address"

-- A session that is opened, asks, takes an answer, and is sent an empty request in between.
abbrev exchange : List Call
exchange = request ∷ request ∷ answer "Return the last email address" ∷ []

serve-Steps_example :
    Steps (dialogue_of sent) exchange (dialogue_of (serve (env_with vague_reply) 25 exchange sent))
serve-Steps_example = serve-Steps (env_with vague_reply) 25 exchange sent (fresh refl refl)
