-- ===== src/Service.antt =====
-- The gRPC servicer of services/llm/main.py: it reads the state that the backend sends, runs the
-- graph on it and returns the state that comes out.
pub mod Proto
pub mod Laws
pub mod Calls
pub mod Answers
pub mod Asked
pub mod Protocol
pub mod Total
use mts_true_tech_hack.Base.{
  ℕ, String, Bool, true, false, not, ◌&&◌, ◌||◌, Option, none, some, List, [], ◌∷◌, ◌++◌, ◌==◌,
  if◌then◌else◌,
}
use mts_true_tech_hack.Base.Int.{pos}
use mts_true_tech_hack.Base.Result.{
  Result, ok, raise, Error, attribute_error, json_decode_error, value_error, context_error,
  lone_surrogate, recursion_error, other_error, message, ◌>>=◌,
}
use mts_true_tech_hack.Text.{◌⊕◌, nonempty}
use mts_true_tech_hack.Json.{Json, null, str, obj, get, type_name}
use mts_true_tech_hack.Json.Loads.{loads}
use mts_true_tech_hack.Context.{normalize_context_safe}
use mts_true_tech_hack.Spec.History.{Entry}
use mts_true_tech_hack.Graph.State.{PipelineState, Env}
use mts_true_tech_hack.Graph.Nodes.{text_of}
use mts_true_tech_hack.Graph.Texts.{detect_language}
use mts_true_tech_hack.Graph.Run.{invoke}
use mts_true_tech_hack.Service.Proto.{StateMessage, proto_state_to_dict, dict_to_proto_state}

-- What a call answers: a gRPC status that it sets, with its details, or a state.
pub data Response : Type 0 where
  invalid_argument failed_precondition : String → Response
  session : StateMessage → Response

abbrev pub details : String → String → String
details validation_error validation_output =
    if nonempty validation_error
    then (if nonempty validation_output
        then "Validation error: " ⊕ validation_error ⊕ "\nValidation output: " ⊕ validation_output
        else "Validation error: " ⊕ validation_error)
    else (if nonempty validation_output then "Validation output: " ⊕ validation_output else "")

-- The `error_msg` of `_state_to_response`.
abbrev pub error_message : PipelineState → String
error_message s =
    if s.phase == "error" && not (nonempty (text_of s.error))
    then details (text_of s.validation_error) (text_of s.validation_output)
    else text_of s.error

abbrev pub with_error : String → Option String → Option String
with_error error_msg old = if nonempty error_msg then some error_msg else old

abbrev pub response_state : String → PipelineState → PipelineState
response_state session_id s = record s {
  session_id = session_id;
  error = with_error (error_message s) s.error;
}

-- `_state_to_response`
unfoldable pub state_to_response : String → PipelineState → Result Response
unfolding dict_to_proto_state
state_to_response session_id s =
    dict_to_proto_state (response_state session_id s) >>= (λ msg. ok (session msg))

-- `_make_initial_state`
unfoldable pub make_initial_state : String → String → Option String → Result PipelineState
unfolding detect_language normalize_context_safe
make_initial_state session_id request_text context = do
  normalised_context ← normalize_context_safe context
  ok (record {
    session_id = session_id;
    request = request_text;
    context = some normalised_context;
    raw_context = null;
    context_schema = none;
    dialog_language = detect_language request_text;
    clarification_answer = none;
    clarification_question = none;
    clarification_history = [];
    is_ambiguous = false;
    clarifying = false;
    spec_json = none;
    spec_approved = false;
    code = none;
    generation_attempt = pos 0;
    validation_success = false;
    validation_output = none;
    validation_error = none;
    phase = "running";
    error = none;
  })

-- `json.loads(...).get("clarification_target")`: what the `except` clause does not name passes on.
abbrev pub target_of : Result Json → Result Json
target_of (ok (obj fs)) = ok (get "clarification_target" fs)
target_of (ok v) = raise (attribute_error ("'" ⊕ type_name v ⊕ "' object has no attribute 'get'"))
target_of (raise (json_decode_error m)) = ok null
target_of (raise (attribute_error m)) = raise (attribute_error m)
target_of (raise (value_error m)) = ok null
target_of (raise (context_error m)) = raise (context_error m)
target_of (raise (lone_surrogate m)) = raise (lone_surrogate m)
target_of (raise (recursion_error m)) = raise (recursion_error m)
target_of (raise (other_error m)) = raise (other_error m)

unfoldable pub current_target : PipelineState → Result Json
unfolding loads get
current_target prev =
    if nonempty (text_of prev.spec_json)
    then target_of (loads (text_of prev.spec_json))
    else ok null

abbrev pub json_text : Option String → Json
json_text none = null
json_text (some s) = str s

abbrev pub answered_entry : PipelineState → String → Json → Entry
answered_entry prev answer target = record {
  question = json_text prev.clarification_question;
  answer = str answer;
  target = target;
}

-- The state that a run starts from after an answer.
abbrev pub resumed : PipelineState → String → Json → PipelineState
resumed prev answer target = record prev {
  clarification_answer = some answer;
  clarification_history = prev.clarification_history ++ answered_entry prev answer target ∷ [];
  clarifying = true;
  phase = "running";
}

-- `result` is what `graph.invoke(state)` came to: an exception of the run, or of the conversion of
-- its state, is answered by the state in the phase "error".
abbrev pub failed : PipelineState → Error → PipelineState
failed s e = record s { phase = "error"; error = some (message e) }

abbrev pub or_failed : String → PipelineState → Result Response → Result Response
or_failed session_id s (ok response) = ok response
or_failed session_id s (raise e) = state_to_response session_id (failed s e)

module _ (env : Env) (limit : ℕ) where
  -- The `try` that the three places share.
  unfoldable pub run_pipeline : String → PipelineState → Result Response
  unfolding invoke state_to_response
  run_pipeline session_id s =
      or_failed session_id s (invoke env limit s >>= state_to_response session_id)

  -- `_resume_with_clarification`
  unfoldable pub resume_with_clarification : PipelineState → String → String → Result Response
  unfolding current_target run_pipeline
  resume_with_clarification prev answer session_id = do
    target ← current_target prev
    run_pipeline session_id (resumed prev answer target)

  -- The session that is there already.
  unfoldable pub continue_session : PipelineState → Result Response
  unfolding state_to_response run_pipeline
  continue_session prev =
      if prev.phase == "clarification_needed"
      then ok (failed_precondition "Session is waiting for AnswerClarification")
      else if prev.phase == "done" || prev.phase == "error"
      then state_to_response prev.session_id prev
      else run_pipeline prev.session_id prev

  unfoldable pub start_session : PipelineState → Result Response
  unfolding make_initial_state run_pipeline
  start_session incoming = do
    initial ← make_initial_state incoming.session_id incoming.request incoming.context
    run_pipeline incoming.session_id initial

  unfoldable pub handle_state : PipelineState → Result Response
  unfolding continue_session start_session
  handle_state incoming =
      if not (nonempty incoming.session_id)
      then ok (invalid_argument "pipeline_state.session_id is required")
      else if nonempty incoming.phase
      then continue_session incoming
      else start_session incoming

  -- `LLMServiceServicer.StartOrContinue`
  unfoldable pub start_or_continue : Option StateMessage → Result Response
  unfolding proto_state_to_dict handle_state
  start_or_continue none = ok (invalid_argument "pipeline_state is required")
  start_or_continue (some msg) = proto_state_to_dict msg >>= handle_state

  abbrev pub either_id : String → String → String
  either_id session_id other = if nonempty session_id then session_id else other

  unfoldable pub handle_answer : String → String → PipelineState → Result Response
  unfolding resume_with_clarification
  handle_answer request_id answer prev =
      if not (nonempty (either_id request_id prev.session_id))
      then ok (invalid_argument "session_id is required")
      else if not (prev.phase == "clarification_needed")
      then ok (failed_precondition "Session is not waiting for clarification")
      else resume_with_clarification prev answer (either_id request_id prev.session_id)

  -- `LLMServiceServicer.AnswerClarification`
  unfoldable pub answer_clarification : String → String → Option StateMessage → Result Response
  unfolding proto_state_to_dict handle_answer
  answer_clarification request_id answer none = ok (invalid_argument "pipeline_state is required")
  answer_clarification request_id answer (some msg) =
      proto_state_to_dict msg >>= handle_answer request_id answer
