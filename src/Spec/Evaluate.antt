-- ===== src/Spec/Evaluate.antt =====
-- `evaluate_spec` of services/llm/spec_logic.py.
pub mod Laws
use mts_true_tech_hack.Base.{
  String, Bool, true, false, not, ◌&&◌, ◌||◌, Option, none, some, List, [], ◌∷◌, ◌==◌,
  if◌then◌else◌,
}
use mts_true_tech_hack.Base.Result.{Result, ok, raise, attribute_error}
use mts_true_tech_hack.Text.{◌⊕◌, nonempty, or_else}
use mts_true_tech_hack.Json.{Json, obj, Fields, end, get, type_name, value_or}
use mts_true_tech_hack.Spec.Terms.{clean_text}
use mts_true_tech_hack.Spec.Policy.{
  input_path_not_applicable, input_path_needs_clarification, Target, ask_nothing, ask_goal,
  ask_return_value, ask_input_path, is_meaningful_goal, is_meaningful_return_value,
  needs_contextual_input, if_nonempty, resolve_input_path,
}
use mts_true_tech_hack.Spec.History.{Entry, Merged, merge_clarification_history, no_input_confirmed}
use mts_true_tech_hack.Spec.Question.{build_question}

pub data TaskMode : Type 0 where
  standalone context_aware : TaskMode

pub record NormalizedSpec : Type 0 where
  pub goal : String
  pub task_mode : TaskMode
  pub input_path : String
  pub output_type : String
  pub transformation : String
  pub return_value : String
  pub spec_parse_failed : Bool
  pub clarification_required : Bool
  pub clarification_target : Target
  pub clarification_question : Option String
  pub need_clarification : Bool
  pub clarification_reason : Option String

-- What the request brings to the evaluation.
pub record Request : Type 0 where
  pub request : String
  pub raw_context : Json
  pub dialog_language : String
  pub history : List Entry

-- The input path of the normalised spec, from the resolved path and the four tests.
abbrev pub normalized_path : Option String → Bool → Bool → Bool → String → String
normalized_path (some resolved) confirmed needed seen input_path = resolved
normalized_path none confirmed needed seen input_path =
    if confirmed && not needed
    then input_path_not_applicable
    else if seen
    then or_else input_path input_path_not_applicable
    else if needed
    then input_path_needs_clarification
    else input_path_not_applicable

abbrev pub is_sentinel : String → Bool
is_sentinel path = path == input_path_not_applicable || path == input_path_needs_clarification

-- The first blocker, in the order goal, return value, input path.
unfoldable pub first_blocker : String → String → String → Target
unfolding is_meaningful_goal is_meaningful_return_value
first_blocker goal return_value input_path =
    if not (is_meaningful_goal goal)
    then ask_goal
    else if not (is_meaningful_return_value return_value)
    then ask_return_value
    else if input_path == input_path_needs_clarification
    then ask_input_path
    else ask_nothing

abbrev pub is_blocker : Target → Bool
is_blocker ask_nothing = false
is_blocker _ = true

abbrev pub blocker_reason : Target → Option String
blocker_reason ask_nothing = none
blocker_reason ask_goal = some "goal is missing or too generic"
blocker_reason ask_return_value = some "return_value is missing or too generic"
blocker_reason ask_input_path = some "input_path is required but still unresolved"

module _ (set_order : List String → List String) (r : Request) (parse_failed : Bool) where
  -- The path that the spec is given, after the history is merged into it.
  unfoldable pub spec_path : Merged → String → String
  unfolding needs_contextual_input resolve_input_path no_input_confirmed
  spec_path m transformation =
      let resolved =
        resolve_input_path set_order r.request r.raw_context m.input_path m.goal transformation
          m.return_value in
      normalized_path (if_nonempty resolved) (no_input_confirmed r.history)
        (needs_contextual_input r.request m.input_path r.raw_context) m.answer_seen m.input_path

  -- The part of `evaluate_spec` from the blockers on.
  unfoldable pub finish_spec : Merged → String → String → String → NormalizedSpec
  unfolding first_blocker build_question
  finish_spec m output_type transformation path =
      let target = first_blocker m.goal m.return_value path in
      record {
        goal = m.goal;
        task_mode = if is_sentinel path then standalone else context_aware;
        input_path = path;
        output_type = output_type;
        transformation = transformation;
        return_value = m.return_value;
        spec_parse_failed = parse_failed;
        clarification_required = is_blocker target;
        clarification_target = target;
        clarification_question = build_question target r.request m.goal r.dialog_language;
        need_clarification = is_blocker target;
        clarification_reason =
            if parse_failed then some "spec agent returned invalid JSON" else blocker_reason target;
      }

  abbrev pub raw_fields : Fields → Merged
  raw_fields fs = record {
    goal = clean_text (get "goal" fs);
    input_path = clean_text (get "input_path" fs);
    return_value = clean_text (get "return_value" fs);
    answer_seen = false;
  }

  unfoldable pub evaluate_fields : Fields → NormalizedSpec
  unfolding clean_text get merge_clarification_history spec_path finish_spec
  evaluate_fields fs =
      let output_type = or_else (clean_text (get "output_type" fs)) "return_value" in
      let transformation = or_else (clean_text (get "transformation" fs)) "as requested by user" in
      let m = merge_clarification_history r.history (raw_fields fs) in
      finish_spec m output_type transformation (spec_path m transformation)

  -- `raw_spec.get(...)` of a value that is no dict raises.
  abbrev pub evaluate_value : Json → Result NormalizedSpec
  evaluate_value (obj fs) = ok (evaluate_fields fs)
  evaluate_value v = raise (attribute_error ("'" ⊕ type_name v ⊕ "' object has no attribute 'get'"))

  -- `evaluate_spec`
  unfoldable pub evaluate_spec : Json → Result NormalizedSpec
  unfolding evaluate_fields
  evaluate_spec raw_spec = evaluate_value (value_or raw_spec (obj end))
