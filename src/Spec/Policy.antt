-- ===== src/Spec/Policy.antt =====
-- The tests of services/llm/spec_logic.py on single texts and on the context.
use mts_true_tech_hack.Base.{
  String, Bool, true, false, not, ◌&&◌, ◌||◌, Option, none, some, List, [], ◌∷◌, ◌==◌, keep_if,
  starts_with, if◌then◌else◌,
}
use mts_true_tech_hack.Text.{nonempty, lower, contains, contains_any, is_one_of, join}
use mts_true_tech_hack.Json.{
  Json, null, arr, obj, nil, Fields, end, field, truthy, get, has_key, is_obj,
}
use mts_true_tech_hack.Spec.Terms.{
  extract_canonical_path, extract_entity_hint, extract_search_terms,
}
use mts_true_tech_hack.Spec.Paths.{flatten_context_paths, candidate_parent_path, or_next}

abbrev pub input_path_not_applicable : String
input_path_not_applicable = "__INPUT_PATH_NOT_APPLICABLE__"

abbrev pub input_path_needs_clarification : String
input_path_needs_clarification = "__INPUT_PATH_NEEDS_CLARIFICATION__"

-- `ClarificationTarget`
pub data Target : Type 0 where
  ask_nothing ask_goal ask_return_value ask_input_path : Target

abbrev pub target_name : Target → String
target_name ask_nothing = "none"
target_name ask_goal = "goal"
target_name ask_return_value = "return_value"
target_name ask_input_path = "input_path"

abbrev pub generic_goals : List String
generic_goals = "" ∷ "unknown" ∷ "not specified" ∷ "unspecified" ∷ "tbd" ∷ "todo" ∷ "?" ∷ []

abbrev pub generic_return_values : List String
generic_return_values =
    "" ∷ "return_value" ∷ "value" ∷ "result" ∷ "output" ∷ "single_value" ∷ "return the result"
    ∷ "returned value" ∷ "result value" ∷ "string" ∷ "number" ∷ "boolean" ∷ "table" ∷ "array"
    ∷ "object" ∷ []

-- `_infer_target_from_question`
unfoldable pub infer_target_from_question : String → Target
unfolding lower contains
infer_target_from_question question =
    let lowered = lower question in
    if contains "return" lowered || contains "возвращ" lowered
    then ask_return_value
    else if contains "path" lowered || contains "путь" lowered
    then ask_input_path
    else if contains "what exactly should the final lua code do" lowered
        || contains "что именно должен сделать" lowered
    then ask_goal
    else ask_nothing

abbrev no_input_markers : List String
no_input_markers =
    "no input" ∷ "without input" ∷ "no context" ∷ "context is not needed" ∷ "don't use input"
    ∷ "does not use input" ∷ "нет входных данных" ∷ "без входных данных" ∷ "контекст не нужен"
    ∷ "входные данные не нужны" ∷ "не зависит от входных данных"
    ∷ "использовать входные данные не нужно" ∷ []

-- `_answer_indicates_no_input`
unfoldable pub answer_indicates_no_input : String → Bool
unfolding lower contains_any
answer_indicates_no_input answer = contains_any no_input_markers (lower answer)

-- `_is_meaningful_goal`
unfoldable pub is_meaningful_goal : String → Bool
unfolding lower is_one_of
is_meaningful_goal goal = not (is_one_of generic_goals (lower goal))

-- `_is_meaningful_return_value`
unfoldable pub is_meaningful_return_value : String → Bool
unfolding lower is_one_of
is_meaningful_return_value return_value =
    let lowered = lower return_value in
    if is_one_of generic_return_values lowered
    then false
    else if starts_with lowered "result " || starts_with lowered "return "
    then false
    else nonempty return_value

-- A section of the workflow that is neither missing nor empty.
abbrev section_has_data : Json → Bool
section_has_data null = false
section_has_data (obj fs) = truthy (obj fs)
section_has_data (arr nil) = false
section_has_data _ = true

abbrev has_other_key : Fields → Bool
has_other_key end = false
has_other_key (field key v fs) =
    not (is_one_of ("vars" ∷ "initVariables" ∷ []) key) || has_other_key fs

-- `raw_context.get("wf") if "wf" in raw_context else raw_context` of an object, else the value.
unfoldable pub workflow_root : Json → Json
unfolding get has_key
workflow_root (obj fs) = if has_key "wf" fs then get "wf" fs else obj fs
workflow_root v = v

abbrev workflow_has_data : Json → Bool
workflow_has_data (obj wf) =
    section_has_data (get "vars" wf)
    || section_has_data (get "initVariables" wf)
    || has_other_key wf
workflow_has_data v = truthy v

-- `_context_has_data`
unfoldable pub context_has_data : Json → Bool
unfolding workflow_root get is_one_of
context_has_data raw_context =
    if is_obj raw_context then workflow_has_data (workflow_root raw_context) else false

abbrev pub mentions_workflow : String → Bool
mentions_workflow lowered = contains "wf.vars" lowered || contains "wf.initvariables" lowered

abbrev contextual_markers : List String
contextual_markers =
    "using object" ∷ "using array" ∷ "using variable" ∷ "используя объект" ∷ "используя массив"
    ∷ "используя переменн" ∷ "объект" ∷ "массив" ∷ "переменн" ∷ []

abbrev pub is_found {ℓ} : {A : Type ℓ} → Option A → Bool
is_found none = false
is_found (some a) = true

-- `_needs_contextual_input`
unfoldable pub needs_contextual_input : String → String → Json → Bool
unfolding extract_canonical_path context_has_data extract_entity_hint lower contains contains_any
needs_contextual_input request raw_input_path raw_context =
    let lowered = lower request in
    if is_found (extract_canonical_path raw_input_path)
    then true
    else if not (context_has_data raw_context)
    then mentions_workflow lowered
    else if raw_input_path == input_path_needs_clarification
    then true
    else if nonempty raw_input_path && not (raw_input_path == input_path_not_applicable)
    then true
    else if mentions_workflow lowered
    then true
    else if is_found (extract_entity_hint request)
    then true
    else contains_any contextual_markers lowered

-- `if resolved:` of an optional text
abbrev pub if_nonempty : Option String → Option String
if_nonempty none = none
if_nonempty (some s) = if nonempty s then some s else none

abbrev pub is_empty : List String → Bool
is_empty [] = true
is_empty (t ∷ ts) = false

-- The order in which Python's loops meet the elements of a set of texts. It depends on the seed
-- of the text hash, which is drawn anew in each process.
module _ (set_order : List String → List String) where
  abbrev pub resolve_in_context : List String → List String → List String → Option String
  resolve_in_context paths raw_input_terms search_terms =
      let hinted = if_nonempty (candidate_parent_path paths (set_order raw_input_terms)) in
      or_next (if is_empty raw_input_terms then none else hinted)
        (candidate_parent_path paths (set_order search_terms))

  -- `resolve_input_path`
  unfoldable pub resolve_input_path :
      String → Json → String → String → String → String → Option String
  unfolding extract_canonical_path extract_search_terms workflow_root flatten_context_paths
      candidate_parent_path join
  resolve_input_path request raw_context raw_input_path goal transformation return_value =
      let parts = request ∷ goal ∷ transformation ∷ return_value ∷ raw_input_path ∷ [] in
      let search_terms = extract_search_terms (join " " (keep_if nonempty parts)) in
      let paths = flatten_context_paths (workflow_root raw_context) "wf" in
      let in_context =
        resolve_in_context paths (extract_search_terms raw_input_path) search_terms in
      let from_context =
        if truthy raw_context && not (is_empty search_terms) then in_context else none in
      or_next (extract_canonical_path raw_input_path) from_context
