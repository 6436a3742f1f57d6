-- ===== src/Spec/Decision.antt =====
-- `load_spec_json` and `build_clarifier_decision` of services/llm/spec_logic.py.
pub mod Laws
use mts_true_tech_hack.Base.{
  String, Bool, true, false, ◌&&◌, Option, none, some, List, [], ◌∷◌, ◌==◌, any, if◌then◌else◌,
}
use mts_true_tech_hack.Base.Result.{Result, ok, raise, attribute_error, ◌>>=◌}
use mts_true_tech_hack.Text.{◌⊕◌, nonempty}
use mts_true_tech_hack.Json.{Json, obj, end, get, truthy, type_name}
use mts_true_tech_hack.Json.Loads.{loads}
use mts_true_tech_hack.Spec.Terms.{clean_text}
use mts_true_tech_hack.Spec.History.{Entry}
use mts_true_tech_hack.Spec.Evaluate.{NormalizedSpec, Request, evaluate_spec}

abbrev pub parse_failed_of : Json → Result Bool
parse_failed_of (obj fs) = ok (truthy (get "spec_parse_failed" fs))
parse_failed_of v = raise (attribute_error ("'" ⊕ type_name v ⊕ "' object has no attribute 'get'"))

-- `json.loads(spec_json) if spec_json else {}`
abbrev pub parsed_spec : Option String → Result Json
parsed_spec none = ok (obj end)
parsed_spec (some s) = if nonempty s then loads s else ok (obj end)

-- `load_spec_json`
unfoldable pub load_spec_json :
    (List String → List String) → Request → Option String → Result NormalizedSpec
unfolding loads evaluate_spec get
load_spec_json set_order r spec_json = do
  parsed ← parsed_spec spec_json
  parse_failed ← parse_failed_of parsed
  evaluate_spec set_order r parse_failed parsed

-- `_question_was_already_asked`
unfoldable pub was_asked : String → List Entry → Bool
unfolding clean_text
was_asked question history = any (λ e. clean_text e.question == question) history

unfoldable pub question_was_already_asked : Option String → List Entry → Bool
unfolding was_asked
question_was_already_asked none history = false
question_was_already_asked (some question) history =
    if nonempty question then was_asked question history else false

-- The clarifier's three answers, with the question and the reason that go with them.
pub data ClarifierDecision : Type 0 where
  approved : ClarifierDecision
  question : String → Option String → ClarifierDecision
  blocked : String → ClarifierDecision

abbrev unresolved : String
unresolved = "clarification blocker is still unresolved after the same question was already asked"

abbrev decide : Option String → Option String → List Entry → ClarifierDecision
decide none reason history = approved
decide (some q) reason history =
    if nonempty q
    then (if question_was_already_asked (some q) history
        then blocked unresolved
        else question q reason)
    else approved

-- `build_clarifier_decision`
unfoldable pub build_clarifier_decision : NormalizedSpec → List Entry → ClarifierDecision
unfolding question_was_already_asked
build_clarifier_decision spec history =
    if spec.clarification_required
    then decide spec.clarification_question spec.clarification_reason history
    else approved
