-- ===== src/Spec/History.antt =====
-- The clarification dialogue: `_merge_clarification_history` of services/llm/spec_logic.py.
pub mod Merging
use mts_true_tech_hack.Base.{
  String, Bool, true, false, not, ◌&&◌, ◌||◌, none, some, List, [], ◌∷◌, ◌==◌, any, if◌then◌else◌,
}
use mts_true_tech_hack.Text.{nonempty}
use mts_true_tech_hack.Json.{Json, str, truthy}
use mts_true_tech_hack.Spec.Terms.{clean_text, extract_canonical_path}
use mts_true_tech_hack.Spec.Policy.{
  input_path_not_applicable, input_path_needs_clarification, target_name,
  infer_target_from_question, answer_indicates_no_input, is_meaningful_goal,
  is_meaningful_return_value, if_nonempty,
}

-- An entry of `clarification_history`. A key that is not there is `null`.
pub record Entry : Type 0 where
  pub question : Json
  pub answer : Json
  pub target : Json

abbrev pub is_text : String → Json → Bool
is_text s (str t) = t == s
is_text s _ = false

-- `entry.get("target") or _infer_target_from_question(...)`
unfoldable pub entry_target : Entry → Json
unfolding clean_text infer_target_from_question
entry_target e =
    if truthy e.target
    then e.target
    else str (target_name (infer_target_from_question (clean_text e.question)))

pub record Merged : Type 0 where
  pub goal : String
  pub input_path : String
  pub return_value : String
  pub answer_seen : Bool

-- The input path that an answer to the input path question leaves.
unfoldable pub answered_path : String → String → String
unfolding extract_canonical_path answer_indicates_no_input
answered_path answer input_path = elim (if_nonempty (extract_canonical_path answer)) [
  | some resolved_path ↦ resolved_path
  | none ↦
      if answer_indicates_no_input answer
      then input_path_not_applicable
      else if not (nonempty input_path) || input_path == input_path_needs_clarification
      then answer
      else input_path
]

-- One round of the loop, for an answer that is not blank and the entry's target.
unfoldable pub merge_answer : String → Json → Merged → Merged
unfolding is_meaningful_goal is_meaningful_return_value answered_path
merge_answer answer target m =
    if is_text "goal" target && not (is_meaningful_goal m.goal)
    then record m { goal = answer }
    else if is_text "return_value" target && not (is_meaningful_return_value m.return_value)
    then record m { return_value = answer }
    else if not (is_text "input_path" target)
    then m
    else record m { answer_seen = true; input_path = answered_path answer m.input_path }

unfoldable pub merge_entry : Merged → Entry → Merged
unfolding clean_text entry_target merge_answer
merge_entry m e =
    let answer = clean_text e.answer in
    if nonempty answer then merge_answer answer (entry_target e) m else m

-- `_merge_clarification_history`
unfoldable pub merge_clarification_history : List Entry → Merged → Merged
unfolding merge_entry
merge_clarification_history [] m = m
merge_clarification_history (e ∷ es) m = merge_clarification_history es (merge_entry m e)

abbrev pub confirms_no_input : Entry → Bool
confirms_no_input e =
    is_text "input_path" (entry_target e) && answer_indicates_no_input (clean_text e.answer)

-- The `any(...)` of `evaluate_spec` over the history.
unfoldable pub no_input_confirmed : List Entry → Bool
unfolding entry_target answer_indicates_no_input clean_text
no_input_confirmed history = any confirms_no_input history
