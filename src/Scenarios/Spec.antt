-- ===== src/Scenarios/Spec.antt =====
-- Specs and decisions, and what their theorems say of them.
use mts_true_tech_hack.Base.{◌≡◌, refl, true, false, some, none, String, List, [], ◌∷◌}
use mts_true_tech_hack.Base.Result.{ok}
use mts_true_tech_hack.Json.{null, str, obj, end}
use mts_true_tech_hack.Spec.Policy.{ask_goal}
use mts_true_tech_hack.Spec.History.{Entry}
use mts_true_tech_hack.Spec.Evaluate.{NormalizedSpec, standalone, Request, evaluate_spec}
use mts_true_tech_hack.Spec.Evaluate.Laws.{IsCoherent, evaluate_spec-IsCoherent}
use mts_true_tech_hack.Spec.Decision.{
  approved, question, blocked, was_asked, build_clarifier_decision,
}
use mts_true_tech_hack.Spec.Decision.Laws.{Asks, question_sound, blocked_sound, approved_sound}

abbrev in_order : List String → List String
in_order terms = terms

abbrev request : Request
request = record { request = "sort"; raw_context = null; dialog_language = "en"; history = [] }

abbrev goal_question : String
goal_question = "What exactly should the final Lua code do?"

abbrev empty_spec : NormalizedSpec
empty_spec = record {
  goal = "";
  task_mode = standalone;
  input_path = "__INPUT_PATH_NOT_APPLICABLE__";
  output_type = "return_value";
  transformation = "as requested by user";
  return_value = "";
  spec_parse_failed = false;
  clarification_required = true;
  clarification_target = ask_goal;
  clarification_question = some goal_question;
  need_clarification = true;
  clarification_reason = some "goal is missing or too generic";
}

abbrev clear_spec : NormalizedSpec
clear_spec = record empty_spec { clarification_required = false; clarification_question = none }

abbrev asked : List Entry
asked = record { question = str goal_question; answer = str "no idea"; target = null } ∷ []

evaluate_empty : evaluate_spec in_order request false (obj end) ≡ ok empty_spec
unfolding evaluate_spec
evaluate_empty = refl

evaluate_spec-IsCoherent_example : IsCoherent empty_spec
evaluate_spec-IsCoherent_example =
    evaluate_spec-IsCoherent in_order request false (obj end) evaluate_empty

empty-Asks : Asks empty_spec goal_question
empty-Asks = record { required = refl; asked = refl; filled = refl }

decides_question :
    build_clarifier_decision empty_spec []
    ≡ question goal_question (some "goal is missing or too generic")
unfolding build_clarifier_decision
decides_question = refl

goal_was_asked : was_asked goal_question asked ≡ true
unfolding was_asked
goal_was_asked = refl

nothing_was_asked : was_asked goal_question [] ≡ false
unfolding was_asked
nothing_was_asked = refl

decides_blocked :
    build_clarifier_decision empty_spec asked
    ≡ blocked "clarification blocker is still unresolved after the same question was already asked"
unfolding build_clarifier_decision
decides_blocked = refl

decides_approved : build_clarifier_decision clear_spec asked ≡ approved
unfolding build_clarifier_decision
decides_approved = refl

question_sound_example :
    Asks empty_spec goal_question
    × (was_asked goal_question [] ≡ false)
    × (some "goal is missing or too generic" ≡ empty_spec.clarification_reason)
question_sound_example = question_sound empty_spec [] goal_question _ decides_question

blocked_sound_example : (q : String) × Asks empty_spec q × (was_asked q asked ≡ true)
blocked_sound_example = blocked_sound empty_spec asked _ decides_blocked

approved_sound_example : ¬ Asks clear_spec goal_question
approved_sound_example = approved_sound clear_spec asked decides_approved goal_question
