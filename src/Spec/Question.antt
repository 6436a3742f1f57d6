-- ===== src/Spec/Question.antt =====
-- `_build_question` of services/llm/spec_logic.py.
use mts_true_tech_hack.Base.{
  String, Bool, Option, none, some, List, [], ◌∷◌, ◌==◌, ◌||◌, if◌then◌else◌,
}
use mts_true_tech_hack.Text.{◌⊕◌, lower, contains_any, ends_with}
use mts_true_tech_hack.Spec.Terms.{extract_entity_hint}
use mts_true_tech_hack.Spec.Policy.{Target, ask_nothing, ask_goal, ask_return_value, ask_input_path}

abbrev pub goal_question : Bool → String
goal_question is_ru =
    if is_ru
    then "Что именно должен сделать итоговый Lua-код?"
    else "What exactly should the final Lua code do?"

abbrev pub binary_search_question : Bool → String
binary_search_question is_ru =
    if is_ru
    then "Что должна возвращать функция бинарного поиска: индекс, сам элемент или true/false?"
    else "What should the binary search return: index, element, or true/false?"

abbrev pub return_question : Bool → String
return_question is_ru =
    if is_ru
    then "Что именно должен возвращать итоговый Lua-код?"
    else "What exactly should the final Lua code return?"

abbrev pub binary_search_markers : List String
binary_search_markers = "binary search" ∷ "бинарн" ∷ "двоичн" ∷ []

abbrev pub entity_or : Option String → String → String
entity_or none default = default
entity_or (some entity) default = entity

unfoldable pub example_path : String → String
unfolding lower ends_with
example_path entity =
    if entity == "входных данных" || entity == "input data"
    then "wf.vars.users"
    else if ends_with (lower entity) "s"
    then "wf.vars.users"
    else "wf.vars." ⊕ entity

unfoldable pub input_path_question : String → Bool → String
unfolding example_path
input_path_question entity is_ru =
    if is_ru
    then "Какой точный Lua path у "
      ⊕ entity
      ⊕ " в контексте, например `"
      ⊕ example_path entity
      ⊕ "`?"
    else "What is the exact Lua path to the "
      ⊕ entity
      ⊕ " data, for example `"
      ⊕ example_path entity
      ⊕ "`?"

-- `_build_question`
unfoldable pub build_question : Target → String → String → String → Option String
unfolding lower contains_any extract_entity_hint input_path_question
build_question ask_nothing request goal dialog_language = none
build_question ask_goal request goal dialog_language =
    some (goal_question (dialog_language == "ru"))
build_question ask_return_value request goal dialog_language =
    let is_ru = dialog_language == "ru" in
    some (
      if contains_any binary_search_markers (lower (request ⊕ " " ⊕ goal))
      then binary_search_question is_ru
      else return_question is_ru)
build_question ask_input_path request goal dialog_language =
    let is_ru = dialog_language == "ru" in
    let default : String = if is_ru then "входных данных" else "input data" in
    some (input_path_question (entity_or (extract_entity_hint request) default) is_ru)
