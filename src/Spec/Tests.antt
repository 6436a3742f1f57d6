-- ===== src/Spec/Tests.antt =====
-- Runs of the spec logic at concrete texts.
use mts_true_tech_hack.Base.{◌≡◌, refl, String, Option, none, some, List, [], ◌∷◌, false}
use mts_true_tech_hack.Base.Int.{pos}
use mts_true_tech_hack.Base.Result.{Result, ok, raise}
use mts_true_tech_hack.Json.{Json, null, int, str, arr, obj, nil, cons, end, field}
use mts_true_tech_hack.Spec.Paths.{flatten_context_paths}
use mts_true_tech_hack.Spec.Policy.{
  workflow_root, Target, ask_nothing, input_path_needs_clarification, input_path_not_applicable,
}
use mts_true_tech_hack.Spec.Evaluate.{NormalizedSpec, Request, evaluate_spec}
use mts_true_tech_hack.Spec.Terms.{
  extract_identifiers, split_identifier, extract_search_terms, extract_canonical_path,
  extract_entity_hint, path_terms,
}

extract_identifiers_run :
    extract_identifiers "Sort `userList` by Age and name" ≡ "userList" ∷ "by" ∷ "and" ∷ "name" ∷ []
unfolding extract_identifiers
extract_identifiers_run = refl

split_identifier_run :
    split_identifier "isActive_user2Name" ≡ "is" ∷ "active" ∷ "user2" ∷ "name" ∷ []
unfolding split_identifier
split_identifier_run = refl

extract_search_terms_run : extract_search_terms "clientId" ≡ "clientid" ∷ "users" ∷ "id" ∷ []
unfolding extract_search_terms
extract_search_terms_run = refl

extract_canonical_path_run : extract_canonical_path "use wf.vars.a.b1, please" ≡ some "wf.vars.a.b1"
unfolding extract_canonical_path
extract_canonical_path_run = refl

extract_canonical_path_run_b : extract_canonical_path "xwf.vars.a" ≡ none
unfolding extract_canonical_path
extract_canonical_path_run_b = refl

extract_entity_hint_run : extract_entity_hint "Filter the OBJECT  `user`" ≡ some "user"
unfolding extract_entity_hint
extract_entity_hint_run = refl

extract_entity_hint_run_b : extract_entity_hint "в массиве users" ≡ some "users"
unfolding extract_entity_hint
extract_entity_hint_run_b = refl

path_terms_run : path_terms "wf.vars.people[].firstName" ≡ "people" ∷ "first" ∷ "name" ∷ []
unfolding path_terms
path_terms_run = refl

abbrev id_order : List String → List String
id_order ts = ts

abbrev users_context : Json
users_context = obj (
    field "wf"
      (obj (
        field "vars"
          (obj (field "users" (arr (cons (obj (field "age" (int (pos 30)) end)) nil)) end))
          (field "initVariables" (obj end) end)))
      end)

paths_test :
    flatten_context_paths (workflow_root users_context) "wf"
    ≡ "wf" ∷ "wf.vars" ∷ "wf.vars.users" ∷ "wf.vars.users.age" ∷ "wf.initVariables" ∷ []
unfolding flatten_context_paths workflow_root
paths_test = refl

abbrev sort_request : Request
sort_request = record {
  request = "Sort users by age descending";
  raw_context = users_context;
  dialog_language = "en";
  history =
      record { question = null; answer = str "use the users array"; target = str "input_path" }
      ∷ [];
}

abbrev sort_spec : Json
sort_spec = obj (
    field "goal" (str "Sort users by age descending") (
      field "input_path" (str input_path_needs_clarification)
        (field "return_value" (str "sorted users array") end)))

abbrev path_and_target : Result NormalizedSpec → Option (String × Target)
path_and_target (ok s) = some (s.input_path, s.clarification_target)
path_and_target (raise e) = none

evaluate_test :
    path_and_target (evaluate_spec id_order sort_request false sort_spec)
    ≡ some ("wf.vars.users", ask_nothing)
unfolding evaluate_spec
evaluate_test = refl

evaluate_test₂ :
    path_and_target (
      evaluate_spec id_order
        (record sort_request { raw_context = null; history = [] })
        false
        sort_spec)
    ≡ some (input_path_not_applicable, ask_nothing)
unfolding evaluate_spec
evaluate_test₂ = refl
