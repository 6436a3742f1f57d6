-- ===== src/Scenarios/Parts.antt =====
-- The context, its paths and the dialogue, and what their theorems say of them.
use mts_true_tech_hack.Base.{String, ◌≡◌, refl, inr, false, some, List, [], ◌∷◌, All, In}
use mts_true_tech_hack.Base.Int.{pos}
use mts_true_tech_hack.Base.Result.{ok}
use mts_true_tech_hack.Json.{Json, null, str, int, obj, end, field}
use mts_true_tech_hack.Context.{normalize_context_safe}
use mts_true_tech_hack.Context.Total.{Readable, normalize_context_safe_returns}
use mts_true_tech_hack.Json.Loads.{loads}
use mts_true_tech_hack.Context.Laws.{IsNormalised, normalize_context_safe-IsNormalised}
use mts_true_tech_hack.Spec.History.{Entry, Merged, merge_clarification_history}
use mts_true_tech_hack.Spec.History.Merging.{IsMerged, merge_clarification_history-IsMerged}
use mts_true_tech_hack.Spec.Paths.{candidate_parent_path, flatten_context_paths}
use mts_true_tech_hack.Spec.Paths.Flatten.{Extends, Distinct, flatten_context_paths_lem}
use mts_true_tech_hack.Spec.Paths.Chosen.{ComesFrom, candidate_parent_path-ComesFrom}

abbrev paths : List String
paths = "wf" ∷ "wf.vars" ∷ "wf.vars.emails" ∷ "wf.vars.users" ∷ []

chosen : candidate_parent_path paths ("last" ∷ "emails" ∷ []) ≡ some "wf.vars.emails"
unfolding candidate_parent_path
chosen = refl

candidate_parent_path-ComesFrom_example : ComesFrom paths "wf.vars.emails"
candidate_parent_path-ComesFrom_example =
    candidate_parent_path-ComesFrom paths ("last" ∷ "emails" ∷ []) chosen

abbrev dialogue : List Entry
dialogue =
    record { question = null; answer = str "sort the users"; target = str "goal" }
    ∷ record { question = null; answer = str "wf.vars.users"; target = str "input_path" }
    ∷ []

abbrev before : Merged
before = record { goal = ""; input_path = ""; return_value = "the users"; answer_seen = false }

merge_clarification_history-IsMerged_example :
    IsMerged dialogue before (merge_clarification_history dialogue before)
merge_clarification_history-IsMerged_example = merge_clarification_history-IsMerged dialogue before

normalises :
    normalize_context_safe (some "{\"wf\": {\"vars\": {\"a\": 1}}, \"x\": 2}")
    ≡ ok "{\"wf\": {\"vars\": {\"a\": 1}, \"initVariables\": {}}}"
unfolding normalize_context_safe
normalises = refl

normalize_context_safe-IsNormalised_example :
    IsNormalised "{\"wf\": {\"vars\": {\"a\": 1}, \"initVariables\": {}}}"
normalize_context_safe-IsNormalised_example =
    normalize_context_safe-IsNormalised (some "{\"wf\": {\"vars\": {\"a\": 1}}, \"x\": 2}")
      normalises

abbrev vars : Json
vars = obj (field "vars" (obj (field "a" (int (pos 1)) end)) end)

flatten_context_paths_lem_example :
    All (Extends "wf") (flatten_context_paths vars "wf")
    × In "wf" (flatten_context_paths vars "wf")
    × Distinct (flatten_context_paths vars "wf")
flatten_context_paths_lem_example = flatten_context_paths_lem vars "wf"

no_object : Readable (some "{]")
unfolding loads
no_object = inr ("invalid JSON", refl)

normalize_context_safe_returns_example : (s : String) × (normalize_context_safe (some "{]") ≡ ok s)
normalize_context_safe_returns_example = normalize_context_safe_returns (some "{]") no_object
