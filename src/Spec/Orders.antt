-- ===== src/Spec/Orders.antt =====
-- What the order of a Python set, and a sentinel, do to the choice of an input path.
use mts_true_tech_hack.Base.{◌≡◌, refl, String, some, List, [], ◌∷◌}
use mts_true_tech_hack.Base.Int.{pos}
use mts_true_tech_hack.Json.{Json, int, obj, end, field}
use mts_true_tech_hack.Spec.Paths.{candidate_parent_path}
use mts_true_tech_hack.Spec.Policy.{resolve_input_path, input_path_not_applicable}

abbrev two_paths : List String
two_paths = "wf" ∷ "wf.vars" ∷ "wf.vars.emails" ∷ "wf.vars.users" ∷ []

candidate_parent_path_emails_first :
    candidate_parent_path two_paths ("emails" ∷ "users" ∷ []) ≡ some "wf.vars.emails"
unfolding candidate_parent_path
candidate_parent_path_emails_first = refl

candidate_parent_path_users_first :
    candidate_parent_path two_paths ("users" ∷ "emails" ∷ []) ≡ some "wf.vars.users"
unfolding candidate_parent_path
candidate_parent_path_users_first = refl

abbrev input_context : Json
input_context =
    obj (field "wf" (obj (field "vars" (obj (field "input" (int (pos 1)) end)) end)) end)

-- A spec agent that says that no input is needed is given the variable `input`.
resolve_input_path_sentinel :
    resolve_input_path
      (λ terms. terms)
      "fibonacci"
      input_context
      input_path_not_applicable
      "f"
      "f"
      "f"
    ≡ some "wf.vars.input"
unfolding resolve_input_path
resolve_input_path_sentinel = refl
