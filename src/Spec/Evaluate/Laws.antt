-- ===== src/Spec/Evaluate/Laws.antt =====
-- What every spec that `evaluate_spec` returns satisfies, and when it raises.
use mathlib.Core.Path.{subst}
use text.Mathlib.TextLemmas.{cons-append}
use Prim.Native.String.{[], ◌∷◌}
use mts_true_tech_hack.Base.{
  String, ◌≡◌, ◌≢◌, refl, ◌↔◌, inl, inr, Bool, true, false, Option, none, some, List, arith, ◌==◌,
  eq_iff, Bool-cases, if◌then◌else◌,
}
use mts_true_tech_hack.Base.Result.{ok, ok-injective}
use mts_true_tech_hack.Text.{◌⊕◌, nonempty, lower, contains_any}
use mts_true_tech_hack.Json.{Json, null, bool, int, float, str, arr, obj, Fields, end, value_or}
use mts_true_tech_hack.Spec.Policy.{
  Target, ask_nothing, ask_goal, ask_return_value, ask_input_path, is_meaningful_goal,
  is_meaningful_return_value, input_path_needs_clarification,
}
use mts_true_tech_hack.Spec.History.{Merged, merge_clarification_history}
use mts_true_tech_hack.Spec.Question.{
  build_question, input_path_question, goal_question, return_question, binary_search_question,
  binary_search_markers, entity_or,
}
use mts_true_tech_hack.Spec.Terms.{extract_entity_hint}
use mts_true_tech_hack.Spec.Evaluate.{
  NormalizedSpec, standalone, Request, is_sentinel, first_blocker, is_blocker, finish_spec,
  raw_fields, evaluate_fields, evaluate_value, evaluate_spec,
}

-- What is missing from a goal, a return value and an input path, the first of it in this order.
abbrev pub Blocks : String → String → String → Target → Type 0
Blocks goal return_value path ask_nothing =
    (is_meaningful_goal goal ≡ true)
    × (is_meaningful_return_value return_value ≡ true)
    × (path ≢ input_path_needs_clarification)
Blocks goal return_value path ask_goal = is_meaningful_goal goal ≡ false
Blocks goal return_value path ask_return_value =
    (is_meaningful_goal goal ≡ true) × (is_meaningful_return_value return_value ≡ false)
Blocks goal return_value path ask_input_path =
    (is_meaningful_goal goal ≡ true)
    × (is_meaningful_return_value return_value ≡ true)
    × (path ≡ input_path_needs_clarification)

-- A question stands in the spec exactly where it names a blocker.
abbrev pub Questions : Target → Option String → Type 0
Questions ask_nothing question = question ≡ none
Questions _ question = (q : String) × (question ≡ some q) × (nonempty q ≡ true)

pub record IsCoherent (s : NormalizedSpec) : Type 0 where
  pub blocks : Blocks s.goal s.return_value s.input_path s.clarification_target
  pub required : s.clarification_required ≡ is_blocker s.clarification_target
  pub needed : s.need_clarification ≡ s.clarification_required
  pub questions : Questions s.clarification_target s.clarification_question
  pub mode : (s.task_mode ≡ standalone) ↔ (is_sentinel s.input_path ≡ true)

nonempty-append : (s t : String) → nonempty s ≡ true → nonempty (s ⊕ t) ≡ true
nonempty-append [] t h = cc
nonempty-append (c ∷ s) t h = rw cons-append refl

path_question_filled :
    (entity : String) (is_ru : Bool) → nonempty (input_path_question entity is_ru) ≡ true
unfolding input_path_question
path_question_filled entity true = nonempty-append "Какой точный Lua path у " _ refl
path_question_filled entity false = nonempty-append "What is the exact Lua path to the " _ refl

goal_question_filled : (is_ru : Bool) → nonempty (goal_question is_ru) ≡ true
goal_question_filled true = refl
goal_question_filled false = refl

return_question_filled :
    (b is_ru : Bool)
    → nonempty (if b then binary_search_question is_ru else return_question is_ru) ≡ true
return_question_filled true true = refl
return_question_filled true false = refl
return_question_filled false true = refl
return_question_filled false false = refl

build_question-Questions :
    (t : Target) (request goal language : String)
    → Questions t (build_question t request goal language)
unfolding build_question
build_question-Questions ask_nothing request goal language = refl
build_question-Questions ask_goal request goal language =
    (goal_question (language == "ru"), refl, goal_question_filled (language == "ru"))
build_question-Questions ask_return_value request goal language = (
  _,
  refl,
  return_question_filled (contains_any binary_search_markers (lower (request ⊕ " " ⊕ goal)))
      (language == "ru"),
)
build_question-Questions ask_input_path request goal language = (
  _,
  refl,
  path_question_filled
      (entity_or (extract_entity_hint request)
        (if language == "ru" then "входных данных" else "input data"))
      (language == "ru"),
)

≢-of-== :
    (p : String)
    → (p == input_path_needs_clarification) ≡ false
    → p ≢ input_path_needs_clarification
≢-of-== p known = ground (arith, eq_iff p input_path_needs_clarification)

first_blocker-Blocks :
    (goal return_value path : String)
    → Blocks goal return_value path (first_blocker goal return_value path)
unfolding first_blocker
first_blocker-Blocks g r p = elim (Bool-cases (is_meaningful_goal g)) [
  | inr no_goal ↦ rw no_goal no_goal
  | inl goal ↦ elim (Bool-cases (is_meaningful_return_value r)) [
    | inr no_return ↦ rw (goal, no_return) (goal, no_return)
    | inl return ↦ elim (Bool-cases (p == input_path_needs_clarification)) [
      | inl needs ↦ rw (goal, return, needs) (goal, return, (eq_iff p _).0 needs)
      | inr known ↦ rw (goal, return, known) (goal, return, ≢-of-== p known)
    ]
  ]
]

module _ (set_order : List String → List String) (r : Request) (parse_failed : Bool) where
  finish_spec-IsCoherent :
      (m : Merged) (output_type transformation path : String)
      → IsCoherent (finish_spec set_order r parse_failed m output_type transformation path)
  unfolding finish_spec
  finish_spec-IsCoherent m output_type transformation path = record {
    blocks = first_blocker-Blocks m.goal m.return_value path;
    required = refl;
    needed = refl;
    questions = build_question-Questions _ r.request m.goal r.dialog_language;
    mode = ground arith;
  }

  fields-IsCoherent : (fs : Fields) → IsCoherent (evaluate_fields set_order r parse_failed fs)
  unfolding evaluate_fields
  fields-IsCoherent fs =
      finish_spec-IsCoherent
        (merge_clarification_history r.history (raw_fields set_order r parse_failed fs)) _ _ _

  value-IsCoherent :
      (v : Json) {s : NormalizedSpec}
      → evaluate_value set_order r parse_failed v ≡ ok s
      → IsCoherent s
  value-IsCoherent (obj fs) h = subst IsCoherent (ok-injective h) (fields-IsCoherent fs)
  value-IsCoherent null h = cc
  value-IsCoherent (bool b) h = cc
  value-IsCoherent (int n) h = cc
  value-IsCoherent (float t) h = cc
  value-IsCoherent (str t) h = cc
  value-IsCoherent (arr vs) h = cc

  -- Every spec that `evaluate_spec` returns is coherent: its target is its first blocker, in the
  -- order goal, return value, input path, it has a question, which is not empty, exactly where it
  -- has a blocker, both flags say whether it has one, and its task mode is "standalone" exactly
  -- where its input path is one of the two sentinels.
  pub evaluate_spec-IsCoherent :
      (raw_spec : Json) {s : NormalizedSpec}
      → evaluate_spec set_order r parse_failed raw_spec ≡ ok s
      → IsCoherent s
  unfolding evaluate_spec
  evaluate_spec-IsCoherent raw_spec h = value-IsCoherent (value_or raw_spec (obj end)) h
