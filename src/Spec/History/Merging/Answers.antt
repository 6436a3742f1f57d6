-- ===== src/Spec/History/Merging/Answers.antt =====
-- The answers of the dialogue about one target, and what one of them makes of a spec.
use mathlib.Core.List.{[], ◌∷◌}
use mts_true_tech_hack.Base.{
  String, ◌≡◌, refl, ap, ◌∙◌, Bool, true, false, ◌&&◌, List, ◌==◌, eq_iff, arith, Bool-cases, inl,
  inr, if◌then◌else◌,
}
use mts_true_tech_hack.Text.{nonempty}
use mts_true_tech_hack.Json.{Json, null, bool, int, float, str, arr, obj}
use mts_true_tech_hack.Spec.Terms.{clean_text}
use mts_true_tech_hack.Spec.Policy.{is_meaningful_goal, is_meaningful_return_value}
use mts_true_tech_hack.Spec.History.{
  Entry, Merged, is_text, entry_target, answered_path, merge_answer,
}

-- The answers of the dialogue about one target, in their order and without those that are blank.
unfoldable pub answers_about : String → List Entry → List String
answers_about target [] = []
answers_about target (e ∷ es) =
    let rest = answers_about target es in
    if nonempty (clean_text e.answer) && is_text target (entry_target e)
    then clean_text e.answer ∷ rest
    else rest

-- The first text that passes a test, or the last one where none does.
unfoldable pub first_that : (String → Bool) → String → List String → String
first_that p s [] = s
first_that p s (t ∷ ts) = let later = first_that p t ts in if p s then s else later

-- The path that the answers about it leave, one after the other.
unfoldable pub path_after : String → List String → String
path_after input_path [] = input_path
path_after input_path (answer ∷ answers) = path_after (answered_path answer input_path) answers

abbrev pub some_answer : List String → Bool
some_answer [] = false
some_answer (s ∷ ss) = true

-- A value is one text at most.
pub one_text :
    (a b : String) (v : Json) → (a == b) ≡ false → is_text a v ≡ true → is_text b v ≡ false
one_text a b (str t) h k = ap (λ (t : String). t == b) ((eq_iff t a).0 k) ∙ h
one_text a b null h k = refl
one_text a b (bool x) h k = refl
one_text a b (int n) h k = refl
one_text a b (float t) h k = refl
one_text a b (arr xs) h k = refl
one_text a b (obj fs) h k = refl

module _ (answer : String) (target : Json) (m : Merged) where
  pub goal_answered :
      is_text "goal" target ≡ true
      → (merge_answer answer target m).goal ≡ (if is_meaningful_goal m.goal then m.goal else answer)
  unfolding merge_answer
  goal_answered h = ground arith

  pub goal_left : is_text "goal" target ≡ false → (merge_answer answer target m).goal ≡ m.goal
  unfolding merge_answer
  goal_left h = ground arith

  pub return_answered :
      is_text "goal" target ≡ false
      → is_text "return_value" target ≡ true
      → (merge_answer answer target m).return_value
        ≡ (if is_meaningful_return_value m.return_value then m.return_value else answer)
  unfolding merge_answer
  return_answered g h = ground arith

  pub return_left :
      is_text "return_value" target ≡ false
      → (merge_answer answer target m).return_value ≡ m.return_value
  unfolding merge_answer
  return_left h = ground arith

  pub path_answered :
      is_text "goal" target ≡ false
      → is_text "return_value" target ≡ false
      → is_text "input_path" target ≡ true
      → merge_answer answer target m
        ≡ record m { answer_seen = true; input_path = answered_path answer m.input_path }
  unfolding merge_answer
  path_answered g r h = rw (g, r, h) refl

  pub path_left :
      is_text "input_path" target ≡ false → (merge_answer answer target m).input_path ≡ m.input_path
  unfolding merge_answer
  path_left h = ground arith

  pub seen_left :
      is_text "input_path" target ≡ false
      → (merge_answer answer target m).answer_seen ≡ m.answer_seen
  unfolding merge_answer
  seen_left h = ground arith

pub first_that_step :
    (p : String → Bool) (s t : String) (ts : List String)
    → first_that p (if p s then s else t) ts ≡ first_that p s (t ∷ ts)
unfolding first_that
first_that_step p s t [] = elim (Bool-cases (p s)) [ inl e ↦ rw e refl | inr e ↦ rw e refl ]
first_that_step p s t (u ∷ us) = elim (Bool-cases (p s)) [
  | inl e ↦ rw (e, e) refl
  | inr e ↦ rw e refl
]
