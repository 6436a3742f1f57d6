-- ===== src/Spec/History/Merging.antt =====
-- What the answers of the dialogue make of a spec, field by field.
pub mod Answers
use mathlib.Core.List.{[], ◌∷◌}
use mts_true_tech_hack.Base.{
  String, ◌≡◌, refl, ap, ◌∙◌, Bool, true, false, ◌&&◌, ◌||◌, List, ◌==◌, eq_iff, arith, Bool-cases,
  inl, inr, if_true, if_false, if◌then◌else◌,
}
use mts_true_tech_hack.Text.{nonempty}
use mts_true_tech_hack.Json.{Json, null, bool, int, float, str, arr, obj}
use mts_true_tech_hack.Spec.Terms.{clean_text}
use mts_true_tech_hack.Spec.Policy.{is_meaningful_goal, is_meaningful_return_value}
use mts_true_tech_hack.Spec.History.{
  Entry, Merged, is_text, entry_target, answered_path, merge_answer, merge_entry,
  merge_clarification_history,
}
use mts_true_tech_hack.Spec.History.Merging.Answers.{
  answers_about, first_that, path_after, some_answer, one_text, goal_answered, goal_left,
  return_answered, return_left, path_answered, path_left, seen_left, first_that_step,
}

-- `n` is what the dialogue makes of `m`.
pub record IsMerged (history : List Entry) (m n : Merged) : Type 0 where
  pub goal : n.goal ≡ first_that is_meaningful_goal m.goal (answers_about "goal" history)
  pub return_value :
      n.return_value
      ≡ first_that is_meaningful_return_value m.return_value (answers_about "return_value" history)
  pub input_path : n.input_path ≡ path_after m.input_path (answers_about "input_path" history)
  pub answer_seen :
      n.answer_seen ≡ (m.answer_seen || some_answer (answers_about "input_path" history))

or_true : (b : Bool) → true ≡ (b || true)
or_true true = refl
or_true false = refl

or_nothing : (b : Bool) → b ≡ (b || false)
or_nothing true = refl
or_nothing false = refl

module _ (m : Merged) (e : Entry) where
  entry_filled :
      nonempty (clean_text e.answer) ≡ true
      → merge_entry m e ≡ merge_answer (clean_text e.answer) (entry_target e) m
  unfolding merge_entry
  entry_filled h = if_true (nonempty (clean_text e.answer)) _ _ h

  entry_blank : nonempty (clean_text e.answer) ≡ false → merge_entry m e ≡ m
  unfolding merge_entry
  entry_blank h = if_false (nonempty (clean_text e.answer)) _ _ h

  goal_step :
      (es : List Entry)
      → first_that is_meaningful_goal (merge_entry m e).goal (answers_about "goal" es)
        ≡ first_that is_meaningful_goal m.goal (answers_about "goal" (e ∷ es))
  unfolding answers_about
  goal_step es =
      let from = λ (goal : String). first_that is_meaningful_goal goal (answers_about "goal" es) in
      elim (Bool-cases (nonempty (clean_text e.answer))) [
        | inr blank ↦ rw blank (ap (λ (n : Merged). from n.goal) (entry_blank blank))
        | inl filled ↦ elim (Bool-cases (is_text "goal" (entry_target e))) [
          | inl g ↦
              rw (filled, g)
                (ap (λ (n : Merged). from n.goal) (entry_filled filled)
                  ∙ ap from (goal_answered (clean_text e.answer) (entry_target e) m g)
                  ∙ first_that_step is_meaningful_goal m.goal (clean_text e.answer)
                      (answers_about "goal" es))
          | inr g ↦
              rw (filled, g)
                (ap (λ (n : Merged). from n.goal) (entry_filled filled)
                  ∙ ap from (goal_left (clean_text e.answer) (entry_target e) m g))
        ]
      ]

  return_step :
      (es : List Entry)
      → first_that is_meaningful_return_value
          (merge_entry m e).return_value
          (answers_about "return_value" es)
        ≡ first_that is_meaningful_return_value m.return_value
            (answers_about "return_value" (e ∷ es))
  unfolding answers_about
  return_step es =
      let from =
        λ (v : String). first_that is_meaningful_return_value v (answers_about "return_value" es) in
      elim (Bool-cases (nonempty (clean_text e.answer))) [
        | inr blank ↦ rw blank (ap (λ (n : Merged). from n.return_value) (entry_blank blank))
        | inl filled ↦ elim (Bool-cases (is_text "return_value" (entry_target e))) [
          | inl r ↦
              let g = one_text "return_value" "goal" (entry_target e) refl r in
              rw (filled, r)
                (ap (λ (n : Merged). from n.return_value) (entry_filled filled)
                  ∙ ap from (return_answered (clean_text e.answer) (entry_target e) m g r)
                  ∙ first_that_step is_meaningful_return_value m.return_value (clean_text e.answer)
                      (answers_about "return_value" es))
          | inr r ↦
              rw (filled, r)
                (ap (λ (n : Merged). from n.return_value) (entry_filled filled)
                  ∙ ap from (return_left (clean_text e.answer) (entry_target e) m r))
        ]
      ]

  path_hit :
      nonempty (clean_text e.answer) ≡ true
      → is_text "input_path" (entry_target e) ≡ true
      → merge_entry m e ≡ record m {
        answer_seen = true;
        input_path = answered_path (clean_text e.answer) m.input_path;
      }
  path_hit filled i =
      entry_filled filled
      ∙ path_answered (clean_text e.answer) (entry_target e) m
          (one_text "input_path" "goal" (entry_target e) refl i)
          (one_text "input_path" "return_value" (entry_target e) refl i) i

  path_step :
      (es : List Entry)
      → path_after (merge_entry m e).input_path (answers_about "input_path" es)
        ≡ path_after m.input_path (answers_about "input_path" (e ∷ es))
  unfolding answers_about path_after
  path_step es =
      let from = λ (n : Merged). path_after n.input_path (answers_about "input_path" es) in
      elim (Bool-cases (nonempty (clean_text e.answer))) [
        | inr blank ↦ rw blank (ap from (entry_blank blank))
        | inl filled ↦ elim (Bool-cases (is_text "input_path" (entry_target e))) [
          | inl i ↦ rw (filled, i) (ap from (path_hit filled i))
          | inr i ↦
              rw (filled, i)
                (ap from (entry_filled filled)
                  ∙ ap (λ (path : String). path_after path (answers_about "input_path" es))
                      (path_left (clean_text e.answer) (entry_target e) m i))
        ]
      ]

  seen_step :
      (es : List Entry)
      → ((merge_entry m e).answer_seen || some_answer (answers_about "input_path" es))
        ≡ (m.answer_seen || some_answer (answers_about "input_path" (e ∷ es)))
  unfolding answers_about
  seen_step es =
      let from = λ (n : Merged). n.answer_seen || some_answer (answers_about "input_path" es) in
      elim (Bool-cases (nonempty (clean_text e.answer))) [
        | inr blank ↦ rw blank (ap from (entry_blank blank))
        | inl filled ↦ elim (Bool-cases (is_text "input_path" (entry_target e))) [
          | inl i ↦ rw (filled, i) (ap from (path_hit filled i) ∙ or_true m.answer_seen)
          | inr i ↦
              rw (filled, i)
                (ap from (entry_filled filled)
                  ∙ ap (λ b. b || some_answer (answers_about "input_path" es))
                      (seen_left (clean_text e.answer) (entry_target e) m i))
        ]
      ]

  merged_step :
      (es : List Entry) (n : Merged) → IsMerged es (merge_entry m e) n → IsMerged (e ∷ es) m n
  merged_step es n h = record {
    goal = h.goal ∙ goal_step es;
    return_value = h.return_value ∙ return_step es;
    input_path = h.input_path ∙ path_step es;
    answer_seen = h.answer_seen ∙ seen_step es;
  }

-- The dialogue settles each field by the answers about it, in their order: the goal is the first
-- meaningful text among the spec's goal and the answers about it, or the last of these where none is
-- meaningful, and the return value alike; the input path is what the answers about it make of it one
-- after the other; and an answer about it is seen where there is one. A blank answer counts for none.
pub merge_clarification_history-IsMerged :
    (history : List Entry) (m : Merged) → IsMerged history m (merge_clarification_history history m)
unfolding merge_clarification_history answers_about first_that path_after
merge_clarification_history-IsMerged [] m = record {
  goal = refl;
  return_value = refl;
  input_path = refl;
  answer_seen = or_nothing m.answer_seen;
}
merge_clarification_history-IsMerged (e ∷ es) m =
    merged_step m e es _ (merge_clarification_history-IsMerged es (merge_entry m e))
