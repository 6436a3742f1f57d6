-- ===== src/Spec/Decision/Laws.antt =====
-- When the clarifier asks, blocks and approves.
use mts_true_tech_hack.Base.{String, ◌≡◌, true, false, Option, some, List, arith}
use mts_true_tech_hack.Text.{nonempty}
use mts_true_tech_hack.Spec.History.{Entry}
use mts_true_tech_hack.Spec.Evaluate.{NormalizedSpec}
use mts_true_tech_hack.Spec.Decision.{
  approved, question, blocked, was_asked, question_was_already_asked, build_clarifier_decision,
}

-- The spec has a blocker, with the question `q` about it.
pub record Asks (spec : NormalizedSpec) (q : String) : Type 0 where
  pub required : spec.clarification_required ≡ true
  pub asked : spec.clarification_question ≡ some q
  pub filled : nonempty q ≡ true

module _ (spec : NormalizedSpec) (history : List Entry) where
  -- A question that the clarifier decides on is the one of a spec that has a blocker, it is not
  -- empty, no entry of the history has asked it, and its reason is the spec's.
  pub question_sound :
      (q : String) (reason : Option String)
      → build_clarifier_decision spec history ≡ question q reason
      → Asks spec q × (was_asked q history ≡ false) × (reason ≡ spec.clarification_reason)
  unfolding build_clarifier_decision question_was_already_asked
  question_sound q reason h = ground arith

  -- The clarifier blocks only where the spec has a blocker whose question the history has asked.
  pub blocked_sound :
      (reason : String)
      → build_clarifier_decision spec history ≡ blocked reason
      → (q : String) × Asks spec q × (was_asked q history ≡ true)
  unfolding build_clarifier_decision question_was_already_asked
  blocked_sound reason h = ground arith

  -- A spec that the clarifier approves has no question left to ask.
  pub approved_sound :
      build_clarifier_decision spec history ≡ approved → (q : String) → ¬ Asks spec q
  unfolding build_clarifier_decision question_was_already_asked
  approved_sound h q a = ground arith
