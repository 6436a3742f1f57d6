-- ===== src/Service/Protocol.antt =====
-- The protocol of a session, and that the service follows it. The backend keeps what a call answers
-- with a session, and keeps the old message where the call sets a status or raises.
pub mod Histories
pub mod Follows
use Prim.Native.String.{[], ◌∷◌}
use mathlib.Core.Path.{subst}
use mathlib.Core.List.{[], ◌∷◌, ◌++◌}
use mts_true_tech_hack.Base.{
  ℕ, String, ◌≡◌, refl, sym, ap, ◌∙◌, Bool, true, false, not, ◌||◌, List, map, some, ◌⊎◌, inl, inr,
  ◌==◌, eq_iff, arith, if-cases, if◌then◌else◌,
}
use mts_true_tech_hack.Base.Result.{
  Result, ok, raise, bind-eq-ok, ok-injective, Result-cases, ◌>>=◌,
}
use mts_true_tech_hack.Text.{nonempty}
use mts_true_tech_hack.Json.{Json}
use mts_true_tech_hack.Context.{normalize_context_safe}
use mts_true_tech_hack.Graph.State.{PipelineState, Env}
use mts_true_tech_hack.Graph.Run.History.{invoke_same_history}
use mts_true_tech_hack.Graph.Run.Outcomes.{IsTerminal}
use mts_true_tech_hack.Service.Proto.{
  StateMessage, EntryMessage, read_entry, state_with, write_history,
}
use mts_true_tech_hack.Service.Proto.RoundTrip.{
  proto_state_to_dict_then, write_history-append, write_history-map-read_entry,
}
use mts_true_tech_hack.Service.{
  Response, session, invalid_argument, failed_precondition, make_initial_state, run_pipeline,
  resumed, answered_entry, continue_session, start_session, handle_state, handle_answer,
  start_or_continue, answer_clarification, failed,
}
use mts_true_tech_hack.Service.Laws.{
  Writes, run_pipeline_answers, run_pipeline-IsTerminal, state_to_response-Writes,
}
use mts_true_tech_hack.Service.Calls.{
  handle_answer_ran, start_or_continue-IsTerminal, answer_clarification-IsTerminal,
}
use mts_true_tech_hack.Service.Answers.{written_answer}

-- The abstract session: its stage, and the answers that the user has given.
pub data Stage : Type 0 where
  opened waiting finished broken : Stage

pub record Dialogue : Type 0 where
  pub stage : Stage
  pub answers : List String

abbrev pub stage_of : String → Stage
stage_of phase =
    if phase == "clarification_needed"
    then waiting
    else if phase == "done"
    then finished
    else if phase == "error"
    then broken
    else opened

abbrev pub dialogue_of : StateMessage → Dialogue
dialogue_of m = record {
  stage = stage_of m.phase;
  answers = map (λ (e : EntryMessage). e.answer) m.clarification_history;
}

pub data Call : Type 0 where
  request : Call
  answer : String → Call

-- What a call may do to a session: nothing; a session that was only opened runs, with no answers; a
-- session that waits for an answer takes it as its last one and runs. A run leaves no session open.
abbrev pub Closed : Stage → Type 0
Closed opened = ⊥
Closed _ = Unit

pub data Step : Dialogue → Call → Dialogue → Type 0 where
  stay : {d : Dialogue} {c : Call} → Step d c d
  begin :
      {st : Stage}
      → Closed st
      → Step (record { stage = opened; answers = [] }) request (record { stage = st; answers = [] })
  take :
      {answers : List String} {text : String} {st : Stage}
      → Closed st
      → Step
          (record { stage = waiting; answers = answers })
          (answer text)
          (record { stage = st; answers = answers ++ text ∷ [] })

pub data Steps : Dialogue → List Call → Dialogue → Type 0 where
  rest : {d : Dialogue} → Steps d [] d
  then_step :
      {d e f : Dialogue} {c : Call} {cs : List Call}
      → Step d c e
      → Steps e cs f
      → Steps d (c ∷ cs) f

-- The message that the backend keeps after a call, and after one call after the other.
abbrev pub kept_of : StateMessage → Result Response → StateMessage
kept_of m (ok (session m')) = m'
kept_of m (ok (invalid_argument details)) = m
kept_of m (ok (failed_precondition details)) = m
kept_of m (raise e) = m

abbrev pub called : Env → ℕ → Call → StateMessage → Result Response
called env limit request m = start_or_continue env limit (some m)
called env limit (answer text) m = answer_clarification env limit m.session_id text (some m)

abbrev pub serve : Env → ℕ → List Call → StateMessage → StateMessage
serve env limit [] m = m
serve env limit (c ∷ cs) m = serve env limit cs (kept_of m (called env limit c m))

-- The messages of a session: the one that the backend makes of a request, and those that came back.
pub data Sound (m : StateMessage) : Type 0 where
  fresh : m.phase ≡ "" → m.clarification_history ≡ [] → Sound m
  closed : IsTerminal m.phase → Sound m

stage_of-Closed : (phase : String) → IsTerminal phase → Closed (stage_of phase)
stage_of-Closed phase (inl h) = rw h tt
stage_of-Closed phase (inr (inl h)) = rw h tt
stage_of-Closed phase (inr (inr h)) = rw h tt
