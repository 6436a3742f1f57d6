-- ===== src/Service/Total.antt =====
-- That the calls of services/llm/main.py answer, whatever the models and the Lua services do.
use mts_true_tech_hack.Base.{
  ℕ, String, ◌≡◌, refl, Bool, true, false, not, ◌||◌, Option, none, some, List, [], ◌==◌,
  if◌then◌else◌,
}
use mts_true_tech_hack.Base.Result.{Result, ok, raise, ◌>>=◌}
use mts_true_tech_hack.Text.{nonempty}
use mts_true_tech_hack.Json.{Json}
use mts_true_tech_hack.Context.{normalize_context_safe}
use mts_true_tech_hack.Context.Total.{Readable, normalize_context_safe_returns}
use mts_true_tech_hack.Graph.State.{PipelineState, Env}
use mts_true_tech_hack.Graph.Nodes.{text_of}
use mts_true_tech_hack.Graph.Run.{invoke}
use mts_true_tech_hack.Service.Proto.{
  StateMessage, EntryMessage, read_raw_context, state_with, proto_state_to_dict,
  dict_to_proto_state, write_history, write_entry, string_field, fits_int32, int32_field,
}
use mts_true_tech_hack.Service.Proto.RoundTrip.{
  write_history-map-read_entry, write_history-append_one, int32_kept,
}
use mts_true_tech_hack.Service.{
  Response, invalid_argument, failed_precondition, state_to_response, make_initial_state, failed,
  or_failed, run_pipeline, continue_session, start_session, handle_state, start_or_continue,
  handle_answer, answer_clarification, either_id, current_target, resumed, answered_entry,
  resume_with_clarification, json_text,
}

-- The call does not raise.
abbrev Answers : Result Response → Type 0
Answers (ok r) = Unit
Answers (raise e) = ⊥

if-Answers :
    (b : Bool) (x y : Result Response) → Answers x → Answers y → Answers (if b then x else y)
if-Answers true x y h k = h
if-Answers false x y h k = k

-- What of a state a message can hold.
record Fits (s : PipelineState) : Type 0 where
  entries : List EntryMessage
  written : write_history s.clarification_history ≡ ok entries
  counted : int32_field s.generation_attempt ≡ ok s.generation_attempt

state_to_response-Answers :
    (id : String) (s : PipelineState) → Fits s → Answers (state_to_response id s)
unfolding state_to_response dict_to_proto_state
state_to_response-Answers id s f = rw (f.counted, f.written) tt

or_failed-Answers :
    (id : String) (s : PipelineState) (a : Result Response) → Fits s → Answers (or_failed id s a)
or_failed-Answers id s (ok r) f = tt
or_failed-Answers id s (raise e) f =
    state_to_response-Answers id (failed s e)
      (record { entries = f.entries; written = f.written; counted = f.counted })

question_written : (o : Option String) → string_field (json_text o) ≡ ok (text_of o)
question_written none = refl
question_written (some s) = refl

module _ (env : Env) (limit : ℕ) where
  run_pipeline-Answers :
      (id : String) (s : PipelineState) → Fits s → Answers (run_pipeline env limit id s)
  unfolding run_pipeline
  run_pipeline-Answers id s f =
      or_failed-Answers id s (invoke env limit s >>= state_to_response id) f

  continue_session-Answers : (s : PipelineState) → Fits s → Answers (continue_session env limit s)
  unfolding continue_session
  continue_session-Answers s f =
      let id = s.session_id in
      if-Answers (s.phase == "clarification_needed")
        (ok (failed_precondition "Session is waiting for AnswerClarification")) _ tt
        (if-Answers (s.phase == "done" || s.phase == "error") (state_to_response id s)
          (run_pipeline env limit id s) (state_to_response-Answers id s f)
          (run_pipeline-Answers id s f))

  new_session-Answers :
      (s : PipelineState) (r : Result PipelineState) (context : String)
      → normalize_context_safe s.context ≡ ok context
      → r ≡ make_initial_state s.session_id s.request s.context
      → Answers (r >>= run_pipeline env limit s.session_id)
  unfolding make_initial_state
  new_session-Answers s r context normalised e =
      rw (e, normalised)
        (run_pipeline-Answers s.session_id _
          (record { entries = []; written = refl; counted = refl }))

  start_session-Answers :
      (s : PipelineState) → Readable s.context → Answers (start_session env limit s)
  unfolding start_session
  start_session-Answers s h =
      let (context, normalised) = normalize_context_safe_returns s.context h in
      new_session-Answers s _ context normalised refl

  handle_state-Answers :
      (s : PipelineState) → Readable s.context → Fits s → Answers (handle_state env limit s)
  unfolding handle_state
  handle_state-Answers s h f =
      if-Answers (not (nonempty s.session_id))
        (ok (invalid_argument "pipeline_state.session_id is required")) _ tt
        (if-Answers (nonempty s.phase) (continue_session env limit s) (start_session env limit s)
          (continue_session-Answers s f) (start_session-Answers s h))

  read_then-Answers :
      (msg : StateMessage) (raw : Json)
      → read_raw_context msg.raw_context_json ≡ ok raw
      → Answers (handle_state env limit (state_with msg raw))
      → Answers (proto_state_to_dict msg >>= handle_state env limit)
  unfolding proto_state_to_dict
  read_then-Answers msg raw decoded h = rw decoded h

  answered : (call : Result Response) → Answers call → (r : Response) × (call ≡ ok r)
  answered (ok r) h = (r, refl)
  answered (raise e) h = absurd h

  -- `StartOrContinue` answers every message whose context text decodes or is no JSON, whose raw
  -- context decodes or is absent, and whose count of attempts is one of an int32 field: no exception
  -- of a model, of a Lua service or of a node leaves it.
  pub start_or_continue_returns :
      (msg : StateMessage) (raw_context : Json)
      → Readable msg.context
      → read_raw_context msg.raw_context_json ≡ ok raw_context
      → fits_int32 msg.generation_attempt ≡ true
      → (r : Response) × (start_or_continue env limit (some msg) ≡ ok r)
  unfolding start_or_continue
  start_or_continue_returns msg raw_context readable decoded fits =
      let f : Fits (state_with msg raw_context) = record {
        entries = msg.clarification_history;
        written = write_history-map-read_entry msg.clarification_history;
        counted = int32_kept msg.generation_attempt fits;
      } in
      answered (proto_state_to_dict msg >>= handle_state env limit) (
        read_then-Answers msg raw_context decoded
          (handle_state-Answers (state_with msg raw_context) readable f))

  -- What the entry of an answer is written as.
  entry_written :
      (s : PipelineState) (answer : String) (target : Json) (name : String)
      → string_field target ≡ ok name
      → write_entry (answered_entry s answer target)
        ≡ ok
            (record { question = text_of s.clarification_question; answer = answer; target = name })
  entry_written s answer target name h = rw (question_written s.clarification_question, h) refl

  handle_answer-Answers :
      (request_id answer : String) (s : PipelineState) (target : Json)
      → current_target s ≡ ok target
      → Fits (resumed s answer target)
      → Answers (handle_answer env limit request_id answer s)
  unfolding handle_answer resume_with_clarification
  handle_answer-Answers request_id answer s target found f =
      let id = either_id env limit request_id s.session_id in
      let run_it = run_pipeline-Answers id (resumed s answer target) f in
      if-Answers (not (nonempty id)) (ok (invalid_argument "session_id is required")) _ tt (
        if-Answers (not (s.phase == "clarification_needed"))
          (ok (failed_precondition "Session is not waiting for clarification")) _ tt
          (rw found run_it))

  read_answer-Answers :
      (request_id answer : String) (msg : StateMessage) (raw : Json)
      → read_raw_context msg.raw_context_json ≡ ok raw
      → Answers (handle_answer env limit request_id answer (state_with msg raw))
      → Answers (proto_state_to_dict msg >>= handle_answer env limit request_id answer)
  unfolding proto_state_to_dict
  read_answer-Answers request_id answer msg raw decoded h = rw decoded h

  pub answer_clarification_returns :
      (request_id answer : String) (msg : StateMessage) (raw_context target : Json) (name : String)
      → read_raw_context msg.raw_context_json ≡ ok raw_context
      → fits_int32 msg.generation_attempt ≡ true
      → current_target (state_with msg raw_context) ≡ ok target
      → string_field target ≡ ok name
      → (r : Response) × (answer_clarification env limit request_id answer (some msg) ≡ ok r)
  unfolding answer_clarification
  answer_clarification_returns request_id answer msg raw_context target name decoded fits found
        named =
      let s = state_with msg raw_context in
      let f : Fits (resumed s answer target) = record {
        entries = _;
        written =
            write_history-append_one msg.clarification_history (answered_entry s answer target) _
              (entry_written s answer target name named);
        counted = int32_kept msg.generation_attempt fits;
      } in
      answered (proto_state_to_dict msg >>= handle_answer env limit request_id answer) (
        read_answer-Answers request_id answer msg raw_context decoded
          (handle_answer-Answers request_id answer s target found f))
