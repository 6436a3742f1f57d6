-- ===== src/Service/Protocol/Follows.antt =====
-- Every call of the service is a step of the protocol.
use Prim.Native.String.{[], ◌∷◌}
use mathlib.Core.List.{[], ◌∷◌, ◌++◌}
use mts_true_tech_hack.Base.{ℕ, String, ◌≡◌, refl, sym, ap, ◌∙◌, List, map, some}
use mts_true_tech_hack.Base.Result.{Result, ok, raise, ok-injective}
use mts_true_tech_hack.Graph.State.{Env}
use mts_true_tech_hack.Graph.Run.Outcomes.{IsTerminal}
use mts_true_tech_hack.Service.Proto.{StateMessage, EntryMessage, state_with}
use mts_true_tech_hack.Service.Proto.RoundTrip.{
  proto_state_to_dict_then, write_history-append, write_history-map-read_entry,
}
use mts_true_tech_hack.Service.{
  Response, session, invalid_argument, failed_precondition, resumed, answered_entry, handle_state,
  handle_answer, start_or_continue, answer_clarification,
}
use mts_true_tech_hack.Service.Calls.{
  handle_answer_ran, start_or_continue-IsTerminal, answer_clarification-IsTerminal,
}
use mts_true_tech_hack.Service.Answers.{written_answer}
use mts_true_tech_hack.Service.Protocol.{
  Dialogue, stage_of, dialogue_of, Call, request, answer, Step, stay, begin, take, Steps, rest,
  then_step, kept_of, called, serve, Sound, fresh, closed, stage_of-Closed,
}
use mts_true_tech_hack.Service.Protocol.Histories.{run_history, fresh_history, terminal_answers}

-- The steps between dialogues that are given by a phase and the answers.
abbrev at : String → List String → Dialogue
at phase answers = record { stage = stage_of phase; answers = answers }

stay_at :
    (p q : String) (xs ys : List String) (c : Call) → q ≡ p → ys ≡ xs → Step (at p xs) c (at q ys)
stay_at p q xs ys c hp hx = rw (hp, hx) stay

begin_at :
    (p q : String) (xs ys : List String)
    → p ≡ ""
    → xs ≡ []
    → IsTerminal q
    → ys ≡ []
    → Step (at p xs) request (at q ys)
begin_at p q xs ys hp hx t hy = rw (hp, hx, hy) (begin (stage_of-Closed q t))

take_at :
    (p q : String) (xs ys : List String) (text : String)
    → p ≡ "clarification_needed"
    → IsTerminal q
    → ys ≡ xs ++ text ∷ []
    → Step (at p xs) (answer text) (at q ys)
take_at p q xs ys text hp t hy = rw (hp, hy) (take (stage_of-Closed q t))

abbrev answers_of : List EntryMessage → List String
answers_of items = map (λ (e : EntryMessage). e.answer) items

answers_of-append :
    (items : List EntryMessage) (item : EntryMessage)
    → answers_of (items ++ item ∷ []) ≡ answers_of items ++ item.answer ∷ []
answers_of-append [] item = refl
answers_of-append (i ∷ items) item =
    ap (λ (xs : List String). i.answer ∷ xs) (answers_of-append items item)

module _ (env : Env) (limit : ℕ) where
  start-Step :
      (m : StateMessage) {m' : StateMessage}
      → Sound m
      → start_or_continue env limit (some m) ≡ ok (session m')
      → Step (dialogue_of m) request (dialogue_of m')
  unfolding start_or_continue
  start-Step m {m'} (fresh p none_yet) h =
      let (raw, decoded, h') = proto_state_to_dict_then m (handle_state env limit) h in
      begin_at m.phase m'.phase (answers_of m.clarification_history)
        (answers_of m'.clarification_history) p (ap answers_of none_yet)
        (start_or_continue-IsTerminal env limit m {m = m'} h).0
        (ap answers_of (fresh_history env limit (state_with m raw) {m = m'} p h'))
  start-Step m {m'} (closed t) h =
      let (raw, decoded, h') = proto_state_to_dict_then m (handle_state env limit) h in
      let w = terminal_answers env limit (state_with m raw) {m = m'} t h' in
      let same =
        ok-injective
          (sym w.history_written ∙ write_history-map-read_entry m.clarification_history) in
      stay_at m.phase m'.phase (answers_of m.clarification_history)
        (answers_of m'.clarification_history) request w.same_phase (ap answers_of same)

  answer-Step :
      (m : StateMessage) (text : String) {m' : StateMessage}
      → answer_clarification env limit m.session_id text (some m) ≡ ok (session m')
      → Step (dialogue_of m) (answer text) (dialogue_of m')
  unfolding answer_clarification
  answer-Step m text {m'} h =
      let (raw, decoded, h') =
        proto_state_to_dict_then m (handle_answer env limit m.session_id text) h in
      let (p, target, found, ran) =
        handle_answer_ran env limit m.session_id text (state_with m raw) {m = m'} h' in
      let entry = answered_entry (state_with m raw) text target in
      let (item, wrote, appended) =
        write_history-append m.clarification_history entry
          (run_history env limit _ (resumed (state_with m raw) text target) {m = m'} ran) in
      let same : item.answer ≡ text = ok-injective (sym (written_answer entry wrote)) in
      take_at m.phase m'.phase (answers_of m.clarification_history)
        (answers_of m'.clarification_history) text p
        (answer_clarification-IsTerminal env limit m.session_id text m {m = m'} h).1
        (ap answers_of appended
          ∙ answers_of-append m.clarification_history item
          ∙ ap (λ t. answers_of m.clarification_history ++ t ∷ []) same)

  kept-Step :
      (m : StateMessage) (c : Call) (r : Result Response)
      → ((m' : StateMessage) → r ≡ ok (session m') → Step (dialogue_of m) c (dialogue_of m'))
      → Step (dialogue_of m) c (dialogue_of (kept_of m r))
  kept-Step m c (ok (session m')) h = h m' refl
  kept-Step m c (ok (invalid_argument details)) h = stay
  kept-Step m c (ok (failed_precondition details)) h = stay
  kept-Step m c (raise e) h = stay

  kept-Sound :
      (m : StateMessage) (r : Result Response)
      → Sound m
      → ((m' : StateMessage) → r ≡ ok (session m') → IsTerminal m'.phase)
      → Sound (kept_of m r)
  kept-Sound m (ok (session m')) s h = closed (h m' refl)
  kept-Sound m (ok (invalid_argument details)) s h = s
  kept-Sound m (ok (failed_precondition details)) s h = s
  kept-Sound m (raise e) s h = s

  called-Step :
      (m : StateMessage) (c : Call)
      → Sound m
      → Step (dialogue_of m) c (dialogue_of (kept_of m (called env limit c m)))
        × Sound (kept_of m (called env limit c m))
  called-Step m request s =
      let r = start_or_continue env limit (some m) in
      (
        kept-Step m request r (λ m' h. start-Step m {m' = m'} s h),
        kept-Sound m r s (λ m' h. (start_or_continue-IsTerminal env limit m {m = m'} h).0),
      )
  called-Step m (answer text) s =
      let r = answer_clarification env limit m.session_id text (some m) in
      (
        kept-Step m (answer text) r (λ m' h. answer-Step m text {m' = m'} h),
        kept-Sound m r s
            (λ m' h. (answer_clarification-IsTerminal env limit m.session_id text m {m = m'} h).1),
      )

  -- The service refines the protocol of a session: from a message that the backend makes of a
  -- request, or one that the service has sent, every sequence of calls is one of steps of the
  -- protocol. A session that was opened runs once by a request; after that each run takes one answer
  -- more, in the order of the calls and only where a question waits for it; a session that is
  -- finished or broken stays as it is; and no run leaves the session open.
  pub serve-Steps :
      (cs : List Call) (m : StateMessage)
      → Sound m
      → Steps (dialogue_of m) cs (dialogue_of (serve env limit cs m))
  serve-Steps [] m s = rest
  serve-Steps (c ∷ cs) m s =
      let (step, sound) = called-Step m c s in
      then_step step (serve-Steps cs (kept_of m (called env limit c m)) sound)
