-- ===== src/Service/Proto.antt =====
-- The messages of proto/api/llm/v1/llm.proto as services/llm/main.py reads and writes them.
pub mod RoundTrip
use mts_true_tech_hack.Base.{
  ℕ, ◌^◌, String, Bool, true, false, ◌&&◌, Option, none, some, List, [], ◌∷◌, map, ltb,
  if◌then◌else◌,
}
use mts_true_tech_hack.Base.Int.{ℤ, pos, negsuc}
use mts_true_tech_hack.Base.Result.{Result, ok, raise, other_error, ◌>>=◌}
use mts_true_tech_hack.Text.{nonempty}
use mts_true_tech_hack.Json.{Json, null, bool, int, float, str, arr, obj, truthy}
use mts_true_tech_hack.Json.Dumps.{dumps}
use mts_true_tech_hack.Json.Loads.{loads}
use mts_true_tech_hack.Spec.History.{Entry}
use mts_true_tech_hack.Graph.State.{PipelineState}

-- `llm.v1.ClarificationEntry`
pub record EntryMessage : Type 0 where
  pub question : String
  pub answer : String
  pub target : String

-- `llm.v1.PipelineState`; a field that may be absent (`HasField`) is an option.
pub record StateMessage : Type 0 where
  pub session_id : String
  pub request : String
  pub context : Option String
  pub raw_context_json : Option String
  pub dialog_language : String
  pub clarification_answer : Option String
  pub clarification_question : Option String
  pub clarification_history : List EntryMessage
  pub is_ambiguous : Bool
  pub clarifying : Bool
  pub spec_json : Option String
  pub spec_approved : Bool
  pub code : Option String
  pub generation_attempt : ℤ
  pub validation_success : Bool
  pub validation_output : Option String
  pub validation_error : Option String
  pub phase : String
  pub error : Option String

abbrev pub read_entry : EntryMessage → Entry
read_entry item = record {
  question = str item.question;
  answer = str item.answer;
  target = if nonempty item.target then str item.target else null;
}

abbrev pub read_raw_context : Option String → Result Json
read_raw_context none = ok null
read_raw_context (some s) = loads s

-- The dict of a message, once its context is decoded.
abbrev pub state_with : StateMessage → Json → PipelineState
state_with msg raw_context = record {
  session_id = msg.session_id;
  request = msg.request;
  context = msg.context;
  raw_context = raw_context;
  context_schema = none;
  dialog_language = msg.dialog_language;
  clarification_answer = msg.clarification_answer;
  clarification_question = msg.clarification_question;
  clarification_history = map read_entry msg.clarification_history;
  is_ambiguous = msg.is_ambiguous;
  clarifying = msg.clarifying;
  spec_json = msg.spec_json;
  spec_approved = msg.spec_approved;
  code = msg.code;
  generation_attempt = msg.generation_attempt;
  validation_success = msg.validation_success;
  validation_output = msg.validation_output;
  validation_error = msg.validation_error;
  phase = msg.phase;
  error = msg.error;
}

-- `_proto_state_to_dict`
unfoldable pub proto_state_to_dict : StateMessage → Result PipelineState
unfolding loads
proto_state_to_dict msg =
    read_raw_context msg.raw_context_json >>= (λ raw_context. ok (state_with msg raw_context))

-- A text field refuses a text with a lone surrogate; the texts of the model have none.
-- A string field of a message set to `value or ""`; a value of another type raises.
abbrev pub string_field : Json → Result String
string_field (str s) = ok s
string_field v =
    if truthy v then raise (other_error "bad argument type for built-in operation") else ok ""

abbrev pub write_entry : Entry → Result EntryMessage
write_entry e = do
  question ← string_field e.question
  answer ← string_field e.answer
  target ← string_field e.target
  ok (record { question = question; answer = answer; target = target })

abbrev pub write_history : List Entry → Result (List EntryMessage)
write_history [] = ok []
write_history (e ∷ es) = do item ← write_entry e; rest ← write_history es; ok (item ∷ rest)

-- An int32 field of a message refuses what 32 bits do not hold.
abbrev pub fits_int32 : ℤ → Bool
fits_int32 (pos n) = ltb n (2 ^ 31)
fits_int32 (negsuc n) = ltb n (2 ^ 31)

abbrev pub int32_field : ℤ → Result ℤ
int32_field n = if fits_int32 n then ok n else raise (other_error "Value out of range")

-- `if raw_context is not None: msg.raw_context_json = json.dumps(raw_context, ...)`
abbrev pub write_raw_context : Json → Option String
write_raw_context null = none
write_raw_context v = some (dumps v)

abbrev pub message_with : PipelineState → ℤ → List EntryMessage → StateMessage
message_with s attempt history = record {
  session_id = s.session_id;
  request = s.request;
  context = s.context;
  raw_context_json = write_raw_context s.raw_context;
  dialog_language = s.dialog_language;
  clarification_answer = s.clarification_answer;
  clarification_question = s.clarification_question;
  clarification_history = history;
  is_ambiguous = s.is_ambiguous;
  clarifying = s.clarifying;
  spec_json = s.spec_json;
  spec_approved = s.spec_approved;
  code = s.code;
  generation_attempt = attempt;
  validation_success = s.validation_success;
  validation_output = s.validation_output;
  validation_error = s.validation_error;
  phase = s.phase;
  error = s.error;
}

-- `_dict_to_proto_state`
unfoldable pub dict_to_proto_state : PipelineState → Result StateMessage
unfolding dumps
dict_to_proto_state s = do
  attempt ← int32_field s.generation_attempt
  history ← write_history s.clarification_history
  ok (message_with s attempt history)
