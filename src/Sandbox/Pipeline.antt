-- ===== src/Sandbox/Pipeline.antt =====
-- The pipeline of services/llm with the Lua validator of services/lua-validator behind its client.
use mts_true_tech_hack.Base.{ℕ, String, ◌≡◌, refl, sym, ap, ◌∙◌, true, some}
use mts_true_tech_hack.Base.Int.{ℤ, pos}
use mts_true_tech_hack.Base.Result.{Result, ok, raise, ok-injective}
use mts_true_tech_hack.Json.{str, obj, Fields, end, field, has_key}
use mts_true_tech_hack.Json.Loads.{loads}
use mts_true_tech_hack.Json.Dumps.{dumps_ascii}
use mts_true_tech_hack.Json.RoundTrip.Plain.{IsPlain}
use mts_true_tech_hack.Json.RoundTrip.Whole.{loads-dumps_ascii}
use mts_true_tech_hack.Context.{normalize_context_safe}
use mts_true_tech_hack.Graph.State.{PipelineState, CheckResponse, ValidateResponse, Env}
use mts_true_tech_hack.Graph.Nodes.{text_of}
use mts_true_tech_hack.Graph.Run.{invoke}
use mts_true_tech_hack.Graph.Run.Validated.{IsValidated, invoke_done-IsValidated}
use mts_true_tech_hack.Sandbox.{
  ValidateRequest, ExecResponse, reply, Execution, exited, clean_code, validate,
}
use mts_true_tech_hack.Sandbox.Code.{framed}
use mts_true_tech_hack.Sandbox.Success.{validate-Ran}
use mts_true_tech_hack.Sandbox.Clients.{CheckRequest, client_timeout_ms, read_reply, with_clients}

-- The variables that the pipeline sends along with a code.
abbrev pub context_vars : String → Fields
context_vars context = field "CONTEXT_JSON" (str context) end

context_vars-IsPlain : (context : String) → IsPlain (obj (context_vars context))
unfolding IsPlain has_key
context_vars-IsPlain context = (refl, tt, tt)

obj-injective : {fs gs : Fields} → obj fs ≡ obj gs → fs ≡ gs
obj-injective h = cc

-- They reach the interpreter as they were meant.
context_vars_decoded :
    (context : String) (vars : Fields)
    → loads (dumps_ascii (obj (context_vars context))) ≡ ok (obj vars)
    → vars ≡ context_vars context
context_vars_decoded context vars h =
    let read = loads-dumps_ascii (obj (context_vars context)) (context_vars-IsPlain context) in
    obj-injective (ok-injective (sym h ∙ read))

reply_read :
    (answer : Result ExecResponse) (r : ValidateResponse)
    → read_reply answer ≡ ok r
    → r.success ≡ true
    → (e : ExecResponse) × (answer ≡ ok e) × (e.success ≡ true)
reply_read (ok e) r h s = (e, refl, ap (λ (r : ValidateResponse). r.success) (ok-injective h) ∙ s)
reply_read (raise e) r h s = cc

module _ (env : Env) (lua_interpreter : String) (lua : ℤ → String → Fields → ℤ → Execution)
    (checker : ℤ → CheckRequest → Result CheckResponse)
    (validator : ℤ → ValidateRequest → Result ExecResponse) where
  -- The interpreter ran the code of the state in its frame, in the attempt that the state counts and
  -- with the normalised context of the state in its environment, and exited with code 0 in time,
  -- after the checker had found the code valid.
  pub record IsExecuted (t : PipelineState) : Type 0 where
    pub context : String
    pub normalised : normalize_context_safe t.context ≡ ok context
    pub checked : CheckResponse
    pub check_replied :
        checker t.generation_attempt (record { script = text_of t.code }) ≡ ok checked
    pub check_passed : checked.valid ≡ true
    pub output : String
    pub complaints : String
    pub milliseconds : ℤ
    pub execution :
        lua t.generation_attempt
          (framed (clean_code (text_of t.code)))
          (context_vars context)
          client_timeout_ms
        ≡ exited (pos 0) output complaints milliseconds

  -- A reply that a stub returns is the one that the service has given: gRPC raises where the service
  -- sets another status, and changes no reply.
  abbrev pub Delivers : Type 0
  Delivers =
      (attempt : ℤ) (request : ValidateRequest) (r : ExecResponse)
      → validator attempt request ≡ ok r
      → validate lua_interpreter (lua attempt) request ≡ ok (reply r)

  module _ (delivers : Delivers) where
    validated-IsExecuted :
        (t : PipelineState) → IsValidated (with_clients env checker validator) t → IsExecuted t
    unfolding with_clients
    validated-IsExecuted t v =
        let vars = dumps_ascii (obj (context_vars v.context)) in
        let attempt = t.generation_attempt in
        let request : ValidateRequest = record {
          code = text_of t.code;
          timeout_ms = some client_timeout_ms;
          env_vars = vars;
        } in
        let (e, replied, success) =
          reply_read (validator attempt request) v.result v.validator_replied v.validator_passed in
        let ran =
          validate-Ran lua_interpreter (lua attempt) request e
            (delivers attempt request e replied, success) in
        record {
          context = v.context;
          normalised = v.normalised;
          checked = v.checked;
          check_replied = v.check_replied;
          check_passed = v.check_passed;
          output = e.output;
          complaints = e.error;
          milliseconds = e.exec_time_ms;
          execution =
              ap (λ vars. lua attempt (framed (clean_code (text_of t.code))) vars client_timeout_ms)
                (sym (context_vars_decoded v.context ran.env_vars ran.decoded))
              ∙ ran.execution;
        }

    -- Where gRPC delivers the validator's replies, a run of the graph that ends in the phase "done"
    -- has had its code executed: the checker found it valid, and the Lua interpreter ran it in the
    -- sandbox's frame, cleaned of its fences, with the state's normalised context as CONTEXT_JSON,
    -- and exited with code 0.
    pub invoke_done-IsExecuted :
        (limit : ℕ) (s : PipelineState) {t : PipelineState}
        → invoke (with_clients env checker validator) limit s ≡ ok t
        → t.phase ≡ "done"
        → IsExecuted t
    invoke_done-IsExecuted limit s {t} h p =
        validated-IsExecuted t
          (invoke_done-IsValidated (with_clients env checker validator) limit s h p)
