-- ===== src/Sandbox/Success.antt =====
-- When the validator reports success.
use mathlib.Core.Path.{subst}
use mts_true_tech_hack.Base.{String, ◌≡◌, refl, sym, ap, ◌∙◌, ◌↔◌, true, Option, none, some, arith}
use mts_true_tech_hack.Base.Int.{ℤ, pos, negsuc, eqb_ℤ}
use mts_true_tech_hack.Base.Result.{Result, ok, raise, Error}
use mts_true_tech_hack.Json.{Json, null, bool, int, float, str, arr, obj, Fields}
use mts_true_tech_hack.Json.Loads.{loads}
use mts_true_tech_hack.Sandbox.{
  ValidateRequest, ExecResponse, Answer, reply, Execution, exited, timed_out, file_not_found,
  failed, timeout_of, clean_code, sandbox_code, answer_of, run_script, with_env_vars, validate,
}
use mts_true_tech_hack.Sandbox.Code.{framed, sandbox_code_lem}

-- The answer reports success.
abbrev pub Succeeds : Result Answer → ExecResponse → Type 0
Succeeds answer r = (answer ≡ ok (reply r)) × (r.success ≡ true)

zero_of_eqb : (n : ℤ) → eqb_ℤ n (pos 0) ≡ true → n ≡ pos 0
zero_of_eqb (pos n) h = ground arith
zero_of_eqb (negsuc n) h = ground arith

reply-injective :
    {r s : ExecResponse} → ◌≡◌ {A = Result Answer} (ok (reply r)) (ok (reply s)) → r ≡ s
reply-injective h = cc

module _ (lua_interpreter : String) (lua : String → Fields → ℤ → Execution) where
  -- The interpreter ran the code of the request in its frame, with the variables of the request and
  -- within its timeout, and exited with code 0.
  pub record Ran (request : ValidateRequest) (r : ExecResponse) : Type 0 where
    pub env_vars : Fields
    pub decoded : loads request.env_vars ≡ ok (obj env_vars)
    pub execution :
        lua (framed (clean_code request.code)) env_vars (timeout_of request.timeout_ms)
        ≡ exited (pos 0) r.output r.error r.exec_time_ms

  success_exits :
      (t : ℤ) (e : Execution) (r : ExecResponse)
      → Succeeds (ok (answer_of lua_interpreter lua t e)) r
      → e ≡ exited (pos 0) r.output r.error r.exec_time_ms
  success_exits t (exited n out err ms) r (h, s) =
      subst
        (λ r.
          r.success ≡ true → exited n out err ms ≡ exited (pos 0) r.output r.error r.exec_time_ms)
        (reply-injective h) (λ s. ap (λ m. exited m out err ms) (zero_of_eqb n s)) s
  success_exits t timed_out r (h, s) =
      subst (λ r. r.success ≡ true → timed_out ≡ exited (pos 0) r.output r.error r.exec_time_ms)
        (reply-injective h) (λ s. cc) s
  success_exits t file_not_found r (h, s) = cc
  success_exits t (failed m) r (h, s) = cc

  exit-Succeeds :
      (t : ℤ) (e : Execution) (out err : String) (ms : ℤ)
      → e ≡ exited (pos 0) out err ms
      → (r : ExecResponse) × Succeeds (ok (answer_of lua_interpreter lua t e)) r
  exit-Succeeds t e out err ms h = (_, (ap (λ e. ok (answer_of lua_interpreter lua t e)) h, refl))

  with_env_vars_ran :
      (request : ValidateRequest) (v : Result Json) (r : ExecResponse)
      → Succeeds (with_env_vars lua_interpreter lua request v) r
      → (env_vars : Fields) × (v ≡ ok (obj env_vars))
        × Succeeds
            (ok (
              run_script lua_interpreter lua
                (sandbox_code (clean_code request.code))
                env_vars
                (timeout_of request.timeout_ms)))
            r
  with_env_vars_ran request (ok (obj fs)) r h = (fs, refl, h)
  with_env_vars_ran request (ok null) r (h, s) = cc
  with_env_vars_ran request (ok (bool b)) r (h, s) = cc
  with_env_vars_ran request (ok (int n)) r (h, s) = cc
  with_env_vars_ran request (ok (float t)) r (h, s) = cc
  with_env_vars_ran request (ok (str t)) r (h, s) = cc
  with_env_vars_ran request (ok (arr xs)) r (h, s) = cc
  with_env_vars_ran request (raise (Error.json_decode_error m)) r (h, s) = cc
  with_env_vars_ran request (raise (Error.value_error m)) r (h, s) = cc
  with_env_vars_ran request (raise (Error.lone_surrogate m)) r (h, s) = cc
  with_env_vars_ran request (raise (Error.attribute_error m)) r (h, s) = cc
  with_env_vars_ran request (raise (Error.context_error m)) r (h, s) = cc
  with_env_vars_ran request (raise (Error.recursion_error m)) r (h, s) = cc
  with_env_vars_ran request (raise (Error.other_error m)) r (h, s) = cc

  script_run :
      (o : Option String) (script : String) (env_vars : Fields) (t : ℤ)
      → o ≡ some script
      → run_script lua_interpreter lua o env_vars t
        ≡ answer_of lua_interpreter lua t (lua script env_vars t)
  script_run none script env_vars t h = cc
  script_run (some s) script env_vars t h =
      ap (λ (o : Option String). run_script lua_interpreter lua o env_vars t) h

  ran_script :
      (request : ValidateRequest) (env_vars : Fields)
      → run_script lua_interpreter lua
          (sandbox_code (clean_code request.code))
          env_vars
          (timeout_of request.timeout_ms)
        ≡ answer_of lua_interpreter lua
            (timeout_of request.timeout_ms)
            (lua (framed (clean_code request.code)) env_vars (timeout_of request.timeout_ms))
  ran_script request env_vars =
      script_run _ _ env_vars (timeout_of request.timeout_ms)
        (sandbox_code_lem (clean_code request.code))

  pub validate-Ran :
      (request : ValidateRequest) (r : ExecResponse)
      → Succeeds (validate lua_interpreter lua request) r
      → Ran request r
  unfolding validate
  validate-Ran request r h =
      let (vars, decoded, (answered, s)) = with_env_vars_ran request (loads request.env_vars) r h in
      record {
        env_vars = vars;
        decoded = decoded;
        execution =
            success_exits (timeout_of request.timeout_ms) _ r
              (ap ok (sym (ran_script request vars)) ∙ answered, s);
      }

  Ran-validate :
      (request : ValidateRequest) (r : ExecResponse)
      → Ran request r
      → (a : ExecResponse) × Succeeds (validate lua_interpreter lua request) a
  unfolding validate
  Ran-validate request r ran =
      let t = timeout_of request.timeout_ms in
      let (a, (answered, s)) = exit-Succeeds t _ r.output r.error r.exec_time_ms ran.execution in
      (
        a,
        (
          ap (with_env_vars lua_interpreter lua request) ran.decoded
              ∙ (ap ok (ran_script request ran.env_vars) ∙ answered),
          s,
        ),
      )

  -- The validator reports success exactly where the variables of the request decode to an object
  -- and the interpreter, given the frame around the cleaned code, those variables and the timeout,
  -- exits with code 0.
  pub validate-Ran_iff :
      (request : ValidateRequest)
      → ((r : ExecResponse) × Succeeds (validate lua_interpreter lua request) r)
        ↔ ((r : ExecResponse) × Ran request r)
  validate-Ran_iff request =
      (λ (r, h). (r, validate-Ran request r h), λ (r, ran). Ran-validate request r ran)
