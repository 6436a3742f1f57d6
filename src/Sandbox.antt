-- ===== src/Sandbox.antt =====
-- services/lua-validator/main.py: the service that runs generated Lua code in a subprocess.
pub mod Template
pub mod Frame
pub mod Code
pub mod Success
pub mod Clients
pub mod Pipeline
use Prim.Native.String.{[], ◌∷◌}
use mathlib.Core.List.{[], ◌∷◌}
use mts_true_tech_hack.Base.{
  ℕ, Char, code, String, Bool, true, false, ◌&&◌, Option, none, some, List, ◌≡◌, refl, ◌==◌, eqb,
  if◌then◌else◌,
}
use mts_true_tech_hack.Base.Int.{ℤ, pos, negsuc, eqb_ℤ}
use mts_true_tech_hack.Base.Result.{Result, ok, raise, Error, json_decode_error, message}
use mts_true_tech_hack.Text.{◌⊕◌, strip, join}
use mts_true_tech_hack.Regex.{
  Regex, seq, alt, text_start, text_end, Match, re_sub, lit, words_nocase, maybe,
}
use mts_true_tech_hack.Json.{Json, obj, Fields}
use mts_true_tech_hack.Json.Loads.{loads}
use mts_true_tech_hack.Json.Show.{show_int}
use mts_true_tech_hack.Sandbox.Template.{sandbox_template}

-- `lua_validator.v1.ValidateRequest` and `ValidateResponse`
pub record ValidateRequest : Type 0 where
  pub code : String
  pub timeout_ms : Option ℤ
  pub env_vars : String

pub record ExecResponse : Type 0 where
  pub success : Bool
  pub output : String
  pub error : String
  pub exit_code : ℤ
  pub exec_time_ms : ℤ

-- What a call answers: a reply, or a gRPC status with its details.
pub data Answer : Type 0 where
  reply : ExecResponse → Answer
  invalid_argument unavailable internal : String → Answer

-- `str.format` with one field, `{user_code}`: `{{` and `}}` stand for one brace. Where it stands in
-- the template: in plain text, behind an opening or a closing brace, or inside the field, of which
-- the argument is still to come. Another field or a lone brace raises.
pub data FormatMode : Type 0 where
  plain opened closed : FormatMode
  inside : String → FormatMode

abbrev pub before : Char → Option String → Option String
before c none = none
before c (some s) = some (c ∷ s)

abbrev pub before_text : String → Option String → Option String
before_text t none = none
before_text t (some s) = some (t ⊕ s)

unfoldable pub format_with : String → FormatMode → String → Option String
format_with user_code plain [] = some ""
format_with user_code _ [] = none
format_with user_code plain (c ∷ s) =
    let open_brace = format_with user_code opened s in
    let close_brace = format_with user_code closed s in
    let next = before c (format_with user_code plain s) in
    if eqb (code c) b'{' then open_brace else if eqb (code c) b'}' then close_brace else next
format_with user_code opened (c ∷ s) =
    let brace = before c (format_with user_code plain s) in
    let field = format_with user_code (inside "ser_code}") s in
    if eqb (code c) b'{' then brace else if eqb (code c) b'u' then field else none
format_with user_code closed (c ∷ s) =
    let brace = before c (format_with user_code plain s) in
    if eqb (code c) b'}' then brace else none
format_with user_code (inside []) (c ∷ s) = none
format_with user_code (inside (d ∷ [])) (c ∷ s) =
    let filled = before_text user_code (format_with user_code plain s) in
    if eqb (code c) (code d) then filled else none
format_with user_code (inside (d ∷ e ∷ name)) (c ∷ s) =
    let more = format_with user_code (inside (e ∷ name)) s in
    if eqb (code c) (code d) then more else none

-- `LUA_SANDBOX_TEMPLATE.format(user_code=clean_code)`
unfoldable pub sandbox_code : String → Option String
unfolding format_with join
sandbox_code clean_code = format_with clean_code plain (join "" sandbox_template)

-- `^(?:```lua|lua\{)\n?|\n?(?:```|\}lua)$` under IGNORECASE
abbrev fence_pattern : Regex
fence_pattern =
    alt (seq text_start (seq (words_nocase ("```lua" ∷ "lua{" ∷ [])) (maybe (lit "\n"))))
      (seq (maybe (lit "\n")) (seq (words_nocase ("```" ∷ "}lua" ∷ [])) text_end))

abbrev erased : Match → String
erased m = ""

unfoldable pub clean_code : String → String
unfolding strip re_sub
clean_code raw = strip (re_sub fence_pattern erased raw)

-- What `subprocess.run` comes to: an exit with its code, both outputs and the milliseconds that it
-- took, or one of the exceptions.
pub data Execution : Type 0 where
  exited : ℤ → String → String → ℤ → Execution
  timed_out file_not_found : Execution
  failed : String → Execution

abbrev pub default_timeout_ms : ℤ
default_timeout_ms = pos 5000

abbrev pub timeout_of : Option ℤ → ℤ
timeout_of none = default_timeout_ms
timeout_of (some timeout_ms) = timeout_ms

-- The interpreter's name, and what it makes of a script with the variables that are added to the
-- environment and a timeout.
module _ (lua_interpreter : String) (lua : String → Fields → ℤ → Execution) where
  -- The answer to an execution.
  abbrev pub answer_of : ℤ → Execution → Answer
  answer_of timeout_ms (exited returncode stdout stderr exec_time_ms) = reply (record {
    success = eqb_ℤ returncode (pos 0);
    output = stdout;
    error = stderr;
    exit_code = returncode;
    exec_time_ms = exec_time_ms;
  })
  answer_of timeout_ms timed_out = reply (record {
    success = false;
    output = "";
    error = "Execution timed out after " ⊕ show_int timeout_ms ⊕ "ms";
    exit_code = negsuc 0;
    exec_time_ms = timeout_ms;
  })
  answer_of timeout_ms file_not_found = unavailable (
      "Lua interpreter '" ⊕ lua_interpreter
      ⊕ "' not found. Install lua5.4 or set LUA_INTERPRETER env var.")
  answer_of timeout_ms (failed m) = internal m

  abbrev pub run_script : Option String → Fields → ℤ → Answer
  run_script none env_vars timeout_ms = internal "the template does not format"
  run_script (some script) env_vars timeout_ms =
      answer_of timeout_ms (lua script env_vars timeout_ms)

  abbrev pub with_env_vars : ValidateRequest → Result Json → Result Answer
  with_env_vars request (ok (obj env_vars)) =
      ok (
        run_script (sandbox_code (clean_code request.code)) env_vars
          (timeout_of request.timeout_ms))
  with_env_vars request (ok v) = ok (invalid_argument "env_vars must be a JSON object")
  with_env_vars request (raise (json_decode_error m)) =
      ok (invalid_argument ("Invalid JSON in env_vars: " ⊕ m))
  with_env_vars request (raise e) = raise e

  -- `LuaValidatorServicer.Validate`
  unfoldable pub validate : ValidateRequest → Result Answer
  unfolding loads sandbox_code clean_code show_int
  validate request = with_env_vars request (loads request.env_vars)
