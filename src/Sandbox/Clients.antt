-- ===== src/Sandbox/Clients.antt =====
-- services/llm/checker_client.py and services/llm/validator_client.py: the pipeline's side of the two
-- Lua services. A stub sends a request over gRPC and returns the reply, or raises.
use mts_true_tech_hack.Base.{String, some}
use mts_true_tech_hack.Base.Int.{ℤ, pos}
use mts_true_tech_hack.Base.Result.{Result, ok, raise}
use mts_true_tech_hack.Graph.State.{CheckResponse, ValidateResponse, Env}
use mts_true_tech_hack.Sandbox.{ValidateRequest, ExecResponse}

-- `lua_checker.v1.CheckRequest`
pub record CheckRequest : Type 0 where
  pub script : String

-- The default of the parameter `timeout_ms`.
abbrev pub client_timeout_ms : ℤ
client_timeout_ms = pos 5000

-- `LuaCheckerClient.check`
unfoldable pub client_check : (CheckRequest → Result CheckResponse) → String → Result CheckResponse
client_check stub code = stub (record { script = code })

-- `LuaValidatorClient.validate`
unfoldable pub client_validate :
    (ValidateRequest → Result ExecResponse) → String → String → ℤ → Result ExecResponse
client_validate stub code env_vars timeout_ms =
    stub (record { code = code; timeout_ms = some timeout_ms; env_vars = env_vars })

-- What `validate_node` reads of a reply.
abbrev pub read_reply : Result ExecResponse → Result ValidateResponse
read_reply (ok r) = ok (record { success = r.success; output = r.output; error = r.error })
read_reply (raise e) = raise e

-- The pipeline with its two clients: each attempt has a stub of its own, since a service may answer
-- the same request differently each time.
unfoldable pub with_clients :
    Env
    → (ℤ → CheckRequest → Result CheckResponse)
    → (ℤ → ValidateRequest → Result ExecResponse)
    → Env
unfolding client_check client_validate
with_clients env checker validator = record env {
  check = λ attempt code. client_check (checker attempt) code;
  validate = λ attempt code env_vars.
      read_reply (client_validate (validator attempt) code env_vars client_timeout_ms);
}
