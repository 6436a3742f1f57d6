-- ===== src/Graph/State.antt =====
-- services/llm/state.py: what the nodes share, and the services that they call.
use mts_true_tech_hack.Base.{String, Bool, Option, List}
use mts_true_tech_hack.Base.Int.{ℤ}
use mts_true_tech_hack.Base.Result.{Result}
use mts_true_tech_hack.Json.{Json}
use mts_true_tech_hack.Spec.History.{Entry}

-- `PipelineState`. A key that is not there reads as `None`, by `state.get`.
pub record PipelineState : Type 0 where
  pub session_id : String
  pub request : String
  pub context : Option String
  pub raw_context : Json
  pub context_schema : Option String
  pub dialog_language : String
  pub clarification_answer : Option String
  pub clarification_question : Option String
  pub clarification_history : List Entry
  pub is_ambiguous : Bool
  pub clarifying : Bool
  pub spec_json : Option String
  pub spec_approved : Bool
  pub code : Option String
  pub generation_attempt : ℤ
  pub validation_success : Bool
  pub validation_output : Option String
  pub validation_error : Option String
  pub phase : String
  pub error : Option String

-- The replies of the Lua checker and of the Lua validator.
pub record CheckResponse : Type 0 where
  pub valid : Bool
  pub violations : List String

pub record ValidateResponse : Type 0 where
  pub success : Bool
  pub output : String
  pub error : String

-- What a run of the graph meets outside: the models, the two Lua services and
-- the order of Python's sets. A call may raise. The generator and the Lua services are asked once
-- for each attempt, and are given its number, so that they may answer the same text differently.
pub record Env : Type 0 where
  pub llm_zero : String → String → Result String
  pub llm_generate : ℤ → String → String → Result String
  pub check : ℤ → String → Result CheckResponse
  pub validate : ℤ → String → String → Result ValidateResponse
  pub set_order : List String → List String
