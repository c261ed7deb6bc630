-- ===== src/Types.antt =====
-- src/shared/types.ts: the stage definitions, the token usage and the results that the other parts
-- exchange. An optional field is an `Option`; numbers are natural numbers. A record of the source that
-- is keyed by name (`stages`, `providers`) is the list of its entries in enumeration order.
use open_thinking.Base.{ℕ, String, ◌+◌, Option, List}
use open_thinking.Policy.Access.{Permissions}

pub data PermissionMode : Type 0 where
  auto sandbox confirm strict : PermissionMode

pub data Role : Type 0 where
  orchestrator : Role

pub record FailureConfig : Type 0 where
  pub retry_stage : String
  pub max_retries : ℕ
  pub inject_context : Option String

pub record StageDefinition : Type 0 where
  pub provider : String
  pub model : String
  pub skill : String
  pub system_message : Option String
  pub context : Permissions
  pub depends_on : Option (List String)
  pub max_iterations : Option ℕ
  pub allowed_tools : Option (List String)
  pub role : Option Role
  pub fallback_models : Option (List String)
  pub on_fail : Option FailureConfig
  pub permissions : Option PermissionMode

pub record TokenUsage : Type 0 where
  pub prompt_tokens : ℕ
  pub completion_tokens : ℕ
  pub total_tokens : ℕ

unfoldable pub no_usage : TokenUsage
no_usage = record { prompt_tokens = 0; completion_tokens = 0; total_tokens = 0 }

-- The three `+=` by which usage is accumulated.
unfoldable pub add_usage : TokenUsage → TokenUsage → TokenUsage
add_usage a b = record {
  prompt_tokens = a.prompt_tokens + b.prompt_tokens;
  completion_tokens = a.completion_tokens + b.completion_tokens;
  total_tokens = a.total_tokens + b.total_tokens;
}
