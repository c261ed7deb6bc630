-- ===== src/Agent/Loop.antt =====
-- src/pipeline/executor/agent-loop.ts, `runAgentLoop`: the state of the loop and its steps. The events
-- are those of the bus, in order, less their time stamps and the fields that never change in a run.
pub mod Calls
pub mod Rounds
pub mod Accounts
pub mod DoomLoop
use open_thinking.Base.{ℕ, String, Bool, Option, none, some, List, [], ◌∷◌, ◌++◌}
use open_thinking.Types.{TokenUsage, no_usage}
use open_thinking.Chat.{Message, ChatRequest, TokenBreakdown, empty_breakdown}
use open_thinking.Errors.{ProviderError}
use open_thinking.Agent.Text.{Args, WorkingMemory}
use open_thinking.Agent.Memory.{WorkSummary, ToolCallSignature}

pub data StopReason : Type 0 where
  done cancelled max_iterations token_limit error_reason : StopReason

pub record AgentLoopConfig : Type 0 where
  pub request : ChatRequest
  pub max_iterations : ℕ
  pub initial_context_bytes : Option ℕ
  pub initial_persistent_context_bytes : Option ℕ
  pub require_tool_call_on_first_iteration : Bool

pub data AgentEvent : Type 0 where
  thinking_start thinking_end : AgentEvent
  tokens_update : (iteration : ℕ) → TokenUsage → TokenBreakdown → AgentEvent
  user_message_received : String → AgentEvent
  stage_warning : String → AgentEvent
  tool_call : String → Args → AgentEvent
  tool_result : String → (success : Bool) → AgentEvent

pub record LoopState : Type 0 where
  pub memory : WorkingMemory
  pub total_usage : TokenUsage
  pub breakdown : TokenBreakdown
  pub full_history : List Message
  pub last_exchange : List Message
  pub final_content : String
  pub iterations : ℕ
  pub length_continues : ℕ
  pub work : WorkSummary
  pub recent_calls : List ToolCallSignature
  pub cached_results : List (String × String)
  pub events : List AgentEvent

pub data AgentError : Type 0 where
  no_message : AgentError
  execution_cancelled : AgentError
  chat_failed : ProviderError → AgentError

pub record AgentLoopResult : Type 0 where
  pub final_content : String
  pub messages : List Message
  pub total_usage : TokenUsage
  pub breakdown : TokenBreakdown
  pub iterations : ℕ
  pub stop_reason : StopReason
  pub work_summary : WorkSummary

unfoldable pub emit : AgentEvent → LoopState → LoopState
emit event s = record s { events = s.events ++ event ∷ [] }

unfoldable pub or_zero : Option ℕ → ℕ
or_zero none = 0
or_zero (some n) = n

unfoldable pub initial_state : AgentLoopConfig → LoopState
unfolding or_zero no_usage empty_breakdown
initial_state config = record {
  memory = record { action_log = []; notes = "" };
  total_usage = no_usage;
  breakdown = record empty_breakdown {
    context_bytes = or_zero config.initial_context_bytes;
    persistent_context_bytes = or_zero config.initial_persistent_context_bytes;
  };
  full_history = config.request.messages;
  last_exchange = [];
  final_content = "";
  iterations = 0;
  length_continues = 0;
  work = record { files_written = []; commands_run = [] };
  recent_calls = [];
  cached_results = [];
  events = [];
}
