-- ===== src/Chat.antt =====
-- src/shared/types.ts: what is exchanged with a model. A tool's parameters are the text of their JSON
-- schema. A missing `tool_calls` or `toolCalls` is the empty list, which the code treats alike.
use open_thinking.Base.{ℕ, String, Option, List, []}
use open_thinking.Types.{TokenUsage}

pub data MessageRole : Type 0 where
  system user assistant tool : MessageRole

pub record ToolCall : Type 0 where
  pub id : String
  pub name : String
  pub arguments : String

pub record Message : Type 0 where
  pub role : MessageRole
  pub content : String
  pub tool_call_id : Option String
  pub tool_calls : List ToolCall

pub record ToolDefinition : Type 0 where
  pub name : String
  pub description : String
  pub parameters : String

pub data ToolChoice : Type 0 where
  choose_auto choose_required choose_none : ToolChoice

-- The fields of a request that the loop gives anew; the others it passes on.
pub record ChatRequest : Type 0 where
  pub model : String
  pub messages : List Message
  pub system_prompt : Option String
  pub tools : List ToolDefinition
  pub tool_choice : Option ToolChoice

pub data FinishReason : Type 0 where
  finish_stop finish_tool_calls finish_length finish_error : FinishReason

pub record ChatResponse : Type 0 where
  pub content : String
  pub usage : TokenUsage
  pub tool_calls : List ToolCall
  pub finish_reason : FinishReason

pub record TokenBreakdown : Type 0 where
  pub prompt_tokens : ℕ
  pub completion_tokens : ℕ
  pub total_tokens : ℕ
  pub tool_result_bytes : List (String × ℕ)
  pub context_bytes : ℕ
  pub persistent_context_bytes : ℕ

unfoldable pub empty_breakdown : TokenBreakdown
empty_breakdown = record {
  prompt_tokens = 0;
  completion_tokens = 0;
  total_tokens = 0;
  tool_result_bytes = [];
  context_bytes = 0;
  persistent_context_bytes = 0;
}
