-- ===== src/Agent/Memory.antt =====
-- src/pipeline/executor/agent-loop.ts: the working memory, the doom loop check, and the environment of
-- a run. What the code calls and does not define is the environment, over a world `W` that each call
-- may change: the provider, the tool registry, the injected messages, the token limit question, the
-- abort signal, and the JSON functions.
use open_thinking.Base.{
  ℕ, String, ◌-◌, Bool, ◌&&◌, Option, none, some, List, [], ◌∷◌, ◌++◌, ◌==◌, ltb, if◌then◌else◌,
  all, length, drop,
}
use open_thinking.Result.{Result, ok}
use open_thinking.Errors.{ProviderError}
use open_thinking.Chat.{Message, ToolDefinition, ChatRequest, ChatResponse}
use open_thinking.Agent.Text.{◌⋯◌, Args, WorkingMemory, task_content}

pub record WorkSummary : Type 0 where
  pub files_written : List String
  pub commands_run : List String

pub record Environment (W : Type 0) : Type 0 where
  pub aborted : W → Bool
  pub chat : ChatRequest → W → Result ChatResponse ProviderError × W
  pub execute : String → Args → W → Result String String × W
  pub injected : Option (W → List Message × W)
  pub on_token_limit : Option (WorkSummary → W → Bool × W)
  pub definitions : List ToolDefinition
  -- `JSON.parse`, with no fields when it throws.
  pub parse_args : String → Args
  -- `String(args.content ?? "")`
  pub content_text : Args → String
  -- `JSON.stringify({ error: message })`
  pub error_json : String → String

pub record ToolCallSignature : Type 0 where
  pub tool_name : String
  pub args : String

-- `map.get(key)`: the entries are in the order of insertion, and a key is never inserted twice.
unfoldable pub find : String → List (String × String) → Option String
find key [] = none
find key ((k, v) ∷ entries) = if key == k then some v else find key entries

abbrev pub doom_loop_threshold : ℕ
doom_loop_threshold = 3

unfoldable pub cache_key : String → String → String
cache_key tool_name args = tool_name ⋯ ":" ⋯ args

unfoldable pub same_call : String → String → ToolCallSignature → Bool
same_call tool_name args c = c.tool_name == tool_name && c.args == args

unfoldable pub check_doom_loop :
    List ToolCallSignature → String → String → List (String × String) → Option String
unfolding cache_key
check_doom_loop recent_calls current_tool current_args cached_results =
    let tail = drop (length recent_calls - (doom_loop_threshold - 1)) recent_calls in
    if ltb (length recent_calls) (doom_loop_threshold - 1)
    then none
    else if all (same_call current_tool current_args) tail
    then find (cache_key current_tool current_args) cached_results
    else none

unfoldable pub scratchpad_tool_defs : List ToolDefinition
scratchpad_tool_defs =
    record {
      name = "scratchpad_write";
      description =
          "Save custom notes to your working memory (plans, decisions, key findings). Persists across iterations. Content REPLACES previous notes — include everything you want to keep.";
      parameters =
          "{\"type\":\"object\",\"properties\":{\"content\":{\"type\":\"string\",\"description\":\"The content to save. Replaces any previous notes.\"}},\"required\":[\"content\"]}";
    }
    ∷ []

unfoldable pub working_memory_note : String
working_memory_note =
    "\n## Working Memory\nYour conversation history is trimmed automatically between iterations to save tokens.\nYou will always see: (1) the task, (2) your working memory with a full action log, and (3) your most recent exchange.\nThe action log is maintained automatically — you will always see what you already did.\nUse `scratchpad_write(content)` to save custom notes (plans, decisions, key findings) that persist across iterations.\nIMPORTANT: Do NOT repeat actions you can see in your action log. Move forward with your task."

-- `buildTaskMessage`
unfoldable pub build_task_message : Message → WorkingMemory → Message
build_task_message original memory = record original {
  content = task_content original.content memory;
}

module _ {W : Type 0} (env : Environment W) where
  -- `withScratchpad(registry, memory).definitions()`
  unfoldable pub tool_definitions : List ToolDefinition
  tool_definitions = env.definitions ++ scratchpad_tool_defs

  -- `withScratchpad(registry, memory).execute(name, args)`
  unfoldable pub execute_tool :
      String → Args → WorkingMemory → W → Result String String × WorkingMemory × W
  execute_tool name args memory w =
      if name == "scratchpad_write"
      then (ok "Saved to working memory.", record memory { notes = env.content_text args }, w)
      else let (result, w') = env.execute name args w in (result, memory, w')
