-- ===== src/Agent/Loop/Calls.antt =====
-- src/pipeline/executor/agent-loop.ts, `runAgentLoop`: the inner loop, over the tool calls of one
-- response. It carries the exchange and the summaries of the round beside the state.
use open_thinking.Base.{
  ℕ, String, ◌+◌, Bool, true, false, Option, none, some, List, [], ◌∷◌, ◌++◌, ◌==◌, if◌then◌else◌,
}
use open_thinking.Base.Texts.{show}
use open_thinking.Result.{Result, ok, err}
use open_thinking.Chat.{Message, tool, ToolCall}
use open_thinking.Agent.Text.{
  ◌⋯◌, Args, text_arg, preview, get_key_arg, truncate_tool_output, summarize_tool_call,
}
use open_thinking.Agent.Memory.{
  Environment, WorkSummary, find, doom_loop_threshold, cache_key, check_doom_loop, execute_tool,
}
use open_thinking.Agent.Loop.{
  LoopState, stage_warning, tool_call, tool_result, AgentError, execution_cancelled, emit,
}

-- `exchange` and `iterationSummaries`, with the state.
pub record Round : Type 0 where
  pub state : LoopState
  pub exchange : List Message
  pub summaries : List String

-- `exchange.push(msg); fullHistory.push(msg)`
unfoldable pub push_message : Message → Round → Round
push_message msg r =
    let s = r.state in
    record r {
      state = record s { full_history = s.full_history ++ msg ∷ [] };
      exchange = r.exchange ++ msg ∷ [];
    }

unfoldable pub tool_message : ToolCall → String → Message
tool_message call content = record {
  role = tool;
  content = content;
  tool_call_id = some call.id;
  tool_calls = [];
}

unfoldable pub or_empty : Option String → String
or_empty none = ""
or_empty (some s) = s

-- `Track work done`
unfoldable pub track_work : String → Args → WorkSummary → WorkSummary
unfolding text_arg preview
track_work tool_name args work =
    if tool_name == "write_file"
    then elim (text_arg "path" args.texts) [
      | some path ↦ record work { files_written = work.files_written ++ path ∷ [] }
      | none ↦ work
    ]
    else if tool_name == "run_command"
    then elim (text_arg "command" args.texts) [
      | some c ↦ record work { commands_run = work.commands_run ++ preview 60 c ∷ [] }
      | none ↦ work
    ]
    else work

-- `toolResultBytes[toolName] = (toolResultBytes[toolName] ?? 0) + bytes`
unfoldable pub add_bytes : String → ℕ → List (String × ℕ) → List (String × ℕ)
add_bytes name bytes [] = (name, bytes) ∷ []
add_bytes name bytes ((k, n) ∷ entries) =
    let rest = add_bytes name bytes entries in
    if name == k then (k, n + bytes) ∷ entries else (k, n) ∷ rest

-- `if (!cachedResults.has(key)) cachedResults.set(key, value)`
unfoldable pub set_if_new : String → String → List (String × String) → List (String × String)
set_if_new key value entries = elim (find key entries) [
  | none ↦ entries ++ (key, value) ∷ []
  | some v ↦ entries
]

-- The branch of a detected doom loop.
unfoldable pub repeat_call : ToolCall → Args → String → Round → Round
unfolding push_message tool_message or_empty emit
repeat_call call args cached r =
    let s =
      emit
        (stage_warning (
          "Doom loop detected: "
          ⋯ call.name
          ⋯ " called "
          ⋯ show doom_loop_threshold
          ⋯ " times with identical args"))
        r.state in
    let warning =
      "[Loop detected: you have called "
      ⋯ call.name
      ⋯ " with the same arguments "
      ⋯ show doom_loop_threshold
      ⋯ " times. Returning cached result. Move on to the next step of your task.]\n\n"
      ⋯ cached in
    let pushed = push_message (tool_message call warning) (record r { state = s }) in
    let s' = pushed.state in
    record pushed {
      state = record s' {
        recent_calls = s'.recent_calls ++ (record { tool_name = call.name; args = args.json }) ∷ [];
      };
      summaries =
          pushed.summaries
          ++ (call.name ⋯ "(" ⋯ or_empty (get_key_arg call.name args) ⋯ ") → LOOP (cached)") ∷ [];
    }

-- What follows the execution of a tool: the result is truncated, counted, handed on and cached.
unfoldable pub finish_call : ToolCall → Args → Bool → String → Round → Round
unfolding push_message tool_message emit add_bytes set_if_new
finish_call call args success output r =
    let content = truncate_tool_output output in
    let s = r.state in
    let b = s.breakdown in
    let counted = record s {
      breakdown = record b {
        tool_result_bytes =
            add_bytes call.name (Prim.Native.String.len content) b.tool_result_bytes;
      };
    } in
    let pushed =
      push_message (tool_message call content)
        (record r { state = emit (tool_result call.name success) counted }) in
    let s' = pushed.state in
    record pushed {
      state = record s' {
        recent_calls = s'.recent_calls ++ (record { tool_name = call.name; args = args.json }) ∷ [];
        cached_results = set_if_new (cache_key call.name args.json) content s'.cached_results;
      };
      summaries = pushed.summaries ++ summarize_tool_call call.name args success content ∷ [];
    }

module _ {W : Type 0} (env : Environment W) where
  -- The call is tracked, announced and executed.
  unfoldable pub make_call : ToolCall → Args → Round → W → Round × W
  unfolding track_work emit execute_tool finish_call
  make_call call args r w =
      let s = r.state in
      let tracked = record s { work = track_work call.name args s.work } in
      let s' = emit (tool_call call.name args) tracked in
      let (result, memory, w') = execute_tool env call.name args s'.memory w in
      let r' = record r { state = record s' { memory = memory } } in
      elim result [
        | ok value ↦ (finish_call call args true value r', w')
        | err message ↦ (finish_call call args false (env.error_json message) r', w')
      ]

  unfoldable pub run_call : ToolCall → Round → W → Round × W
  unfolding check_doom_loop repeat_call make_call
  run_call call r w =
      let args = env.parse_args call.arguments in
      let s = r.state in
      elim (check_doom_loop s.recent_calls call.name args.json s.cached_results) [
        | some cached ↦ (repeat_call call args cached r, w)
        | none ↦ make_call call args r w
      ]

  unfoldable pub run_calls : List ToolCall → Round → W → Result Round (AgentError × LoopState) × W
  run_calls [] r w = (ok r, w)
  run_calls (call ∷ calls) r w =
      let (r', w') = run_call call r w in
      elim (env.aborted w) [
        | true ↦ (err (execution_cancelled, r.state), w)
        | false ↦ run_calls calls r' w'
      ]
