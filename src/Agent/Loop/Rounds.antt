-- ===== src/Agent/Loop/Rounds.antt =====
-- src/pipeline/executor/agent-loop.ts, `runAgentLoop`: one iteration of the outer loop, the loop, and
-- the result. An iteration goes on, stops with a reason, or fails.
use open_thinking.Base.{
  ℕ, zero, suc, String, ◌+◌, ◌-◌, true, false, ◌&&◌, none, some, List, [], ◌∷◌, ◌++◌, ◌==◌, eqb,
  leb, ltb, if◌then◌else◌, is_empty, map,
}
use open_thinking.Base.Texts.{show, join}
use open_thinking.Result.{Result, ok, err}
use open_thinking.Types.{add_usage}
use open_thinking.Chat.{
  Message, user, assistant, choose_required, ChatRequest, ChatResponse, FinishReason, finish_stop,
  finish_tool_calls, finish_length, finish_error,
}
use open_thinking.Agent.Text.{◌⋯◌}
use open_thinking.Agent.Memory.{
  Environment, build_task_message, working_memory_note, tool_definitions,
}
use open_thinking.Agent.Loop.{
  StopReason, done, max_iterations, token_limit, AgentLoopConfig, AgentEvent, thinking_start,
  thinking_end, tokens_update, user_message_received, stage_warning, LoopState, AgentError,
  no_message, execution_cancelled, chat_failed, AgentLoopResult, emit, initial_state,
}
use open_thinking.Agent.Loop.Calls.{Round, push_message, run_calls}

-- How the outer loop is left: by `break`, or at its end, with a reason, or by `return err(…)`.
pub data Exit : Type 0 where
  stop : StopReason → LoopState → Exit
  fail : AgentError → LoopState → Exit

pub data Flow : Type 0 where
  go_on : LoopState → Flow
  leave : Exit → Flow

abbrev pub max_length_continues : ℕ
max_length_continues = 3

unfoldable pub user_message : String → Message
user_message content = record {
  role = user;
  content = content;
  tool_call_id = none;
  tool_calls = [];
}

-- `exchange.push(continueMsg); fullHistory.push(continueMsg); lastExchange = exchange; continue`
unfoldable pub continue_with : String → Round → Flow
unfolding push_message user_message
continue_with content r =
    let r' = push_message (user_message content) r in
    let s = r'.state in go_on (record s { last_exchange = r'.exchange })

-- The usage, the answer and the history after a response; `exchange` starts with the answer.
unfoldable pub absorb : ChatResponse → LoopState → Round
unfolding add_usage emit
absorb response s =
    let usage = add_usage s.total_usage response.usage in
    let b = s.breakdown in
    let breakdown = record b {
      prompt_tokens = usage.prompt_tokens;
      completion_tokens = usage.completion_tokens;
      total_tokens = usage.total_tokens;
    } in
    let message : Message = record {
      role = assistant;
      content = response.content;
      tool_call_id = none;
      tool_calls = response.tool_calls;
    } in
    let counted = record s { total_usage = usage; breakdown = breakdown } in
    let told = emit (tokens_update s.iterations usage breakdown) counted in
    record {
      state = record told {
        full_history = told.full_history ++ message ∷ [];
        final_content = if response.content == "" then told.final_content else response.content;
      };
      exchange = message ∷ [];
      summaries = [];
    }

unfoldable pub limit_warning : ℕ → AgentEvent
limit_warning hits = stage_warning (
    "Output token limit reached (hit "
    ⋯ show hits
    ⋯ " time"
    ⋯ (if ltb 1 hits then "s" else "")
    ⋯ ")")

unfoldable pub wind_down_message : Message
unfolding user_message
wind_down_message =
    user_message
      "IMPORTANT: You are approaching the maximum number of steps. Finish your current work NOW. On the next step you will not have access to tools. Complete any critical writes, then prepare a summary of what you accomplished and what remains."

module _ (config : AgentLoopConfig) where
  unfoldable pub reason_of : StopReason → LoopState → StopReason
  reason_of done s = if leb config.max_iterations s.iterations then max_iterations else done
  reason_of reason s = reason

  unfoldable pub result_of : Exit → Result AgentLoopResult AgentError × LoopState
  unfolding reason_of
  result_of (fail e s) = (err e, s)
  result_of (stop reason s) = (
    ok (record {
      final_content = s.final_content;
      messages = s.full_history;
      total_usage = s.total_usage;
      breakdown = s.breakdown;
      iterations = s.iterations;
      stop_reason = reason_of reason s;
      work_summary = s.work;
    }),
    s,
  )

module _ {W : Type 0} (env : Environment W) (config : AgentLoopConfig) where
  -- `getInjectedMessages`, with an event for each message.
  unfoldable pub inject : LoopState → W → List Message × LoopState × W
  inject s w = elim env.injected [
    | none ↦ ([], s, w)
    | some get ↦
        let (messages, w') = get w in
        let events = map (λ m. user_message_received m.content) messages in
        (messages, record s { events = s.events ++ events }, w')
  ]

  -- The request of the iteration `i`, where `remaining` is `maxIterations - i`.
  unfoldable pub request_of : (i remaining : ℕ) → Message → List Message → LoopState → ChatRequest
  unfolding build_task_message wind_down_message working_memory_note tool_definitions
  request_of i remaining original_task injected s =
      let request = config.request in
      let tools = if eqb remaining 1 then [] else tool_definitions env in
      let task = build_task_message original_task s.memory in
      record request {
        messages =
            task ∷ s.last_exchange
            ++ injected
            ++ (if eqb remaining 2 then wind_down_message ∷ [] else []);
        system_prompt = elim request.system_prompt [
          | none ↦ some working_memory_note
          | some prompt ↦ some (prompt ⋯ working_memory_note)
        ];
        tools = tools;
        tool_choice =
            if is_empty tools
            then none
            else if config.require_tool_call_on_first_iteration && eqb i 0
            then some choose_required
            else request.tool_choice;
      }

  -- `finishReason === "length"`
  unfoldable pub on_length : (i : ℕ) → Round → W → Flow × W
  unfolding emit limit_warning continue_with
  on_length i r w =
      let s = r.state in
      let hits = s.length_continues + 1 in
      let s' = emit (limit_warning hits) (record s { length_continues = hits }) in
      let r' = record r { state = s' } in
      if leb hits max_length_continues && ltb i (config.max_iterations - 1)
      then (
        continue_with
            "Your response was cut off because you hit the output token limit. Continue exactly where you left off."
            r',
        w,
      )
      else elim env.on_token_limit [
        | none ↦ (leave (stop token_limit s'), w)
        | some ask ↦
            let (should_continue, w') = ask s'.work w in
            if should_continue
            then (
              continue_with
                  "The user has confirmed you should continue. Pick up where you left off and keep working."
                  (record r' { state = record s' { length_continues = 0 } }),
              w',
            )
            else (leave (stop token_limit s'), w')
      ]

  -- The tool calls of a response, and the line they leave in the action log.
  unfoldable pub on_tool_calls : ChatResponse → Round → W → Flow × W
  unfolding run_calls
  on_tool_calls response r w =
      let s = r.state in
      let start = record r { state = record s { length_continues = 0 } } in
      let (outcome, w') = run_calls env response.tool_calls start w in
      elim outcome [
        | err (e, s') ↦ (leave (fail e s'), w')
        | ok round ↦
            let t = round.state in
            let memory = t.memory in
            let line = "[" ⋯ show t.iterations ⋯ "] " ⋯ join " | " round.summaries in
            (
              go_on (record t {
                memory = record memory { action_log = memory.action_log ++ line ∷ [] };
                last_exchange = round.exchange;
              }),
              w',
            )
      ]

  unfoldable pub stop_done : Round → Flow
  stop_done r = let s = r.state in leave (stop done (record s { length_continues = 0 }))

  -- What follows, by the finish reason.
  unfoldable pub on_finish : FinishReason → (i : ℕ) → ChatResponse → Round → W → Flow × W
  unfolding on_length on_tool_calls stop_done
  on_finish finish_length i response r w = on_length i r w
  on_finish finish_stop i response r w = (stop_done r, w)
  on_finish finish_error i response r w = (stop_done r, w)
  on_finish finish_tool_calls i response r w =
      if is_empty response.tool_calls then (stop_done r, w) else on_tool_calls response r w

  -- One pass of the `for` loop.
  unfoldable pub iterate : (i remaining : ℕ) → Message → LoopState → W → Flow × W
  unfolding inject request_of emit absorb on_finish
  iterate i remaining original_task s w =
      let (injected, s₁, w₁) = inject (record s { iterations = s.iterations + 1 }) w in
      let request = request_of i remaining original_task injected s₁ in
      let s₂ = emit thinking_start s₁ in
      let (answer, w₂) = env.chat request w₁ in
      let s₃ = emit thinking_end s₂ in
      elim answer [
        | err e ↦ (leave (fail (chat_failed e) s₃), w₂)
        | ok response ↦ on_finish response.finish_reason i response (absorb response s₃) w₂
      ]

  -- The `for` loop, by the passes that are left: `i + remaining` is `maxIterations`.
  unfoldable pub agent_loop : (i remaining : ℕ) → Message → LoopState → W → Exit × W
  unfolding iterate
  agent_loop i zero original_task s w = (stop done s, w)
  agent_loop i (suc left) original_task s w = elim (env.aborted w) [
    | true ↦ (fail execution_cancelled s, w)
    | false ↦
        let (flow, w') = iterate i (suc left) original_task s w in
        elim flow [
          | go_on s' ↦ agent_loop (i + 1) left original_task s' w'
          | leave exit ↦ (exit, w')
        ]
  ]

  unfoldable pub run_agent_loop : W → Result AgentLoopResult AgentError × LoopState × W
  unfolding initial_state agent_loop result_of
  run_agent_loop w = elim config.request.messages [
    | [] ↦ (err no_message, initial_state config, w)
    | original_task ∷ _ ↦
        let (exit, w') =
          agent_loop 0 config.max_iterations original_task (initial_state config) w in
        let (result, s) = result_of config exit in (result, s, w')
  ]
