-- ===== src/Agent/Loop/Accounts/Untouched.antt =====
-- What a round leaves alone: the counts, and the log of a watched environment.
use open_thinking.Agent.Loop.Accounts.Watched.{Log, watched}
use open_thinking.Base.{
  ℕ, ◌+◌, ◌≡◌, refl, ◌∙◌, ◌⊎◌, inl, inr, List, [], ◌∷◌, is_empty, ◌==◌, String, leb, ltb, ◌-◌, ◌&&◌,
  Bool-cases, Option-cases,
}
use open_thinking.Result.{Result, ok, err, Result-cases}
use open_thinking.Chat.{
  ToolCall, ChatResponse, FinishReason, finish_length, finish_stop, finish_error, finish_tool_calls,
}
use open_thinking.Agent.Text.{Args, WorkingMemory}
use open_thinking.Agent.Memory.{Environment, execute_tool, check_doom_loop}
use open_thinking.Agent.Loop.{LoopState, AgentLoopConfig, AgentError, emit}
use open_thinking.Agent.Loop.Calls.{
  Round, push_message, finish_call, repeat_call, make_call, run_call, run_calls,
}
use open_thinking.Agent.Loop.Rounds.{
  Exit, stop, fail, Flow, go_on, leave, continue_with, inject, on_length, on_tool_calls, on_finish,
  stop_done,
}

-- The state in which the tool calls end.
abbrev state_of : Result Round (AgentError × LoopState) → LoopState
state_of (ok r) = r.state
state_of (err (e, s)) = s

-- What the tool calls leave alone.
abbrev pub Untouched : {W : Type 0} → LoopState → Log → LoopState → W × Log → Type 0
Untouched s l s' w' = (s'.iterations ≡ s.iterations) × (s'.total_usage ≡ s.total_usage) × (w'.1 ≡ l)

module _ {W : Type 0} (env : Environment W) where
  execute_tool-log :
      (name : String) (args : Args) (memory : WorkingMemory) (w : W) (l : Log)
      → (execute_tool (watched env) name args memory (w, l)).2.1 ≡ l
  unfolding execute_tool
  execute_tool-log name args memory w l = elim (Bool-cases (name == "scratchpad_write")) [
    | inl e ↦ rw e refl
    | inr e ↦ rw e refl
  ]

  make_call-Untouched :
      (call : ToolCall) (args : Args) (r : Round) (w : W) (l : Log)
      → (let out = make_call (watched env) call args r (w, l) in
          Untouched r.state l out.0.state out.1)
  unfolding make_call finish_call emit
  make_call-Untouched call args r w l =
      let s = r.state in
      elim (Result-cases (execute_tool (watched env) call.name args s.memory (w, l)).0) [
        | inl (value, e) ↦
            rw (make_call, e) ((refl, refl, execute_tool-log call.name args s.memory w l))
        | inr (message, e) ↦
            rw (make_call, e) ((refl, refl, execute_tool-log call.name args s.memory w l))
      ]

  run_call-Untouched :
      (call : ToolCall) (r : Round) (w : W) (l : Log)
      → (let out = run_call (watched env) call r (w, l) in Untouched r.state l out.0.state out.1)
  unfolding run_call repeat_call emit
  run_call-Untouched call r w l =
      elim (Option-cases (
        check_doom_loop r.state.recent_calls call.name (env.parse_args call.arguments).json
          r.state.cached_results)) [
            | inl e ↦
                rw (run_call, e) (make_call-Untouched call (env.parse_args call.arguments) r w l)
            | inr (cached, e) ↦ rw (run_call, e) ((refl, refl, refl))
          ]

  run_calls-Untouched :
      (calls : List ToolCall) (r : Round) (w : W) (l : Log)
      → (let out = run_calls (watched env) calls r (w, l) in
          Untouched r.state l (state_of out.0) out.1)
  unfolding run_calls
  run_calls-Untouched [] r w l = (refl, refl, refl)
  run_calls-Untouched (call ∷ calls) r w l = elim (Bool-cases (env.aborted w)) [
    | inl e ↦ rw (run_calls, e) ((refl, refl, refl))
    | inr e ↦
        let out = run_call (watched env) call r (w, l) in
        let one = run_call-Untouched call r w l in
        let rest = run_calls-Untouched calls out.0 out.1.0 out.1.1 in
        rw (run_calls, e) ((rest.0 ∙ one.0, rest.1 ∙ one.1, rest.2 ∙ one.2))
  ]

pub Flow-cases :
    (flow : Flow) → ((s : LoopState) × (flow ≡ go_on s)) ⊎ ((exit : Exit) × (flow ≡ leave exit))
Flow-cases (go_on s) = inl (s, refl)
Flow-cases (leave exit) = inr (exit, refl)

-- What a pass does to the agreement: the state it hands on agrees, whichever way it ends.
abbrev pub flow_state : Flow → LoopState
flow_state (go_on s) = s
flow_state (leave (stop reason s)) = s
flow_state (leave (fail e s)) = s

abbrev pub exit_state : Exit → LoopState
exit_state (stop reason s) = s
exit_state (fail e s) = s

module _ {W : Type 0} (env : Environment W) (config : AgentLoopConfig) where
  pub inject-Untouched :
      (s : LoopState) (w : W) (l : Log)
      → (let out = inject (watched env) config s (w, l) in Untouched s l out.1 out.2)
  unfolding inject
  inject-Untouched s w l = elim (Option-cases env.injected) [
    | inl e ↦ rw (inject, e) ((refl, refl, refl))
    | inr (get, e) ↦ rw (inject, e) ((refl, refl, refl))
  ]

  on_length-Untouched :
      (i : ℕ) (r : Round) (w : W) (l : Log)
      → (let out = on_length (watched env) config i r (w, l) in
          Untouched r.state l (flow_state out.0) out.1)
  unfolding on_length emit continue_with push_message
  on_length-Untouched i r w l =
      let hits = r.state.length_continues + 1 in
      let summary = r.state.work in
      elim (Bool-cases (leb hits 3 && ltb i (config.max_iterations - 1))) [
        | inl e ↦ rw (on_length, e) (refl, refl, refl)
        | inr e ↦ elim (Option-cases env.on_token_limit) [
          | inl f ↦ rw (on_length, e, f) (refl, refl, refl)
          | inr (ask, f) ↦ elim (Bool-cases (ask summary w).0) [
            | inl g ↦ rw (on_length, e, f, g) (refl, refl, refl)
            | inr g ↦ rw (on_length, e, f, g) (refl, refl, refl)
          ]
        ]
      ]

  on_tool_calls-Untouched :
      (response : ChatResponse) (r : Round) (w : W) (l : Log)
      → (let out = on_tool_calls (watched env) config response r (w, l) in
          Untouched r.state l (flow_state out.0) out.1)
  unfolding on_tool_calls
  on_tool_calls-Untouched response r w l =
      let s = r.state in
      let start = record r { state = record s { length_continues = 0 } } in
      let all = run_calls-Untouched env response.tool_calls start w l in
      elim (Result-cases (run_calls (watched env) response.tool_calls start (w, l)).0) [
        | inl (round, e) ↦ rw (on_tool_calls, e) (rw e at all)
        | inr ((error, s'), e) ↦ rw (on_tool_calls, e) (rw e at all)
      ]

  pub on_finish-Untouched :
      (reason : FinishReason) (i : ℕ) (response : ChatResponse) (r : Round) (w : W) (l : Log)
      → (let out = on_finish (watched env) config reason i response r (w, l) in
          Untouched r.state l (flow_state out.0) out.1)
  unfolding on_finish stop_done
  on_finish-Untouched finish_length i response r w l = on_length-Untouched i r w l
  on_finish-Untouched finish_stop i response r w l = (refl, refl, refl)
  on_finish-Untouched finish_error i response r w l = (refl, refl, refl)
  on_finish-Untouched finish_tool_calls i response r w l =
      elim (Bool-cases (is_empty response.tool_calls)) [
        | inl e ↦ rw (on_finish, e) (refl, refl, refl)
        | inr e ↦ rw (on_finish, e) (on_tool_calls-Untouched response r w l)
      ]
