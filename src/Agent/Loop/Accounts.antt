-- ===== src/Agent/Loop/Accounts.antt =====
-- The accounts of a run of `runAgentLoop`: how often the model is asked, what the tokens add up to, and
-- when the tools are withheld.
pub mod Watched
mod Untouched
use open_thinking.Agent.Loop.Accounts.Watched.{Answer, Log, watched}
use open_thinking.Agent.Loop.Accounts.Untouched.{
  flow_state, exit_state, Flow-cases, inject-Untouched, on_finish-Untouched,
}
use open_thinking.Base.{
  ℕ, zero, suc, ◌+◌, ◌≤◌, ◌<◌, ◌≢◌, ◌≡◌, refl, sym, ap, ◌∙◌, ◌++◌, if◌then◌else◌, ◌↔◌, ◌⊎◌, inl,
  inr, Bool, true, false, Option, none, some, List, [], ◌∷◌, arith, length, is_empty, ◌==◌, String,
  eqb, leb, ltb, ◌-◌, ◌&&◌, Bool-cases, Option-cases,
}
use open_thinking.Result.{Result, ok, err, Result-cases}
use open_thinking.Errors.{ProviderError}
use open_thinking.Types.{TokenUsage, no_usage, add_usage}
use open_thinking.Chat.{
  ToolDefinition, Message, ToolCall, ChatRequest, ChatResponse, FinishReason, finish_length,
  finish_stop, finish_error, finish_tool_calls,
}
use open_thinking.Agent.Text.{Args, WorkingMemory}
use open_thinking.Agent.Memory.{
  Environment, WorkSummary, execute_tool, check_doom_loop, tool_definitions, scratchpad_tool_defs,
}
use open_thinking.Agent.Loop.{
  LoopState, AgentLoopConfig, AgentLoopResult, AgentError, StopReason, done, cancelled,
  max_iterations, token_limit, error_reason, emit, initial_state, thinking_start, thinking_end,
}
use open_thinking.Agent.Loop.Calls.{
  Round, push_message, finish_call, repeat_call, make_call, run_call, run_calls,
}
use open_thinking.Agent.Loop.Rounds.{
  Exit, stop, fail, Flow, go_on, leave, absorb, continue_with, inject, request_of, on_length,
  on_tool_calls, on_finish, stop_done, iterate, agent_loop, reason_of, result_of, run_agent_loop,
}

-- The tokens of the answers.
abbrev pub usage_of : Log → TokenUsage
usage_of [] = no_usage
usage_of ((request, ok response) ∷ l) = add_usage (usage_of l) response.usage
usage_of ((request, err e) ∷ l) = usage_of l

-- Exactly the request numbered `max` offers no tools.
abbrev pub OffersTools : ℕ → Log → Type 0
OffersTools max [] = Unit {0}
OffersTools max ((request, answer) ∷ l) =
    ((is_empty request.tools ≡ true) ↔ (suc (length l) ≡ max)) × OffersTools max l

-- The state agrees with what was asked so far.
pub record Agrees (max : ℕ) (s : LoopState) (l : Log) : Type 0 where
  pub asked : length l ≡ s.iterations
  pub added : s.total_usage ≡ usage_of l
  pub offers : OffersTools max l

-- One more request and its answer.
extend :
    {max i left : ℕ} {s s' : LoopState} {l l' : Log} (request : ChatRequest) (answer : Answer)
    → Agrees max s l
    → i + suc left ≡ max
    → s.iterations ≡ i
    → (is_empty request.tools ≡ true) ↔ (suc left ≡ 1)
    → s'.iterations ≡ s.iterations + 1
    → s'.total_usage ≡ usage_of ((request, answer) ∷ l)
    → l' ≡ (request, answer) ∷ l
    → Agrees max s' l' × (s'.iterations ≡ suc i)
extend request answer a h n t i u e =
    let asked = a.asked in
    let (to, from) = t in
    (
      rw e (record {
        asked = omega arith;
        added = u;
        offers = (((λ c. let d = to c in omega arith), (λ c. from (omega arith))), a.offers);
      }),
      omega arith,
    )

logged :
    {request : ChatRequest} {answer answer' : Answer} {l l' : Log}
    → answer ≡ answer'
    → l ≡ l'
    → (request, answer) ∷ l ≡ (request, answer') ∷ l'
logged e f = rw (e, f) refl

only_last :
    (remaining : ℕ) (tools : List ToolDefinition)
    → is_empty tools ≡ false
    → (is_empty (if eqb remaining 1 then [] else tools) ≡ true) ↔ (remaining ≡ 1)
only_last remaining tools h = ground arith

snoc-filled :
    (xs : List ToolDefinition) (x : ToolDefinition) (ys : List ToolDefinition)
    → is_empty (xs ++ x ∷ ys) ≡ false
snoc-filled [] x ys = refl
snoc-filled (z ∷ xs) x ys = refl

exit-Agrees :
    {max i : ℕ} {flow : Flow} {l : Log} (left : ℕ) (exit : Exit)
    → flow ≡ leave exit
    → i + suc left ≡ max
    → Agrees max (flow_state flow) l
    → (flow_state flow).iterations ≡ suc i
    → Agrees max (exit_state exit) l × ((exit_state exit).iterations ≤ max)
exit-Agrees left (stop reason s) f h b k = let k' = rw f at k in (rw f at b, omega arith)
exit-Agrees left (fail error s) f h b k = let k' = rw f at k in (rw f at b, omega arith)

-- What a result says of the log; one that says `done` has passes left.
abbrev pub Accounts : ℕ → Log → Result AgentLoopResult AgentError → Type 0
Accounts max l (ok r) =
    (r.iterations ≡ length l)
    × (r.total_usage ≡ usage_of l)
    × ((r.stop_reason ≢ done) ⊎ (r.iterations < max))
Accounts max l (err e) = Unit {0}

reason_of-cases :
    (config : AgentLoopConfig) (reason : StopReason) (s : LoopState)
    → (reason_of config reason s ≢ done) ⊎ (s.iterations < config.max_iterations)
unfolding reason_of
reason_of-cases config done s = ground arith
reason_of-cases config cancelled s = inl (ground arith)
reason_of-cases config max_iterations s = inl (ground arith)
reason_of-cases config token_limit s = inl (ground arith)
reason_of-cases config error_reason s = inl (ground arith)

result_of-Accounts :
    (config : AgentLoopConfig) (exit : Exit) (l : Log)
    → Agrees config.max_iterations (exit_state exit) l
    → Accounts config.max_iterations l (result_of config exit).0
unfolding result_of
result_of-Accounts config (stop reason s) l a =
    (sym a.asked, a.added, reason_of-cases config reason s)
result_of-Accounts config (fail e s) l a = tt

module _ {W : Type 0} (env : Environment W) (config : AgentLoopConfig) where
  -- A request offers tools unless it is the last.
  request_of-tools :
      (i remaining : ℕ) (task : Message) (messages : List Message) (s : LoopState)
      → (is_empty (request_of (watched env) config i remaining task messages s).tools ≡ true)
        ↔ (remaining ≡ 1)
  unfolding request_of tool_definitions scratchpad_tool_defs
  request_of-tools i remaining task messages s =
      only_last remaining (tool_definitions (watched env)) (snoc-filled env.definitions _ _)

  -- One pass, whichever way it ends.
  iterate-Agrees :
      (max i left : ℕ) (task : Message) (s : LoopState) (w : W) (l : Log)
      → i + suc left ≡ max
      → s.iterations ≡ i
      → Agrees max s l
      → (let out = iterate (watched env) config i (suc left) task s (w, l) in
          Agrees max (flow_state out.0) out.1.1 × ((flow_state out.0).iterations ≡ suc i))
  unfolding iterate emit absorb
  iterate-Agrees max i left task s w l h n a =
      let inj = inject (watched env) config (record s { iterations = s.iterations + 1 }) (w, l) in
      let u = inject-Untouched env config (record s { iterations = s.iterations + 1 }) w l in
      let request = request_of (watched env) config i (suc left) task inj.0 inj.1 in
      let tools = request_of-tools i (suc left) task inj.0 inj.1 in
      let c = (watched env).chat request inj.2 in
      elim (Result-cases c.0) [
        | inl (response, e) ↦
            let r = absorb response (emit thinking_end (emit thinking_start inj.1)) in
            let v =
              on_finish-Untouched env config response.finish_reason i response r c.1.0 c.1.1 in
            rw (iterate, e)
              (extend request (ok response) a h n tools (v.0 ∙ u.0)
                (v.1 ∙ ap (λ t. add_usage t response.usage) (u.1 ∙ a.added)) (v.2 ∙ logged e u.2))
        | inr (error, e) ↦
            rw (iterate, e)
              (extend request (err error) a h n tools u.0 (u.1 ∙ a.added) (logged e u.2))
      ]

  agent_loop-Agrees :
      (max i remaining : ℕ) (task : Message) (s : LoopState) (w : W) (l : Log)
      → i + remaining ≡ max
      → s.iterations ≡ i
      → Agrees max s l
      → (let out = agent_loop (watched env) config i remaining task s (w, l) in
          Agrees max (exit_state out.0) out.1.1 × ((exit_state out.0).iterations ≤ max))
  unfolding agent_loop
  agent_loop-Agrees max i zero task s w l h n a = (a, omega arith)
  agent_loop-Agrees max i (suc left) task s w l h n a = elim (Bool-cases (env.aborted w)) [
    | inl e ↦ rw (agent_loop, e) (a, omega arith)
    | inr e ↦
        let out = iterate (watched env) config i (suc left) task s (w, l) in
        let (b, k) = iterate-Agrees max i left task s w l h n a in
        elim (Flow-cases out.0) [
          | inl (s', f) ↦
              rw (agent_loop, e, f)
                (agent_loop-Agrees max (i + 1) left task s' out.1.0 out.1.1 (omega arith)
                  (rw f at k ∙ omega arith) (rw f at b))
          | inr (exit, f) ↦ rw (agent_loop, e, f) (exit-Agrees left exit f h b k)
        ]
  ]

-- The model is asked at most maxIterations times, and exactly the request with that number, the last
-- one allowed, offers no tools. A result counts as many iterations as there were requests, its total
-- usage is the sum of the usage of the answers, and it says `done` only with fewer than maxIterations.
pub run_agent_loop-Accounts :
    {W : Type 0} (env : Environment W) (config : AgentLoopConfig) (w : W)
    → (let out = run_agent_loop (watched env) config (w, []) in
        (length out.2.1 ≤ config.max_iterations)
        × OffersTools config.max_iterations out.2.1
        × Accounts config.max_iterations out.2.1 out.0)
unfolding run_agent_loop initial_state
run_agent_loop-Accounts env config w = from config.request.messages refl
  where
    from :
        (messages : List Message)
        → config.request.messages ≡ messages
        → (let out = run_agent_loop (watched env) config (w, []) in
            (length out.2.1 ≤ config.max_iterations)
            × OffersTools config.max_iterations out.2.1
            × Accounts config.max_iterations out.2.1 out.0)
    from [] e = rw (run_agent_loop, e) (omega arith, tt, tt)
    from (task ∷ _) e =
        let (a, b) =
          agent_loop-Agrees env config config.max_iterations 0 config.max_iterations task
            (initial_state config) w [] (omega arith) refl
            (record { asked = refl; added = refl; offers = tt }) in
        let asked = a.asked in
        rw (run_agent_loop, e) (omega arith, a.offers, result_of-Accounts config _ _ a)
