-- ===== src/Pipeline/Orchestrate.antt =====
-- src/pipeline/executor/stage-executor.ts, executeStageWithDelegateTool: the run of an orchestrator, which
-- has no tool but the one that delegates.
pub mod State
pub mod Finish
pub mod Laws
use Prim.Native.String.{len}
use open_thinking.Base.{
  ℕ, String, Bool, true, false, Option, none, some, List, [], ◌∷◌, ◌++◌, ◌==◌, if◌then◌else◌,
}
use open_thinking.Result.{Result, Void, ok, err}
use open_thinking.Errors.{ContextError}
use open_thinking.Types.{StageDefinition}
use open_thinking.Chat.{Message, user, ToolDefinition, ChatRequest}
use open_thinking.Agent.Text.{◌⋯◌, Args}
use open_thinking.Agent.Memory.{Environment, WorkSummary}
use open_thinking.Agent.Loop.{AgentLoopConfig, AgentLoopResult, AgentError}
use open_thinking.Agent.Loop.Rounds.{run_agent_loop}
use open_thinking.Policy.Engine
use open_thinking.Context.Database.{Database}
use open_thinking.Context.Store.{Config}
use open_thinking.Pipeline.Order.{Stages}
use open_thinking.Pipeline.Stage.{
  StageResult, success, cancelled, not_run, merge_work_summaries, validate_orchestrated_work,
}
use open_thinking.Pipeline.Payload.{
  Payload, StageEvent, context_write, denied, not_stored, stage_start, stage_complete, stage_error,
  policy_violation, build_context_payload, format_context_for_prompt, seed_persistent_lazy_context,
  write_stage_output,
}
use open_thinking.Pipeline.Execute.{
  Shared, Equipment, StageDeps, emit_all, estimate_stage_cost, failed_with,
}
use open_thinking.Pipeline.Delegate.{Reply, delegate}
use open_thinking.Pipeline.Orchestrate.State.{
  Orchestration, no_work, merged_work, note_completed, input_prompt, orchestrator_iterations,
  orchestrator_task, orchestrator_prompt, undelegated, on_shared, start_orchestration,
}
use open_thinking.Pipeline.Orchestrate.Finish.{
  note, fail_orchestrator, complete_orchestrator, check_work, charge_orchestrator,
  finish_orchestrator,
}

-- `normalize` is `normalizePromptText`; `tool` is the definition of the delegate tool.
module _ {Db W : Type 0} (store : Config) (db : Database Db) (deps : StageDeps Db W)
    (stages : Stages) (normalize : String → String) (tool : ToolDefinition) where
  -- `execute` of the registry of the orchestrator.
  unfoldable pub orchestrator_call :
      String → Args → Orchestration Db W → Result String String × Orchestration Db W
  unfolding note_completed delegate
  orchestrator_call name args o =
      if name == "delegate"
      then (let (reply, s) = delegate store db deps stages args o.shared in
          (
            reply.value,
            record { shared = s; delegated = true; work = note_completed o.work reply.completed },
          ))
      else (
        err (
            "Tool \"" ⋯ name
            ⋯ "\" is not available to the orchestrator. Use delegate to assign work to agents."),
        o,
      )

  unfoldable pub orchestrator_environment :
      Environment (Shared Db W) → Environment (Orchestration Db W)
  unfolding on_shared orchestrator_call
  orchestrator_environment env = record {
    aborted = λ o. env.aborted o.shared;
    chat = λ request o. on_shared (env.chat request) o;
    execute = orchestrator_call;
    injected = elim env.injected [ none ↦ none | some take ↦ some (on_shared take) ];
    on_token_limit = elim env.on_token_limit [
      | none ↦ none
      | some ask ↦ some (λ work o. on_shared (ask work) o)
    ];
    definitions = tool ∷ [];
    parse_args = env.parse_args;
    content_text = env.content_text;
    error_json = env.error_json;
  }

  module _ (stage_name : String) (stage_def : StageDefinition) where
    unfoldable pub orchestrator_config : (block persistent : String) → AgentLoopConfig
    unfolding orchestrator_iterations orchestrator_prompt orchestrator_task
    orchestrator_config block persistent =
        let message : Message = record {
          role = user;
          content = orchestrator_task block;
          tool_call_id = none;
          tool_calls = [];
        } in
        let request : ChatRequest = record {
          model = stage_def.model;
          messages = message ∷ [];
          system_prompt = some (
              orchestrator_prompt stage_name (deps.skill_prompt stage_def.skill)
                stage_def.system_message persistent);
          tools = tool ∷ [];
          tool_choice = none;
        } in
        record {
          request = request;
          max_iterations = orchestrator_iterations stage_def.max_iterations;
          initial_context_bytes = some (len block);
          initial_persistent_context_bytes = some (len persistent);
          require_tool_call_on_first_iteration = true;
        }

    unfoldable pub orchestrator_equipment : Equipment
    orchestrator_equipment = record {
      provider = stage_def.provider;
      stage_name = stage_name;
      allowed_tools = some ("delegate" ∷ []);
      permissions = stage_def.context;
      sandboxed = false;
    }

    unfoldable pub run_orchestrator :
        (prompt block : String) → Shared Db W → StageResult × Orchestration Db W
    unfolding orchestrator_environment orchestrator_equipment orchestrator_config
        finish_orchestrator start_orchestration
    run_orchestrator prompt block s =
        let env = orchestrator_environment (deps.environment orchestrator_equipment) in
        let (result, left, o) =
          run_agent_loop env (orchestrator_config block (deps.persistent_block stage_name s.world))
            (start_orchestration s) in
        finish_orchestrator store db deps normalize stage_name stage_def prompt result o

    -- The payload, or the error of the store.
    unfoldable pub brief_orchestrator :
        Result (Payload × List StageEvent) ContextError
        → Shared Db W
        → StageResult × Orchestration Db W
    unfolding run_orchestrator input_prompt start_orchestration fail_orchestrator failed_with
        emit_all
    brief_orchestrator (err e) s =
        let error = deps.context_text e in
        fail_orchestrator store db deps normalize stage_name stage_def error
          (failed_with stage_name error) (start_orchestration s)
    brief_orchestrator (ok (payload, reads)) s =
        run_orchestrator (input_prompt payload)
          (format_context_for_prompt payload stage_def.context.eager)
          (emit_all store db deps reads s)

    unfoldable pub seeded_db : Shared Db W → Db
    seeded_db s =
        seed_persistent_lazy_context store db (deps.now s.world) stage_name (deps.learned s.world)
          (deps.history s.world) s.db

    unfoldable pub execute_orchestrator : Shared Db W → StageResult × Orchestration Db W
    unfolding brief_orchestrator seeded_db start_orchestration failed_with emit_all
    execute_orchestrator s =
        if deps.aborted s.world
        then (not_run cancelled stage_name, start_orchestration s)
        else elim (deps.has_provider stage_def.provider) [
          | false ↦ (
            failed_with stage_name ("Provider \"" ⋯ stage_def.provider ⋯ "\" not found"),
            start_orchestration s,
          )
          | true ↦
              let started =
                emit_all store db deps (stage_start stage_name stage_def.model ∷ []) s in
              let d = seeded_db s in
              brief_orchestrator
                (build_context_payload store db (deps.now s.world) stage_name stage_def.context d)
                (record started { db = d })
        ]
