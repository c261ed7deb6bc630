-- ===== src/Pipeline/Orchestrate/Finish.antt =====
-- src/pipeline/executor/stage-executor.ts, executeStageWithDelegateTool: what follows the agent loop of an
-- orchestrator. `normalize` is `normalizePromptText`.
use open_thinking.Base.{ℕ, String, none, some, List, [], ◌∷◌, ◌++◌, if◌then◌else◌}
use open_thinking.Result.{Result, ok, err}
use open_thinking.Types.{StageDefinition}
use open_thinking.Agent.Memory.{WorkSummary}
use open_thinking.Agent.Loop.{AgentLoopResult, AgentError}
use open_thinking.Policy.Engine
use open_thinking.Context.Database.{Database}
use open_thinking.Context.Store.{Config}
use open_thinking.Pipeline.Stage.{StageResult, success, not_run, validate_orchestrated_work}
use open_thinking.Pipeline.Payload.{
  StageEvent, context_write, stage_complete, stage_error, write_stage_output,
}
use open_thinking.Pipeline.Execute.{StageDeps, emit_all, estimate_stage_cost, failed_with}
use open_thinking.Pipeline.Orchestrate.State.{Orchestration, merged_work, undelegated}

module _ {Db W : Type 0} (store : Config) (db : Database Db) (deps : StageDeps Db W)
    (normalize : String → String) (stage_name : String) (stage_def : StageDefinition) where
  unfoldable pub note : List StageEvent → Orchestration Db W → Orchestration Db W
  unfolding emit_all
  note events o = record o { shared = emit_all store db deps events o.shared }

  unfoldable pub fail_orchestrator :
      String → StageResult → Orchestration Db W → StageResult × Orchestration Db W
  unfolding note
  fail_orchestrator error result o = (result, note (stage_error stage_name error ∷ []) o)

  -- The output is written, and the orchestrator has succeeded.
  unfoldable pub complete_orchestrator :
      AgentLoopResult
      → WorkSummary
      → (cost : ℕ) → Orchestration Db W
      → StageResult × Orchestration Db W
  unfolding note
  complete_orchestrator agent work cost o =
      let (written, d) =
        write_stage_output store db (deps.now o.shared.world) stage_name stage_def.context
          agent.final_content o.shared.db in
      let event : List StageEvent = elim written [
        | ok key ↦ context_write stage_name key ∷ []
        | err e ↦ []
      ] in
      let result : StageResult = record (not_run success stage_name) {
        output = some agent.final_content;
        usage = some agent.total_usage;
        cost = some cost;
        breakdown = some agent.breakdown;
        context_keys_written = elim written [ ok key ↦ key ∷ [] | err e ↦ [] ];
        stop_reason = some agent.stop_reason;
        work_summary = some work;
      } in
      (
        result,
        note (event ++ stage_complete result ∷ [])
            (record o { shared = record o.shared { db = d } }),
      )

  -- After the costs: the work that was done is tested against the request.
  unfoldable pub check_work :
      (prompt : String)
      → AgentLoopResult
      → WorkSummary
      → (cost : ℕ) → Orchestration Db W
      → StageResult × Orchestration Db W
  unfolding complete_orchestrator fail_orchestrator failed_with validate_orchestrated_work
  check_work prompt agent work cost o = elim (validate_orchestrated_work normalize prompt work) [
    | none ↦ complete_orchestrator agent work cost o
    | some error ↦
        fail_orchestrator error
          (record (failed_with stage_name error) {
            output = some agent.final_content;
            usage = some agent.total_usage;
            breakdown = some agent.breakdown;
            cost = some cost;
            stop_reason = some agent.stop_reason;
            work_summary = some work;
          })
          o
  ]

  unfoldable pub charge_orchestrator :
      (prompt : String)
      → AgentLoopResult
      → WorkSummary
      → Orchestration Db W
      → StageResult × Orchestration Db W
  unfolding check_work fail_orchestrator failed_with estimate_stage_cost
  charge_orchestrator prompt agent work o =
      let cost =
        estimate_stage_cost store db deps agent.total_usage stage_def.model
          (deps.provider_type stage_def.provider) in
      let (policy, outcome) = Engine.record_cost cost stage_name o.shared.policy in
      let o' : Orchestration Db W = record o { shared = record o.shared { policy = policy } } in
      elim outcome [
        | ok done ↦ check_work prompt agent work cost o'
        | err e ↦
            let error = deps.policy_text e in
            fail_orchestrator error
              (record (failed_with stage_name error) {
                usage = some agent.total_usage;
                cost = some cost;
              })
              o'
      ]

  -- What the agent loop returned.
  unfoldable pub finish_orchestrator :
      (prompt : String)
      → Result AgentLoopResult AgentError
      → Orchestration Db W
      → StageResult × Orchestration Db W
  unfolding charge_orchestrator fail_orchestrator failed_with merged_work
  finish_orchestrator prompt (err e) o =
      let error = deps.agent_text e in fail_orchestrator error (failed_with stage_name error) o
  finish_orchestrator prompt (ok agent) o =
      let work = merged_work agent.work_summary (some o.work) in
      if o.delegated
      then charge_orchestrator prompt agent work o
      else fail_orchestrator undelegated
          (record (failed_with stage_name undelegated) {
            usage = some agent.total_usage;
            work_summary = some work;
          })
          o
