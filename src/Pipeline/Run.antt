-- ===== src/Pipeline/Run.antt =====
-- src/pipeline/executor/stage-executor.ts, `executePipeline` and `executeOrchestrated`. A layer runs
-- its stages side by side: the environment runs `executeStageWithRetry` for each name of the layer and
-- returns the results by position, as `Promise.all` does, in whatever order their effects come.
pub mod Halting
use open_thinking.Base.{
  ℕ, String, ◌+◌, Bool, true, false, ◌||◌, Option, none, some, List, [], ◌∷◌, ◌++◌, map, all, any,
  if◌then◌else◌,
}
use open_thinking.Result.{Result, ok, err}
use open_thinking.Errors.{ProviderError, not_found}
use open_thinking.Types.{StageDefinition, orchestrator, TokenUsage, no_usage, add_usage}
use open_thinking.Pipeline.Order.{Stages, resolve_execution_order}
use open_thinking.Pipeline.Stage.{
  StageStatus, StageResult, skipped, cancelled, RunStatus, run_success, run_failed, run_partial,
  PipelineRunResult, not_run, is_failed, is_success,
}

pub data PipelineMode : Type 0 where
  sequential orchestrated : PipelineMode

pub record PipelineConfig : Type 0 where
  pub name : String
  pub mode : PipelineMode
  pub stages : Stages

pub data PipelineEvent : Type 0 where
  pipeline_start : (pipeline_name run_id : String) → PipelineEvent
  pipeline_complete : PipelineRunResult → PipelineEvent

-- What a delegated agent reports: its usage and its cost.
abbrev pub Delegated : Type 0
Delegated = Option TokenUsage × Option ℕ

pub record Runner (W : Type 0) : Type 0 where
  pub run_id : String
  pub aborted : W → Bool
  pub emit : PipelineEvent → W → W
  pub run_layer : List String → W → List StageResult × W
  -- `executeStageWithDelegateTool`, with the reports of the delegated agents.
  pub run_orchestrator : String → StageDefinition → W → StageResult × List Delegated × W

unfoldable pub add_reported : TokenUsage → Option TokenUsage → TokenUsage
unfolding add_usage
add_reported total none = total
add_reported total (some usage) = add_usage total usage

unfoldable pub cost_of : Option ℕ → ℕ
cost_of none = 0
cost_of (some cost) = cost

-- The accumulating loops, from what was counted so far.
unfoldable pub sum_reports : TokenUsage × ℕ → List Delegated → TokenUsage × ℕ
unfolding add_reported cost_of
sum_reports total [] = total
sum_reports (tokens, cost) ((usage, c) ∷ reports) =
    sum_reports (add_reported tokens usage, cost + cost_of c) reports

unfoldable pub run_status : (was_cancelled : Bool) → List StageResult → RunStatus
unfolding is_success
run_status was_cancelled results =
    if was_cancelled
    then run_failed
    else if all (λ r. is_success r.status) results
    then run_success
    else if any (λ r. is_success r.status) results
    then run_partial
    else run_failed

unfoldable pub find_orchestrator : Stages → Option (String × StageDefinition)
find_orchestrator [] = none
find_orchestrator ((name, d) ∷ stages) = elim d.role [
  | some orchestrator ↦ some (name, d)
  | none ↦ find_orchestrator stages
]

-- The results of a layer that is not run.
unfoldable pub pass_over : (aborted : Bool) → List String → List StageResult
unfolding not_run
pass_over aborted layer = map (not_run (if aborted then cancelled else skipped)) layer

module _ {W : Type 0} (env : Runner W) where
  -- The loop over the layers.
  unfoldable pub run_layers :
      (pipeline_failed : Bool) → List (List String) → W → List StageResult × W
  unfolding pass_over is_failed
  run_layers pipeline_failed [] w = ([], w)
  run_layers pipeline_failed (layer ∷ layers) w = elim (pipeline_failed || env.aborted w) [
    | true ↦
        let (rest, w') = run_layers pipeline_failed layers w in
        (pass_over (env.aborted w) layer ++ rest, w')
    | false ↦
        let (results, w') = env.run_layer layer w in
        let (rest, w'') = run_layers (any (λ r. is_failed r.status) results) layers w' in
        (results ++ rest, w'')
  ]

  unfoldable pub pipeline_result :
      PipelineConfig → (was_cancelled : Bool) → List StageResult → PipelineRunResult
  unfolding run_status sum_reports no_usage
  pipeline_result config was_cancelled results =
      let (tokens, cost) = sum_reports (no_usage, 0) (map (λ r. (r.usage, r.cost)) results) in
      record {
        pipeline_name = config.name;
        run_id = env.run_id;
        status = run_status was_cancelled results;
        stages = results;
        total_cost = cost;
        total_tokens = tokens;
      }

  unfoldable pub orchestrated_result :
      PipelineConfig → StageResult → List Delegated → PipelineRunResult
  unfolding sum_reports no_usage is_success add_reported cost_of
  orchestrated_result config result reports =
      let (tokens, cost) =
        sum_reports (add_reported no_usage result.usage, cost_of result.cost) reports in
      record {
        pipeline_name = config.name;
        run_id = env.run_id;
        status = if is_success result.status then run_success else run_failed;
        stages = result ∷ [];
        total_cost = cost;
        total_tokens = tokens;
      }

  unfoldable pub execute_orchestrated :
      PipelineConfig → W → Result PipelineRunResult ProviderError × W
  unfolding find_orchestrator orchestrated_result
  execute_orchestrated config w =
      let started = env.emit (pipeline_start config.name env.run_id) w in
      elim (find_orchestrator config.stages) [
        | none ↦ (err (record { code = not_found }), started)
        | some (name, stage_def) ↦
            let (result, reports, w') = env.run_orchestrator name stage_def started in
            let pipeline = orchestrated_result config result reports in
            (ok pipeline, env.emit (pipeline_complete pipeline) w')
      ]

  -- `none` stands for an order whose loop is out of fuel.
  unfoldable pub execute_layers :
      PipelineConfig → W → Option (Result PipelineRunResult ProviderError) × W
  unfolding run_layers pipeline_result resolve_execution_order
  execute_layers config w =
      let started = env.emit (pipeline_start config.name env.run_id) w in
      elim (resolve_execution_order config.stages) [
        | none ↦ (none, started)
        | some (err e) ↦ (some (err e), started)
        | some (ok layers) ↦
            let (results, w') = run_layers false layers started in
            let pipeline = pipeline_result config (env.aborted w') results in
            (some (ok pipeline), env.emit (pipeline_complete pipeline) w')
      ]

  unfoldable pub execute_pipeline :
      PipelineConfig → W → Option (Result PipelineRunResult ProviderError) × W
  unfolding execute_orchestrated execute_layers
  execute_pipeline config w = elim config.mode [
    | orchestrated ↦ let (result, w') = execute_orchestrated config w in (some result, w')
    | sequential ↦ execute_layers config w
  ]
