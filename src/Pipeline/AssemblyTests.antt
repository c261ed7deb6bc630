-- ===== src/Pipeline/AssemblyTests.antt =====
-- A stage with retries and an orchestrated pipeline, over the stages of Pipeline/DelegateTests.
use open_thinking.Base.{ℕ, String, ◌≡◌, refl, ◌⊎◌, none, some, List, [], Elem}
use open_thinking.Result.{err, ok}
use open_thinking.Errors.{not_found}
use open_thinking.Types.{StageDefinition, orchestrator}
use open_thinking.Context.Memory.{Memory, memory, memory-IsTable}
use open_thinking.Pipeline.Stage.{StageResult, PipelineRunResult}
use open_thinking.Pipeline.Run.{PipelineConfig, orchestrated, execute_pipeline}
use open_thinking.Pipeline.Execute.{Shared}
use open_thinking.Pipeline.Assembly.{Surroundings, run_with_retry, runner}
use open_thinking.Pipeline.Assembly.Laws.{Leaves, run_with_retry-Leaves}
use open_thinking.Pipeline.Assembly.Orchestrated.{IsHonest, execute_pipeline-IsHonest}
use open_thinking.Pipeline.StageTests.{config, planning, deps, ready}
use open_thinking.Pipeline.DelegateTests.{both, team, tool}

abbrev around : Surroundings ℕ
around = record { jitter = λ w. 0; sleep = λ ms w. w; on_stage_error = none }

run_with_retry-Leaves_example :
    Leaves config memory memory-IsTable deps "planning" planning
      (run_with_retry config memory deps around "planning" planning ready)
run_with_retry-Leaves_example =
    run_with_retry-Leaves config memory memory-IsTable deps around "planning" planning
      (λ value. refl) refl ready

abbrev led_pipeline : PipelineConfig
led_pipeline = record { name = "led"; mode = orchestrated; stages = team }

abbrev no_layer : List String → Shared Memory ℕ → List StageResult × Shared Memory ℕ
no_layer layer s = ([], s)

execute_pipeline-IsHonest_example :
    (let out =
        (execute_pipeline
          (runner config memory both "r1" no_layer team (λ text. text) tool)
          led_pipeline
          ready).0 in
      ((out ≡ some (err (record { code = not_found })))
        × ((name : String) (d : StageDefinition) → Elem (name, d) team → d.role ≡ none))
      ⊎ ((name : String) × (d : StageDefinition) × Elem (name, d) team
          × (d.role ≡ some orchestrator)
          × ((r : PipelineRunResult) × (out ≡ some (ok r))
              × ((result : StageResult) × IsHonest config memory memory-IsTable both "r1" no_layer
                    (λ text. text)
                    tool
                    led_pipeline
                    name
                    d
                    ready
                    r
                    result))))
execute_pipeline-IsHonest_example =
    execute_pipeline-IsHonest config memory memory-IsTable both "r1" no_layer (λ text. text) tool
      led_pipeline (λ value. refl) refl refl ready
