-- ===== src/Pipeline/RunTests.antt =====
-- A stage that fails on a rate limit twice before its fallback model succeeds, and the run of a
-- pipeline whose second layer fails.
use mathlib.Core.List.{Perm}
use open_thinking.Base.{
  ℕ, ◌+◌, ◌≤◌, ◌≡◌, refl, false, none, some, [], ◌∷◌, ◌==◌, if◌then◌else◌, map, length, flatten,
}
use open_thinking.Result.{ok}
use open_thinking.Types.{StageDefinition}
use open_thinking.Pipeline.Stage.{success, failed, not_run, PipelineRunResult}
use open_thinking.Pipeline.Recovery.{Executor, recover_skip, execute_stage_with_retry}
use open_thinking.Pipeline.Recovery.Attempts.{watched, IsJustified}
use open_thinking.Pipeline.Recovery.Answers.{asked, IsOutcome, execute_stage_with_retry-Ends}
use open_thinking.Pipeline.Order.{names}
use open_thinking.Pipeline.Run.{
  PipelineConfig, sequential, Runner, execute_pipeline, pipeline_complete,
}
use open_thinking.Pipeline.Run.Halting.{Halts, execute_pipeline-Halts}
use open_thinking.Pipeline.Tests.{readme, readme_layers, resolve-readme}

abbrev limited_stage : StageDefinition
limited_stage = record {
  provider = "openai";
  model = "gpt-4o";
  skill = "coding";
  system_message = none;
  context = record { read = []; write = []; eager = false };
  depends_on = none;
  max_iterations = none;
  allowed_tools = none;
  role = none;
  fallback_models = some ("gpt-4o-mini" ∷ []);
  on_fail = some (record { retry_stage = "plan"; max_retries = 1; inject_context = none });
  permissions = none;
}

-- Only the small model is within the rate limit. The world counts the runs.
abbrev limited : Executor ℕ
limited = record {
  execute_stage = λ name stage_def n. (
    if stage_def.model == "gpt-4o-mini"
        then not_run success name
        else record (not_run failed name) { error = some "HTTP 429" },
    n + 1,
  );
  aborted = λ n. false;
  jitter = λ n. 5;
  sleep = λ ms n. n;
  emit = λ event n. n;
  set = λ key value name n. n;
  list_snapshots = λ n. none;
  restore_snapshot = λ id n. (ok tt, n);
  on_stage_error = none;
}

-- Without a fallback model the user is asked, and skips the stage.
abbrev skips : Executor ℕ
skips = record limited { on_stage_error = some (λ name message n. (recover_skip, n + 1)) }

abbrev alone : StageDefinition
alone = record limited_stage { fallback_models = none }

execute_stage_with_retry-Ends_example :
    (let out = execute_stage_with_retry (watched (asked skips)) "plan" alone ((0, []), []) in
      let (end, answers) = out.1.0 in
      let runs = out.1.1 in
      IsOutcome skips "plan" end out.0 runs answers
      × IsJustified "gpt-4o" runs
      × (length runs ≤ 1 + 1 + 0 + 1))
execute_stage_with_retry-Ends_example = execute_stage_with_retry-Ends skips "plan" alone 0

-- The stage `develop` fails.
abbrev broken : Runner ℕ
broken = record {
  run_id = "run";
  aborted = λ n. false;
  emit = λ event n. n;
  run_layer = λ layer n.
      (map (λ name. not_run (if name == "develop" then failed else success) name) layer, n + 1);
  run_orchestrator = λ name stage_def n. (not_run success name, [], n);
}

abbrev broken_config : PipelineConfig
broken_config = record { name = "readme"; mode = sequential; stages = readme }

execute_pipeline-Halts_example :
    (r : PipelineRunResult) × (end : ℕ) × (execute_pipeline broken broken_config 0
      ≡ (some (ok r), broken.emit (pipeline_complete r) end))
    × Halts broken 0 readme_layers r.stages end
    × Perm (flatten readme_layers) (names readme)
execute_pipeline-Halts_example =
    execute_pipeline-Halts broken broken_config 0 readme_layers refl resolve-readme
