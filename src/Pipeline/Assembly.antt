-- ===== src/Pipeline/Assembly.antt =====
-- src/pipeline/executor/stage-executor.ts: the retries of Pipeline/Recovery and the orchestrated run of
-- Pipeline/Run over the state that the stages share, with the runs of Pipeline/Execute and
-- Pipeline/Orchestrate in the place of their parameters.
pub mod Laws
pub mod Orchestrated
use open_thinking.Base.{ℕ, String, Option, none, some, List, [], ◌∷◌, drop, length, map}
use open_thinking.Result.{Result, Void, ok, err}
use open_thinking.Errors.{ContextError}
use open_thinking.Types.{StageDefinition}
use open_thinking.Chat.{ToolDefinition}
use open_thinking.Context.Database.{Database}
use open_thinking.Context.Store
use open_thinking.Context.Store.{Config, ContextSnapshot}
use open_thinking.Pipeline.Order.{Stages}
use open_thinking.Pipeline.Stage.{StageResult}
use open_thinking.Pipeline.Payload.{StageEvent, delegate_complete, of_recovery, of_pipeline}
use open_thinking.Pipeline.Recovery.{
  ErrorRecoveryAction, Snapshot, Executor, execute_stage_with_retry,
}
use open_thinking.Pipeline.Run.{Delegated, Runner}
use open_thinking.Pipeline.Execute.{Shared, StageDeps, emit_all, execute_stage}
use open_thinking.Pipeline.Orchestrate.{execute_orchestrator}

-- The random numbers, the timers and the question to the user.
pub record Surroundings (W : Type 0) : Type 0 where
  pub jitter : W → ℕ
  pub sleep : ℕ → W → W
  pub on_stage_error : Option (String → String → W → ErrorRecoveryAction × W)

unfoldable pub named_snapshots :
    Result (List ContextSnapshot) ContextError → Result (List Snapshot) ContextError
named_snapshots (err e) = err e
named_snapshots (ok snapshots) =
    ok (map (λ (s : ContextSnapshot). record { id = s.id; name = s.name }) snapshots)

unfoldable pub discard_count : Result ℕ ContextError → Result Void ContextError
discard_count (ok n) = ok tt
discard_count (err e) = err e

unfoldable pub shared_question :
    {Db W : Type 0}
    → Option (String → String → W → ErrorRecoveryAction × W)
    → Option (String → String → Shared Db W → ErrorRecoveryAction × Shared Db W)
shared_question none = none
shared_question (some ask) = some (λ name message s.
    let (action, w) = ask name message s.world in (action, record s { world = w }))

-- What the handler of `delegate:complete` adds up.
unfoldable pub reports_of : List StageEvent → List Delegated
reports_of [] = []
reports_of (event ∷ events) =
    let rest = reports_of events in
    elim event [ delegate_complete name result ↦ (result.usage, result.cost) ∷ rest | _ ↦ rest ]

module _ {Db W : Type 0} (store : Config) (db : Database Db) (deps : StageDeps Db W) where
  module _ (around : Surroundings W) where
    unfoldable pub executor : Executor (Shared Db W)
    unfolding emit_all named_snapshots discard_count shared_question
    executor = record {
      execute_stage = execute_stage store db deps;
      aborted = λ s. deps.aborted s.world;
      jitter = λ s. around.jitter s.world;
      sleep = λ ms s. record s { world = around.sleep ms s.world };
      emit = λ event s. emit_all store db deps (of_recovery event ∷ []) s;
      set = λ key value stage_name s. record s {
        db = (Store.set store db (deps.now s.world) key value stage_name s.db).1;
      };
      list_snapshots = λ s. some (named_snapshots (Store.list_snapshots store db s.db));
      restore_snapshot = λ id s.
          let (restored, d) = Store.restore_snapshot store db (deps.now s.world) id s.db in
          (discard_count restored, record s { db = d });
      on_stage_error = shared_question around.on_stage_error;
    }

    -- `executeStageWithRetry(stageName, stageDef, deps)`
    unfoldable pub run_with_retry :
        String → StageDefinition → Shared Db W → StageResult × Shared Db W
    unfolding executor execute_stage_with_retry
    run_with_retry stage_name stage_def s = execute_stage_with_retry executor stage_name stage_def s

  -- A layer runs its stages side by side, which is a parameter.
  unfoldable pub runner :
      (run_id : String)
      → (run_layer : List String → Shared Db W → List StageResult × Shared Db W) → Stages
      → (normalize : String → String) → ToolDefinition
      → Runner (Shared Db W)
  unfolding emit_all execute_orchestrator reports_of
  runner run_id run_layer stages normalize tool = record {
    run_id = run_id;
    aborted = λ s. deps.aborted s.world;
    emit = λ event s. emit_all store db deps (of_pipeline event ∷ []) s;
    run_layer = run_layer;
    run_orchestrator = λ stage_name stage_def s.
        let (result, o) =
          execute_orchestrator store db deps stages normalize tool stage_name stage_def s in
        (result, reports_of (drop (length s.events) o.shared.events), o.shared);
  }
