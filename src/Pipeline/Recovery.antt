-- ===== src/Pipeline/Recovery.antt =====
-- src/pipeline/executor/stage-executor.ts, `executeStageWithRetry`: the retries of a failed stage, its
-- fallback models, and the question to the user. `executeStage`, the context store, the bus and the
-- timers are the environment, over a world that each of them may change.
pub mod Attempts
pub mod Kept
pub mod Outcome
pub mod Answers
pub mod LastRun
use open_thinking.Base.{
  ℕ, zero, suc, String, ◌+◌, Bool, true, false, ◌&&◌, not, Option, none, some, List, [], ◌∷◌, ◌==◌,
  if◌then◌else◌,
}
use open_thinking.Result.{Result, Void, ok, err}
use open_thinking.Errors.{ContextError}
use open_thinking.Types.{StageDefinition, FailureConfig}
use open_thinking.Agent.Text.{◌⋯◌}
use open_thinking.Pipeline.Stage.{
  StageResult, cancelled, skipped, not_run, is_failed, is_rate_limit_failure, retry_delay,
}

pub data ErrorRecoveryAction : Type 0 where
  recover_retry recover_skip recover_abort : ErrorRecoveryAction

pub data ExecutorEvent : Type 0 where
  retrying : (stage_name : String) (attempt max_retries delay : ℕ) → ExecutorEvent
  model_fallback : (stage_name from_model to_model : String) → ExecutorEvent

pub record Snapshot : Type 0 where
  pub id : String
  pub name : String

pub record Executor (W : Type 0) : Type 0 where
  pub execute_stage : String → StageDefinition → W → StageResult × W
  pub aborted : W → Bool
  -- The random part of a delay, and the wait.
  pub jitter : W → ℕ
  pub sleep : ℕ → W → W
  pub emit : ExecutorEvent → W → W
  -- `set` of the context store, whose result is not looked at.
  pub set : (key value stage_name : String) → W → W
  -- `none` for a store without snapshots.
  pub list_snapshots : W → Option (Result (List Snapshot) ContextError)
  pub restore_snapshot : String → W → Result Void ContextError × W
  pub on_stage_error : Option (String → String → W → ErrorRecoveryAction × W)

unfoldable pub find_snapshot : String → List Snapshot → Option Snapshot
find_snapshot name [] = none
find_snapshot name (s ∷ snapshots) = if s.name == name then some s else find_snapshot name snapshots

-- What the loop of the retries leaves: the result so far, or the result that is returned at once.
pub data Retried : Type 0 where
  carry_on : StageResult → Retried
  return_now : StageResult → Retried

module _ {W : Type 0} (env : Executor W) where
  unfoldable pub rollback_context : String → W → Bool × W
  unfolding find_snapshot
  rollback_context stage_name w = elim (env.list_snapshots w) [
    | none ↦ (false, w)
    | some (err e) ↦ (false, w)
    | some (ok snapshots) ↦ elim (find_snapshot ("auto:before:" ⋯ stage_name) snapshots) [
      | none ↦ (false, w)
      | some snapshot ↦
          let (restored, w') = env.restore_snapshot snapshot.id w in
          elim restored [ ok done ↦ (true, w') | err e ↦ (false, w') ]
    ]
  ]

  -- `if (inject_context && result.error) await contextStore.set(…)`
  unfoldable pub inject_error : String → FailureConfig → StageResult → W → W
  inject_error stage_name on_fail result w = elim on_fail.inject_context [
    | none ↦ w
    | some key ↦ elim result.error [
      | none ↦ w
      | some e ↦ if not (key == "") && not (e == "") then env.set key e stage_name w else w
    ]
  ]

module _ {W : Type 0} (env : Executor W) (stage_name : String) (stage_def : StageDefinition) where
  -- What comes before a retry: the announcement and the wait.
  unfoldable pub back_off : FailureConfig → (attempt : ℕ) → W → W
  unfolding retry_delay
  back_off on_fail attempt w =
      let delay = retry_delay attempt (env.jitter w) in
      env.sleep delay (env.emit (retrying stage_name (attempt + 1) on_fail.max_retries delay) w)

  -- The context is rolled back, and the error is noted before the stage runs again.
  unfoldable pub run_again : FailureConfig → StageResult → W → StageResult × W
  unfolding rollback_context inject_error
  run_again on_fail result w =
      let (restored, w') = rollback_context env stage_name w in
      env.execute_stage stage_name stage_def (inject_error env stage_name on_fail result w')

  -- The `for` loop of the retries, by those that are left.
  unfoldable pub retry_stage : FailureConfig → (attempt left : ℕ) → StageResult → W → Retried × W
  unfolding back_off run_again is_failed not_run
  retry_stage on_fail attempt zero result w = (carry_on result, w)
  retry_stage on_fail attempt (suc left) result w = elim (is_failed result.status) [
    | false ↦ (carry_on result, w)
    | true ↦
        let w' = back_off on_fail attempt w in
        elim (env.aborted w') [
          | true ↦ (return_now (not_run cancelled stage_name), w')
          | false ↦
              let (result', w'') = run_again on_fail result w' in
              retry_stage on_fail (attempt + 1) left result' w''
        ]
  ]

  unfoldable pub run_model : String → W → StageResult × W
  unfolding rollback_context
  run_model model w =
      let w' = env.emit (model_fallback stage_name stage_def.model model) w in
      let (restored, w'') = rollback_context env stage_name w' in
      env.execute_stage stage_name (record stage_def { model = model }) w''

  -- The `for` loop of the fallback models.
  unfoldable pub try_models : List String → StageResult → W → StageResult × W
  unfolding run_model is_failed is_rate_limit_failure
  try_models [] result w = (result, w)
  try_models (model ∷ models) result w =
      let (result', w') = run_model model w in
      elim (is_failed result'.status && is_rate_limit_failure result') [
        | false ↦ (result', w')
        | true ↦ try_models models result' w'
      ]

  unfoldable pub fall_back : StageResult → W → StageResult × W
  unfolding try_models
  fall_back result w = elim (is_failed result.status && is_rate_limit_failure result) [
    | false ↦ (result, w)
    | true ↦ elim stage_def.fallback_models [
      | none ↦ (result, w)
      | some models ↦ try_models models result w
    ]
  ]

  unfoldable pub recover : ErrorRecoveryAction → StageResult → W → StageResult × W
  unfolding rollback_context
  recover recover_retry result w =
      let (restored, w') = rollback_context env stage_name w in
      env.execute_stage stage_name stage_def w'
  recover recover_skip result w = (record result { status = skipped }, w)
  recover recover_abort result w = (result, w)

  unfoldable pub pause_on_error : StageResult → W → StageResult × W
  unfolding recover is_failed
  pause_on_error result w = elim (is_failed result.status) [
    | false ↦ (result, w)
    | true ↦ elim env.on_stage_error [
      | none ↦ (result, w)
      | some ask ↦
          let message : String = elim result.error [ none ↦ "Unknown error" | some e ↦ e ] in
          let (action, w') = ask stage_name message w in recover action result w'
    ]
  ]

  unfoldable pub retries : StageResult → W → Retried × W
  unfolding retry_stage
  retries result w = elim stage_def.on_fail [
    | none ↦ (carry_on result, w)
    | some on_fail ↦ retry_stage on_fail 0 on_fail.max_retries result w
  ]

  unfoldable pub execute_stage_with_retry : W → StageResult × W
  unfolding retries fall_back pause_on_error
  execute_stage_with_retry w =
      let (first, w₁) = env.execute_stage stage_name stage_def w in
      let (retried, w₂) = retries first w₁ in
      elim retried [
        | return_now result ↦ (result, w₂)
        | carry_on result ↦ let (result', w₃) = fall_back result w₂ in pause_on_error result' w₃
      ]
