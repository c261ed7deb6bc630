-- ===== src/Pipeline/Recovery/LastRun.antt =====
-- What `executeStageWithRetry` returns is what a run of the stage returned, unless it did not succeed.
use open_thinking.Base.{
  ℕ, zero, suc, String, ◌+◌, ◌≡◌, ◌≢◌, refl, ◌⊎◌, inl, inr, ◌&&◌, List, [], ◌∷◌, arith, Bool-cases,
  Option-cases,
}
use open_thinking.Types.{StageDefinition, FailureConfig}
use open_thinking.Pipeline.Stage.{
  StageResult, success, failed, cancelled, not_run, is_failed, is_rate_limit_failure,
}
use open_thinking.Pipeline.Recovery.{
  ErrorRecoveryAction, recover_retry, recover_skip, recover_abort, Executor, Retried, carry_on,
  return_now, retry_stage, try_models, fall_back, recover, pause_on_error, retries,
  execute_stage_with_retry, back_off, run_again, run_model,
}
use open_thinking.Pipeline.Recovery.Attempts.{is_failed-eq}

-- `Q` holds of whatever a run of the stage with some model leaves.
module _ {W : Type 0} (env : Executor W) (name : String) (stage_def : StageDefinition)
    (Q : StageResult × W → Type 0)
    (runs : (model : String) (w : W)
      → Q (env.execute_stage name (record stage_def { model = model }) w)) where
  -- Between the steps of the retries.
  abbrev Carried : Retried × W → Type 0
  Carried out =
      ((r : StageResult) × (out.0 ≡ carry_on r) × Q (r, out.1))
      ⊎ (out.0 ≡ return_now (not_run cancelled name))

  retry_stage-Carried :
      (on_fail : FailureConfig) (left attempt : ℕ) (result : StageResult) (w : W)
      → Q (result, w)
      → Carried (retry_stage env name stage_def on_fail attempt left result w)
  unfolding retry_stage run_again
  retry_stage-Carried on_fail zero attempt result w q = inl (result, refl, q)
  retry_stage-Carried on_fail (suc left) attempt result w q =
      elim (Bool-cases (is_failed result.status)) [
        | inr e ↦ rw (retry_stage, e) (inl (result, refl, q))
        | inl e ↦
            let w' = back_off env name stage_def on_fail attempt w in
            elim (Bool-cases (env.aborted w')) [
              | inl a ↦ rw (retry_stage, e, a) (inr refl)
              | inr a ↦
                  let again = run_again env name stage_def on_fail result w' in
                  rw (retry_stage, e, a)
                    (retry_stage-Carried on_fail left (attempt + 1) again.0 again.1
                      (runs stage_def.model _))
            ]
      ]

  retries-Carried :
      (result : StageResult) (w : W) → Q (result, w) → Carried (retries env name stage_def result w)
  unfolding retries
  retries-Carried result w q = elim (Option-cases stage_def.on_fail) [
    | inl e ↦ rw (retries, e) (inl (result, refl, q))
    | inr (on_fail, e) ↦
        rw (retries, e) (retry_stage-Carried on_fail on_fail.max_retries 0 result w q)
  ]

  try_models-Last :
      (models : List String) (result : StageResult) (w : W)
      → Q (result, w)
      → Q (try_models env name stage_def models result w)
  unfolding try_models run_model
  try_models-Last [] result w q = q
  try_models-Last (model ∷ models) result w q =
      let next = run_model env name stage_def model w in
      elim (Bool-cases (is_failed next.0.status && is_rate_limit_failure next.0)) [
        | inr e ↦ rw (try_models, e) (runs model _)
        | inl e ↦ rw (try_models, e) (try_models-Last models next.0 next.1 (runs model _))
      ]

  fall_back-Last :
      (result : StageResult) (w : W) → Q (result, w) → Q (fall_back env name stage_def result w)
  unfolding fall_back
  fall_back-Last result w q =
      elim (Bool-cases (is_failed result.status && is_rate_limit_failure result)) [
        | inr e ↦ rw (fall_back, e) q
        | inl e ↦ elim (Option-cases stage_def.fallback_models) [
          | inl n ↦ rw (fall_back, e, n) q
          | inr (models, n) ↦ rw (fall_back, e, n) (try_models-Last models result w q)
        ]
      ]

  abbrev pub LastRun : StageResult × W → Type 0
  LastRun out = (out.0.status ≢ success) ⊎ Q out

  recover-LastRun :
      (action : ErrorRecoveryAction) (result : StageResult) (w : W)
      → result.status ≡ failed
      → LastRun (recover env name stage_def action result w)
  unfolding recover
  recover-LastRun recover_retry result w f = inr (runs stage_def.model _)
  recover-LastRun recover_skip result w f = inl (λ e. ground arith)
  recover-LastRun recover_abort result w f = inl (λ e. ground arith)

  pause_on_error-LastRun :
      (result : StageResult) (w : W)
      → Q (result, w)
      → LastRun (pause_on_error env name stage_def result w)
  unfolding pause_on_error
  pause_on_error-LastRun result w q = elim (Bool-cases (is_failed result.status)) [
    | inr e ↦ rw (pause_on_error, e) (inr q)
    | inl e ↦ elim (Option-cases env.on_stage_error) [
      | inl n ↦ rw (pause_on_error, e, n) (inr q)
      | inr (ask, n) ↦ rw (pause_on_error, e, n) (recover-LastRun _ result _ (is_failed-eq _ e))
    ]
  ]

  pub execute_stage_with_retry-LastRun :
      (w : W) → LastRun (execute_stage_with_retry env name stage_def w)
  unfolding execute_stage_with_retry not_run
  execute_stage_with_retry-LastRun w =
      let first = env.execute_stage name stage_def w in
      elim (retries-Carried first.0 first.1 (runs stage_def.model w)) [
        | inr e ↦ rw (execute_stage_with_retry, e) (inl (λ s. ground arith))
        | inl (r, e, q) ↦
            let w₂ = (retries env name stage_def first.0 first.1).1 in
            let fallen = fall_back env name stage_def r w₂ in
            rw (execute_stage_with_retry, e)
              (pause_on_error-LastRun fallen.0 fallen.1 (fall_back-Last r w₂ q))
      ]
