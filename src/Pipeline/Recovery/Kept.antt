-- ===== src/Pipeline/Recovery/Kept.antt =====
-- What the steps of the executor keep, the retries and the fallback models keep; and why the retries end
-- early.
use open_thinking.Base.{
  ℕ, zero, suc, String, ◌+◌, ◌≡◌, inl, inr, true, ◌&&◌, not, ◌==◌, List, [], ◌∷◌, arith, Bool-cases,
  Option-cases,
}
use open_thinking.Result.{Result-cases}
use open_thinking.Types.{StageDefinition, FailureConfig}
use open_thinking.Agent.Text.{◌⋯◌}
use open_thinking.Pipeline.Stage.{StageResult, is_failed, is_rate_limit_failure}
use open_thinking.Pipeline.Recovery.{
  Executor, find_snapshot, return_now, rollback_context, inject_error, back_off, run_again,
  retry_stage, retries, run_model, try_models, fall_back, ExecutorEvent,
}

pub record Preserves {W : Type 0} (env : Executor W) (I : W → Type 0) : Type 0 where
  pub runs :
      (name : String) (stage_def : StageDefinition) (w : W)
      → I w
      → I (env.execute_stage name stage_def w).1
  pub sleeps : (ms : ℕ) (w : W) → I w → I (env.sleep ms w)
  pub emits : (event : ExecutorEvent) (w : W) → I w → I (env.emit event w)
  pub sets : (key value name : String) (w : W) → I w → I (env.set key value name w)
  pub restores : (id : String) (w : W) → I w → I (env.restore_snapshot id w).1

module _ {W : Type 0} (env : Executor W) (I : W → Type 0) (p : Preserves env I)
    (name : String) where
  pub rollback_context-keeps : (w : W) → I w → I (rollback_context env name w).1
  unfolding rollback_context
  rollback_context-keeps w i = elim (Option-cases (env.list_snapshots w)) [
    | inl e ↦ rw (rollback_context, e) i
    | inr (found, e) ↦ elim (Result-cases found) [
      | inr (error, f) ↦ rw (rollback_context, e, f) i
      | inl (snapshots, f) ↦ elim (Option-cases (find_snapshot ("auto:before:" ⋯ name) snapshots)) [
        | inl g ↦ rw (rollback_context, e, f, g) i
        | inr (snapshot, g) ↦
            let restored = p.restores snapshot.id w i in
            elim (Result-cases (env.restore_snapshot snapshot.id w).0) [
              | inl (done, k) ↦ rw (rollback_context, e, f, g, k) restored
              | inr (error, k) ↦ rw (rollback_context, e, f, g, k) restored
            ]
      ]
    ]
  ]

  inject_error-keeps :
      (on_fail : FailureConfig) (result : StageResult) (w : W)
      → I w
      → I (inject_error env name on_fail result w)
  unfolding inject_error
  inject_error-keeps on_fail result w i = elim (Option-cases on_fail.inject_context) [
    | inl e ↦ rw (inject_error, e) i
    | inr (key, e) ↦ elim (Option-cases result.error) [
      | inl f ↦ rw (inject_error, e, f) i
      | inr (error, f) ↦ elim (Bool-cases (not (key == "") && not (error == ""))) [
        | inl g ↦ rw (inject_error, e, f, g) (p.sets key error name w i)
        | inr g ↦ rw (inject_error, e, f, g) i
      ]
    ]
  ]

  module _ (stage_def : StageDefinition) where
    back_off-keeps :
        (on_fail : FailureConfig) (attempt : ℕ) (w : W)
        → I w
        → I (back_off env name stage_def on_fail attempt w)
    unfolding back_off
    back_off-keeps on_fail attempt w i = p.sleeps _ _ (p.emits _ w i)

    run_again-keeps :
        (on_fail : FailureConfig) (result : StageResult) (w : W)
        → I w
        → I (run_again env name stage_def on_fail result w).1
    unfolding run_again
    run_again-keeps on_fail result w i =
        p.runs name stage_def _ (inject_error-keeps on_fail result _ (rollback_context-keeps w i))

    retry_stage-keeps :
        (on_fail : FailureConfig) (left attempt : ℕ) (result : StageResult) (w : W)
        → I w
        → I (retry_stage env name stage_def on_fail attempt left result w).1
    unfolding retry_stage
    retry_stage-keeps on_fail zero attempt result w i = i
    retry_stage-keeps on_fail (suc left) attempt result w i =
        elim (Bool-cases (is_failed result.status)) [
          | inr e ↦ rw (retry_stage, e) i
          | inl e ↦
              let w' = back_off env name stage_def on_fail attempt w in
              let i' = back_off-keeps on_fail attempt w i in
              elim (Bool-cases (env.aborted w')) [
                | inl a ↦ rw (retry_stage, e, a) i'
                | inr a ↦
                    let again = run_again env name stage_def on_fail result w' in
                    rw (retry_stage, e, a)
                      (retry_stage-keeps on_fail left (attempt + 1) again.0 again.1
                        (run_again-keeps on_fail result w' i'))
              ]
        ]

    pub retries-keeps :
        (result : StageResult) (w : W) → I w → I (retries env name stage_def result w).1
    unfolding retries
    retries-keeps result w i = elim (Option-cases stage_def.on_fail) [
      | inl e ↦ rw (retries, e) i
      | inr (on_fail, e) ↦
          rw (retries, e) (retry_stage-keeps on_fail on_fail.max_retries 0 result w i)
    ]

    try_models-keeps :
        (models : List String) (result : StageResult) (w : W)
        → I w
        → I (try_models env name stage_def models result w).1
    unfolding try_models run_model
    try_models-keeps [] result w i = i
    try_models-keeps (model ∷ models) result w i =
        let next = run_model env name stage_def model w in
        let i' : I next.1 = p.runs name _ _ (rollback_context-keeps _ (p.emits _ w i)) in
        elim (Bool-cases (is_failed next.0.status && is_rate_limit_failure next.0)) [
          | inr e ↦ rw (try_models, e) i'
          | inl e ↦ rw (try_models, e) (try_models-keeps models next.0 next.1 i')
        ]

    pub fall_back-keeps :
        (result : StageResult) (w : W) → I w → I (fall_back env name stage_def result w).1
    unfolding fall_back
    fall_back-keeps result w i =
        elim (Bool-cases (is_failed result.status && is_rate_limit_failure result)) [
          | inr e ↦ rw (fall_back, e) i
          | inl e ↦ elim (Option-cases stage_def.fallback_models) [
            | inl n ↦ rw (fall_back, e, n) i
            | inr (models, n) ↦ rw (fall_back, e, n) (try_models-keeps models result w i)
          ]
        ]

module _ {W : Type 0} (env : Executor W) (name : String) (stage_def : StageDefinition) where
  retry_stage-aborted :
      (on_fail : FailureConfig) (left attempt : ℕ) (result given : StageResult) (w : W)
      → (retry_stage env name stage_def on_fail attempt left result w).0 ≡ return_now given
      → env.aborted (retry_stage env name stage_def on_fail attempt left result w).1 ≡ true
  unfolding retry_stage
  retry_stage-aborted on_fail zero attempt result given w h = absurd (ground (arith, h))
  retry_stage-aborted on_fail (suc left) attempt result given w h =
      elim (Bool-cases (is_failed result.status)) [
        | inr e ↦ absurd (let h' = rw (retry_stage, e) at h in ground (arith, h'))
        | inl e ↦
            let w' = back_off env name stage_def on_fail attempt w in
            elim (Bool-cases (env.aborted w')) [
              | inl a ↦ rw (retry_stage, e, a) a
              | inr a ↦
                  let again = run_again env name stage_def on_fail result w' in
                  rw (retry_stage, e, a)
                    (retry_stage-aborted on_fail left (attempt + 1) again.0 given again.1
                      (rw (retry_stage, e, a) at h))
            ]
      ]

  -- The retries return at once only when the run is aborted.
  pub retries-aborted :
      (result given : StageResult) (w : W)
      → (retries env name stage_def result w).0 ≡ return_now given
      → env.aborted (retries env name stage_def result w).1 ≡ true
  unfolding retries
  retries-aborted result given w h = elim (Option-cases stage_def.on_fail) [
    | inl e ↦ absurd (let h' = rw (retries, e) at h in ground (arith, h'))
    | inr (on_fail, e) ↦
        rw (retries, e)
          (retry_stage-aborted on_fail on_fail.max_retries 0 result given w (rw (retries, e) at h))
  ]
