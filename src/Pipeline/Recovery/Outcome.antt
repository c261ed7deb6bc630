-- ===== src/Pipeline/Recovery/Outcome.antt =====
-- How often `executeStageWithRetry` as a whole runs a stage.
use mathlib.Core.Path.{subst}
use open_thinking.Base.{
  ℕ, suc, String, ◌+◌, ◌≤◌, ◌≡◌, refl, sym, ◌⊎◌, inl, inr, ◌&&◌, Option, none, some, List, [],
  arith, length, Bool-cases, Option-cases, and-eq-true,
}
use open_thinking.Types.{StageDefinition, FailureConfig}
use open_thinking.Pipeline.Stage.{StageResult, failed, is_failed, is_rate_limit_failure}
use open_thinking.Pipeline.Recovery.{
  ErrorRecoveryAction, recover_retry, recover_skip, recover_abort, Executor, Retried, carry_on,
  return_now, rollback_context, fall_back, recover, pause_on_error, retries,
  execute_stage_with_retry,
}
use open_thinking.Pipeline.Recovery.Attempts.{
  Runs, watched, IsJustified, Reports, Holds, Holds-extend, Holds-weaken, Kept, Ends, Ends-of-Holds,
  Ends-of-failure, is_failed-eq, rollback_context-log, retry_stage-Kept, try_models-Holds,
}

abbrev pub retries_allowed : Option FailureConfig → ℕ
retries_allowed none = 0
retries_allowed (some on_fail) = on_fail.max_retries

abbrev pub models_allowed : Option (List String) → ℕ
models_allowed none = 0
models_allowed (some models) = length models

module _ {W : Type 0} (env : Executor W) (name : String) (stage_def : StageDefinition) where
  pub retries-Kept :
      (result : StageResult) (w : W × Runs)
      → Holds stage_def.model 1 result w.1
      → (let out = retries (watched env) name stage_def result w in
          Kept name stage_def.model (1 + retries_allowed stage_def.on_fail) out.0 out.1.1)
  unfolding retries
  retries-Kept result w h = elim (Option-cases stage_def.on_fail) [
    | inl e ↦ rw (retries, e) h
    | inr (on_fail, e) ↦
        rw (retries, e)
          (retry_stage-Kept env name stage_def on_fail on_fail.max_retries 0 1 result w h)
  ]

  pub fall_back-Holds :
      (n : ℕ) (result : StageResult) (w : W × Runs)
      → Holds stage_def.model n result w.1
      → (let out = fall_back (watched env) name stage_def result w in
          Holds stage_def.model (n + models_allowed stage_def.fallback_models) out.0 out.1.1)
  unfolding fall_back
  fall_back-Holds n result w h =
      let kept : (m : ℕ) → Holds stage_def.model (n + m) result w.1 =
        λ m. Holds-weaken stage_def.model n (n + m) result w.1 h (omega arith) in
      elim (Bool-cases (is_failed result.status && is_rate_limit_failure result)) [
        | inr e ↦ rw (fall_back, e) (kept _)
        | inl e ↦
            let (f, limited) = (and-eq-true _ _).0 e in
            elim (Option-cases stage_def.fallback_models) [
              | inl g ↦ rw (fall_back, e, g) (kept 0)
              | inr (models, g) ↦
                  rw (fall_back, e, g)
                    (try_models-Holds env name stage_def models n result w h (is_failed-eq _ f)
                      limited)
            ]
      ]

  recover-Ends :
      (action : ErrorRecoveryAction) (n : ℕ) (result : StageResult) (w : W × Runs)
      → Holds stage_def.model n result w.1
      → result.status ≡ failed
      → (let out = recover (watched env) name stage_def action result w in
          Ends name stage_def.model (n + 1) out.0 out.1.1)
  unfolding recover
  recover-Ends recover_retry n result w h f =
      let out = recover (watched env) name stage_def recover_retry result w in
      let back = rollback_context (watched env) name w in
      let same = rollback_context-log env name w in
      let next =
        Holds-extend stage_def.model n result back.1.1 stage_def.model out.0
          (subst (Holds stage_def.model n result) (sym same) h) f (inl refl) in
      Ends-of-Holds name stage_def.model (n + 1) out.0 out.1.1
        (Holds-weaken stage_def.model (suc n) (n + 1) out.0 out.1.1 next (omega arith))
  recover-Ends recover_skip n result w h f =
      Ends-of-failure name stage_def.model (n + 1) result _ w.1
        (Holds-weaken stage_def.model n (n + 1) result w.1 h (omega arith)) f (inl refl)
  recover-Ends recover_abort n result w h f =
      Ends-of-Holds name stage_def.model (n + 1) result w.1
        (Holds-weaken stage_def.model n (n + 1) result w.1 h (omega arith))

  pause_on_error-Ends :
      (n : ℕ) (result : StageResult) (w : W × Runs)
      → Holds stage_def.model n result w.1
      → (let out = pause_on_error (watched env) name stage_def result w in
          Ends name stage_def.model (n + 1) out.0 out.1.1)
  unfolding pause_on_error
  pause_on_error-Ends n result w h =
      let kept =
        Ends-of-Holds name stage_def.model (n + 1) result w.1
          (Holds-weaken stage_def.model n (n + 1) result w.1 h (omega arith)) in
      elim (Bool-cases (is_failed result.status)) [
        | inr e ↦ rw (pause_on_error, e) kept
        | inl e ↦ elim (Option-cases env.on_stage_error) [
          | inl g ↦ rw (pause_on_error, e, g) kept
          | inr (ask, g) ↦
              rw (pause_on_error, e, g) (recover-Ends _ n result _ h (is_failed-eq _ e))
        ]
      ]

pub Retried-cases :
    (r : Retried)
    → ((q : StageResult) × (r ≡ carry_on q)) ⊎ ((q : StageResult) × (r ≡ return_now q))
Retried-cases (carry_on q) = inl (q, refl)
Retried-cases (return_now q) = inr (q, refl)

Ends-weaken :
    (name model : String) (n m : ℕ) (result : StageResult) (l : Runs)
    → Ends name model n result l
    → n ≤ m
    → Ends name model m result l
Ends-weaken name model n m result l (o, j, b) le = (o, j, omega arith)

Ends-given_up :
    (name model : String) (n : ℕ) (result : StageResult) (l : Runs)
    → Kept name model n (return_now result) l
    → Ends name model n result l
Ends-given_up name model n result l (e, (q, h, f)) =
    Ends-of-failure name model n q result l h f (inr e)

-- How many runs there are, and what is returned of them.
pub execute_stage_with_retry-Attempts :
    {W : Type 0} (env : Executor W) (name : String) (stage_def : StageDefinition) (w : W)
    → (let out = execute_stage_with_retry (watched env) name stage_def (w, []) in
        Reports name out.0 out.1.1
        × IsJustified stage_def.model out.1.1
        × (length out.1.1
            ≤ 1 + retries_allowed stage_def.on_fail + models_allowed stage_def.fallback_models + 1))
unfolding execute_stage_with_retry
execute_stage_with_retry-Attempts env name stage_def w =
    let model = stage_def.model in
    let first = (watched env).execute_stage name stage_def (w, []) in
    let rt = retries (watched env) name stage_def first.0 first.1 in
    let n = 1 + retries_allowed stage_def.on_fail in
    let m = models_allowed stage_def.fallback_models in
    let k = retries-Kept env name stage_def first.0 first.1 (refl, refl, omega arith) in
    elim (Retried-cases rt.0) [
      | inr (result, e) ↦
          rw (execute_stage_with_retry, e)
            (Ends-weaken name model n (n + m + 1) result rt.1.1
              (Ends-given_up name model n result rt.1.1 (rw e at k)) (omega arith))
      | inl (result, e) ↦
          let h = fall_back-Holds env name stage_def n result rt.1 (rw e at k) in
          rw (execute_stage_with_retry, e) (pause_on_error-Ends env name stage_def (n + m) _ _ h)
    ]
