-- ===== src/Pipeline/Recovery/Attempts.antt =====
-- Which runs of a stage `executeStageWithRetry` makes, and what it returns. The executor is watched: it
-- keeps the model and the result of every run.
use mathlib.Core.Path.{subst}
use open_thinking.Base.{
  ℕ, zero, suc, String, ◌+◌, ◌≤◌, ◌≡◌, refl, sym, ap, ◌∙◌, ◌⊎◌, inl, inr, true, ◌&&◌, not, ◌==◌,
  Option, none, some, List, [], ◌∷◌, arith, length, Bool-cases, Option-cases, and-eq-true,
}
use open_thinking.Result.{Result-cases}
use open_thinking.Types.{StageDefinition, FailureConfig}
use open_thinking.Agent.Text.{◌⋯◌}
use open_thinking.Pipeline.Stage.{
  StageStatus, pending, running, success, failed, StageResult, skipped, cancelled, not_run,
  is_failed, is_rate_limit_failure,
}
use open_thinking.Pipeline.Recovery.{
  ErrorRecoveryAction, Executor, find_snapshot, Retried, carry_on, return_now, rollback_context,
  inject_error, back_off, run_again, retry_stage, run_model, try_models,
}

-- The model and the result of a run; the latest first.
abbrev pub Runs : Type 0
Runs = List (String × StageResult)

abbrev watched_question :
    {W : Type 0}
    → Option (String → String → W → ErrorRecoveryAction × W)
    → Option (String → String → W × Runs → ErrorRecoveryAction × (W × Runs))
watched_question none = none
watched_question (some ask) =
    some (λ name message (w, l). let (action, w') = ask name message w in (action, (w', l)))

abbrev pub watched : {W : Type 0} → Executor W → Executor (W × Runs)
watched env = record {
  execute_stage = λ name stage_def (w, l).
      let (result, w') = env.execute_stage name stage_def w in
      (result, (w', (stage_def.model, result) ∷ l));
  aborted = λ (w, l). env.aborted w;
  jitter = λ (w, l). env.jitter w;
  sleep = λ ms (w, l). (env.sleep ms w, l);
  emit = λ event (w, l). (env.emit event w, l);
  set = λ key value name (w, l). (env.set key value name w, l);
  list_snapshots = λ (w, l). env.list_snapshots w;
  restore_snapshot = λ id (w, l). let (r, w') = env.restore_snapshot id w in (r, (w', l));
  on_stage_error = watched_question env.on_stage_error;
}

-- Every run but the first follows a failed one, and a run of another model than the stage's follows a
-- rate limit failure.
abbrev pub IsJustified : String → Runs → Type 0
IsJustified model [] = Unit {0}
IsJustified model (r ∷ []) = r.0 ≡ model
IsJustified model (r ∷ (q ∷ l)) =
    (q.1.status ≡ failed)
    × ((r.0 ≡ model) ⊎ (is_rate_limit_failure q.1 ≡ true))
    × IsJustified model (q ∷ l)

-- The result is that of the latest run, or of a failure that was skipped or given up for an abort.
abbrev pub Reports : String → StageResult → Runs → Type 0
Reports name result [] = ⊥
Reports name result (r ∷ l) =
    (result ≡ r.1)
    ⊎ ((r.1.status ≡ failed)
        × ((result ≡ record r.1 { status = skipped }) ⊎ (result ≡ not_run cancelled name)))

-- Between the steps: the result is that of the latest run, and at most `n` runs were made.
abbrev pub Holds : String → ℕ → StageResult → Runs → Type 0
Holds model n result [] = ⊥
Holds model n result (r ∷ l) = (r.1 ≡ result) × IsJustified model (r ∷ l) × (suc (length l) ≤ n)

pub Holds-extend :
    (model : String) (n : ℕ) (result : StageResult) (l : Runs) (next : String)
    (result' : StageResult)
    → Holds model n result l
    → result.status ≡ failed
    → (next ≡ model) ⊎ (is_rate_limit_failure result ≡ true)
    → Holds model (suc n) result' ((next, result') ∷ l)
Holds-extend model n result [] next result' h f why = elim h [ ]
Holds-extend model n result (r ∷ l) next result' (e, j, b) f why =
    (refl, (ap (λ x. x.status) e ∙ f, rw e why, j), omega arith)

pub Holds-weaken :
    (model : String) (n m : ℕ) (result : StageResult) (l : Runs)
    → Holds model n result l
    → n ≤ m
    → Holds model m result l
Holds-weaken model n m result [] h le = h
Holds-weaken model n m result (r ∷ l) (e, j, b) le = (e, j, omega arith)

pub is_failed-eq : (status : StageStatus) → is_failed status ≡ true → status ≡ failed
unfolding is_failed
is_failed-eq failed e = refl
is_failed-eq pending e = absurd (ground arith)
is_failed-eq running e = absurd (ground arith)
is_failed-eq success e = absurd (ground arith)
is_failed-eq skipped e = absurd (ground arith)
is_failed-eq cancelled e = absurd (ground arith)

-- After the retries: a result to carry on with, or the abort that gives up a failure.
abbrev pub Kept : String → String → ℕ → Retried → Runs → Type 0
Kept name model n (carry_on r) l = Holds model n r l
Kept name model n (return_now r) l =
    (r ≡ not_run cancelled name) × ((q : StageResult) × Holds model n q l × (q.status ≡ failed))

-- At the end.
abbrev pub Ends : String → String → ℕ → StageResult → Runs → Type 0
Ends name model n result l = Reports name result l × IsJustified model l × (length l ≤ n)

pub Ends-of-Holds :
    (name model : String) (n : ℕ) (result : StageResult) (l : Runs)
    → Holds model n result l
    → Ends name model n result l
Ends-of-Holds name model n result [] h = elim h [ ]
Ends-of-Holds name model n result (r ∷ l) (e, j, b) = (inl (sym e), j, b)

pub Ends-of-failure :
    (name model : String) (n : ℕ) (result result' : StageResult) (l : Runs)
    → Holds model n result l
    → result.status ≡ failed
    → (result' ≡ record result { status = skipped }) ⊎ (result' ≡ not_run cancelled name)
    → Ends name model n result' l
Ends-of-failure name model n result result' [] h f why = elim h [ ]
Ends-of-failure name model n result result' (r ∷ l) (e, j, b) f why = (inr (rw e f, rw e why), j, b)

module _ {W : Type 0} (env : Executor W) (name : String) where
  pub rollback_context-log : (w : W × Runs) → (rollback_context (watched env) name w).1.1 ≡ w.1
  unfolding rollback_context
  rollback_context-log w = elim (Option-cases (env.list_snapshots w.0)) [
    | inl e ↦ rw (rollback_context, e) refl
    | inr (found, e) ↦ elim (Result-cases found) [
      | inr (error, f) ↦ rw (rollback_context, e, f) refl
      | inl (snapshots, f) ↦ elim (Option-cases (find_snapshot ("auto:before:" ⋯ name) snapshots)) [
        | inl g ↦ rw (rollback_context, e, f, g) refl
        | inr (snapshot, g) ↦ elim (Result-cases (env.restore_snapshot snapshot.id w.0).0) [
          | inl (done, k) ↦ rw (rollback_context, e, f, g, k) refl
          | inr (error, k) ↦ rw (rollback_context, e, f, g, k) refl
        ]
      ]
    ]
  ]

  inject_error-log :
      (on_fail : FailureConfig) (result : StageResult) (w : W × Runs)
      → (inject_error (watched env) name on_fail result w).1 ≡ w.1
  unfolding inject_error
  inject_error-log on_fail result w = elim (Option-cases on_fail.inject_context) [
    | inl e ↦ rw (inject_error, e) refl
    | inr (key, e) ↦ elim (Option-cases result.error) [
      | inl f ↦ rw (inject_error, e, f) refl
      | inr (error, f) ↦ elim (Bool-cases (not (key == "") && not (error == ""))) [
        | inl g ↦ rw (inject_error, e, f, g) refl
        | inr g ↦ rw (inject_error, e, f, g) refl
      ]
    ]
  ]

module _ {W : Type 0} (env : Executor W) (name : String) (stage_def : StageDefinition) where
  run_again-Holds :
      (on_fail : FailureConfig) (n : ℕ) (result : StageResult) (w : W × Runs)
      → Holds stage_def.model n result w.1
      → result.status ≡ failed
      → (let out = run_again (watched env) name stage_def on_fail result w in
          Holds stage_def.model (suc n) out.0 out.1.1)
  unfolding run_again
  run_again-Holds on_fail n result w h f =
      let (back, w') = rollback_context (watched env) name w in
      let same = inject_error-log env name on_fail result w' ∙ rollback_context-log env name w in
      Holds-extend stage_def.model n result _ stage_def.model _
        (subst (Holds stage_def.model n result) (sym same) h) f (inl refl)

  run_model-Holds :
      (model : String) (n : ℕ) (result : StageResult) (w : W × Runs)
      → Holds stage_def.model n result w.1
      → result.status ≡ failed
      → is_rate_limit_failure result ≡ true
      → (let out = run_model (watched env) name stage_def model w in
          Holds stage_def.model (suc n) out.0 out.1.1)
  unfolding run_model
  run_model-Holds model n result w h f limited =
      let same = rollback_context-log env name _ in
      Holds-extend stage_def.model n result _ model _
        (subst (Holds stage_def.model n result) (sym same) h) f (inr limited)

  pub retry_stage-Kept :
      (on_fail : FailureConfig) (left attempt n : ℕ) (result : StageResult) (w : W × Runs)
      → Holds stage_def.model n result w.1
      → (let out = retry_stage (watched env) name stage_def on_fail attempt left result w in
          Kept name stage_def.model (n + left) out.0 out.1.1)
  unfolding retry_stage back_off
  retry_stage-Kept on_fail zero attempt n result w h =
      Holds-weaken stage_def.model n (n + 0) result w.1 h (omega arith)
  retry_stage-Kept on_fail (suc left) attempt n result w h =
      elim (Bool-cases (is_failed result.status)) [
        | inr e ↦
            rw (retry_stage, e)
              (Holds-weaken stage_def.model n (n + suc left) result w.1 h (omega arith))
        | inl e ↦
            let w' = back_off (watched env) name stage_def on_fail attempt w in
            let f = is_failed-eq result.status e in
            elim (Bool-cases (env.aborted w'.0)) [
              | inl a ↦
                  rw (retry_stage, e, a)
                    (
                      refl,
                      (
                        result,
                        Holds-weaken stage_def.model n (n + suc left) result w.1 h (omega arith),
                        f,
                      ),
                    )
              | inr a ↦
                  let again = run_again (watched env) name stage_def on_fail result w' in
                  let rest =
                    retry_stage-Kept on_fail left (attempt + 1) (suc n) again.0 again.1
                      (run_again-Holds on_fail n result w' h f) in
                  let shift : suc n + left ≡ n + suc left = omega arith in
                  rw (retry_stage, e, a) (rw shift at rest)
            ]
      ]

  pub try_models-Holds :
      (models : List String) (n : ℕ) (result : StageResult) (w : W × Runs)
      → Holds stage_def.model n result w.1
      → result.status ≡ failed
      → is_rate_limit_failure result ≡ true
      → (let out = try_models (watched env) name stage_def models result w in
          Holds stage_def.model (n + length models) out.0 out.1.1)
  unfolding try_models
  try_models-Holds [] n result w h f limited =
      Holds-weaken stage_def.model n (n + 0) result w.1 h (omega arith)
  try_models-Holds (model ∷ models) n result w h f limited =
      let next = run_model (watched env) name stage_def model w in
      let h' = run_model-Holds model n result w h f limited in
      elim (Bool-cases (is_failed next.0.status && is_rate_limit_failure next.0)) [
        | inr e ↦
            rw (try_models, e)
              (Holds-weaken stage_def.model (suc n) (n + suc (length models)) next.0 next.1.1 h'
                (omega arith))
        | inl e ↦
            let (f', limited') = (and-eq-true _ _).0 e in
            let rest =
              try_models-Holds models (suc n) next.0 next.1 h' (is_failed-eq _ f') limited' in
            let shift : suc n + length models ≡ n + suc (length models) = omega arith in
            rw (try_models, e) (rw shift at rest)
      ]
