-- ===== src/Pipeline/Recovery/Answers.antt =====
-- What `executeStageWithRetry` as a whole runs and returns, and what the user has to do with it. The
-- executor is watched twice: it keeps the answers of the user beside the runs.
use mathlib.Core.Path.{subst}
use open_thinking.Base.{
  ℕ, String, ◌+◌, ◌≤◌, ◌≡◌, ◌≢◌, refl, sym, ap, ◌∙◌, ◌⊎◌, inl, inr, true, Option, none, some, List,
  [], ◌∷◌, arith, length, Bool-cases, Option-cases,
}
use open_thinking.Types.{StageDefinition}
use open_thinking.Pipeline.Stage.{StageResult, failed, skipped, cancelled, not_run, is_failed}
use open_thinking.Pipeline.Recovery.{
  ErrorRecoveryAction, recover_retry, recover_skip, recover_abort, Executor, recover,
  pause_on_error, retries, fall_back, execute_stage_with_retry,
}
use open_thinking.Pipeline.Recovery.Attempts.{
  Runs, watched, IsJustified, Holds, is_failed-eq, rollback_context-log,
}
use open_thinking.Pipeline.Recovery.Kept.{
  Preserves, rollback_context-keeps, retries-keeps, fall_back-keeps, retries-aborted,
}
use open_thinking.Pipeline.Recovery.Outcome.{
  retries_allowed, models_allowed, retries-Kept, fall_back-Holds, Retried-cases,
  execute_stage_with_retry-Attempts,
}

-- The error that the user was shown and the answer; the latest first.
abbrev pub Answers : Type 0
Answers = List (String × ErrorRecoveryAction)

abbrev asked_question :
    {W : Type 0}
    → Option (String → String → W → ErrorRecoveryAction × W)
    → Option (String → String → W × Answers → ErrorRecoveryAction × (W × Answers))
asked_question none = none
asked_question (some ask) = some (λ name message (w, q).
    let (action, w') = ask name message w in (action, (w', (message, action) ∷ q)))

abbrev pub asked : {W : Type 0} → Executor W → Executor (W × Answers)
asked env = record {
  execute_stage = λ name stage_def (w, q).
      let (result, w') = env.execute_stage name stage_def w in (result, (w', q));
  aborted = λ (w, q). env.aborted w;
  jitter = λ (w, q). env.jitter w;
  sleep = λ ms (w, q). (env.sleep ms w, q);
  emit = λ event (w, q). (env.emit event w, q);
  set = λ key value name (w, q). (env.set key value name w, q);
  list_snapshots = λ (w, q). env.list_snapshots w;
  restore_snapshot = λ id (w, q). let (r, w') = env.restore_snapshot id w in (r, (w', q));
  on_stage_error = asked_question env.on_stage_error;
}

abbrev error_text : StageResult → String
error_text result = elim result.error [ none ↦ "Unknown error" | some e ↦ e ]

-- The result of the latest run.
abbrev IsLatest : Runs → StageResult → Type 0
IsLatest l result = (model : String) × (before : Runs) × (l ≡ (model, result) ∷ before)

module _ {W : Type 0} (env : Executor W) (name : String) where
  -- What is returned, given the runs, the answers and the world at the end. Without a question, the
  -- latest result, which is no failure unless nobody can be asked, or a cancellation for an abort. After
  -- a question about the latest failure, what the answer says.
  abbrev pub IsOutcome : W → StageResult → Runs → Answers → Type 0
  IsOutcome end result l q =
      ((q ≡ []) × IsLatest l result × ((result.status ≢ failed) ⊎ (env.on_stage_error ≡ none)))
      ⊎ ((q ≡ [])
          × (env.aborted end ≡ true)
          × (result ≡ not_run cancelled name)
          × ((r : StageResult) × IsLatest l r × (r.status ≡ failed)))
      ⊎ ((r : StageResult) × (r.status ≡ failed)
          × (((q ≡ (error_text r, recover_retry) ∷ [])
                × ((model : String) × (before : Runs) × (l ≡ (model, result) ∷ before)
                    × IsLatest before r))
              ⊎ ((q ≡ (error_text r, recover_skip) ∷ [])
                  × IsLatest l r
                  × (result ≡ record r { status = skipped }))
              ⊎ ((q ≡ (error_text r, recover_abort) ∷ []) × IsLatest l r × (result ≡ r))))

  -- The runs and the answers of a world that is watched twice.
  abbrev Shows : StageResult × ((W × Answers) × Runs) → Type 0
  Shows out = IsOutcome out.1.0.0 out.0 out.1.1 out.1.0.1

  answers-Preserves : (q : Answers) → Preserves (watched (asked env)) (λ v. v.0.1 ≡ q)
  answers-Preserves q = record {
    runs = λ name stage_def v i. i;
    sleeps = λ ms v i. i;
    emits = λ event v i. i;
    sets = λ key value name v i. i;
    restores = λ id v i. i;
  }

  -- Before the question: no answers, and the latest run's result.
  shape :
      (model : String) (n : ℕ) (result : StageResult) (v : (W × Answers) × Runs)
      → Holds model n result v.1
      → v.0.1 ≡ []
      → (m : String) × (l : Runs) × (v ≡ ((v.0.0, []), (m, result) ∷ l))
  shape model n result ((w, q), []) h e = elim h [ ]
  shape model n result ((w, q), (m, r) ∷ l) (same, _, _) e =
      (m, l, ap (λ q'. ((w, q'), (m, r) ∷ l)) e ∙ ap (λ r'. ((w, []), (m, r') ∷ l)) same)

  module _ (stage_def : StageDefinition) where
    recover-Shows :
        (action : ErrorRecoveryAction) (result : StageResult) (w : W) (m : String) (l : Runs)
        → result.status ≡ failed
        → Shows (
            recover
              (watched (asked env))
              name
              stage_def
              action
              result
              ((w, (error_text result, action) ∷ []), (m, result) ∷ l))
    unfolding recover
    recover-Shows recover_skip result w m l f =
        inr (inr (result, f, inr (inl (refl, (m, l, refl), refl))))
    recover-Shows recover_abort result w m l f =
        inr (inr (result, f, inr (inr (refl, (m, l, refl), refl))))
    recover-Shows recover_retry result w m l f =
        let q = (error_text result, recover_retry) ∷ [] in
        let v : (W × Answers) × Runs = ((w, q), (m, result) ∷ l) in
        let same = rollback_context-log (asked env) name v in
        let kept =
          rollback_context-keeps (watched (asked env)) (λ u. u.0.1 ≡ q) (answers-Preserves q) name v
            refl in
        inr (inr (result, f, inl (kept, (stage_def.model, _, refl, (m, l, same)))))

    pause_on_error-Shows :
        (result : StageResult) (w : W) (m : String) (l : Runs)
        → Shows
            (pause_on_error (watched (asked env)) name stage_def result ((w, []), (m, result) ∷ l))
    unfolding pause_on_error is_failed
    pause_on_error-Shows result w m l = elim (Bool-cases (is_failed result.status)) [
      | inr e ↦
          rw (pause_on_error, e)
            (inl (refl, (m, l, refl), inl (λ f. let e' = rw f at e in ground (arith, e'))))
      | inl e ↦ elim (Option-cases env.on_stage_error) [
        | inl g ↦ rw (pause_on_error, e, g) (inl (refl, (m, l, refl), inr refl))
        | inr (ask, g) ↦
            let f = is_failed-eq result.status e in
            let (action, w') = ask name (error_text result) w in
            let shown = recover-Shows action result w' m l f in
            rw (pause_on_error, e, g) (rw g at shown)
      ]
    ]

    -- After the fallback models.
    given-Shows :
        (model : String) (n : ℕ) (result : StageResult) (v : (W × Answers) × Runs)
        → Holds model n result v.1
        → v.0.1 ≡ []
        → Shows (pause_on_error (watched (asked env)) name stage_def result v)
    given-Shows model n result v h e =
        let (m, l, same) = shape model n result v h e in
        subst (λ u. Shows (pause_on_error (watched (asked env)) name stage_def result u)) (sym same)
          (pause_on_error-Shows result v.0.0 m l)

    whole-Shows :
        (w : W)
        → Shows (execute_stage_with_retry (watched (asked env)) name stage_def ((w, []), []))
    unfolding execute_stage_with_retry
    whole-Shows w =
        let model = stage_def.model in
        let twice = watched (asked env) in
        let preserved = answers-Preserves [] in
        let first = twice.execute_stage name stage_def ((w, []), []) in
        let rt = retries twice name stage_def first.0 first.1 in
        let n = 1 + retries_allowed stage_def.on_fail in
        let k = retries-Kept (asked env) name stage_def first.0 first.1 (refl, refl, omega arith) in
        let none_asked =
          retries-keeps twice (λ v. v.0.1 ≡ []) preserved name stage_def first.0 first.1 refl in
        elim (Retried-cases rt.0) [
          | inr (result, e) ↦
              let aborted = retries-aborted twice name stage_def first.0 result first.1 e in
              let (given, (q, h, f)) = rw e at k in
              let (m, l, same) = shape model n q rt.1 h none_asked in
              rw (execute_stage_with_retry, e)
                (inr (inl (none_asked, aborted, given, (q, (m, l, ap (λ u. u.1) same), f))))
          | inl (result, e) ↦
              let fallen = fall_back twice name stage_def result rt.1 in
              let h = fall_back-Holds (asked env) name stage_def n result rt.1 (rw e at k) in
              let still =
                fall_back-keeps twice (λ v. v.0.1 ≡ []) preserved name stage_def result rt.1
                  none_asked in
              rw (execute_stage_with_retry, e)
                (given-Shows model (n + models_allowed stage_def.fallback_models) fallen.0 fallen.1
                  h still)
        ]

-- A stage is run at most 1 + maxRetries + (the number of its fallback models) + 1 times. The first run
-- is with its own model, every further run follows a failed one, and a run with another model follows
-- a failure by rate limit. The user is asked at most once, about the error of a failed run. Without a
-- question the result is that of the latest run, which has not failed unless nobody can be asked; or
-- the latest run has failed, the stage is cancelled, and the run is aborted. With one, the answer retry
-- gives the result of one more run, the answer skip that of the failed run as skipped, and the answer
-- abort that of the failed run.
pub execute_stage_with_retry-Ends :
    {W : Type 0} (env : Executor W) (name : String) (stage_def : StageDefinition) (w : W)
    → (let out = execute_stage_with_retry (watched (asked env)) name stage_def ((w, []), []) in
        let (end, answers) = out.1.0 in
        let runs = out.1.1 in
        IsOutcome env name end out.0 runs answers
        × IsJustified stage_def.model runs
        × (length runs
            ≤ 1 + retries_allowed stage_def.on_fail + models_allowed stage_def.fallback_models + 1))
execute_stage_with_retry-Ends env name stage_def w =
    let attempts = execute_stage_with_retry-Attempts (asked env) name stage_def (w, []) in
    (whole-Shows env name stage_def w, attempts.1, attempts.2)
