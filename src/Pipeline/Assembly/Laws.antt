-- ===== src/Pipeline/Assembly/Laws.antt =====
-- What a stage leaves after its retries, and what an orchestrated run reports.
use open_thinking.Base.{String, ◌≡◌, ◌≢◌, ◌⊎◌, inl, inr, none, some, [], ◌∷◌, arith}
use open_thinking.Types.{StageDefinition}
use open_thinking.Context.Database.{Database, IsTable}
use open_thinking.Context.Store.{Config}
use open_thinking.Context.Store.View.{Undone}
use open_thinking.Pipeline.Stage.{StageResult, success}
use open_thinking.Pipeline.Recovery.LastRun.{execute_stage_with_retry-LastRun}
use open_thinking.Pipeline.Execute.{Shared, StageDeps, execute_stage}
use open_thinking.Pipeline.Execute.Laws.{output_key, IsStored, Ends, execute_stage-Ends}
use open_thinking.Pipeline.Assembly.{Surroundings, executor, run_with_retry}

module _ {Db W : Type 0} (config : Config) (db : Database Db) (table : IsTable db)
    (deps : StageDeps Db W) (stage_name : String) (stage_def : StageDefinition) where
  -- A success has an output, which is in the store if it is reported as written.
  abbrev pub Leaves : StageResult × Shared Db W → Type 0
  Leaves out =
      (out.0.status ≢ success)
      ⊎ ((out.0.stage_name ≡ stage_name)
          × ((output : String) × (out.0.output ≡ some output)
              × ((out.0.context_keys_written ≡ [])
                  ⊎ ((out.0.context_keys_written
                        ≡ output_key config db table deps stage_name stage_def ∷ [])
                      × IsStored config db table deps stage_name stage_def output out.1.db))))

  Leaves-of-Ends :
      (s : Shared Db W) (out : StageResult × Shared Db W)
      → Ends config db table deps stage_name stage_def s out
      → Leaves out
  Leaves-of-Ends s out (named, inl (e, _, _)) = inl (λ h. ground arith)
  Leaves-of-Ends s out (named, inr (inl (e, _, _))) = inl (λ h. ground arith)
  Leaves-of-Ends s out (named, inr (inr (e, output, same, kept))) =
      inr (named, (output, same, kept))

-- Where decompression undoes compression and entries do not expire, a stage that succeeds, after
-- whatever retries, fallback models, rollbacks and questions to the user, has an output. It reports no
-- key as written, or the key of its output alone: then it may write that key, and the context that it
-- leaves holds the output there at any time, unless the output begins with the mark of compressed
-- texts.
pub run_with_retry-Leaves :
    {Db W : Type 0} (config : Config) (db : Database Db) (table : IsTable db)
    (deps : StageDeps Db W) (around : Surroundings W) (stage_name : String)
    (stage_def : StageDefinition)
    → Undone config.zip
    → config.default_ttl_ms ≡ none
    → (s : Shared Db W)
    → Leaves config db table deps stage_name stage_def
        (run_with_retry config db deps around stage_name stage_def s)
unfolding run_with_retry executor
run_with_retry-Leaves config db table deps around stage_name stage_def undo no_ttl s =
    elim (execute_stage_with_retry-LastRun (executor config db deps around) stage_name stage_def
      (Leaves config db table deps stage_name stage_def)
      (λ model w.
        Leaves-of-Ends config db table deps stage_name stage_def w
          (execute_stage config db deps stage_name (record stage_def { model = model }) w)
          (execute_stage-Ends config db table deps stage_name (record stage_def { model = model })
            undo no_ttl w))
      s) [ inl failed ↦ inl failed | inr kept ↦ kept ]
