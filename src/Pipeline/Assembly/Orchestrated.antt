-- ===== src/Pipeline/Assembly/Orchestrated.antt =====
-- What an orchestrated pipeline reports.
use open_thinking.Base.{
  String, ◌≡◌, ◌≢◌, refl, sym, ap, ◌∙◌, ◌⊎◌, inl, inr, false, Option, none, some, List, [], ◌∷◌,
  arith, Option-cases, Elem, some-eq, if◌then◌else◌,
}
use open_thinking.Result.{ok, err}
use open_thinking.Errors.{not_found}
use open_thinking.Types.{Role, StageDefinition, orchestrator}
use open_thinking.Chat.{ToolDefinition}
use open_thinking.Agent.Memory.{WorkSummary}
use open_thinking.Context.Database.{Database, IsTable}
use open_thinking.Context.Store.{Config}
use open_thinking.Context.Store.View.{Undone}
use open_thinking.Pipeline.Order.{Stages}
use open_thinking.Pipeline.Stage.{
  StageResult, success, is_success, PipelineRunResult, run_success, run_failed,
}
use open_thinking.Pipeline.Run.{
  PipelineConfig, orchestrated, pipeline_start, find_orchestrator, orchestrated_result,
  execute_orchestrated, execute_pipeline,
}
use open_thinking.Pipeline.Execute.{Shared, StageDeps, emit_all}
use open_thinking.Pipeline.Orchestrate.State.{Orchestration}
use open_thinking.Pipeline.Orchestrate.{execute_orchestrator}
use open_thinking.Pipeline.Orchestrate.Laws.{
  HasWorked, prompt_seen, Ends, execute_orchestrator-Ends,
}
use open_thinking.Pipeline.Assembly.{runner}

role-cases : (role : Option Role) → (role ≡ none) ⊎ (role ≡ some orchestrator)
role-cases none = inl refl
role-cases (some orchestrator) = inr refl

find_orchestrator-none :
    (stages : Stages)
    → find_orchestrator stages ≡ none
    → (name : String) (d : StageDefinition) → Elem (name, d) stages
    → d.role ≡ none
unfolding find_orchestrator
find_orchestrator-none [] h name d m = elim m [ ]
find_orchestrator-none ((n, d') ∷ stages) h name d m = elim (role-cases d'.role) [
  | inr e ↦ absurd (let h' = rw (find_orchestrator, e) at h in ground (arith, h'))
  | inl e ↦ elim m [
    | inl same ↦ rw (ap (λ x. x.1) same) e
    | inr k ↦ find_orchestrator-none stages (rw (find_orchestrator, e) at h) name d k
  ]
]

find_orchestrator-some :
    (stages : Stages) (name : String) (d : StageDefinition)
    → find_orchestrator stages ≡ some (name, d)
    → Elem (name, d) stages × (d.role ≡ some orchestrator)
unfolding find_orchestrator
find_orchestrator-some [] name d h = absurd (ground (arith, h))
find_orchestrator-some ((n, d') ∷ stages) name d h = elim (role-cases d'.role) [
  | inr e ↦
      let same =
        some-eq {A = String × StageDefinition} (n, d') (name, d) (rw (find_orchestrator, e) at h) in
      (inl (sym same), rw (← ap (λ x. x.1) same) e)
  | inl e ↦
      let (m, r) = find_orchestrator-some stages name d (rw (find_orchestrator, e) at h) in
      (inr m, r)
]

is_success-eq : (r : StageResult) → is_success r.status ≡ false → r.status ≢ success
unfolding is_success
is_success-eq r h e = let h' = rw e at h in ground (arith, h')

module _ {Db W : Type 0} (store : Config) (db : Database Db) (table : IsTable db)
    (deps : StageDeps Db W) (run_id : String)
    (run_layer : List String → Shared Db W → List StageResult × Shared Db W)
    (normalize : String → String) (tool : ToolDefinition) (config : PipelineConfig) where
  -- The state in which the orchestrator starts.
  abbrev pub started : Shared Db W → Shared Db W
  started s =
      (runner store db deps run_id run_layer config.stages normalize tool).emit
        (pipeline_start config.name run_id) s

  -- The pipeline succeeds exactly if the orchestrator does, and then work was done.
  abbrev pub IsHonest :
      (name : String) → StageDefinition → Shared Db W → PipelineRunResult → StageResult → Type 0
  IsHonest name d s r result =
      (r.stages ≡ result ∷ [])
      × (result.stage_name ≡ name)
      × (((r.status ≡ run_failed) × (result.status ≢ success))
          ⊎ ((r.status ≡ run_success)
              × (result.status ≡ success)
              × ((work : WorkSummary) × (result.work_summary ≡ some work)
                  × HasWorked normalize
                      (prompt_seen store db table deps config.stages normalize tool name d
                        (started s))
                      work)))

  module _ (undo : Undone store.zip) (no_ttl : store.default_ttl_ms ≡ none) where
    orchestrator-IsHonest :
        (name : String) (d : StageDefinition) (s : Shared Db W) (r : PipelineRunResult)
        (out : StageResult × Orchestration Db W)
        → Ends store db table deps config.stages normalize tool name d
            (prompt_seen store db table deps config.stages normalize tool name d (started s))
            (started s)
            out
        → r.stages ≡ out.0 ∷ []
        → r.status ≡ (if is_success out.0.status then run_success else run_failed)
        → IsHonest name d s r out.0
    unfolding is_success
    orchestrator-IsHonest name d s r out (named, inl (e, _, _)) all h =
        (all, named, inl (h ∙ rw e refl, λ c. ground arith))
    orchestrator-IsHonest name d s r out (named, inr (inl (e, _, _))) all h =
        (all, named, inl (h ∙ rw e refl, λ c. ground arith))
    orchestrator-IsHonest name d s r out (named, inr (inr (e, told, (work, noted, worked), _))) all
          h =
        (all, named, inr (h ∙ rw e refl, e, (work, noted, worked)))

    -- The orchestrator is found, and has run.
    found-IsHonest :
        (name : String) (d : StageDefinition) (s : Shared Db W)
        → find_orchestrator config.stages ≡ some (name, d)
        → (r : PipelineRunResult) × ((execute_orchestrated
              (runner store db deps run_id run_layer config.stages normalize tool)
              config
              s).0
            ≡ ok r)
          × ((result : StageResult) × IsHonest name d s r result)
    unfolding execute_orchestrated orchestrated_result runner emit_all
    found-IsHonest name d s f =
        let out =
          execute_orchestrator store db deps config.stages normalize tool name d (started s) in
        let env = runner store db deps run_id run_layer config.stages normalize tool in
        let reports = (env.run_orchestrator name d (started s)).1 in
        rw (execute_orchestrated, f)
          (
            orchestrated_result env config out.0 reports,
            refl,
            (
              out.0,
              orchestrator-IsHonest name d s (orchestrated_result env config out.0 reports) out
                  (execute_orchestrator-Ends store db table deps config.stages normalize tool name d
                    undo no_ttl (started s))
                  refl refl,
            ),
          )

-- Where decompression undoes compression and entries do not expire, a pipeline in orchestrated mode
-- returns a result. It is the error NOT_FOUND, and no stage is an orchestrator; or one is, and the
-- result reports that stage alone: it is a failure and the stage did not succeed, or it is a success
-- and the stage succeeded, with a work summary that names a file or a command, and a file if the prompt
-- that the orchestrator was given asks for one.
pub execute_pipeline-IsHonest :
    {Db W : Type 0} (store : Config) (db : Database Db) (table : IsTable db) (deps : StageDeps Db W)
    (run_id : String) (run_layer : List String → Shared Db W → List StageResult × Shared Db W)
    (normalize : String → String) (tool : ToolDefinition) (config : PipelineConfig)
    → Undone store.zip
    → store.default_ttl_ms ≡ none
    → config.mode ≡ orchestrated
    → (s : Shared Db W)
    → (let out =
          (execute_pipeline
            (runner store db deps run_id run_layer config.stages normalize tool)
            config
            s).0 in
        ((out ≡ some (err (record { code = not_found })))
          × ((name : String) (d : StageDefinition) → Elem (name, d) config.stages → d.role ≡ none))
        ⊎ ((name : String) × (d : StageDefinition) × Elem (name, d) config.stages
            × (d.role ≡ some orchestrator)
            × ((r : PipelineRunResult) × (out ≡ some (ok r))
                × ((result : StageResult) × IsHonest store db table deps run_id run_layer normalize
                      tool config name d s r result))))
unfolding execute_pipeline execute_orchestrated
execute_pipeline-IsHonest store db table deps run_id run_layer normalize tool config undo no_ttl
      mode s =
    elim (Option-cases (find_orchestrator config.stages)) [
      | inl f ↦
          rw (execute_pipeline, mode, execute_orchestrated, f)
            (inl (refl, find_orchestrator-none config.stages f))
      | inr ((name, d), f) ↦
          let (m, role) = find_orchestrator-some config.stages name d f in
          let (r, e, (result, honest)) =
            found-IsHonest store db table deps run_id run_layer normalize tool config undo no_ttl
              name d s f in
          rw (execute_pipeline, mode, e) (inr (name, d, m, role, (r, refl, (result, honest))))
    ]
