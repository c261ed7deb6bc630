-- ===== src/Pipeline/Orchestrate/Laws.antt =====
-- How the run of an orchestrator ends.
use open_thinking.Base.{
  ℕ, String, ◌≡◌, refl, ap, ◌≢◌, ◌⊎◌, inl, inr, true, false, none, some, List, [], ◌∷◌, arith,
  Bool-cases, Option-cases, is_empty,
}
use open_thinking.Result.{Result, ok, err, Result-cases}
use open_thinking.Types.{StageDefinition}
use open_thinking.Chat.{ToolDefinition}
use open_thinking.Agent.Memory.{WorkSummary}
use open_thinking.Agent.Loop.{AgentLoopResult, AgentError}
use open_thinking.Agent.Loop.Rounds.{run_agent_loop}
use open_thinking.Policy.Engine
use open_thinking.Context.Database.{Database, IsTable}
use open_thinking.Context.Store.{Config}
use open_thinking.Context.Store.View.{Undone}
use open_thinking.Pipeline.Order.{Stages}
use open_thinking.Pipeline.Stage.{
  StageResult, success, failed, cancelled, not_run, has_recorded_work, prompt_requires_file_write,
  validate_orchestrated_work,
}
use open_thinking.Pipeline.Payload.{
  stage_start, format_context_for_prompt, build_context_payload, write_stage_output,
}
use open_thinking.Pipeline.Execute.{Shared, StageDeps, emit_all, estimate_stage_cost, failed_with}
use open_thinking.Pipeline.Execute.Laws.{output_key, IsStored, write_stage_output-IsStored}
use open_thinking.Pipeline.Orchestrate.State.{
  Orchestration, merged_work, input_prompt, undelegated, start_orchestration,
}
use open_thinking.Pipeline.Orchestrate.Finish.{
  note, fail_orchestrator, complete_orchestrator, check_work, charge_orchestrator,
  finish_orchestrator,
}
use open_thinking.Pipeline.Orchestrate.{
  orchestrator_environment, orchestrator_config, orchestrator_equipment, run_orchestrator,
  brief_orchestrator, seeded_db, execute_orchestrator,
}

not_empty : {A : Type 0} (xs : List A) → is_empty xs ≡ false → xs ≢ []
not_empty [] h e = ground (arith, h)
not_empty (x ∷ xs) h e = ground (arith, e)

-- Some work was done, and a file was written if the request is one for a file.
abbrev pub HasWorked : (String → String) → String → WorkSummary → Type 0
HasWorked normalize prompt work =
    ((work.files_written ≢ []) ⊎ (work.commands_run ≢ []))
    × ((prompt_requires_file_write normalize prompt ≡ false) ⊎ (work.files_written ≢ []))

validate-HasWorked :
    (normalize : String → String) (prompt : String) (work : WorkSummary)
    → validate_orchestrated_work normalize prompt work ≡ none
    → HasWorked normalize prompt work
unfolding validate_orchestrated_work has_recorded_work
validate-HasWorked normalize prompt work h = elim (Bool-cases (is_empty work.files_written)) [
  | inr f ↦ let written = not_empty work.files_written f in (inl written, inr written)
  | inl f ↦ elim (Bool-cases (prompt_requires_file_write normalize prompt)) [
    | inl p ↦ absurd (let h' = rw (validate_orchestrated_work, p, f) at h in ground (arith, h'))
    | inr p ↦ elim (Bool-cases (is_empty work.commands_run)) [
      | inl c ↦ absurd (
          let h' = rw (validate_orchestrated_work, p, has_recorded_work, f, c) at h in
          ground (arith, h'))
      | inr c ↦ (inr (not_empty work.commands_run c), inl p)
    ]
  ]
]

module _ {Db W : Type 0} (config : Config) (db : Database Db) (table : IsTable db)
    (deps : StageDeps Db W) (stages : Stages) (normalize : String → String) (tool : ToolDefinition)
    (stage_name : String) (stage_def : StageDefinition) where
  -- Cancelled and nothing changed; failed with an error; or successful, after a delegation, with work.
  abbrev pub Ends : String → Shared Db W → StageResult × Orchestration Db W → Type 0
  Ends prompt s out =
      (out.0.stage_name ≡ stage_name)
      × (((out.0.status ≡ cancelled) × (out.1.shared ≡ s) × (out.0.context_keys_written ≡ []))
          ⊎ ((out.0.status ≡ failed)
              × ((e : String) × (out.0.error ≡ some e))
              × (out.0.context_keys_written ≡ []))
          ⊎ ((out.0.status ≡ success)
              × (out.1.delegated ≡ true)
              × ((work : WorkSummary) × (out.0.work_summary ≡ some work)
                  × HasWorked normalize prompt work)
              × ((output : String) × (out.0.output ≡ some output)
                  × ((out.0.context_keys_written ≡ [])
                      ⊎ ((out.0.context_keys_written
                            ≡ output_key config db table deps stage_name stage_def ∷ [])
                          × IsStored config db table deps stage_name stage_def output
                              out.1.shared.db)))))

  -- What the user asked for, as the orchestrator finds it in its context.
  unfoldable pub prompt_seen : Shared Db W → String
  unfolding input_prompt seeded_db
  prompt_seen s =
      elim (build_context_payload config db (deps.now s.world) stage_name stage_def.context
        (seeded_db config db deps stages normalize tool stage_name stage_def s)) [
          | err e ↦ ""
          | ok (payload, reads) ↦ input_prompt payload
        ]

  fail_orchestrator-Ends :
      (prompt error e : String) (s : Shared Db W) (result : StageResult) (o : Orchestration Db W)
      → result.stage_name ≡ stage_name
      → result.status ≡ failed
      → result.error ≡ some e
      → result.context_keys_written ≡ []
      → Ends prompt s
          (fail_orchestrator config db deps normalize stage_name stage_def error result o)
  unfolding fail_orchestrator
  fail_orchestrator-Ends prompt error e s result o named f g k = (named, inr (inl (f, (e, g), k)))

  module _ (undo : Undone config.zip) (no_ttl : config.default_ttl_ms ≡ none) where
    complete_orchestrator-Ends :
        (prompt : String) (agent : AgentLoopResult) (work : WorkSummary) (cost : ℕ)
        (s : Shared Db W) (o : Orchestration Db W)
        → o.delegated ≡ true
        → HasWorked normalize prompt work
        → Ends prompt s
            (complete_orchestrator config db deps normalize stage_name stage_def agent work cost o)
    unfolding complete_orchestrator note emit_all not_run
    complete_orchestrator-Ends prompt agent work cost s o told worked =
        let output = agent.final_content in
        let t = deps.now o.shared.world in
        let wrote =
          write_stage_output config db t stage_name stage_def.context output o.shared.db in
        elim (Result-cases wrote.0) [
          | inr (e, f) ↦
              rw (complete_orchestrator, f)
                (refl, inr (inr (refl, told, (work, refl, worked), (output, refl, inl refl))))
          | inl (key, f) ↦
              let (named, stored) =
                write_stage_output-IsStored config db table deps stage_name stage_def undo no_ttl t
                  output key o.shared.db wrote.1 (ap (λ r. (r, wrote.1)) f) in
              rw (complete_orchestrator, f)
                (
                  refl,
                  inr (
                      inr (
                        refl,
                        told,
                        (work, refl, worked),
                        (output, refl, inr (ap (λ k. k ∷ []) named, stored)),
                      )),
                )
        ]

    finish_orchestrator-Ends :
        (prompt : String) (result : Result AgentLoopResult AgentError) (s : Shared Db W)
        (o : Orchestration Db W)
        → Ends prompt s
            (finish_orchestrator config db deps normalize stage_name stage_def prompt result o)
    unfolding finish_orchestrator charge_orchestrator check_work fail_orchestrator failed_with
        not_run
    finish_orchestrator-Ends prompt (err e) s o = (refl, inr (inl (refl, (_, refl), refl)))
    finish_orchestrator-Ends prompt (ok agent) s o = elim (Bool-cases o.delegated) [
      | inr d ↦ rw (finish_orchestrator, d) (refl, inr (inl (refl, (undelegated, refl), refl)))
      | inl d ↦
          let work = merged_work agent.work_summary (some o.work) in
          let cost =
            estimate_stage_cost config db deps agent.total_usage stage_def.model
              (deps.provider_type stage_def.provider) in
          let charged = Engine.record_cost cost stage_name o.shared.policy in
          elim (Result-cases charged.1) [
            | inr (x, e) ↦
                rw (finish_orchestrator, d, charge_orchestrator, e)
                  (refl, inr (inl (refl, (_, refl), refl)))
            | inl (u, e) ↦ elim (Option-cases (validate_orchestrated_work normalize prompt work)) [
              | inr (x, v) ↦
                  rw (finish_orchestrator, d, charge_orchestrator, e, check_work, v)
                    (refl, inr (inl (refl, (x, refl), refl)))
              | inl v ↦
                  rw (finish_orchestrator, d, charge_orchestrator, e, check_work, v)
                    (complete_orchestrator-Ends prompt agent work cost s
                      (record o { shared = record o.shared { policy = charged.0 } }) d
                      (validate-HasWorked normalize prompt work v))
            ]
          ]
    ]

    run_orchestrator-Ends :
        (prompt block : String) (s₀ s : Shared Db W)
        → Ends prompt s₀ (
            run_orchestrator config db deps stages normalize tool stage_name stage_def prompt block
              s)
    unfolding run_orchestrator
    run_orchestrator-Ends prompt block s₀ s =
        let env = orchestrator_environment config db deps stages normalize tool (
          deps.environment
            (orchestrator_equipment config db deps stages normalize tool stage_name stage_def)) in
        let given =
          orchestrator_config config db deps stages normalize tool stage_name stage_def block
            (deps.persistent_block stage_name s.world) in
        let out = run_agent_loop env given (start_orchestration s) in
        finish_orchestrator-Ends prompt out.0 s₀ out.2

pub execute_orchestrator-Ends :
    {Db W : Type 0} (config : Config) (db : Database Db) (table : IsTable db)
    (deps : StageDeps Db W) (stages : Stages) (normalize : String → String) (tool : ToolDefinition)
    (stage_name : String) (stage_def : StageDefinition)
    → Undone config.zip
    → config.default_ttl_ms ≡ none
    → (s : Shared Db W)
    → Ends config db table deps stages normalize tool stage_name stage_def
        (prompt_seen config db table deps stages normalize tool stage_name stage_def s)
        s
        (execute_orchestrator config db deps stages normalize tool stage_name stage_def s)
unfolding execute_orchestrator brief_orchestrator fail_orchestrator failed_with not_run
    start_orchestration prompt_seen
execute_orchestrator-Ends config db table deps stages normalize tool stage_name stage_def undo
      no_ttl s =
    elim (Bool-cases (deps.aborted s.world)) [
      | inl a ↦ rw (execute_orchestrator, a) (refl, inl (refl, refl, refl))
      | inr a ↦ elim (Bool-cases (deps.has_provider stage_def.provider)) [
        | inr p ↦ rw (execute_orchestrator, a, p) (refl, inr (inl (refl, (_, refl), refl)))
        | inl p ↦
            let given =
              build_context_payload config db (deps.now s.world) stage_name stage_def.context
                (seeded_db config db deps stages normalize tool stage_name stage_def s) in
            elim (Result-cases given) [
              | inr (e, g) ↦
                  rw (execute_orchestrator, a, p, g, brief_orchestrator)
                    (refl, inr (inl (refl, (_, refl), refl)))
              | inl ((payload, reads), g) ↦
                  rw (execute_orchestrator, a, p, prompt_seen, g, brief_orchestrator)
                    (let started =
                        emit_all config db deps (stage_start stage_name stage_def.model ∷ []) s in
                      let seeded = record started {
                        db = seeded_db config db deps stages normalize tool stage_name stage_def s;
                      } in
                      run_orchestrator-Ends config db table deps stages normalize tool stage_name
                        stage_def undo no_ttl (input_prompt payload)
                        (format_context_for_prompt payload stage_def.context.eager) s
                        (emit_all config db deps reads seeded))
            ]
      ]
    ]
