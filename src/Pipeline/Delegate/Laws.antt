-- ===== src/Pipeline/Delegate/Laws.antt =====
-- Whom a delegation runs, and what it leaves.
use open_thinking.Base.{
  ℕ, String, ◌≡◌, refl, ap, ◌⊎◌, inl, inr, true, false, none, some, [], ◌∷◌, arith, Bool-cases,
  Option-cases,
}
use open_thinking.Base.Texts.{contains_iff, contains}
use open_thinking.Result.{Result, ok, err}
use open_thinking.Errors.{ContextError}
use open_thinking.Types.{StageDefinition}
use open_thinking.Agent.Text.{Args, text_arg}
use open_thinking.Agent.Loop.{AgentLoopResult, AgentError}
use open_thinking.Context.Compression.{is_compressed}
use open_thinking.Policy.Access.Laws.{Covers, check_access-Decides}
use open_thinking.Context.Database.{Database, IsTable}
use open_thinking.Context.Store
use open_thinking.Context.Store.{Config, new_row}
use open_thinking.Context.Store.View.{Undone, view}
use open_thinking.Pipeline.Order.{Stages}
use open_thinking.Pipeline.Stage.{StageResult, success, not_run}
use open_thinking.Pipeline.Execute.{Shared, StageDeps, emit_all}
use open_thinking.Pipeline.Execute.Laws.{shown}
use open_thinking.Pipeline.Delegate.{
  Reply, available_agents, stage_named, shown_arg, delegate_key, keep_output, finish_delegate,
  run_agent, run_delegate, delegate, delegate_to,
}
use open_thinking.Pipeline.Delegate.Agents.{
  IsWorker, named-IsWorker, worker-Elem, stage_named-found,
}

set_cases :
    {Db : Type 0} (config : Config) (db : Database Db) (now : ℕ) (key value stage : String) (d : Db)
    → ((Store.set config db now key value stage d).0 ≡ ok tt)
      ⊎ ((e : ContextError) × (Store.set config db now key value stage d ≡ (err e, d)))
unfolding Store.set
set_cases config db now key value stage d =
    elim (Option-cases (db.upsert (new_row config now key value stage) d)) [
      | inl e ↦ rw (Store.set, e) (inr (_, refl))
      | inr (d', e) ↦ rw (Store.set, e) (inl refl)
    ]

module _ {Db W : Type 0} (config : Config) (db : Database Db) (table : IsTable db)
    (deps : StageDeps Db W) (stages : Stages) (agent_name : String)
    (stage_def : StageDefinition) where
  abbrev key : String
  key = delegate_key config db deps stages agent_name stage_def

  -- After a run that left `before`: the output is there or begins with the mark of compressed texts, or
  -- the store refused to write it and holds what it held.
  abbrev pub IsKept : String → Shared Db W → Db → Type 0
  IsKept output before d =
      (is_compressed output ≡ true)
      ⊎ ((now : ℕ) → view config db table now key d ≡ some (output, agent_name))
      ⊎ ((e : ContextError) × (Store.set config db (deps.now before.world) key output agent_name
              before.db
            ≡ (err e, before.db))
          × (d ≡ before.db))

  -- What a call makes of the run of the agent: the error of a failed run, and of a successful one its
  -- output, which is kept exactly if the agent may write it.
  abbrev pub Finished :
      Result AgentLoopResult AgentError × Shared Db W → Reply × Shared Db W → Type 0
  Finished run out =
      ((x : AgentError) × (e : String) × (run.0 ≡ err x)
        × (out.0.value ≡ err e)
        × (out.0.completed ≡ none)
        × (out.1.db ≡ run.1.db))
      ⊎ ((agent : AgentLoopResult) × (summary : String) × (result : StageResult) × (run.0
            ≡ ok agent)
          × (out.0.value ≡ ok summary)
          × (out.0.completed ≡ some result)
          × (result.status ≡ success)
          × (result.stage_name ≡ agent_name)
          × (result.output ≡ some agent.final_content)
          × (((result.context_keys_written ≡ [])
                × (¬ Covers stage_def.context.write key)
                × (out.1.db ≡ run.1.db))
              ⊎ ((result.context_keys_written ≡ key ∷ [])
                  × Covers stage_def.context.write key
                  × IsKept agent.final_content run.1 out.1.db)))

  module _ (undo : Undone config.zip) (no_ttl : config.default_ttl_ms ≡ none) where
    set-IsKept :
        (output : String) (s : Shared Db W)
        → IsKept output s (Store.set config db (deps.now s.world) key output agent_name s.db).1
    set-IsKept output s =
        let t = deps.now s.world in
        elim (Bool-cases (is_compressed output)) [
          | inl c ↦ inl c
          | inr plain ↦ elim (set_cases config db t key output agent_name s.db) [
            | inr (e, f) ↦ inr (inr (e, f, ap (λ p. p.1) f))
            | inl f ↦ inr (
                inl (λ now.
                  shown config db table deps agent_name stage_def undo no_ttl t now output s.db
                    plain f))
          ]
        ]

    finish_delegate-Finished :
        (result : Result AgentLoopResult AgentError) (s : Shared Db W)
        → Finished (result, s) (finish_delegate config db deps stages agent_name stage_def result s)
    unfolding finish_delegate keep_output emit_all not_run
    finish_delegate-Finished (err e) s = inl (e, _, refl, refl, refl, refl)
    finish_delegate-Finished (ok agent) s =
        elim (check_access-Decides agent_name key stage_def.context).1 [
          | inr (f, denied) ↦
              rw (finish_delegate, keep_output, f)
                (inr (agent, _, _, refl, refl, refl, refl, refl, refl, inl (refl, denied, refl)))
          | inl (f, granted) ↦
              rw (finish_delegate, keep_output, f)
                (inr (
                  agent,
                  _,
                  _,
                  refl,
                  refl,
                  refl,
                  refl,
                  refl,
                  refl,
                  inr (refl, granted, set-IsKept agent.final_content s),
                ))
        ]

    run_delegate-Finished :
        (task : String) (s : Shared Db W)
        → Finished
            (run_agent config db deps stages agent_name stage_def task s)
            (run_delegate config db deps stages agent_name stage_def task s)
    unfolding run_delegate
    run_delegate-Finished task s =
        let run = run_agent config db deps stages agent_name stage_def task s in
        finish_delegate-Finished run.0 run.1

-- Nothing is run: the agent is no worker of the configuration, or its provider is not there.
abbrev pub Refused :
    {Db W : Type 0} → StageDeps Db W → Stages → String → Shared Db W → Reply × Shared Db W → Type 0
Refused deps stages name s out =
    ((e : String) × (out.0.value ≡ err e) × (out.0.completed ≡ none) × (out.1 ≡ s))
    × ((¬ IsWorker stages name)
        ⊎ ((stage_def : StageDefinition) × (stage_named name stages ≡ some stage_def)
            × (deps.has_provider stage_def.provider ≡ false)))

-- The agent is a worker whose provider is there, and its run has finished.
abbrev pub Ran :
    {Db W : Type 0} (config : Config) (db : Database Db) (table : IsTable db)
    → StageDeps Db W
    → Stages
    → (name task : String) → Shared Db W
    → Reply × Shared Db W
    → Type 0
Ran config db table deps stages name task s out =
    IsWorker stages name
    × (stage_def : StageDefinition) × (stage_named name stages ≡ some stage_def)
    × (deps.has_provider stage_def.provider ≡ true)
    × Finished config db table deps stages name stage_def
        (run_agent config db deps stages name stage_def task s) out

delegate_to-Delegated :
    {Db W : Type 0} (config : Config) (db : Database Db) (table : IsTable db)
    (deps : StageDeps Db W) (stages : Stages)
    → Undone config.zip
    → config.default_ttl_ms ≡ none
    → (name task : String) (s : Shared Db W)
    → Refused deps stages name s (delegate_to config db deps stages name task s)
      ⊎ Ran config db table deps stages name task s (delegate_to config db deps stages name task s)
unfolding delegate_to
delegate_to-Delegated config db table deps stages undo no_ttl name task s =
    elim (Bool-cases (contains (available_agents stages) name)) [
      | inr c ↦
          rw (delegate_to, c)
            (inl (
              (_, refl, refl, refl),
              inl (λ w.
                  let t =
                    (contains_iff (available_agents stages) name).1 (worker-Elem stages name w) in
                  ground (arith, c, t)),
            ))
      | inl c ↦
          let worker =
            named-IsWorker stages name ((contains_iff (available_agents stages) name).0 c) in
          let (def, k, _) = worker in
          elim (Option-cases (stage_named name stages)) [
            | inl n ↦ absurd (stage_named-found stages name def k n)
            | inr (stage_def, n) ↦ elim (Bool-cases (deps.has_provider stage_def.provider)) [
              | inr p ↦
                  rw (delegate_to, c, n, p) (inl ((_, refl, refl, refl), inr (stage_def, refl, p)))
              | inl p ↦
                  rw (delegate_to, c, n, p)
                    (inr (
                      worker,
                      stage_def,
                      refl,
                      p,
                      run_delegate-Finished config db table deps stages name stage_def undo no_ttl
                          task s,
                    ))
            ]
          ]
    ]

-- Where decompression undoes compression and entries do not expire, a call of the delegate tool has one
-- of three outcomes. Its arguments name no agent, and it returns an error and changes nothing. Or it
-- returns an error and changes nothing because the named agent is no stage of the configuration that is
-- not an orchestrator, or the provider of its stage is missing. Or the agent is such a stage, its
-- provider is there, and it is run on the task. If the run fails, the call returns an error, reports no
-- result and leaves the context as the run left it. If it does not, the call returns a summary and
-- reports a success with the output of the run. Then the key of the output is reported as written
-- exactly if the agent may write it; in that case the output is there, or it begins with the mark of
-- compressed texts, or the store refused this write, and otherwise the context is as the run left it.
pub delegate-Delegated :
    {Db W : Type 0} (config : Config) (db : Database Db) (table : IsTable db)
    (deps : StageDeps Db W) (stages : Stages)
    → Undone config.zip
    → config.default_ttl_ms ≡ none
    → (args : Args) (s : Shared Db W)
    → ((text_arg "agent" args.texts ≡ none)
        × ((e : String) × (delegate config db deps stages args s).0.value ≡ err e)
        × ((delegate config db deps stages args s).1 ≡ s))
      ⊎ ((name : String) × (text_arg "agent" args.texts ≡ some name)
          × (Refused deps stages name s (delegate config db deps stages args s)
              ⊎ Ran config db table deps stages name
                  (shown_arg "task" args)
                  s
                  (delegate config db deps stages args s)))
unfolding delegate
delegate-Delegated config db table deps stages undo no_ttl args s =
    elim (Option-cases (text_arg "agent" args.texts)) [
      | inl n ↦ rw (delegate, n) (inl (refl, (_, refl), refl))
      | inr (name, n) ↦
          rw (delegate, n)
            (inr (
              name,
              refl,
              delegate_to-Delegated config db table deps stages undo no_ttl name
                  (shown_arg "task" args) s,
            ))
    ]
