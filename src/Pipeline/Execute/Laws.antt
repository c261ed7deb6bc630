-- ===== src/Pipeline/Execute/Laws.antt =====
-- How a run of a stage ends, and what it leaves in the context.
use open_thinking.Base.{
  ℕ, String, ◌≡◌, refl, sym, ap, ◌⊎◌, inl, inr, true, false, none, some, List, [], ◌∷◌, ◌++◌, arith,
  Bool-cases, Option-cases, eq_refl,
}
use open_thinking.Result.{Result, ok, err, Result-cases}
use open_thinking.Errors.{ContextError}
use open_thinking.Types.{StageDefinition}
use open_thinking.Agent.Text.{◌⋯◌}
use open_thinking.Agent.Loop.{AgentLoopResult, AgentError}
use open_thinking.Policy.Engine
use open_thinking.Policy.Access.{check_write_access}
use open_thinking.Context.Compression.{is_compressed}
use open_thinking.Context.Database.{Database, IsTable}
use open_thinking.Context.Store
use open_thinking.Context.Store.{Config, expiry}
use open_thinking.Context.Store.View.{NotPast, Undone, view, set-view}
use open_thinking.Pipeline.Stage.{StageResult, success, failed, skipped, not_run}
use open_thinking.Pipeline.Payload.{Payload, StageEvent, context_write, write_stage_output}
use open_thinking.Pipeline.Execute.{
  Shared, StageDeps, emit_all, review_sandbox, in_sandbox, fail_stage, failed_with, complete_stage,
  charge_stage, finish_agent, give_context, run_stage, prepare_stage, execute_stage,
  estimate_stage_cost,
}

module _ {Db W : Type 0} (config : Config) (db : Database Db) (table : IsTable db)
    (deps : StageDeps Db W) (stage_name : String) (stage_def : StageDefinition) where
  abbrev pub output_key : String
  output_key = stage_name ⋯ ".output"

  -- The stage may write its output, and the output is there, unless it begins with the mark of
  -- compressed texts.
  abbrev pub IsStored : String → Db → Type 0
  IsStored output d =
      (check_write_access stage_name stage_def.context output_key ≡ ok tt)
      × ((is_compressed output ≡ true)
          ⊎ ((now : ℕ) → view config db table now output_key d ≡ some (output, stage_name)))

  -- Skipped and nothing changed; failed with an error and nothing reported as written; or successful
  -- with an output, which is reported as written only when it is stored.
  abbrev pub Ends : Shared Db W → StageResult × Shared Db W → Type 0
  Ends s out =
      (out.0.stage_name ≡ stage_name)
      × (((out.0.status ≡ skipped) × (out.1 ≡ s) × (out.0.context_keys_written ≡ []))
          ⊎ ((out.0.status ≡ failed)
              × ((e : String) × (out.0.error ≡ some e))
              × (out.0.context_keys_written ≡ []))
          ⊎ ((out.0.status ≡ success)
              × (output : String) × (out.0.output ≡ some output)
              × ((out.0.context_keys_written ≡ [])
                  ⊎ ((out.0.context_keys_written ≡ output_key ∷ []) × IsStored output out.1.db))))

  review_sandbox-db : (s : Shared Db W) → (review_sandbox config db deps stage_name s).1.db ≡ s.db
  unfolding review_sandbox emit_all
  review_sandbox-db s = elim (Bool-cases (deps.has_diffs s.world)) [
    | inr f ↦ rw (review_sandbox, f) refl
    | inl t ↦ elim (Option-cases deps.on_sandbox_review) [
      | inl n ↦ rw (review_sandbox, t, n) refl
      | inr (ask, e) ↦ elim (Bool-cases (ask stage_name s.world).0) [
        | inr g ↦ rw (review_sandbox, t, e, g) refl
        | inl g ↦ elim (Result-cases (deps.apply (ask stage_name s.world).1).0) [
          | inl (u, f) ↦ rw (review_sandbox, t, e, g, f) refl
          | inr (u, f) ↦ rw (review_sandbox, t, e, g, f) refl
        ]
      ]
    ]
  ]

  module _ (undo : Undone config.zip) (no_ttl : config.default_ttl_ms ≡ none) where
    fresh : (t now : ℕ) → NotPast now (expiry config.default_ttl_ms t)
    unfolding expiry
    fresh t now = rw no_ttl tt

    pub shown :
        (t now : ℕ) (output : String) (d : Db)
        → is_compressed output ≡ false
        → (Store.set config db t output_key output stage_name d).0 ≡ ok tt
        → view config db table now output_key
            (Store.set config db t output_key output stage_name d).1
          ≡ some (output, stage_name)
    shown t now output d plain g =
        elim (set-view config db table undo t now output_key output stage_name d plain
          (fresh t now)) [
            | inl (e, h) ↦ absurd (let k = ap (λ p. p.0) h in ground (arith, g, k))
            | inr (_, all) ↦ rw (all output_key, eq_refl output_key) refl
          ]

    pub write_stage_output-IsStored :
        (t : ℕ) (output key : String) (d d' : Db)
        → write_stage_output config db t stage_name stage_def.context output d ≡ (ok key, d')
        → (key ≡ output_key) × IsStored output d'
    unfolding write_stage_output
    write_stage_output-IsStored t output key d d' h =
        elim (Result-cases (check_write_access stage_name stage_def.context output_key)) [
          | inr (e, f) ↦
              absurd (let h' = rw (write_stage_output, f) at h in ground (arith, ap (λ p. p.0) h'))
          | inl (u, f) ↦
              let h' = rw (write_stage_output, f) at h in
              elim (Result-cases (Store.set config db t output_key output stage_name d).0) [
                | inr (e, g) ↦ absurd (let h'' = rw g at h' in ground (arith, ap (λ p. p.0) h''))
                | inl (u, g) ↦
                    let h'' = rw g at h' in
                    let named : output_key ≡ key =
                      (let k = ap (λ p. p.0) h'' in ground (arith, k)) in
                    (
                      sym named,
                      (
                        f,
                        elim (Bool-cases (is_compressed output)) [
                          | inl c ↦ inl c
                          | inr plain ↦
                              inr (λ now. rw (← ap (λ p. p.1) h'') (shown t now output d plain g))
                        ],
                      ),
                    )
              ]
        ]

    complete_stage-Ends :
        (agent : AgentLoopResult) (cost : ℕ) (s₀ s : Shared Db W)
        → Ends s₀ (complete_stage config db deps stage_name stage_def agent cost s)
    unfolding complete_stage emit_all
    complete_stage-Ends agent cost s₀ s =
        let output = agent.final_content in
        let t = deps.now s.world in
        elim (Result-cases
          (write_stage_output config db t stage_name stage_def.context output s.db).0) [
            | inr (e, f) ↦ rw (complete_stage, f) (refl, inr (inr (refl, output, refl, inl refl)))
            | inl (key, f) ↦
                let d =
                  (write_stage_output config db t stage_name stage_def.context output s.db).1 in
                let (named, stored) =
                  write_stage_output-IsStored t output key s.db d (ap (λ r. (r, d)) f) in
                let keys = ap (λ k. k ∷ []) named in
                elim (Bool-cases (in_sandbox config db deps stage_name stage_def)) [
                  | inr b ↦
                      rw (complete_stage, f, b)
                        (refl, inr (inr (refl, output, refl, inr (keys, stored))))
                  | inl b ↦
                      let s₁ : Shared Db W = record {
                        db = d;
                        policy = s.policy;
                        world = s.world;
                        events = s.events ++ context_write stage_name key ∷ [];
                      } in
                      rw (complete_stage, f, b)
                        (
                          refl,
                          inr (
                              inr
                                (refl, output, refl, inr (keys, rw (review_sandbox-db s₁) stored))),
                        )
                ]
          ]

    fail_stage-Ends :
        (error : String) (more : List StageEvent) (s₀ s : Shared Db W)
        → Ends s₀ (fail_stage config db deps stage_name stage_def error more s)
    unfolding fail_stage failed_with
    fail_stage-Ends error more s₀ s = (refl, inr (inl (refl, (error, refl), refl)))

    charge_stage-Ends :
        (agent : AgentLoopResult) (s₀ s : Shared Db W)
        → Ends s₀ (charge_stage config db deps stage_name stage_def agent s)
    unfolding charge_stage failed_with
    charge_stage-Ends agent s₀ s =
        let cost =
          estimate_stage_cost config db deps agent.total_usage stage_def.model
            (deps.provider_type stage_def.provider) in
        let charged = Engine.record_cost cost stage_name s.policy in
        elim (Result-cases charged.1) [
          | inl (u, e) ↦
              rw (charge_stage, e)
                (complete_stage-Ends agent cost s₀ (record s { policy = charged.0 }))
          | inr (x, e) ↦ rw (charge_stage, e) (refl, inr (inl (refl, (_, refl), refl)))
        ]

    finish_agent-Ends :
        (result : Result AgentLoopResult AgentError) (s₀ s : Shared Db W)
        → Ends s₀ (finish_agent config db deps stage_name stage_def result s)
    unfolding finish_agent
    finish_agent-Ends (err e) s₀ s = fail_stage-Ends (deps.agent_text e) [] s₀ s
    finish_agent-Ends (ok agent) s₀ s = charge_stage-Ends agent s₀ s

    run_stage-Ends :
        (block : String) (s₀ s : Shared Db W)
        → Ends s₀ (run_stage config db deps stage_name stage_def block s)
    unfolding run_stage
    run_stage-Ends block s₀ s = finish_agent-Ends _ s₀ _

    give_context-Ends :
        (payload : Result (Payload × List StageEvent) ContextError) (s₀ s : Shared Db W)
        → Ends s₀ (give_context config db deps stage_name stage_def payload s)
    unfolding give_context
    give_context-Ends (err e) s₀ s = fail_stage-Ends (deps.context_text e) [] s₀ s
    give_context-Ends (ok (payload, reads)) s₀ s = run_stage-Ends _ s₀ _

    prepare_stage-Ends :
        (s₀ s : Shared Db W) → Ends s₀ (prepare_stage config db deps stage_name stage_def s)
    unfolding prepare_stage
    prepare_stage-Ends s₀ s = give_context-Ends _ s₀ _

    -- Where decompression undoes compression and entries do not expire, a run of a stage ends in one of
    -- three ways. It is skipped, and nothing changes; or it fails with an error, and reports no key as
    -- written; or it succeeds with an output. Then it reports no key, or the key of its output alone: the
    -- stage may write that key, which holds the output at any time, unless the output begins with the
    -- mark of compressed texts.
    pub execute_stage-Ends :
        (s : Shared Db W) → Ends s (execute_stage config db deps stage_name stage_def s)
    unfolding execute_stage not_run failed_with
    execute_stage-Ends s = elim (Bool-cases (deps.aborted s.world)) [
      | inl a ↦ rw (execute_stage, a) (refl, inl (refl, refl, refl))
      | inr a ↦ elim (Bool-cases (deps.has_provider stage_def.provider)) [
        | inr p ↦ rw (execute_stage, a, p) (refl, inr (inl (refl, (_, refl), refl)))
        | inl p ↦
            let consumed = Engine.try_consume_rate (deps.now s.world) stage_name s.policy in
            elim (Result-cases consumed.1) [
              | inl (u, e) ↦ rw (execute_stage, a, p, e) (prepare_stage-Ends s _)
              | inr (x, e) ↦ rw (execute_stage, a, p, e) (fail_stage-Ends _ _ s _)
            ]
      ]
    ]
