-- ===== src/Pipeline/Run/Halting.antt =====
-- What `executePipeline` runs and what it passes over.
use mathlib.Core.List.{Perm, map-append, append-nil, append_assoc}
use open_thinking.Base.{
  String, ◌≡◌, refl, sym, ap, ◌∙◌, ◌⊎◌, inl, inr, Bool, true, false, ◌||◌, some, List, [], ◌∷◌,
  ◌++◌, map, any, flatten, Bool-cases, if◌then◌else◌,
}
use open_thinking.Result.{ok}
use open_thinking.Pipeline.Order.{names, resolve_execution_order}
use open_thinking.Pipeline.Order.Layers.{resolve_execution_order-IsLayered}
use open_thinking.Pipeline.Stage.{
  StageResult, skipped, cancelled, PipelineRunResult, not_run, is_failed,
}
use open_thinking.Pipeline.Run.{
  PipelineConfig, sequential, Runner, pass_over, run_layers, pipeline_result, execute_layers,
  execute_pipeline, pipeline_start, pipeline_complete,
}

-- The run of a layer: its results, and the world that it leaves.
pub record LayerRun (W : Type 0) : Type 0 where
  pub layer : List String
  pub results : List StageResult
  pub after : W

abbrev pub has_failed : List StageResult → Bool
has_failed results = any (λ r. is_failed r.status) results

module _ {W : Type 0} (env : Runner W) where
  -- The layers run one after the other, from one world to another: none when the run is aborted, and
  -- none after one with a failed stage.
  abbrev pub RanInTurn : W → List (LayerRun W) → W → Type 0
  RanInTurn w [] end = w ≡ end
  RanInTurn w (r ∷ ran) end =
      (env.aborted w ≡ false)
      × (env.run_layer r.layer w ≡ (r.results, r.after))
      × ((ran ≡ []) ⊎ (has_failed r.results ≡ false))
      × RanInTurn r.after ran end

  -- The last layer that ran has a failed stage.
  abbrev pub LastFailed : List (LayerRun W) → Type 0
  LastFailed ran =
      (before : List (LayerRun W)) × (r : LayerRun W) × (ran ≡ before ++ r ∷ [])
      × (has_failed r.results ≡ true)

  -- The stages of the layers that were passed over are reported as cancelled or skipped.
  abbrev passed_results : W → List (List String) → List StageResult
  passed_results w passed =
      map (not_run (if env.aborted w then cancelled else skipped)) (flatten passed)

  -- The layers that run are the first ones. Either they are all, or the run is aborted, or the last of
  -- them has a failed stage, and nothing is run from then on.
  pub record Halts (w : W) (layers : List (List String)) (results : List StageResult) (end : W)
      : Type 0 where
    pub ran : List (LayerRun W)
    pub passed : List (List String)
    pub split : layers ≡ map (λ r. r.layer) ran ++ passed
    pub in_turn : RanInTurn w ran end
    pub reported : results ≡ flatten (map (λ r. r.results) ran) ++ passed_results end passed
    pub why : (passed ≡ []) ⊎ (env.aborted end ≡ true) ⊎ LastFailed ran

  passed_over :
      (w : W) (halted : Bool) (layers : List (List String))
      → (halted || env.aborted w) ≡ true
      → run_layers env halted layers w ≡ (passed_results w layers, w)
  unfolding run_layers pass_over
  passed_over w halted [] h = refl
  passed_over w halted (layer ∷ layers) h =
      let rest = passed_over w halted layers h in
      rw (run_layers, h, rest) (ap (λ rs. (rs, w)) (sym (map-append _ layer (flatten layers))))

  run_layers-Halts :
      (layers : List (List String)) (w : W)
      → (let out = run_layers env false layers w in Halts w layers out.0 out.1)
  unfolding run_layers
  run_layers-Halts [] w = record {
    ran = [];
    passed = [];
    split = refl;
    in_turn = refl;
    reported = refl;
    why = inl refl;
  }
  run_layers-Halts (layer ∷ layers) w = elim (Bool-cases (env.aborted w)) [
    | inl a ↦ rw (passed_over w false (layer ∷ layers) a) (record {
      ran = [];
      passed = layer ∷ layers;
      split = refl;
      in_turn = refl;
      reported = refl;
      why = inr (inl a);
    })
    | inr a ↦
        let out = env.run_layer layer w in
        let run : LayerRun W = record { layer = layer; results = out.0; after = out.1 } in
        elim (Bool-cases (has_failed out.0)) [
          | inl f ↦
              rw (run_layers, a, f, passed_over out.1 true layers refl)
                (record {
                  ran = run ∷ [];
                  passed = layers;
                  split = refl;
                  in_turn = (a, refl, inl refl, refl);
                  reported = rw (append-nil out.0) refl;
                  why = inr (inr ([], run, refl, f));
                })
          | inr f ↦
              let rest = run_layers-Halts layers out.1 in
              rw (run_layers, a, f)
                (record {
                  ran = run ∷ rest.ran;
                  passed = rest.passed;
                  split = ap (◌∷◌ layer) rest.split;
                  in_turn = (a, refl, inr f, rest.in_turn);
                  reported = ap (λ rs. out.0 ++ rs) rest.reported ∙ sym (append_assoc out.0 _ _);
                  why = elim rest.why [
                    | inl none_left ↦ inl none_left
                    | inr (inl b) ↦ inr (inl b)
                    | inr (inr (before, r, e, g)) ↦ inr (inr (run ∷ before, r, ap (◌∷◌ run) e, g))
                  ];
                })
        ]
  ]

-- Where the stages have an execution order, a sequential run returns a result, and the layers of the
-- order are all stages exactly once. The layers that run are the first ones of the order, one after the
-- other, none of them when the run is aborted and none after one with a failed stage; the result
-- reports what they returned. A layer is passed over only when the run is aborted or the last layer that
-- ran has a failed stage: the result reports its stages as cancelled in the first case and as skipped in
-- the other, and the world is left as the last layer that ran left it, with the event that the pipeline
-- is complete.
pub execute_pipeline-Halts :
    {W : Type 0} (env : Runner W) (config : PipelineConfig) (w : W) (layers : List (List String))
    → config.mode ≡ sequential
    → resolve_execution_order config.stages ≡ some (ok layers)
    → (r : PipelineRunResult) × (end : W) × (execute_pipeline env config w
        ≡ (some (ok r), env.emit (pipeline_complete r) end))
      × Halts env (env.emit (pipeline_start config.name env.run_id) w) layers r.stages end
      × Perm (flatten layers) (names config.stages)
unfolding execute_pipeline execute_layers pipeline_result
execute_pipeline-Halts env config w layers m e =
    let started = env.emit (pipeline_start config.name env.run_id) w in
    let out = run_layers env false layers started in
    let (p, _) = resolve_execution_order-IsLayered config.stages layers e in
    (
      pipeline_result env config (env.aborted out.1) out.0,
      out.1,
      rw (execute_pipeline, m, execute_layers, e) refl,
      run_layers-Halts env layers started,
      p,
    )
