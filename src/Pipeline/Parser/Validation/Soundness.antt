-- ===== src/Pipeline/Parser/Validation/Soundness.antt =====
-- A configuration that passes the validation can be run: its references are known, and its mode fits
-- its roles.
use open_thinking.Base.{
  String, ◌≡◌, refl, ◌⊎◌, inl, inr, Bool, true, false, some, List, arith, keep, length, Elem,
  Bool-cases, all_iff, Elem-of-All,
}
use open_thinking.Base.Texts.{contains_iff}
use open_thinking.Pipeline.Run.{PipelineMode, sequential, orchestrated}
use open_thinking.Pipeline.Parser.Yaml.{
  Yaml, null, boolean, number, text, sequence, mapping, Items, items, get,
}
use open_thinking.Pipeline.Parser.Providers.{valid, Settings}
use open_thinking.Pipeline.Parser.Circular.Laws.{Reaches, detect_circular_deps-Decides}
use open_thinking.Pipeline.Parser.Validation.{
  is_among, known_deps, is_orchestrator, is_orchestrated, check_orchestrators, is_valid_role,
  stage_deps, ParsedConfig, validate_config, check_circular,
}
use open_thinking.Pipeline.Parser.Validation.Laws.{
  keys, IsPassed, validate_config-IsPassed, check_stages-Elem, is_valid_stage-eq, stage_deps-known,
  searched,
}

-- What the runner relies on.
pub record IsSound (settings : Settings) (config : ParsedConfig) : Type 0 where
  -- The provider of a stage was resolved.
  pub provided :
      (n : String) (y : Yaml)
      → Elem (n, y) config.stages
      → (p : String) × (get y "provider" ≡ some (text p)) × Elem p (keys config.providers)
  -- What a list of dependencies holds are names of stages.
  pub dependent :
      (n : String) (y : Yaml) (xs : Items) (d : Yaml)
      → Elem (n, y) config.stages
      → get y "depends_on" ≡ some (sequence xs)
      → Elem d (items xs)
      → (s : String) × (d ≡ text s) × Elem s (keys config.stages)
  -- An orchestrated pipeline has one orchestrator, a sequential one has none and no cycle.
  pub moded :
      ((config.mode ≡ orchestrated) × (length (keep is_orchestrator config.stages) ≡ 1))
      ⊎ ((config.mode ≡ sequential)
          × ((n : String) (y : Yaml) → Elem (n, y) config.stages → is_orchestrator (n, y) ≡ false)
          × ((x : String) → ¬ Reaches (stage_deps settings config.stages) x x))

among-Elem :
    (names : List String) (d : Yaml)
    → is_among names d ≡ true
    → (s : String) × (d ≡ text s) × Elem s names
unfolding is_among
among-Elem names (text s) h = (s, refl, (contains_iff names s).0 h)
among-Elem names null h = absurd (ground (arith, h))
among-Elem names (boolean b) h = absurd (ground (arith, h))
among-Elem names (number n) h = absurd (ground (arith, h))
among-Elem names (sequence xs) h = absurd (ground (arith, h))
among-Elem names (mapping fs) h = absurd (ground (arith, h))

dependent_on :
    (names : List String) (y : Yaml) (xs : Items) (d : Yaml)
    → known_deps names (get y "depends_on") ≡ true
    → get y "depends_on" ≡ some (sequence xs)
    → Elem d (items xs)
    → (s : String) × (d ≡ text s) × Elem s names
unfolding known_deps
dependent_on names y xs d h e m =
    let h' = rw e at h in
    among-Elem names d (
      Elem-of-All (λ x. is_among names x ≡ true) (items xs)
        ((all_iff (is_among names) (items xs)).0 h') m)

-- Without an orchestrated mode no stage may be the orchestrator.
sequential_role :
    (e : String × Yaml) → is_valid_role sequential e ≡ true → is_orchestrator e ≡ false
unfolding is_valid_role is_orchestrated is_orchestrator
sequential_role (n, y) h = elim (Bool-cases (is_orchestrator (n, y))) [
  | inr f ↦ f
  | inl t ↦ absurd (ground (arith, h, t))
]

acyclic :
    (settings : Settings) (stages : List (String × Yaml))
    → check_circular settings sequential stages ≡ valid tt
    → (x : String) → ¬ Reaches (stage_deps settings stages) x x
acyclic settings stages h =
    let (marks, e) = searched settings stages h in
    let known = stage_deps-known settings stages in
    elim (rw e at (detect_circular_deps-Decides (stage_deps settings stages) (keys stages) known)) [
      | inl (_, _, free, _) ↦ free
      | inr (inl (f, _, _)) ↦ absurd (ground (arith, f))
      | inr (inr (f, _, _)) ↦ absurd (ground (arith, f))
    ]

module _ (settings : Settings) (config : ParsedConfig) (p : IsPassed settings config) where
  moded_of :
      (mode : PipelineMode)
      → config.mode ≡ mode
      → ((config.mode ≡ orchestrated) × (length (keep is_orchestrator config.stages) ≡ 1))
        ⊎ ((config.mode ≡ sequential)
            × ((n : String) (y : Yaml) → Elem (n, y) config.stages → is_orchestrator (n, y) ≡ false)
            × ((x : String) → ¬ Reaches (stage_deps settings config.stages) x x))
  unfolding check_orchestrators
  moded_of orchestrated e = inl (e, (let h = rw e at p.one_orchestrator in ground (arith, h)))
  moded_of sequential e = inr (
    e,
    (λ n y m.
        sequential_role (n, y)
          (rw e at (
            Elem-of-All (λ x. is_valid_role config.mode x ≡ true) config.stages
              ((all_iff (is_valid_role config.mode) config.stages).0 p.roles_valid) m))),
    acyclic settings config.stages (rw e at p.no_cycle),
  )

-- Every configuration that passes the validation is sound: the provider of each stage was resolved,
-- listed dependencies are stages, an orchestrated pipeline has exactly one orchestrator, and a
-- sequential one has no orchestrator and no stage that depends on itself, directly or through others.
pub validate_config-IsSound :
    (settings : Settings) (resolve_keys : Bool) (c : Yaml) (config : ParsedConfig)
    → validate_config settings resolve_keys c ≡ valid config
    → IsSound settings config
validate_config-IsSound settings resolve_keys c config h =
    let p = validate_config-IsPassed settings config resolve_keys c h in
    let checked : (n : String) (y : Yaml) → Elem (n, y) config.stages → _ = λ n y m.
      is_valid_stage-eq (keys config.providers) (keys config.stages) y (
        check_stages-Elem (keys config.providers) (keys config.stages) config.stages p.stages_valid
          n y m) in
    record {
      provided = λ n y m. (checked n y m).0;
      dependent =
          λ n y xs d m e i. dependent_on (keys config.stages) y xs d ((checked n y m).1) e i;
      moded = moded_of settings config p config.mode refl;
    }
