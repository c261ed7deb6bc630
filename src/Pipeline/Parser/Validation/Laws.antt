-- ===== src/Pipeline/Parser/Validation/Laws.antt =====
-- What a configuration that passes the validation has.
use open_thinking.Base.{
  String, ◌≡◌, refl, ap, ◌⊎◌, inl, inr, ◌==◌, eq_iff, Bool, true, false, ◌&&◌, Option, none, some,
  List, [], ◌∷◌, arith, map, all, Elem, Bool-cases, Option-cases, and-eq-true,
}
use open_thinking.Base.Texts.{contains_iff}
use open_thinking.Errors.{PipelineError}
use open_thinking.Pipeline.Run.{sequential}
use open_thinking.Pipeline.Parser.Yaml.{
  Yaml, null, boolean, number, text, sequence, mapping, is_null, is_object, entries, lookup, get,
  truthy,
}
use open_thinking.Pipeline.Parser.Providers.{
  Checked, valid, invalid, thrown, Settings, Resolved, resolve_providers,
}
use open_thinking.Pipeline.Parser.Validation.{
  is_named, is_among, known_deps, is_valid_stage, check_stages, mode_of, check_orchestrators,
  is_valid_role, check_circular, ParsedConfig, final_config, check_mode, check_sections,
  validate_config, stage_deps,
}
use open_thinking.Pipeline.Parser.Circular.{
  Marks, Visit, clean, cyclic, broken, detect_circular_deps,
}
use open_thinking.Pipeline.Parser.Circular.Laws.{DependsOn}

abbrev pub keys : {A : Type 0} → List (String × A) → List String
keys fs = map (λ e. e.0) fs

-- The tests that a configuration has passed.
pub record IsPassed (settings : Settings) (config : ParsedConfig) : Type 0 where
  pub stages_valid :
      check_stages (keys config.providers) (keys config.stages) config.stages ≡ valid tt
  pub one_orchestrator : check_orchestrators config.mode config.stages ≡ true
  pub roles_valid : all (is_valid_role config.mode) config.stages ≡ true
  pub no_cycle : check_circular settings config.mode config.stages ≡ valid tt

pub Checked-cases :
    {A : Type 0} (r : Checked A)
    → ((x : A) × (r ≡ valid x)) ⊎ (((e : PipelineError) × (r ≡ invalid e)) ⊎ (r ≡ thrown))
Checked-cases (valid x) = inl (x, refl)
Checked-cases (invalid e) = inr (inl (e, refl))
Checked-cases thrown = inr (inr refl)

module _ (settings : Settings) (config : ParsedConfig) where
  check_mode-IsPassed :
      (c : Yaml) (providers : Resolved) (stages : List (String × Yaml))
      → check_stages (keys providers) (keys stages) stages ≡ valid tt
      → check_mode settings c providers stages ≡ valid config
      → IsPassed settings config
  unfolding check_mode final_config
  check_mode-IsPassed c providers stages s h = elim (Option-cases (mode_of (get c "mode"))) [
    | inl e ↦ absurd (let h' = rw (check_mode, e) at h in ground (arith, h'))
    | inr (mode, e) ↦
        elim (Bool-cases (check_orchestrators mode stages && all (is_valid_role mode) stages)) [
          | inr f ↦ absurd (let h' = rw (check_mode, e, f) at h in ground (arith, h'))
          | inl t ↦
              let h' = rw (check_mode, e, t) at h in
              let (one, roles) = (and-eq-true _ _).0 t in
              elim (Checked-cases (check_circular settings mode stages)) [
                | inl (u, g) ↦
                    let same : final_config settings c mode providers stages ≡ config =
                      (let h'' = rw g at h' in ground (arith, h'')) in
                    rw (← same) (record {
                      stages_valid = s;
                      one_orchestrator = one;
                      roles_valid = roles;
                      no_cycle = g;
                    })
                | inr (inl (x, g)) ↦ absurd (let h'' = rw g at h' in ground (arith, h''))
                | inr (inr g) ↦ absurd (let h'' = rw g at h' in ground (arith, h''))
              ]
        ]
  ]

  check_sections-IsPassed :
      (c : Yaml) (providers : Resolved) (section : Option Yaml)
      → check_sections settings c providers section ≡ valid config
      → IsPassed settings config
  unfolding check_sections
  check_sections-IsPassed c providers none h = absurd (ground (arith, h))
  check_sections-IsPassed c providers (some section) h = elim (Bool-cases (is_object section)) [
    | inr f ↦ absurd (let h' = rw (check_sections, f) at h in ground (arith, h'))
    | inl t ↦
        let stages = entries section in
        let h' = rw (check_sections, t) at h in
        elim (Checked-cases (check_stages (keys providers) (keys stages) stages)) [
          | inl (u, g) ↦ check_mode-IsPassed c providers stages g (let h'' = rw g at h' in h'')
          | inr (inl (x, g)) ↦ absurd (let h'' = rw g at h' in ground (arith, h''))
          | inr (inr g) ↦ absurd (let h'' = rw g at h' in ground (arith, h''))
        ]
  ]

  pub validate_config-IsPassed :
      (resolve_keys : Bool) (c : Yaml)
      → validate_config settings resolve_keys c ≡ valid config
      → IsPassed settings config
  unfolding validate_config
  validate_config-IsPassed resolve_keys c h = elim (Bool-cases (is_null c)) [
    | inl t ↦ absurd (let h' = rw (validate_config, t) at h in ground (arith, h'))
    | inr f ↦ elim (Bool-cases (is_named (get c "name") && is_named (get c "version"))) [
      | inr f' ↦ absurd (let h' = rw (validate_config, f, f') at h in ground (arith, h'))
      | inl t ↦
          let h' = rw (validate_config, f, t) at h in
          elim (Checked-cases (resolve_providers settings resolve_keys (get c "providers"))) [
            | inl (u, g) ↦
                check_sections-IsPassed c u (get c "stages") (let h'' = rw g at h' in h'')
            | inr (inl (x, g)) ↦ absurd (let h'' = rw g at h' in ground (arith, h''))
            | inr (inr g) ↦ absurd (let h'' = rw g at h' in ground (arith, h''))
          ]
    ]
  ]

pub check_stages-Elem :
    (providers names : List String) (stages : List (String × Yaml))
    → check_stages providers names stages ≡ valid tt
    → (n : String) (y : Yaml) → Elem (n, y) stages
    → is_valid_stage providers names y ≡ true
unfolding check_stages
check_stages-Elem providers names [] h n y m = elim m [ ]
check_stages-Elem providers names ((k, x) ∷ stages) h n y m = elim (Bool-cases (is_null x)) [
  | inl t ↦ absurd (let h' = rw t at h in ground (arith, h'))
  | inr f ↦ elim (Bool-cases (is_valid_stage providers names x)) [
    | inr g ↦ absurd (let h' = rw (f, g) at h in ground (arith, h'))
    | inl t ↦ elim m [
      | inl e ↦ rw (ap (λ p. p.1) e) t
      | inr i ↦ check_stages-Elem providers names stages (rw (f, t) at h) n y i
    ]
  ]
]

among-text :
    (names : List String) (o : Option Yaml)
    → (elim o [ none ↦ false | some p ↦ is_among names p ]) ≡ true
    → (p : String) × (o ≡ some (text p)) × Elem p names
unfolding is_among
among-text names none h = absurd (ground (arith, h))
among-text names (some (text p)) h = (p, refl, (contains_iff names p).0 h)
among-text names (some null) h = absurd (ground (arith, h))
among-text names (some (boolean b)) h = absurd (ground (arith, h))
among-text names (some (number n)) h = absurd (ground (arith, h))
among-text names (some (sequence xs)) h = absurd (ground (arith, h))
among-text names (some (mapping fs)) h = absurd (ground (arith, h))

-- The provider is a text that was resolved, and the dependencies are known.
pub is_valid_stage-eq :
    (providers names : List String) (y : Yaml)
    → is_valid_stage providers names y ≡ true
    → ((p : String) × (get y "provider" ≡ some (text p)) × Elem p providers)
      × (known_deps names (get y "depends_on") ≡ true)
unfolding is_valid_stage
is_valid_stage-eq providers names y h =
    let provider = get y "provider" in
    let among : Bool = elim provider [ none ↦ false | some p ↦ is_among providers p ] in
    elim (Bool-cases (truthy provider && among)) [
      | inr f ↦ absurd (let h' = rw (is_valid_stage, f) at h in ground (arith, h'))
      | inl t ↦
          let (_, a) = (and-eq-true (truthy provider) among).0 t in
          (among-text providers provider a, ground (arith, h, t))
    ]

lookup-Elem :
    (stages : List (String × Yaml)) (n : String) (y : Yaml)
    → lookup n stages ≡ some y
    → Elem (n, y) stages
unfolding lookup
lookup-Elem [] n y h = absurd (ground (arith, h))
lookup-Elem ((k, x) ∷ stages) n y h = elim (Bool-cases (k == n)) [
  | inl e ↦
      let h' = rw e at h in
      let same : x ≡ y = ground (arith, h') in inl (rw (same, (eq_iff k n).0 e) refl)
  | inr f ↦ inr (lookup-Elem stages n y (rw f at h))
]

keys-Elem :
    (stages : List (String × Yaml)) (n : String) (y : Yaml)
    → Elem (n, y) stages
    → Elem n (keys stages)
keys-Elem [] n y m = elim m [ ]
keys-Elem (e ∷ stages) n y (inl s) = inl (ap (λ p. p.0) s)
keys-Elem (e ∷ stages) n y (inr m) = inr (keys-Elem stages n y m)

-- Only stages have dependencies.
pub stage_deps-known :
    (settings : Settings) (stages : List (String × Yaml)) (a b : String)
    → DependsOn (stage_deps settings stages) a b
    → Elem a (keys stages)
unfolding stage_deps
stage_deps-known settings stages a b (ds, e, m) = elim (Option-cases (lookup a stages)) [
  | inl f ↦
      let e' = rw (stage_deps, f) at e in
      let none_left : [] ≡ ds = ground (arith, e') in absurd (let m' = rw (← none_left) at m in m')
  | inr (y, f) ↦ keys-Elem stages a y (lookup-Elem stages a y f)
]

-- The search of a sequential pipeline ended without a cycle.
pub searched :
    (settings : Settings) (stages : List (String × Yaml))
    → check_circular settings sequential stages ≡ valid tt
    → (marks : Marks) × (detect_circular_deps (stage_deps settings stages) (keys stages)
        ≡ some (clean marks))
unfolding check_circular
searched settings stages h =
    go (detect_circular_deps (stage_deps settings stages) (keys stages)) refl
  where
    go :
        (o : Option Visit)
        → detect_circular_deps (stage_deps settings stages) (keys stages) ≡ o
        → (marks : Marks) × (detect_circular_deps (stage_deps settings stages) (keys stages)
            ≡ some (clean marks))
    go none e = absurd (let h' = rw (check_circular, e) at h in ground (arith, h'))
    go (some (clean marks)) e = (marks, e)
    go (some cyclic) e = absurd (let h' = rw (check_circular, e) at h in ground (arith, h'))
    go (some broken) e = absurd (let h' = rw (check_circular, e) at h in ground (arith, h'))
