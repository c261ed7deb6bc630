-- ===== src/Pipeline/Parser/Validation.antt =====
-- src/pipeline/parser/pipeline-parser.ts, validateConfig, parsePipeline and parsePipelineFromString.
-- The YAML parser, the environment and the reading of the file are parameters.
pub mod Laws
pub mod Soundness
pub mod Ordering
use Prim.Native.String
use open_thinking.Base.{
  ℕ, String, Bool, true, false, ◌&&◌, ◌||◌, not, Option, none, some, List, [], ◌∷◌, ◌==◌,
  if◌then◌else◌, map, keep, is_empty, length, eqb, all,
}
use open_thinking.Base.Texts.{contains}
use open_thinking.Errors.{PipelineError, parse_error, validation_error}
use open_thinking.Pipeline.Run.{PipelineMode, sequential, orchestrated}
use open_thinking.Pipeline.Parser.Yaml.{
  Yaml, null, boolean, number, text, sequence, mapping, end, field, items, is_null, is_object,
  is_text, entries, lookup, get, truthy, present, interpolate_object,
}
use open_thinking.Pipeline.Parser.Providers.{
  Checked, valid, invalid, thrown, invalid_config, Settings, Resolved, resolve_providers,
}
use open_thinking.Pipeline.Parser.Circular.{Visit, clean, cyclic, broken, detect_circular_deps}

-- `!value || typeof value !== "string"`, reversed.
unfoldable pub is_named : Option Yaml → Bool
unfolding truthy is_text
is_named none = false
is_named (some v) = truthy (some v) && is_text v

-- A text that is one of the names: `names.includes(value)`.
unfoldable pub is_among : List String → Yaml → Bool
is_among names (text s) = contains names s
is_among names _ = false

-- `value === name`
unfoldable pub is_exactly : String → Option Yaml → Bool
is_exactly name (some (text s)) = s == name
is_exactly name _ = false

-- `Array.isArray(depends_on)`, and every dependency is a stage.
unfoldable pub known_deps : List String → Option Yaml → Bool
unfolding items is_among
known_deps names (some (sequence xs)) = all (is_among names) (items xs)
known_deps names _ = true

unfoldable pub valid_message : Option Yaml → Bool
unfolding is_text
valid_message none = true
valid_message (some v) = is_text v

-- A stage that is not null: its provider, its model, its message and its dependencies.
unfoldable pub is_valid_stage : (providers names : List String) → Yaml → Bool
unfolding truthy get is_among is_named valid_message known_deps
is_valid_stage providers names stage =
    let provider = get stage "provider" in
    let resolved : Bool = elim provider [ none ↦ false | some p ↦ is_among providers p ] in
    if truthy provider && resolved
    then if is_named (get stage "model")
      then if valid_message (get stage "system_message")
        then known_deps names (get stage "depends_on")
        else false
      else false
    else false

-- The first loop over the stages. A stage that is null throws.
unfoldable pub check_stages :
    (providers names : List String) → List (String × Yaml) → Checked (Unit {0})
unfolding is_null is_valid_stage
check_stages providers names [] = valid tt
check_stages providers names ((n, stage) ∷ stages) =
    let rest = check_stages providers names stages in
    if is_null stage
    then thrown
    else if is_valid_stage providers names stage
    then rest
    else invalid_config

unfoldable pub mode_of : Option Yaml → Option PipelineMode
unfolding present is_exactly
mode_of mode = elim (present mode) [
  | none ↦ some sequential
  | some m ↦
      if is_exactly "sequential" (some m)
      then some sequential
      else if is_exactly "orchestrated" (some m)
      then some orchestrated
      else none
]

unfoldable pub is_orchestrator : String × Yaml → Bool
unfolding is_exactly get
is_orchestrator (n, stage) = is_exactly "orchestrator" (get stage "role")

-- In orchestrated mode there is exactly one orchestrator.
unfoldable pub check_orchestrators : PipelineMode → List (String × Yaml) → Bool
unfolding is_orchestrator
check_orchestrators sequential stages = true
check_orchestrators orchestrated stages = eqb (length (keep is_orchestrator stages)) 1

unfoldable pub is_orchestrated : PipelineMode → Bool
is_orchestrated sequential = false
is_orchestrated orchestrated = true

-- No role, or the orchestrator in orchestrated mode.
unfoldable pub is_valid_role : PipelineMode → String × Yaml → Bool
unfolding truthy get is_exactly is_orchestrated is_orchestrator
is_valid_role mode (n, stage) =
    let role = get stage "role" in
    if truthy role && not (is_exactly "orchestrator" role)
    then false
    else if is_orchestrator (n, stage) && not (is_orchestrated mode)
    then false
    else true

-- The characters of a text, as a loop over it yields them.
unfoldable pub characters : String → List String
characters String.[] = []
characters (String.◌∷◌ c s) = String.◌∷◌ c String.[] ∷ characters s

module _ (settings : Settings) where
  -- What a loop over a value yields; `none` where it throws.
  unfoldable pub iterated : Yaml → Option (List String)
  unfolding items characters
  iterated (sequence xs) = some (map settings.key_of (items xs))
  iterated (text s) = some (characters s)
  iterated _ = none

  -- `stages[name]?.depends_on ?? []`
  unfoldable pub stage_deps : List (String × Yaml) → String → Option (List String)
  unfolding lookup get present iterated
  stage_deps stages name = elim (lookup name stages) [
    | none ↦ some []
    | some stage ↦ elim (present (get stage "depends_on")) [
      | none ↦ some []
      | some ds ↦ iterated ds
    ]
  ]

  -- In sequential mode no stage depends on itself.
  unfoldable pub check_circular : PipelineMode → List (String × Yaml) → Checked (Unit {0})
  unfolding stage_deps detect_circular_deps
  check_circular orchestrated stages = valid tt
  check_circular sequential stages =
      elim (detect_circular_deps (stage_deps stages) (map (λ e. e.0) stages)) [
        | none ↦ thrown
        | some (clean marks) ↦ valid tt
        | some cyclic ↦ invalid_config
        | some broken ↦ thrown
      ]

pub record ParsedConfig : Type 0 where
  pub name : Option Yaml
  pub version : Option Yaml
  pub mode : PipelineMode
  pub context : Yaml
  pub providers : Resolved
  pub stages : List (String × Yaml)
  pub policies : Yaml

abbrev pub default_context : Yaml
default_context = mapping (
    field "backend" (text "sqlite")
      (field "vector" (text "embedded") (field "ttl" (text "7d") end)))

abbrev pub default_policies : Yaml
default_policies = mapping (field "global" (mapping end) end)

module _ (settings : Settings) where
  unfoldable pub final_config : Yaml → PipelineMode → Resolved → List (String × Yaml) → ParsedConfig
  unfolding get present
  final_config c mode providers stages = record {
    name = get c "name";
    version = get c "version";
    mode = mode;
    context = elim (present (get c "context")) [ none ↦ default_context | some v ↦ v ];
    providers = providers;
    stages = stages;
    policies = elim (present (get c "policies")) [ none ↦ default_policies | some v ↦ v ];
  }

  -- The mode, the orchestrator, the roles and the cycles.
  unfoldable pub check_mode : Yaml → Resolved → List (String × Yaml) → Checked ParsedConfig
  unfolding mode_of check_orchestrators is_valid_role check_circular final_config get
  check_mode c providers stages = elim (mode_of (get c "mode")) [
    | none ↦ invalid_config
    | some mode ↦
        if check_orchestrators mode stages && all (is_valid_role mode) stages
        then elim (check_circular settings mode stages) [
          | valid u ↦ valid (final_config c mode providers stages)
          | invalid e ↦ invalid e
          | thrown ↦ thrown
        ]
        else invalid_config
  ]

  unfoldable pub check_sections : Yaml → Resolved → Option Yaml → Checked ParsedConfig
  unfolding is_object entries check_stages check_mode
  check_sections c providers none = invalid_config
  check_sections c providers (some section) =
      let stages = entries section in
      let names : List String = map (λ e. e.0) stages in
      if is_object section
      then elim (check_stages (map (λ e. e.0) providers) names stages) [
        | valid u ↦ check_mode c providers stages
        | invalid e ↦ invalid e
        | thrown ↦ thrown
      ]
      else invalid_config

  -- A document that is empty (null) throws.
  unfoldable pub validate_config : (resolve_keys : Bool) → Yaml → Checked ParsedConfig
  unfolding is_null is_named get resolve_providers check_sections
  validate_config resolve_keys c =
      if is_null c
      then thrown
      else if is_named (get c "name") && is_named (get c "version")
      then elim (resolve_providers settings resolve_keys (get c "providers")) [
        | valid providers ↦ check_sections c providers (get c "stages")
        | invalid e ↦ invalid e
        | thrown ↦ thrown
      ]
      else invalid_config

  module _ (parse_yaml : String → Option Yaml) (env : String → Option String) where
    abbrev parse_failed : {A : Type 0} → Checked A
    parse_failed = invalid (record { code = parse_error })

    unfoldable pub parse_pipeline_from_string :
        (resolve_keys : Bool) → String → Checked ParsedConfig
    unfolding validate_config interpolate_object
    parse_pipeline_from_string resolve_keys content = elim (parse_yaml content) [
      | none ↦ parse_failed
      | some parsed ↦
          let ready = if resolve_keys then interpolate_object env parsed else some parsed in
          elim ready [ none ↦ parse_failed | some c ↦ validate_config resolve_keys c ]
    ]

    -- `none` for a file that cannot be read.
    unfoldable pub parse_pipeline : (resolve_keys : Bool) → Option String → Checked ParsedConfig
    unfolding parse_pipeline_from_string
    parse_pipeline resolve_keys none = parse_failed
    parse_pipeline resolve_keys (some content) = parse_pipeline_from_string resolve_keys content
