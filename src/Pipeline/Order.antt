-- ===== src/Pipeline/Order.antt =====
-- src/pipeline/executor/stage-executor.ts, resolveExecutionOrder: the layers of stages that may run
-- side by side. `none` stands for a `while` loop that is out of fuel.
pub mod Layers
pub mod Cycles
use open_thinking.Base.{
  ℕ, zero, suc, String, ◌==◌, Bool, true, false, not, Option, none, some, List, [], ◌∷◌, ◌++◌, map,
  all, keep, is_empty, length, if◌then◌else◌,
}
use open_thinking.Base.Texts.{contains}
use open_thinking.Result.{Result, ok, err}
use open_thinking.Errors.{ProviderError, not_found, api_error}
use open_thinking.Types.{StageDefinition}

abbrev pub Stages : Type 0
Stages = List (String × StageDefinition)

-- `Object.keys(stages)`
abbrev pub names : Stages → List String
names stages = map (λ e. e.0) stages

-- `def.depends_on ?? []`
unfoldable pub deps : StageDefinition → List String
deps d = elim d.depends_on [ none ↦ [] | some ds ↦ ds ]

-- `stages[name]`
unfoldable pub find : Stages → String → Option StageDefinition
find [] name = none
find ((n, d) ∷ stages) name = if n == name then some d else find stages name

-- The test of the inner loop; a name with no stage is passed over.
unfoldable pub is_ready : Stages → List String → String → Bool
unfolding find deps
is_ready stages resolved name = elim (find stages name) [
  | none ↦ false
  | some d ↦ all (contains resolved) (deps d)
]

-- What is left once the names of the layer are deleted.
unfoldable pub without : List String → List String → List String
without layer remaining = keep (λ name. not (contains layer name)) remaining

-- The `while` loop.
unfoldable pub rounds :
    ℕ
    → Stages
    → List String
    → List String
    → List (List String)
    → Option (Result (List (List String)) ProviderError)
unfolding is_ready without
rounds fuel stages resolved [] layers = some (ok layers)
rounds zero stages resolved (n ∷ ns) layers = none
rounds (suc fuel) stages resolved (n ∷ ns) layers =
    let layer = keep (is_ready stages resolved) (n ∷ ns) in
    let rest =
      rounds fuel stages (resolved ++ layer) (without layer (n ∷ ns)) (layers ++ layer ∷ []) in
    if is_empty layer then some (err (record { code = api_error })) else rest

-- Every dependency is a stage.
unfoldable pub deps_known : Stages → Bool
unfolding deps
deps_known stages = all (λ e. all (contains (names stages)) (deps e.1)) stages

unfoldable pub resolve_execution_order : Stages → Option (Result (List (List String)) ProviderError)
unfolding rounds deps_known
resolve_execution_order stages =
    let layers = rounds (length (names stages)) stages [] (names stages) [] in
    if deps_known stages then layers else some (err (record { code = not_found }))
