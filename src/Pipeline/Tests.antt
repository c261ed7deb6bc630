-- ===== src/Pipeline/Tests.antt =====
-- The stages of the README's pipeline, and a pipeline with a cycle.
use mathlib.Core.List.{Perm}
use open_thinking.Base.{
  String, ◌≡◌, refl, ◌≢◌, ◌↔◌, List, [], ◌∷◌, Option, none, some, true, false, flatten,
}
use open_thinking.Base.Texts.{contains}
use open_thinking.Result.{ok, err}
use open_thinking.Errors.{api_error, not_found}
use open_thinking.Types.{StageDefinition}
use open_thinking.Pipeline.Order.{Stages, names, deps_known, resolve_execution_order}
use open_thinking.Pipeline.Order.Layers.{
  IsLayered, resolve_execution_order-IsLayered, resolve_execution_order-ne-none,
}
use open_thinking.Pipeline.Order.Cycles.{
  IsStuck, HasUnknown, resolve_execution_order-IsStuck, resolve_execution_order-not_found_iff,
}

abbrev pub stage : Option (List String) → StageDefinition
stage after = record {
  provider = "openai";
  model = "gpt-4o";
  skill = "coding";
  system_message = none;
  context = record { read = "*" ∷ []; write = "*" ∷ []; eager = false };
  depends_on = after;
  max_iterations = none;
  allowed_tools = none;
  role = none;
  fallback_models = none;
  on_fail = none;
  permissions = none;
}

abbrev pub readme : Stages
readme =
    ("testing", stage (some ("develop" ∷ [])))
    ∷ ("planning", stage none)
    ∷ ("develop", stage (some ("planning" ∷ [])))
    ∷ ("docs", stage (some ("planning" ∷ [])))
    ∷ []

abbrev pub readme_layers : List (List String)
readme_layers = ("planning" ∷ []) ∷ ("develop" ∷ "docs" ∷ []) ∷ ("testing" ∷ []) ∷ []

pub resolve-readme : resolve_execution_order readme ≡ some (ok readme_layers)
unfolding resolve_execution_order contains
resolve-readme = refl

resolve_execution_order-IsLayered_example :
    Perm (flatten readme_layers) (names readme) × IsLayered readme [] readme_layers
resolve_execution_order-IsLayered_example =
    resolve_execution_order-IsLayered readme readme_layers resolve-readme

resolve_execution_order-ne-none_example : resolve_execution_order readme ≢ none
resolve_execution_order-ne-none_example = resolve_execution_order-ne-none readme

abbrev cyclic : Stages
cyclic = ("a", stage (some ("b" ∷ []))) ∷ ("b", stage (some ("a" ∷ []))) ∷ ("c", stage none) ∷ []

cyclic_known : deps_known cyclic ≡ true
unfolding deps_known contains
cyclic_known = refl

resolve_execution_order-IsStuck_example :
    (resolve_execution_order cyclic ≡ some (err (record { code = api_error })))
    ↔ ((set : List String) × IsStuck cyclic set)
resolve_execution_order-IsStuck_example = resolve_execution_order-IsStuck cyclic cyclic_known

abbrev dangling : Stages
dangling = ("a", stage (some ("missing" ∷ []))) ∷ []

resolve_execution_order-not_found_iff_example :
    (resolve_execution_order dangling ≡ some (err (record { code = not_found })))
    ↔ HasUnknown dangling
resolve_execution_order-not_found_iff_example = resolve_execution_order-not_found_iff dangling
