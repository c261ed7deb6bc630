-- ===== src/Pipeline/Parser/Tests.antt =====
-- A pipeline of two stages, as the parser reads it, and interpolated texts.
use mathlib.Core.List.{Perm}
use open_thinking.Base.{
  String, ◌≡◌, refl, Option, none, some, List, [], ◌∷◌, false, ◌==◌, if◌then◌else◌, flatten,
}
use open_thinking.Base.Texts.{contains}
use open_thinking.Result.{ok}
use open_thinking.Pipeline.Run.{sequential}
use open_thinking.Pipeline.Order.{Stages, names, resolve_execution_order}
use open_thinking.Pipeline.Tests.{stage}
use open_thinking.Pipeline.Parser.Yaml.{
  Yaml, null, text, sequence, mapping, nil, cons, end, field, interpolate_env_vars, get, items,
}
use open_thinking.Pipeline.Parser.Providers.{CatalogProvider, valid, Settings}
use open_thinking.Pipeline.Parser.Circular.{detect_circular_deps}
use open_thinking.Pipeline.Parser.Circular.Laws.{Decides, detect_circular_deps-Decides}
use open_thinking.Pipeline.Parser.Validation.{stage_deps, ParsedConfig, validate_config}
use open_thinking.Pipeline.Parser.Validation.Laws.{keys, stage_deps-known}
use open_thinking.Pipeline.Parser.Validation.Soundness.{IsSound, validate_config-IsSound}
use open_thinking.Pipeline.Parser.Validation.Ordering.{validate_config-ordered}

abbrev environment : String → Option String
environment name = if name == "KEY" then some "abc" else none

interpolate_known : interpolate_env_vars environment "key: ${KEY}." ≡ some "key: abc."
unfolding interpolate_env_vars
interpolate_known = refl

interpolate_unknown : interpolate_env_vars environment "${OTHER}" ≡ none
unfolding interpolate_env_vars
interpolate_unknown = refl

interpolate_empty : interpolate_env_vars environment "${}" ≡ some "${}"
unfolding interpolate_env_vars
interpolate_empty = refl

abbrev openai : CatalogProvider
openai = record {
  id = "openai";
  type = "openai-compatible";
  base_url = "https://api.openai.com/v1";
  env_var = "OPENAI_API_KEY";
}

abbrev key_of : Yaml → String
key_of (text s) = s
key_of _ = ""

abbrev settings : Settings
settings = record {
  get_catalog_provider = λ name. if name == "openai" then some openai else none;
  resolve_provider_config = λ name. none;
  resolve_api_key = λ name variable. none;
  key_of = key_of;
}

abbrev agent : Yaml → Yaml
agent after = mapping (
    field "provider" (text "openai") (field "model" (text "gpt-4o") (field "depends_on" after end)))

abbrev document : Yaml
document = mapping (
    field "name" (text "demo") (
      field "version" (text "1") (
        field "providers" (sequence (cons (text "openai") nil)) (
          field "stages"
            (mapping (
              field "develop" (agent (sequence (cons (text "planning") nil)))
                (field "planning" (agent null) end)))
            end))))

abbrev config : ParsedConfig
config = record {
  name = some (text "demo");
  version = some (text "1");
  mode = sequential;
  context = mapping (
      field "backend" (text "sqlite")
        (field "vector" (text "embedded") (field "ttl" (text "7d") end)));
  providers =
      (
        "openai",
        record {
          type = text "openai-compatible";
          base_url = text "https://api.openai.com/v1";
          api_key = none;
          headers = none;
          rate_limit_rpm = none;
        },
      )
      ∷ [];
  stages =
      ("develop", agent (sequence (cons (text "planning") nil))) ∷ ("planning", agent null) ∷ [];
  policies = mapping (field "global" (mapping end) end);
}

validated : validate_config settings false document ≡ valid config
unfolding validate_config contains
validated = refl

validate_config-IsSound_example : IsSound settings config
validate_config-IsSound_example = validate_config-IsSound settings false document config validated

abbrev stages : Stages
stages = ("develop", stage (some ("planning" ∷ []))) ∷ ("planning", stage none) ∷ []

validate_config-ordered_example :
    (layers : List (List String)) × (resolve_execution_order stages ≡ some (ok layers))
    × Perm (flatten layers) (names stages)
unfolding get items
validate_config-ordered_example =
    validate_config-ordered settings false document config stages (λ s. refl) validated refl
      (refl, refl, (refl, tt, tt))

abbrev circular : List (String × Yaml)
circular =
    ("a", agent (sequence (cons (text "b") nil)))
    ∷ ("b", agent (sequence (cons (text "a") nil)))
    ∷ []

detect_circular_deps-Decides_example :
    Decides
      (stage_deps settings circular)
      (keys circular)
      (detect_circular_deps (stage_deps settings circular) (keys circular))
detect_circular_deps-Decides_example =
    detect_circular_deps-Decides (stage_deps settings circular) (keys circular)
      (stage_deps-known settings circular)
