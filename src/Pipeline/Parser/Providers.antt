-- ===== src/Pipeline/Parser/Providers.antt =====
-- src/pipeline/parser/pipeline-parser.ts, resolveProviders. The catalog and the saved settings come
-- from src/config and are parameters. The source takes the fields of a custom provider without
-- testing their types, so they stay values of the document.
use open_thinking.Base.{String, Bool, Option, none, some, List, [], ◌∷◌, ◌==◌, if◌then◌else◌}
use open_thinking.Errors.{PipelineError, validation_error}
use open_thinking.Pipeline.Parser.Yaml.{
  Yaml, null, text, sequence, mapping, items, fields, is_object, get, truthy, present,
}

-- How a validation ends: a value, an error that is returned, or an exception.
pub data Checked (A : Type 0) : Type 0 where
  valid : A → Checked A
  invalid : PipelineError → Checked A
  thrown : Checked A

pub record CatalogProvider : Type 0 where
  pub id : String
  pub type : String
  pub base_url : String
  pub env_var : String

pub record SavedConfig : Type 0 where
  pub saved_type : String
  pub saved_base_url : String
  pub saved_api_key : Option String
  pub saved_headers : Option Yaml

pub record Settings : Type 0 where
  pub get_catalog_provider : String → Option CatalogProvider
  pub resolve_provider_config : String → Option SavedConfig
  pub resolve_api_key : String → Option String → Option String
  -- The text that a value becomes as a key.
  pub key_of : Yaml → String

pub record ResolvedProvider : Type 0 where
  pub type : Yaml
  pub base_url : Yaml
  pub api_key : Option Yaml
  pub headers : Option Yaml
  pub rate_limit_rpm : Option Yaml

abbrev pub Resolved : Type 0
Resolved = List (String × ResolvedProvider)

abbrev pub invalid_config : {A : Type 0} → Checked A
invalid_config = invalid (record { code = validation_error })

-- `record[key] = value`
unfoldable pub put : String → ResolvedProvider → Resolved → Resolved
put k v [] = (k, v) ∷ []
put k v ((n, w) ∷ rest) =
    let later = put k v rest in if n == k then (k, v) ∷ rest else (n, w) ∷ later

-- `a ?? b`
unfoldable pub or_else : {A : Type 0} → Option A → Option A → Option A
or_else none b = b
or_else (some a) b = some a

unfoldable pub as_text : Option String → Option Yaml
as_text none = none
as_text (some s) = some (text s)

unfoldable pub text_or : Option String → String → Yaml
text_or none s = text s
text_or (some t) s = text t

module _ (settings : Settings) (resolve_keys : Bool) where
  -- `resolveKeys ? resolveProviderConfig(id) : null`
  unfoldable pub saved_config : String → Option SavedConfig
  saved_config id = if resolve_keys then settings.resolve_provider_config id else none

  unfoldable pub saved_key : Option SavedConfig → Option String
  saved_key none = none
  saved_key (some c) = c.saved_api_key

  -- A provider of the catalog.
  unfoldable pub from_catalog : CatalogProvider → ResolvedProvider
  unfolding saved_config saved_key or_else as_text text_or
  from_catalog catalog =
      let saved = saved_config catalog.id in
      let key =
        if resolve_keys
        then or_else (saved_key saved) (settings.resolve_api_key catalog.id (some catalog.env_var))
        else none in
      record {
        type = text_or (elim saved [ none ↦ none | some c ↦ some c.saved_type ]) catalog.type;
        base_url =
            text_or (elim saved [ none ↦ none | some c ↦ some c.saved_base_url ]) catalog.base_url;
        api_key = as_text key;
        headers = elim saved [ none ↦ none | some c ↦ c.saved_headers ];
        rate_limit_rpm = none;
      }

  unfoldable pub custom_key :
      Yaml → String → Option SavedConfig → Option CatalogProvider → Option Yaml
  unfolding or_else as_text truthy get saved_key
  custom_key obj id saved catalog =
      let own = get obj "api_key" in
      let looked_up = as_text (
        or_else (saved_key saved)
          (settings.resolve_api_key id (elim catalog [ none ↦ none | some c ↦ some c.env_var ]))) in
      if truthy own then own else if resolve_keys then looked_up else own

  -- An object of the list that has an id.
  unfoldable pub custom_provider : Yaml → String → Resolved → Checked Resolved
  unfolding saved_config or_else as_text truthy present get custom_key put
  custom_provider obj id resolved =
      let catalog = settings.get_catalog_provider id in
      let saved = saved_config id in
      let base_url = or_else (present (get obj "base_url")) (
        as_text (
          or_else (elim saved [ none ↦ none | some c ↦ some c.saved_base_url ])
            (elim catalog [ none ↦ none | some c ↦ some c.base_url ]))) in
      let type = or_else (present (get obj "type")) (
        as_text (
          or_else (elim saved [ none ↦ none | some c ↦ some c.saved_type ])
            (elim catalog [ none ↦ none | some c ↦ some c.type ]))) in
      if truthy base_url
      then valid (
          put id
            (record {
              type = elim type [ none ↦ text "openai-compatible" | some t ↦ t ];
              base_url = elim base_url [ none ↦ null | some u ↦ u ];
              api_key = custom_key obj id saved catalog;
              headers =
                  or_else (present (get obj "headers"))
                    (elim saved [ none ↦ none | some c ↦ c.saved_headers ]);
              rate_limit_rpm = get obj "rate_limit_rpm";
            })
            resolved)
      else invalid_config

  -- One element of the list: a name, an object, or something that is passed over.
  unfoldable pub resolve_item : Yaml → Resolved → Checked Resolved
  unfolding from_catalog custom_provider is_object truthy get put
  resolve_item (text name) resolved = elim (settings.get_catalog_provider name) [
    | none ↦ invalid_config
    | some catalog ↦ valid (put name (from_catalog catalog) resolved)
  ]
  resolve_item item resolved =
      let id = get item "id" in
      if is_object item
      then if truthy id
        then custom_provider item (elim id [ none ↦ "" | some v ↦ settings.key_of v ]) resolved
        else invalid_config
      else valid resolved

  unfoldable pub resolve_items : List Yaml → Resolved → Checked Resolved
  unfolding resolve_item
  resolve_items [] resolved = valid resolved
  resolve_items (item ∷ rest) resolved = elim (resolve_item item resolved) [
    | valid resolved' ↦ resolve_items rest resolved'
    | invalid e ↦ invalid e
    | thrown ↦ thrown
  ]

  -- An entry of the older format.
  unfoldable pub resolve_entry : String → Yaml → Resolved → Checked Resolved
  unfolding from_catalog is_object get present put
  resolve_entry name config resolved =
      if is_object config
      then valid (
          put name
            (record {
              type = elim (present (get config "type")) [
                | none ↦ text "openai-compatible"
                | some t ↦ t
              ];
              base_url = elim (get config "base_url") [ none ↦ null | some u ↦ u ];
              api_key = get config "api_key";
              headers = get config "headers";
              rate_limit_rpm = get config "rate_limit_rpm";
            })
            resolved)
      else elim (settings.get_catalog_provider name) [
        | none ↦ invalid_config
        | some catalog ↦ valid (put name (from_catalog catalog) resolved)
      ]

  unfoldable pub resolve_entries : List (String × Yaml) → Resolved → Checked Resolved
  unfolding resolve_entry
  resolve_entries [] resolved = valid resolved
  resolve_entries ((name, config) ∷ rest) resolved = elim (resolve_entry name config resolved) [
    | valid resolved' ↦ resolve_entries rest resolved'
    | invalid e ↦ invalid e
    | thrown ↦ thrown
  ]

  unfoldable pub resolve_providers : Option Yaml → Checked Resolved
  unfolding truthy resolve_items resolve_entries items fields
  resolve_providers raw =
      if truthy raw
      then elim raw [
        | none ↦ invalid_config
        | some (sequence xs) ↦ resolve_items (items xs) []
        | some (mapping fs) ↦ resolve_entries (fields fs) []
        | some v ↦ invalid_config
      ]
      else invalid_config
