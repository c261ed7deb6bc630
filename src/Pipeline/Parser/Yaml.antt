-- ===== src/Pipeline/Parser/Yaml.antt =====
-- src/pipeline/parser/pipeline-parser.ts: what the parser reads of a parsed YAML document, and
-- interpolateEnvVars with interpolateObject. Keys are texts, numbers are natural numbers, and a
-- character is a code point.
use Prim.Native.Char.{code}
use Prim.Native.String
use open_thinking.Base.{
  ℕ, zero, suc, String, ◌+◌, Bool, true, false, Option, none, some, List, [], ◌∷◌, ◌==◌, eqb,
  if◌then◌else◌,
}
use open_thinking.Base.Texts.{show}
use open_thinking.Context.Compression.{after_prefix}

mutual
  pub data Yaml : Type 0 where
    null : Yaml
    boolean : Bool → Yaml
    number : ℕ → Yaml
    text : String → Yaml
    sequence : Items → Yaml
    mapping : Fields → Yaml

  pub data Items : Type 0 where
    nil : Items
    cons : Yaml → Items → Items

  pub data Fields : Type 0 where
    end : Fields
    field : String → Yaml → Fields → Fields

unfoldable pub items : Items → List Yaml
items nil = []
items (cons x xs) = x ∷ items xs

unfoldable pub fields : Fields → List (String × Yaml)
fields end = []
fields (field k v fs) = (k, v) ∷ fields fs

unfoldable pub numbered : ℕ → Items → List (String × Yaml)
numbered i nil = []
numbered i (cons x xs) = (show i, x) ∷ numbered (suc i) xs

unfoldable pub is_null : Yaml → Bool
is_null null = true
is_null _ = false

-- `typeof value === "object"`, of a value that is not null.
unfoldable pub is_object : Yaml → Bool
is_object (sequence xs) = true
is_object (mapping fs) = true
is_object _ = false

unfoldable pub is_text : Yaml → Bool
is_text (text s) = true
is_text _ = false

-- `Object.entries(value)` of a list or a mapping.
unfoldable pub entries : Yaml → List (String × Yaml)
unfolding fields numbered
entries (sequence xs) = numbered 0 xs
entries (mapping fs) = fields fs
entries _ = []

unfoldable pub lookup : String → List (String × Yaml) → Option Yaml
lookup k [] = none
lookup k ((n, v) ∷ fs) = if n == k then some v else lookup k fs

-- `value.key`, of a value that is not null; `none` is undefined.
unfoldable pub get : Yaml → String → Option Yaml
unfolding lookup fields
get (mapping fs) k = lookup k (fields fs)
get _ k = none

-- A value in a condition.
unfoldable pub truthy : Option Yaml → Bool
truthy none = false
truthy (some null) = false
truthy (some (boolean b)) = b
truthy (some (number zero)) = false
truthy (some (number (suc n))) = true
truthy (some (text s)) = if s == "" then false else true
truthy (some (sequence xs)) = true
truthy (some (mapping fs)) = true

-- `value ?? …`: neither undefined nor null.
unfoldable pub present : Option Yaml → Option Yaml
present none = none
present (some null) = none
present (some v) = some v

-- `[^}]+\}` at the start of a text: the name, and the number of its characters.
unfoldable pub until_brace : String → Option (String × ℕ)
until_brace String.[] = none
until_brace (String.◌∷◌ c s) =
    let rest = until_brace s in
    if eqb (code c) b'}'
    then some ("", 0)
    else elim rest [ none ↦ none | some (name, n) ↦ some (String.◌∷◌ c name, suc n) ]

unfoldable pub nonempty_name : Option (String × ℕ) → Option (String × ℕ)
nonempty_name none = none
nonempty_name (some (name, zero)) = none
nonempty_name (some (name, suc n)) = some (name, suc n)

-- `\$\{([^}]+)\}` at the start of a text.
unfoldable pub variable_at : String → Option (String × ℕ)
unfolding after_prefix until_brace nonempty_name
variable_at s = elim (after_prefix "${" s) [
  | none ↦ none
  | some rest ↦ nonempty_name (until_brace rest)
]

-- A value of the environment in place of a reference: the empty text counts as not set.
unfoldable pub substitute : Option String → Option String → Option String
substitute none rest = none
substitute (some value) none = none
substitute (some value) (some rest) = if value == "" then none else some (String.◌++◌ value rest)

module _ (env : String → Option String) where
  -- `skip` characters belong to a reference that was replaced. `none` where a variable is not set.
  unfoldable pub interpolate_from : (skip : ℕ) → String → Option String
  unfolding variable_at substitute
  interpolate_from skip String.[] = some ""
  interpolate_from (suc skip) (String.◌∷◌ c s) = interpolate_from skip s
  interpolate_from zero (String.◌∷◌ c s) = elim (variable_at (String.◌∷◌ c s)) [
    | none ↦ elim (interpolate_from zero s) [ none ↦ none | some rest ↦ some (String.◌∷◌ c rest) ]
    | some (name, n) ↦ substitute (env name) (interpolate_from (n + 2) s)
  ]

  unfoldable pub interpolate_env_vars : String → Option String
  unfolding interpolate_from
  interpolate_env_vars value = interpolate_from 0 value

unfoldable pub and_then : {A B : Type 0} → Option A → (A → Option B) → Option B
and_then none f = none
and_then (some x) f = f x

unfoldable mutual
  unfolding interpolate_env_vars and_then

  pub interpolate_object : (String → Option String) → Yaml → Option Yaml
  interpolate_object env null = some null
  interpolate_object env (boolean b) = some (boolean b)
  interpolate_object env (number n) = some (number n)
  interpolate_object env (text s) = and_then (interpolate_env_vars env s) (λ t. some (text t))
  interpolate_object env (sequence xs) =
      and_then (interpolate_items env xs) (λ ys. some (sequence ys))
  interpolate_object env (mapping fs) =
      and_then (interpolate_fields env fs) (λ gs. some (mapping gs))

  pub interpolate_items : (String → Option String) → Items → Option Items
  interpolate_items env nil = some nil
  interpolate_items env (cons x xs) =
      let rest = interpolate_items env xs in
      and_then (interpolate_object env x) (λ y. and_then rest (λ ys. some (cons y ys)))

  pub interpolate_fields : (String → Option String) → Fields → Option Fields
  interpolate_fields env end = some end
  interpolate_fields env (field k v fs) =
      let rest = interpolate_fields env fs in
      and_then (interpolate_object env v) (λ w. and_then rest (λ gs. some (field k w gs)))
