-- ===== src/Pipeline/Parser/Validation/Ordering.antt =====
-- A sequential pipeline that passes the validation has an execution order: the two searches for
-- cycles, of the parser and of the executor, agree.
use mathlib.Core.List.{Perm}
use mathlib.Core.WellFounded.{Acc}
use open_thinking.Base.{
  String, ◌≡◌, refl, sym, ap, ◌∙◌, inl, inr, ◌==◌, Bool, true, Option, none, some, List, [], ◌∷◌,
  arith, map, all, flatten, Elem, Any, All, Elem-of-All, Bool-cases, Option-cases,
}
use open_thinking.Base.Texts.{contains}
use open_thinking.Result.{ok, err}
use open_thinking.Types.{StageDefinition}
use open_thinking.Pipeline.Run.{sequential}
use open_thinking.Pipeline.Order.{Stages, names, deps, find, deps_known, resolve_execution_order}
use open_thinking.Pipeline.Order.Layers.{
  resolve_execution_order-ne-none, resolve_execution_order-IsLayered,
}
use open_thinking.Pipeline.Order.Cycles.{IsWaiting, IsStuck, resolve_execution_order-error}
use open_thinking.Pipeline.Parser.Yaml.{
  Yaml, null, boolean, number, text, sequence, mapping, items, lookup, get, present,
}
use open_thinking.Pipeline.Parser.Providers.{valid, Settings}
use open_thinking.Pipeline.Parser.Circular.Laws.{Below, detect_circular_deps-Acc}
use open_thinking.Pipeline.Parser.Validation.{
  known_deps, is_among, iterated, stage_deps, ParsedConfig, validate_config,
}
use open_thinking.Pipeline.Parser.Validation.Laws.{
  keys, validate_config-IsPassed, check_stages-Elem, is_valid_stage-eq, stage_deps-known, searched,
}

-- The field `depends_on` of a document, and the same field of a stage definition.
abbrev pub IsTyped : Option Yaml → Option (List String) → Type 0
IsTyped none none = Unit {0}
IsTyped (some null) none = Unit {0}
IsTyped (some (sequence xs)) (some ds) = items xs ≡ map text ds
IsTyped o ds = ⊥

-- The stages of a document, read as stage definitions in the same order.
abbrev pub Typed : List (String × Yaml) → Stages → Type 0
Typed [] [] = Unit {0}
Typed ((n, y) ∷ raw) ((m, d) ∷ stages) =
    (n ≡ m) × IsTyped (get y "depends_on") d.depends_on × Typed raw stages
Typed raw stages = ⊥

Typed-names :
    (raw : List (String × Yaml)) (stages : Stages) → Typed raw stages → keys raw ≡ names stages
Typed-names [] [] h = refl
Typed-names [] (e ∷ stages) h = absurd h
Typed-names (e ∷ raw) [] h = absurd h
Typed-names ((n, y) ∷ raw) ((m, d) ∷ stages) (e, _, h) = rw (e, Typed-names raw stages h) refl

all_among : (known ds : List String) → all (is_among known) (map text ds) ≡ all (contains known) ds
unfolding is_among
all_among known [] = refl
all_among known (d ∷ ds) = rw (all_among known ds) refl

-- `def.depends_on ?? []`
abbrev or_nil : Option (List String) → List String
or_nil none = []
or_nil (some ds) = ds

deps-or_nil : (d : StageDefinition) → deps d ≡ or_nil d.depends_on
unfolding deps
deps-or_nil d = elim (Option-cases d.depends_on) [
  | inl e ↦ rw (deps, e) refl
  | inr (ds, e) ↦ rw (deps, e) refl
]

typed_known :
    (known : List String) (o : Option Yaml) (ds : Option (List String))
    → IsTyped o ds
    → known_deps known o ≡ true
    → all (contains known) (or_nil ds) ≡ true
unfolding known_deps
typed_known known none none t h = refl
typed_known known none (some ds) t h = absurd t
typed_known known (some null) none t h = refl
typed_known known (some null) (some ds) t h = absurd t
typed_known known (some (boolean b)) ds t h = absurd t
typed_known known (some (number n)) ds t h = absurd t
typed_known known (some (text s)) ds t h = absurd t
typed_known known (some (mapping fs)) ds t h = absurd t
typed_known known (some (sequence xs)) none t h = absurd t
typed_known known (some (sequence xs)) (some ds) t h =
    sym (all_among known ds) ∙ (let h' = rw t at h in h')

-- The two ways to read the dependencies of a stage, where a text is its own key.
module _ (settings : Settings) (own_key : (s : String) → settings.key_of (text s) ≡ s) where
  map-key_of : (ds : List String) → map settings.key_of (map text ds) ≡ ds
  map-key_of [] = refl
  map-key_of (d ∷ ds) = rw (own_key d, map-key_of ds) refl

  abbrev read_deps : Option Yaml → Option (List String)
  read_deps o = elim (present o) [ none ↦ some [] | some v ↦ iterated settings v ]

  typed_read :
      (o : Option Yaml) (ds : Option (List String)) → IsTyped o ds → read_deps o ≡ some (or_nil ds)
  unfolding present iterated
  typed_read none none t = refl
  typed_read none (some ds) t = absurd t
  typed_read (some null) none t = refl
  typed_read (some null) (some ds) t = absurd t
  typed_read (some (boolean b)) ds t = absurd t
  typed_read (some (number n)) ds t = absurd t
  typed_read (some (text s)) ds t = absurd t
  typed_read (some (mapping fs)) ds t = absurd t
  typed_read (some (sequence xs)) none t = absurd t
  typed_read (some (sequence xs)) (some ds) t = rw (t, map-key_of ds) refl

  lookup-find :
      (raw : List (String × Yaml)) (stages : Stages) (n : String) (d : StageDefinition)
      → Typed raw stages
      → find stages n ≡ some d
      → (y : Yaml) × (lookup n raw ≡ some y) × IsTyped (get y "depends_on") d.depends_on
  unfolding lookup find
  lookup-find [] [] n d t h = absurd (ground (arith, h))
  lookup-find [] (e ∷ stages) n d t h = absurd t
  lookup-find (e ∷ raw) [] n d t h = absurd t
  lookup-find ((k, y) ∷ raw) ((m, c) ∷ stages) n d (e, t, rest) h = elim (Bool-cases (m == n)) [
    | inl f ↦
        let h' = rw f at h in
        let same : c ≡ d = ground (arith, h') in (y, rw (e, f) refl, rw (← same) t)
    | inr f ↦ let (z, g, u) = lookup-find raw stages n d rest (rw f at h) in (z, rw (e, f) g, u)
  ]

  stage_deps-find :
      (raw : List (String × Yaml)) (stages : Stages) (n : String) (d : StageDefinition)
      → Typed raw stages
      → find stages n ≡ some d
      → stage_deps settings raw n ≡ some (deps d)
  unfolding stage_deps
  stage_deps-find raw stages n d t h =
      let (y, e, u) = lookup-find raw stages n d t h in
      rw (stage_deps, e)
        (typed_read (get y "depends_on") d.depends_on u ∙ ap some (sym (deps-or_nil d)))

  module _ (raw : List (String × Yaml)) (stages : Stages) (typed : Typed raw stages)
      (below : (x : String) → Elem x (keys raw) → Acc (Below (stage_deps settings raw)) x) where
    waits-Below :
        (set : List String) (n : String)
        → IsWaiting stages set n
        → (d : String) × Elem d set × Below (stage_deps settings raw) d n
    waits-Below set n w =
        let (d, i, m) = both (deps w.stage) w.waits in
        (d, m, (deps w.stage, stage_deps-find raw stages n w.stage typed w.found, i))
      where
        both : (ds : List String) → Any (λ d. Elem d set) ds → (d : String) × Elem d ds × Elem d set
        both [] m = elim m [ ]
        both (d ∷ ds) (inl m) = (d, inl refl, m)
        both (d ∷ ds) (inr m) = let (x, i, k) = both ds m in (x, inr i, k)

    never_stuck :
        (set : List String)
        → All (IsWaiting stages set) set
        → {x : String} → Acc (Below (stage_deps settings raw)) x
        → ¬ Elem x set
    never_stuck set all {x} (Acc.intro _ h) m =
        let (d, i, b) = waits-Below set x (Elem-of-All (IsWaiting stages set) set all m) in
        never_stuck set all (h d b) i

    not-IsStuck : (set : List String) → ¬ IsStuck stages set
    not-IsStuck [] s = s.nonempty refl
    not-IsStuck (x ∷ set) s =
        let (w, _) = s.waiting in
        never_stuck (x ∷ set) s.waiting (below x (rw (Typed-names raw stages typed) w.listed))
          (inl refl)

known_all :
    (known : List String) (raw : List (String × Yaml)) (stages : Stages)
    → Typed raw stages
    → ((n : String) (y : Yaml) → Elem (n, y) raw → known_deps known (get y "depends_on") ≡ true)
    → all (λ e. all (contains known) (deps e.1)) stages ≡ true
known_all known [] [] t h = refl
known_all known [] (e ∷ stages) t h = absurd t
known_all known (e ∷ raw) [] t h = absurd t
known_all known ((n, y) ∷ raw) ((m, d) ∷ stages) (e, t, rest) h =
    let one = typed_known known (get y "depends_on") d.depends_on t (h n y (inl refl)) in
    let all_rest = known_all known raw stages rest (λ k z i. h k z (inr i)) in
    rw (deps-or_nil d, one, all_rest) refl

-- When a sequential configuration passes the validation and its stages, read as definitions, are put
-- in order, this succeeds, with every stage in one of the layers: no dependency is unknown and no
-- cycle is found. Texts are assumed to be their own keys.
pub validate_config-ordered :
    (settings : Settings) (resolve_keys : Bool) (c : Yaml) (config : ParsedConfig) (stages : Stages)
    → ((s : String) → settings.key_of (text s) ≡ s)
    → validate_config settings resolve_keys c ≡ valid config
    → config.mode ≡ sequential
    → Typed config.stages stages
    → (layers : List (List String)) × (resolve_execution_order stages ≡ some (ok layers))
      × Perm (flatten layers) (names stages)
unfolding deps_known
validate_config-ordered settings resolve_keys c config stages own_key h mode typed =
    let p = validate_config-IsPassed settings config resolve_keys c h in
    let raw = config.stages in
    let (marks, found) = searched settings raw (rw mode at p.no_cycle) in
    let below : (x : String) → Elem x (keys raw) → Acc (Below (stage_deps settings raw)) x =
      detect_circular_deps-Acc (stage_deps settings raw) (keys raw) (stage_deps-known settings raw)
        marks found in
    let known : deps_known stages ≡ true = rw (← Typed-names raw stages typed) (
      known_all (keys raw) raw stages typed (λ n y m.
        (is_valid_stage-eq (keys config.providers) (keys raw) y
          (check_stages-Elem (keys config.providers) (keys raw) raw p.stages_valid n y m)).1)) in
    elim (Option-cases (resolve_execution_order stages)) [
      | inl e ↦ absurd (resolve_execution_order-ne-none stages e)
      | inr (ok layers, e) ↦ (layers, e, (resolve_execution_order-IsLayered stages layers e).0)
      | inr (err x, e) ↦
          let (set, stuck) = resolve_execution_order-error stages x known e in
          absurd (not-IsStuck settings own_key raw stages typed below set stuck)
    ]
