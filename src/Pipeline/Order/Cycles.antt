-- ===== src/Pipeline/Order/Cycles.antt =====
-- When a circular dependency is reported.
use open_thinking.Base.{
  ℕ, zero, suc, String, ◌≤◌, ◌≡◌, refl, ap, ◌≢◌, ◌⊎◌, ◌↔◌, inl, inr, Bool, true, false, not, some,
  List, [], ◌∷◌, ◌++◌, arith, ◌==◌, eq_iff, all, keep, is_empty, length, All, Any, Elem,
  Elem-append_left, Elem-append_right, Elem-append_cases, All-of-Elem, mem-keep, Elem-of-All,
  Bool-cases, and-eq-true,
}
use open_thinking.Base.Texts.{contains, contains_iff}
use open_thinking.Result.{err}
use open_thinking.Errors.{ProviderError, not_found, api_error}
use open_thinking.Types.{StageDefinition}
use open_thinking.Pipeline.Order.{
  Stages, names, deps, find, is_ready, without, rounds, deps_known, resolve_execution_order,
}
use open_thinking.Pipeline.Order.Layers.{
  is_ready-IsBehind, layer_of, length-without-lt, without_layer,
}

-- A stage that waits for a member of the set.
pub record IsWaiting (stages : Stages) (set : List String) (name : String) : Type 0 where
  pub listed : Elem name (names stages)
  pub stage : StageDefinition
  pub found : find stages name ≡ some stage
  pub waits : Any (λ d. Elem d set) (deps stage)

-- A circular dependency: some stages, each of which waits for one of them.
pub record IsStuck (stages : Stages) (set : List String) : Type 0 where
  pub nonempty : set ≢ []
  pub waiting : All (IsWaiting stages set) set

no_common :
    (ds done set : List String)
    → All (λ d. Elem d done) ds
    → ((n : String) → Elem n set → ¬ Elem n done)
    → ¬ Any (λ d. Elem d set) ds
no_common [] done set h k m = elim m [ ]
no_common (d ∷ ds) done set (a, h) k (inl m) = k d m a
no_common (d ∷ ds) done set (a, h) k (inr m) = no_common ds done set h k m

module _ (stages : Stages) (set : List String) (stuck : IsStuck stages set) where
  not-is_ready :
      (resolved : List String)
      → ((n : String) → Elem n set → ¬ Elem n resolved)
      → (n : String) → Elem n set
      → is_ready stages resolved n ≡ false
  not-is_ready resolved apart n m = elim (Bool-cases (is_ready stages resolved n)) [
    | inr f ↦ f
    | inl t ↦
        let b = is_ready-IsBehind stages resolved n t in
        let w = Elem-of-All (IsWaiting stages set) set stuck.waiting m in
        let e : b.stage ≡ w.stage = cc (b.found, w.found) in
        absurd (no_common (deps w.stage) resolved set (rw e at b.behind) apart w.waits)
  ]

  -- A stuck set stays in what remains, so the loop can only end with the error.
  rounds_stuck :
      (fuel : ℕ) (resolved remaining : List String) (layers : List (List String))
      → length remaining ≤ fuel
      → ((n : String) → Elem n set → ¬ Elem n resolved)
      → ((n : String) → Elem n set → Elem n remaining)
      → rounds fuel stages resolved remaining layers ≡ some (err (record { code = api_error }))
  unfolding rounds
  rounds_stuck fuel resolved [] layers h apart inside = absurd (stuck.nonempty (none_of set inside))
    where
      none_of : (xs : List String) → ((n : String) → Elem n xs → ⊥) → xs ≡ []
      none_of [] k = refl
      none_of (x ∷ xs) k = absurd (k x (inl refl))
  rounds_stuck zero resolved (n ∷ ns) layers h apart inside = absurd (omega arith)
  rounds_stuck (suc fuel) resolved (n ∷ ns) layers h apart inside =
      elim (Bool-cases (is_empty (layer_of stages resolved (n ∷ ns)))) [
        | inl none_ready ↦ ground arith
        | inr more ↦ rw more (
            rounds_stuck fuel (resolved ++ layer) (without layer (n ∷ ns)) (layers ++ layer ∷ [])
              (let q = length-without-lt stages resolved (n ∷ ns) more in omega arith)
              (λ x m l. elim (Elem-append_cases x resolved layer l) [
                | inl old ↦ apart x m old
                | inr new ↦
                    let (_, t) = (mem-keep (is_ready stages resolved) x (n ∷ ns)).0 new in
                    let f = not-is_ready resolved apart x m in cc
              ])
              (λ x m. rw (without_layer stages (is_ready stages resolved) (n ∷ ns)) (
                (mem-keep (λ y. not (is_ready stages resolved y)) x (n ∷ ns)).1
                  (inside x m, ap not (not-is_ready resolved apart x m)))))
      ]
    where
      layer : List String
      layer = layer_of stages resolved (n ∷ ns)

-- A name in the list of names has a stage.
find_of_Elem :
    (stages : Stages) (n : String)
    → Elem n (names stages)
    → (d : StageDefinition) × (find stages n ≡ some d)
unfolding find
find_of_Elem [] n m = elim m [ ]
find_of_Elem ((k, d) ∷ stages) n m = elim (Bool-cases (k == n)) [
  | inl e ↦ (d, rw e)
  | inr f ↦
      rw f
        (find_of_Elem stages n (elim m [ inl e ↦ absurd (ground (arith, eq_iff k n)) | inr l ↦ l ]))
]

found_deps_known :
    (known : List String) (stages : Stages) (n : String) {d : StageDefinition}
    → find stages n ≡ some d
    → all (λ e. all (contains known) (deps e.1)) stages ≡ true
    → all (contains known) (deps d) ≡ true
unfolding find
found_deps_known known [] n h k = cc
found_deps_known known ((j, c) ∷ stages) n {d} h k =
    let (a, b) =
      (and-eq-true (all (contains known) (deps c))
          (all (λ e. all (contains known) (deps e.1)) stages)).0
        k in
    elim (Bool-cases (j == n)) [
      | inl e ↦ let same : c ≡ d = ground arith in rw same at a
      | inr f ↦ found_deps_known known stages n (rw f at h) b
    ]

-- Where a test fails of a list but passes on names that are resolved or remain, one remains.
waits_of :
    (known resolved remaining ds : List String)
    → ((n : String) → Elem n known → Elem n resolved ⊎ Elem n remaining)
    → all (contains known) ds ≡ true
    → all (contains resolved) ds ≡ false
    → Any (λ d. Elem d remaining) ds
waits_of known resolved remaining [] cover h f = cc
waits_of known resolved remaining (d ∷ ds) cover h f =
    let (a, b) = (and-eq-true (contains known d) (all (contains known) ds)).0 h in
    elim (Bool-cases (contains resolved d)) [
      | inl c ↦ inr (waits_of known resolved remaining ds cover b (ground arith))
      | inr c ↦ elim (cover d ((contains_iff known d).0 a)) [
        | inl r ↦ let t = (contains_iff resolved d).1 r in absurd (cc)
        | inr m ↦ inl m
      ]
    ]

keep_empty :
    (p : String → Bool) (xs : List String) (x : String)
    → is_empty (keep p xs) ≡ true
    → Elem x xs
    → p x ≡ false
keep_empty p xs x h m = elim (Bool-cases (p x)) [
  | inr f ↦ f
  | inl t ↦ absurd (empty (keep p xs) h ((mem-keep p x xs).1 (m, t)))
]
  where
    empty : (ys : List String) → is_empty ys ≡ true → Elem x ys → ⊥
    empty [] k l = elim l [ ]
    empty (y ∷ ys) k l = cc

module _ (stages : Stages) (known : deps_known stages ≡ true) where
  -- Every stage is resolved or remains, and what remains are stages.
  record IsCovered (resolved remaining : List String) : Type 0 where
    cover : (n : String) → Elem n (names stages) → Elem n resolved ⊎ Elem n remaining
    within : (n : String) → Elem n remaining → Elem n (names stages)

  unready-IsWaiting :
      (resolved remaining : List String) (n : String)
      → IsCovered resolved remaining
      → Elem n remaining
      → is_ready stages resolved n ≡ false
      → IsWaiting stages remaining n
  unfolding is_ready deps_known
  unready-IsWaiting resolved remaining n c m f =
      let (d, found) = find_of_Elem stages n (c.within n m) in
      record {
        listed = c.within n m;
        stage = d;
        found = found;
        waits =
            waits_of (names stages) resolved remaining (deps d) c.cover
              (found_deps_known (names stages) stages n found known) (ground arith);
      }

  next-IsCovered :
      (resolved remaining : List String)
      → IsCovered resolved remaining
      → IsCovered
          (resolved ++ layer_of stages resolved remaining)
          (without (layer_of stages resolved remaining) remaining)
  next-IsCovered resolved remaining c = rw (without_layer stages ready remaining) (record {
    cover = λ n m. elim (c.cover n m) [
      | inl r ↦ inl (Elem-append_left n resolved _ r)
      | inr l ↦ elim (Bool-cases (ready n)) [
        | inl t ↦ inl (Elem-append_right n resolved _ ((mem-keep ready n remaining).1 (l, t)))
        | inr f ↦ inr ((mem-keep (λ y. not (ready y)) n remaining).1 (l, ap not f))
      ]
    ];
    within = λ n m. c.within n ((mem-keep (λ y. not (ready y)) n remaining).0 m).0;
  })
    where
      ready : String → Bool
      ready = is_ready stages resolved

  rounds_error :
      (fuel : ℕ) (resolved remaining : List String) (layers : List (List String))
      (e : ProviderError)
      → IsCovered resolved remaining
      → rounds fuel stages resolved remaining layers ≡ some (err e)
      → (set : List String) × IsStuck stages set
  unfolding rounds
  rounds_error fuel resolved [] layers e c h = absurd (ground arith)
  rounds_error zero resolved (n ∷ ns) layers e c h = absurd (ground arith)
  rounds_error (suc fuel) resolved (n ∷ ns) layers e c h =
      elim (Bool-cases (is_empty (layer_of stages resolved (n ∷ ns)))) [
        | inl none_ready ↦ (
          n ∷ ns,
          record {
            nonempty = λ q. cc;
            waiting = All-of-Elem (IsWaiting stages (n ∷ ns)) (n ∷ ns) (λ x m.
                unready-IsWaiting resolved (n ∷ ns) x c m
                  (keep_empty (is_ready stages resolved) (n ∷ ns) x none_ready m));
          },
        )
        | inr more ↦
            rounds_error fuel (resolved ++ layer_of stages resolved (n ∷ ns))
              (without (layer_of stages resolved (n ∷ ns)) (n ∷ ns))
              (layers ++ layer_of stages resolved (n ∷ ns) ∷ []) e
              (next-IsCovered resolved (n ∷ ns) c) (ground arith)
      ]

-- When every dependency names a stage, a circular dependency is reported exactly when there is a
-- nonempty set of stages each of which waits for a stage of the set.
pub resolve_execution_order-IsStuck :
    (stages : Stages)
    → deps_known stages ≡ true
    → (resolve_execution_order stages ≡ some (err (record { code = api_error })))
      ↔ ((set : List String) × IsStuck stages set)
unfolding resolve_execution_order
resolve_execution_order-IsStuck stages known = (
  (λ h.
      rounds_error stages known (length (names stages)) [] (names stages) []
        (record { code = api_error }) (record { cover = λ n m. inr m; within = λ n m. m })
        (ground arith)),
  (λ (set, stuck). rw known (
      rounds_stuck stages set stuck (length (names stages)) [] (names stages) [] (omega arith)
        (λ n m l. elim l [ ])
        (λ n m. (Elem-of-All (IsWaiting stages set) set stuck.waiting m).listed))),
)

-- When every dependency names a stage, any error is that of a circular dependency.
pub resolve_execution_order-error :
    (stages : Stages) (e : ProviderError)
    → deps_known stages ≡ true
    → resolve_execution_order stages ≡ some (err e)
    → (set : List String) × IsStuck stages set
unfolding resolve_execution_order
resolve_execution_order-error stages e known h =
    rounds_error stages known (length (names stages)) [] (names stages) [] e
      (record { cover = λ n m. inr m; within = λ n m. m }) (let h' = rw known at h in h')

rounds_code :
    (stages : Stages) (fuel : ℕ) (resolved remaining : List String) (layers : List (List String))
    → rounds fuel stages resolved remaining layers ≢ some (err (record { code = not_found }))
unfolding rounds
rounds_code stages fuel resolved [] layers = ground arith
rounds_code stages zero resolved (n ∷ ns) layers = ground arith
rounds_code stages (suc fuel) resolved (n ∷ ns) layers =
    elim (Bool-cases (is_empty (layer_of stages resolved (n ∷ ns)))) [
      | inl none_ready ↦ ground arith
      | inr more ↦ rw more (
          rounds_code stages fuel (resolved ++ layer_of stages resolved (n ∷ ns))
            (without (layer_of stages resolved (n ∷ ns)) (n ∷ ns))
            (layers ++ layer_of stages resolved (n ∷ ns) ∷ []))
    ]

-- A stage depends on a name that is no stage.
abbrev pub HasUnknown : Stages → Type 0
HasUnknown stages =
    (name : String) × (stage : StageDefinition) × (d : String) × Elem (name, stage) stages
    × Elem d (deps stage)
    × ¬ Elem d (names stages)

missing :
    (known ds : List String)
    → (all (contains known) ds ≡ false) ↔ ((d : String) × Elem d ds × ¬ Elem d known)
missing known [] = ((λ h. cc), (λ (d, m, _). elim m [ ]))
missing known (d ∷ ds) = (
  (λ h. elim (Bool-cases (contains known d)) [
    | inl t ↦ let (x, m, n) = (missing known ds).0 (rw t at h) in (x, inr m, n)
    | inr f ↦ (d, inl refl, (λ m. let t = (contains_iff known d).1 m in cc))
  ]),
  (λ (x, m, n). elim (Bool-cases (contains known d)) [
    | inr f ↦ rw f refl
    | inl t ↦ rw t (
        (missing known ds).1
          (x, elim m [ inl e ↦ absurd (n (rw e ((contains_iff known d).0 t))) | inr k ↦ k ], n))
  ]),
)

some_missing :
    (known : List String) (stages : Stages)
    → (all (λ e. all (contains known) (deps e.1)) stages ≡ false) ↔ (
        (name : String) × (stage : StageDefinition) × (d : String) × Elem (name, stage) stages
        × Elem d (deps stage)
        × ¬ Elem d known)
some_missing known [] = ((λ h. cc), (λ (name, stage, d, m, _, _). elim m [ ]))
some_missing known ((k, c) ∷ stages) = (
  (λ h. elim (Bool-cases (all (contains known) (deps c))) [
    | inr f ↦ let (d, m, n) = (missing known (deps c)).0 f in (k, c, d, inl refl, m, n)
    | inl t ↦
        let (name, stage, d, m, l, n) = (some_missing known stages).0 (rw t at h) in
        (name, stage, d, inr m, l, n)
  ]),
  (λ (name, stage, d, m, l, n). elim (Bool-cases (all (contains known) (deps c))) [
    | inr f ↦ rw f refl
    | inl t ↦ rw t (elim m [
      | inl e ↦
          let same : stage ≡ c = ap (λ x. x.1) e in
          let f = (missing known (deps c)).1 (d, rw same at l, n) in absurd (cc)
      | inr k' ↦ (some_missing known stages).1 (name, stage, d, k', l, n)
    ])
  ]),
)

-- An unknown dependency is reported exactly when some stage depends on a name that is no stage.
pub resolve_execution_order-not_found_iff :
    (stages : Stages)
    → (resolve_execution_order stages ≡ some (err (record { code = not_found })))
      ↔ HasUnknown stages
unfolding resolve_execution_order deps_known
resolve_execution_order-not_found_iff stages =
    let unknown = some_missing (names stages) stages in
    let not_code = rounds_code stages (length (names stages)) [] (names stages) [] in
    (
      (λ h. unknown.0 (ground (arith, h, not_code))),
      (λ u. let f = unknown.1 u in ground (arith, f)),
    )
