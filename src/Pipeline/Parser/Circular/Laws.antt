-- ===== src/Pipeline/Parser/Circular/Laws.antt =====
-- The search ends, and tells whether a stage depends on itself.
use mathlib.Core.WellFounded.{Acc}
use open_thinking.Base.{
  ℕ, zero, suc, String, ◌<◌, ◌≡◌, ◌≢◌, refl, ap, ◌∙◌, ◌⊎◌, inl, inr, false, not, Option, none, some,
  List, [], ◌∷◌, arith, ◌==◌, eq_refl, length, All, Elem, keep, length-keep-add, length-keep-lt,
  Bool-cases, Option-cases, Elem-of-All,
}
use open_thinking.Base.Texts.{contains, contains_iff, eq_comm}
use open_thinking.Pipeline.Parser.Circular.{
  Marks, Visit, clean, cyclic, broken, delete, visit_all, leave, visit, detect_circular_deps,
}

module _ (deps : String → Option (List String)) where
  -- The first stage depends on the second.
  abbrev pub DependsOn : String → String → Type 0
  DependsOn a b = (ds : List String) × (deps a ≡ some ds) × Elem b ds

  -- It does so directly or through others.
  pub data Reaches : String → String → Type 0 where
    direct : {a b : String} → DependsOn a b → Reaches a b
    via : {a b c : String} → Reaches a b → DependsOn b c → Reaches a c

  -- Each name stands before names that contain all that it depends on.
  abbrev Finished : List String → Type 0
  Finished [] = Unit
  Finished (n ∷ names) =
      ((ds : List String) × (deps n ≡ some ds) × All (λ d. Elem d names) ds) × Finished names

  abbrev pub Below : String → String → Type 0
  Below b a = DependsOn a b

  same_deps : (a : String) (ds es : List String) → deps a ≡ some ds → deps a ≡ some es → ds ≡ es
  same_deps a ds es h k = cc

  Finished-Acc : (names : List String) → Finished names → (x : String) → Elem x names → Acc Below x
  Finished-Acc [] f x m = elim m [ ]
  Finished-Acc (n ∷ names) (h, f) x (inr m) = Finished-Acc names f x m
  Finished-Acc (n ∷ names) ((ds, e, all), f) x (inl s) = Acc.intro x (λ y (es, k, m).
      let same = same_deps n es ds (rw s at k) e in
      Finished-Acc names f y (Elem-of-All (λ d. Elem d names) ds all (rw same at m)))

  -- What a stage that reaches another depends on first.
  first : {a c : String} → Reaches a c → (b : String) × DependsOn a b × ((b ≡ c) ⊎ Reaches b c)
  first {a} {c} (direct e) = (c, e, inl refl)
  first {a} {c} (via {b = b} r e) =
      let (x, d, rest) = first r in
      (x, d, inr (elim rest [ inl s ↦ direct (rw s e) | inr q ↦ via q e ]))

  no_cycle : {x : String} → Acc Below x → ¬ Reaches x x
  no_cycle {x} (Acc.intro _ h) r =
      let (y, d, rest) = first r in
      no_cycle (h y d) (elim rest [ inl s ↦ rw s r | inr q ↦ via q d ])

  -- The search of the names that are not being visited.
  module _ (names : List String) where
    abbrev left : List String → ℕ
    left stack = length (keep (λ n. not (contains stack n)) names)

    -- A clean search leaves the stack as it was, and what it visited is finished.
    abbrev IsClean : List String → Marks → Marks → Type 0
    IsClean stack m m' =
        (m'.visiting ≡ stack)
        × Finished m'.visited
        × ((x : String) → Elem x m.visited → Elem x m'.visited)

    -- The ends of a search that must have visited some names.
    abbrev Ends : List String → Marks → List String → Option Visit → Type 0
    Ends stack m ds none = ⊥
    Ends stack m ds (some (clean m')) = IsClean stack m m' × All (λ d. Elem d m'.visited) ds
    Ends stack m ds (some cyclic) = (x : String) × Reaches x x
    Ends stack m ds (some broken) = (x : String) × (deps x ≡ none)

    -- What the search is given.
    record IsReady (stack : List String) (m : Marks) : Type 0 where
      pub same : m.visiting ≡ stack
      pub finished : Finished m.visited

    -- After a clean visit of the first name, what the rest of the loop ends in.
    carry :
        (stack : List String) (m n : Marks) (d : String) (ds : List String) (o : Option Visit)
        → IsClean stack m n
        → Elem d n.visited
        → Ends stack n ds o
        → Ends stack m (d ∷ ds) o
    carry stack m n d ds none c i e = e
    carry stack m n d ds (some cyclic) c i e = e
    carry stack m n d ds (some broken) c i e = e
    carry stack m n d ds (some (clean k)) (_, _, grow) i ((same, f, more), all) =
        ((same, f, (λ x j. more x (grow x j))), (more d i, all))

    abbrev Step : List String → List String → (String → Marks → Option Visit) → Type 0
    Step stack ds v =
        (d : String) (n : Marks) → Elem d ds → IsReady stack n → Ends stack n (d ∷ []) (v d n)

    visit_all-Ends :
        (v : String → Marks → Option Visit) (stack : List String) (ds : List String) (m : Marks)
        → Step stack ds v
        → IsReady stack m
        → Ends stack m ds (visit_all v ds m)
    unfolding visit_all
    visit_all-Ends v stack [] m step r = ((r.same, r.finished, (λ x i. i)), tt)
    visit_all-Ends v stack (d ∷ ds) m step r =
        next (step d m (inl refl) r)
          (λ n ready. visit_all-Ends v stack ds n (λ x k j. step x k (inr j)) ready) (v d m) refl
      where
        next :
            Ends stack m (d ∷ []) (v d m)
            → ((n : Marks) → IsReady stack n → Ends stack n ds (visit_all v ds n))
            → (o : Option Visit) → v d m ≡ o
            → Ends stack m (d ∷ ds) (visit_all v (d ∷ ds) m)
        next one rest none e = absurd (rw e at one)
        next one rest (some cyclic) e = rw (visit_all, e) (rw e at one)
        next one rest (some broken) e = rw (visit_all, e) (rw e at one)
        next one rest (some (clean n)) e =
            let ((same, f, grow), (i, _)) = rw e at one in
            rw (visit_all, e)
              (carry stack m n d ds (visit_all v ds n) (same, f, grow) i
                (rest n (record { same = same; finished = f })))

    delete-head :
        (name : String) (stack : List String)
        → contains stack name ≡ false
        → delete name (name ∷ stack) ≡ stack
    unfolding delete contains
    delete-head name stack h = rw (eq_refl name) (absent stack h)
      where
        absent : (xs : List String) → contains xs name ≡ false → delete name xs ≡ xs
        absent [] k = refl
        absent (x ∷ xs) k = elim (Bool-cases (x == name)) [
          | inl e ↦ absurd (let t = eq_comm name x ∙ e in ground (arith, k, t))
          | inr e ↦ rw (e, absent xs (ground (arith, k))) refl
        ]

    left-lt :
        (stack : List String) (name : String)
        → Elem name names
        → contains stack name ≡ false
        → left (name ∷ stack) < left stack
    unfolding contains
    left-lt stack name i new =
        length-keep-lt (λ n. not (contains stack n)) (λ n. not (contains (name ∷ stack) n)) names
          (λ x h. ground (arith, h)) name i (rw new refl) (rw (eq_refl name) refl)

    -- The name was not marked, and the loop over its dependencies is over.
    leave-Ends :
        (stack : List String) (m : Marks) (name : String) (ds : List String) (o : Option Visit)
        → contains stack name ≡ false
        → deps name ≡ some ds
        → Ends (name ∷ stack) (record { visited = m.visited; visiting = name ∷ m.visiting }) ds o
        → Ends stack m (name ∷ []) (leave name o)
    unfolding leave
    leave-Ends stack m name ds none new h e = e
    leave-Ends stack m name ds (some cyclic) new h e = e
    leave-Ends stack m name ds (some broken) new h e = e
    leave-Ends stack m name ds (some (clean n)) new h ((same, f, grow), all) = (
      (
        ap (delete name) same ∙ delete-head name stack new,
        ((ds, h, all), f),
        (λ x i. inr (grow x i)),
      ),
      (inl refl, tt),
    )

    module _ (known : (a b : String) → DependsOn a b → Elem a names) where
      visit-Ends :
          (fuel : ℕ) (stack : List String) (name : String) (m : Marks)
          → left stack < fuel
          → ((x : String) → Elem x stack → Reaches x name)
          → IsReady stack m
          → Ends stack m (name ∷ []) (visit deps fuel name m)
      unfolding visit
      visit-Ends zero stack name m h path r = absurd (omega arith)
      visit-Ends (suc fuel) stack name m h path r = elim (Bool-cases (contains m.visiting name)) [
        | inl here ↦
            rw (visit, here)
              (name, path name (rw r.same at ((contains_iff m.visiting name).0 here)))
        | inr new ↦ elim (Bool-cases (contains m.visited name)) [
          | inl old ↦
              rw (visit, new, old)
                ((r.same, r.finished, (λ x i. i)), ((contains_iff m.visited name).0 old, tt))
          | inr fresh ↦ elim (Option-cases (deps name)) [
            | inl e ↦ rw (visit, new, fresh, e) (name, e)
            | inr (ds, e) ↦
                let new' : contains stack name ≡ false = rw r.same at new in
                rw (visit, new, fresh, e)
                  (leave-Ends stack m name ds _ new' e (
                    visit_all-Ends (visit deps fuel) (name ∷ stack) ds
                      (record { visited = m.visited; visiting = name ∷ m.visiting })
                      (λ d n i ready.
                        visit-Ends fuel (name ∷ stack) d n
                          (let t = left-lt stack name (known name d (ds, e, i)) new' in omega arith)
                          (λ x j. elim j [
                            | inl s ↦ direct (ds, rw s e, i)
                            | inr k ↦ via (path x k) (ds, e, i)
                          ])
                          ready)
                      (record { same = ap (λ s. name ∷ s) r.same; finished = r.finished })))
          ]
        ]
      ]

module _ (deps : String → Option (List String)) (names : List String) where
  -- The three ends of the search, each with what it says of the dependencies.
  abbrev pub Decides : Option Visit → Type 0
  Decides o =
      ((marks : Marks) × (o ≡ some (clean marks))
        × ((x : String) → ¬ Reaches deps x x)
        × ((x : String) → Elem x names → deps x ≢ none))
      ⊎ ((o ≡ some cyclic) × (x : String) × Reaches deps x x)
      ⊎ ((o ≡ some broken) × (x : String) × (deps x ≡ none))

  Ends-Decides :
      ((a b : String) → DependsOn deps a b → Elem a names)
      → (o : Option Visit) → Ends deps names [] (record { visited = []; visiting = [] }) names o
      → Decides o
  Ends-Decides known none e = absurd e
  Ends-Decides known (some cyclic) e = (let (x, r) = e in inr (inl (refl, x, r)))
  Ends-Decides known (some broken) e = (let (x, r) = e in inr (inr (refl, x, r)))
  Ends-Decides known (some (clean n)) ((_, f, _), all) =
      let seen : (x : String) → Elem x names → Elem x n.visited =
        λ x m. Elem-of-All (λ d. Elem d n.visited) names all m in
      inl (
        n,
        refl,
        (λ x r.
            let (y, d, rest) = first deps r in
            no_cycle deps (Finished-Acc deps n.visited f x (seen x (known x y d))) r),
        (λ x m e. listed n.visited f x (seen x m) e),
      )
    where
      listed : (vs : List String) → Finished deps vs → (x : String) → Elem x vs → deps x ≢ none
      listed [] f x m = elim m [ ]
      listed (v ∷ vs) (_, f) x (inr m) = listed vs f x m
      listed (v ∷ vs) ((ds, e, _), f) x (inl s) = λ k. let k' = rw s at k in ground (arith, e, k')

search-Ends :
    (deps : String → Option (List String)) (names : List String)
    → ((a b : String) → DependsOn deps a b → Elem a names)
    → Ends deps names []
        (record { visited = []; visiting = [] })
        names
        (detect_circular_deps deps names)
unfolding detect_circular_deps
search-Ends deps names known =
    visit_all-Ends deps names (visit deps (suc (length names))) [] names
      (record { visited = []; visiting = [] })
      (λ d n i ready.
        visit-Ends deps names known (suc (length names)) [] d n
          (let t = length-keep-add (λ y. not (contains [] y)) names in omega arith)
          (λ x j. elim j [ ]) ready)
      (record { same = refl; finished = tt })

-- When the search ends without an error, the dependencies of a stage can be followed down to the end.
pub detect_circular_deps-Acc :
    (deps : String → Option (List String)) (names : List String)
    → ((a b : String) → DependsOn deps a b → Elem a names)
    → (marks : Marks) → detect_circular_deps deps names ≡ some (clean marks)
    → (x : String) → Elem x names
    → Acc (Below deps) x
detect_circular_deps-Acc deps names known marks h x m =
    let ((_, f, _), all) = rw h at (search-Ends deps names known) in
    Finished-Acc deps marks.visited f x (Elem-of-All (λ d. Elem d marks.visited) names all m)

-- The search ends. It ends without an error when no stage depends on itself, directly or through
-- others; with the error when one does; and it throws only when the dependencies of a name cannot be
-- listed. It is assumed that only listed stages have dependencies.
pub detect_circular_deps-Decides :
    (deps : String → Option (List String)) (names : List String)
    → ((a b : String) → DependsOn deps a b → Elem a names)
    → Decides deps names (detect_circular_deps deps names)
detect_circular_deps-Decides deps names known =
    Ends-Decides deps names known _ (search-Ends deps names known)
