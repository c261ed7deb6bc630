-- ===== src/Pipeline/Order/Layers.antt =====
-- The loop always ends; the layers hold every stage once, each behind its dependencies.
use mathlib.Core.List.Perm
use mathlib.Core.List.{Perm, append_assoc, append-nil}
use open_thinking.Base.{
  ℕ, zero, suc, String, ◌≤◌, ◌<◌, ◌≡◌, refl, sym, ap, ◌∙◌, ◌≢◌, inl, inr, Bool, true, false, not,
  none, some, List, [], ◌∷◌, ◌++◌, arith, all, keep, is_empty, length, All, Elem, flatten,
  flatten-snoc, keep-append-perm, length-keep-add, keep_ext, All-of-Elem, mem-keep, all_iff,
  Bool-cases, Option-cases,
}
use open_thinking.Base.Texts.{contains, contains_iff}
use open_thinking.Result.{ok}
use open_thinking.Types.{StageDefinition}
use open_thinking.Pipeline.Order.{
  Stages, names, deps, find, is_ready, without, rounds, resolve_execution_order,
}

-- A stage of the pipeline all of whose dependencies are in `done`.
pub record IsBehind (stages : Stages) (done : List String) (name : String) : Type 0 where
  pub stage : StageDefinition
  pub found : find stages name ≡ some stage
  pub behind : All (λ d. Elem d done) (deps stage)

-- The stages of every layer stand behind the layers before it.
abbrev pub IsLayered : Stages → List String → List (List String) → Type 0
IsLayered stages done [] = Unit {0}
IsLayered stages done (layer ∷ layers) =
    All (IsBehind stages done) layer × IsLayered stages (done ++ layer) layers

module _ (stages : Stages) where
  all-contains : (done ds : List String) → all (contains done) ds ≡ true → All (λ d. Elem d done) ds
  all-contains done [] h = tt
  all-contains done (d ∷ ds) h =
      let (a, b) = (all_iff (contains done) (d ∷ ds)).0 h in
      ((contains_iff done d).0 a, all-contains done ds ((all_iff (contains done) ds).1 b))

  pub is_ready-IsBehind :
      (done : List String) (name : String)
      → is_ready stages done name ≡ true
      → IsBehind stages done name
  unfolding is_ready
  is_ready-IsBehind done name h = elim (Option-cases (find stages name)) [
    | inl missing ↦ absurd (ground arith)
    | inr (d, found) ↦ record {
      stage = d;
      found = found;
      behind = all-contains done (deps d) (ground arith);
    }
  ]

  -- What is deleted from `remaining` is what was ready in it.
  pub without_layer :
      (p : String → Bool) (remaining : List String)
      → without (keep p remaining) remaining ≡ keep (λ n. not (p n)) remaining
  unfolding without
  without_layer p remaining =
      keep_ext (λ n. not (contains (keep p remaining) n)) (λ n. not (p n)) remaining
        (λ n m. ap not (same n m))
    where
      same : (n : String) → Elem n remaining → contains (keep p remaining) n ≡ p n
      same n m = elim (Bool-cases (p n)) [
        | inl t ↦ (contains_iff _ n).1 ((mem-keep p n remaining).1 (m, t)) ∙ sym t
        | inr f ↦ elim (Bool-cases (contains (keep p remaining) n)) [
          | inl c ↦ let (_, t) = (mem-keep p n remaining).0 ((contains_iff _ n).0 c) in absurd (cc)
          | inr c ↦ c ∙ sym f
        ]
      ]

  -- The loop's invariant: the layers so far are layered, `resolved` is what they hold, and with
  -- what remains they hold every stage once.
  record Invariant (resolved remaining : List String) (layers : List (List String)) : Type 0 where
    held : resolved ≡ flatten layers
    perm : Perm (flatten layers ++ remaining) (names stages)
    layered : IsLayered stages [] layers

  IsLayered-snoc :
      (done : List String) (layers : List (List String)) (layer : List String)
      → IsLayered stages done layers
      → All (IsBehind stages (done ++ flatten layers)) layer
      → IsLayered stages done (layers ++ layer ∷ [])
  IsLayered-snoc done [] layer h a = (rw (append-nil done) at a, tt)
  IsLayered-snoc done (l ∷ ls) layer (b, h) a =
      (b, IsLayered-snoc (done ++ l) ls layer h (rw append_assoc a))

  module _ (resolved remaining : List String) where
    abbrev pub layer_of : List String
    layer_of = keep (is_ready stages resolved) remaining

    next-Invariant :
        (layers : List (List String))
        → Invariant resolved remaining layers
        → Invariant (resolved ++ layer_of) (without layer_of remaining) (layers ++ layer_of ∷ [])
    next-Invariant layers v = record {
      held = ap (λ l. l ++ layer_of) v.held ∙ sym (flatten-snoc layers layer_of);
      perm =
          rw (flatten-snoc layers layer_of, without_layer (is_ready stages resolved) remaining)
            (rw append_assoc (
              Perm.trans
                (Perm.append_left (flatten layers)
                  (keep-append-perm (is_ready stages resolved) remaining))
                v.perm));
      layered = IsLayered-snoc [] layers layer_of v.layered (
          rw (sym v.held) (
            All-of-Elem (IsBehind stages resolved) layer_of
              (λ n m. is_ready-IsBehind resolved n ((mem-keep _ n remaining).0 m).1)));
    }

    pub length-without-lt :
        is_empty layer_of ≡ false → length (without layer_of remaining) < length remaining
    length-without-lt h =
        rw (without_layer (is_ready stages resolved) remaining)
          (ground (arith, length-keep-add (is_ready stages resolved) remaining))

  rounds_sound :
      (fuel : ℕ) (resolved remaining : List String) (layers out : List (List String))
      → Invariant resolved remaining layers
      → rounds fuel stages resolved remaining layers ≡ some (ok out)
      → Perm (flatten out) (names stages) × IsLayered stages [] out
  unfolding rounds
  rounds_sound fuel resolved [] layers out v h =
      let e : layers ≡ out = cc in rw (← e) (rw (append-nil _) at v.perm, v.layered)
  rounds_sound zero resolved (n ∷ ns) layers out v h = cc
  rounds_sound (suc fuel) resolved (n ∷ ns) layers out v h =
      elim (Bool-cases (is_empty (layer_of resolved (n ∷ ns)))) [
        | inl stuck ↦ absurd (ground arith)
        | inr more ↦
            rounds_sound fuel _ _ _ out (next-Invariant resolved (n ∷ ns) layers v) (ground arith)
      ]

  pub rounds_total :
      (fuel : ℕ) (resolved remaining : List String) (layers : List (List String))
      → length remaining ≤ fuel
      → rounds fuel stages resolved remaining layers ≢ none
  unfolding rounds
  rounds_total fuel resolved [] layers h = ground arith
  rounds_total zero resolved (n ∷ ns) layers h = absurd (omega arith)
  rounds_total (suc fuel) resolved (n ∷ ns) layers h =
      elim (Bool-cases (is_empty (layer_of resolved (n ∷ ns)))) [
        | inl stuck ↦ ground arith
        | inr more ↦ rw more (
            rounds_total fuel _ _ _
              (let q = length-without-lt resolved (n ∷ ns) more in omega arith))
      ]

-- When the order is resolved, its layers hold every stage name exactly once, and each stage's
-- dependencies stand in the layers before its own.
pub resolve_execution_order-IsLayered :
    (stages : Stages) (layers : List (List String))
    → resolve_execution_order stages ≡ some (ok layers)
    → Perm (flatten layers) (names stages) × IsLayered stages [] layers
unfolding resolve_execution_order
resolve_execution_order-IsLayered stages layers h =
    rounds_sound stages (length (names stages)) [] (names stages) [] layers
      (record { held = refl; perm = Perm.rfl; layered = tt }) (ground arith)

-- The loop never runs out of its fuel, the number of stages.
pub resolve_execution_order-ne-none : (stages : Stages) → resolve_execution_order stages ≢ none
unfolding resolve_execution_order
resolve_execution_order-ne-none stages =
    ground (arith, rounds_total stages (length (names stages)) [] (names stages) [] (omega arith))
