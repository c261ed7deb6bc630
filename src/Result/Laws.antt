-- ===== src/Result/Laws.antt =====
-- `collect` against the list it is given.
use open_thinking.Base
use open_thinking.Base.{◌≡◌, refl, ap, ◌⊎◌, inl, inr, List, [], ◌∷◌, ◌++◌}
use open_thinking.Result.{Result, ok, err, collect}

module _ {T E : Type 0} where
  -- All results are successes and the outcome is their values in order, or one is a failure with
  -- only successes before it, and it is the outcome.
  abbrev pub Collects : List (Result T E) → Result (List T) E → Type 0
  Collects rs outcome =
      ((values : List T) × (rs ≡ Base.map ok values) × (outcome ≡ ok values))
      ⊎ ((values : List T) × (error : E) × (rest : List (Result T E)) × (rs
            ≡ Base.map ok values ++ err error ∷ rest)
          × (outcome ≡ err error))

  -- `collect` gives the values of a list of successes in order, and otherwise the failure that comes
  -- first.
  collect-Collects : (rs : List (Result T E)) → Collects rs (collect rs)
  unfolding collect
  collect-Collects [] = inl ([], refl, refl)
  collect-Collects (err e ∷ rs) = inr ([], e, rs, refl, refl)
  collect-Collects (ok v ∷ rs) = elim (collect-Collects rs) [
    | inl (vs, p, q) ↦ inl (v ∷ vs, ap (◌∷◌ (ok v)) p, rw q)
    | inr (vs, e, rest, p, q) ↦ inr (v ∷ vs, e, rest, ap (◌∷◌ (ok v)) p, rw q)
  ]
