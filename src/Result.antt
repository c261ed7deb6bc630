-- ===== src/Result.antt =====
-- src/shared/result.ts: the result type that every component returns, and its combinators.
pub mod Laws
use open_thinking.Base.{◌≡◌, refl, ◌⊎◌, inl, inr, List, [], ◌∷◌}

pub data Result {ℓ κ} (A : Type ℓ) (E : Type κ) : Type (ℓ ⊔ κ) where
  ok : A → Result A E
  err : E → Result A E

pub Result-cases {ℓ κ} :
    {A : Type ℓ} {E : Type κ} (r : Result A E) → ((a : A) × (r ≡ ok a)) ⊎ ((e : E) × (r ≡ err e))
Result-cases (ok a) = inl (a, refl)
Result-cases (err e) = inr (e, refl)

-- The value of a `Result<void>`.
abbrev pub Void : Type 0
Void = Unit {0}

module _ {ℓ κ} {E : Type κ} {T U : Type ℓ} where
  unfoldable pub map : Result T E → (T → U) → Result U E
  map (ok value) fn = ok (fn value)
  map (err error) fn = err error

  unfoldable pub flat_map : Result T E → (T → Result U E) → Result U E
  flat_map (ok value) fn = fn value
  flat_map (err error) fn = err error

module _ {ℓ κ} {E : Type κ} {T : Type ℓ} where
  unfoldable pub unwrap_or : Result T E → T → T
  unwrap_or (ok value) default = value
  unwrap_or (err error) default = default

  -- The loop of `collect`: the first failure is the result, else the values in order.
  unfoldable pub collect : List (Result T E) → Result (List T) E
  collect [] = ok []
  collect (err error ∷ results) = err error
  collect (ok value ∷ results) = elim (collect results) [
    | ok values ↦ ok (value ∷ values)
    | err error ↦ err error
  ]
