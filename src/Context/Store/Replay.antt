-- ===== src/Context/Store/Replay.antt =====
-- Entries that are read from rows, and entries that are written one after the other.
use open_thinking.Base.{
  String, ◌≡◌, refl, sym, ap, ◌∙◌, ◌⊎◌, inl, inr, true, Option, none, some, List, [], ◌∷◌, arith,
  Bool-cases, Option-cases, ◌==◌, if◌then◌else◌, map, Elem,
}
use open_thinking.Context.Store.{SavedEntry, all_some}
use open_thinking.Context.Store.View.{Held}

all_some-cons :
    {B : Type 0} (o : Option B) (os : List (Option B)) (ys : List B)
    → all_some (o ∷ os) ≡ some ys
    → (y : B) × (zs : List B) × (o ≡ some y) × (all_some os ≡ some zs) × (ys ≡ y ∷ zs)
unfolding all_some
all_some-cons none os ys h = absurd (ground arith)
all_some-cons (some x) os ys h = elim (Option-cases (all_some os)) [
  | inl e ↦ absurd (ground (arith, h, e))
  | inr (zs, e) ↦ (x, zs, refl, e, ground (arith, h, e))
]

module _ {A B : Type 0} (f : A → Option B) where
  pub all_some-from :
      (xs : List A) (ys : List B) (y : B)
      → all_some (map f xs) ≡ some ys
      → Elem y ys
      → (x : A) × Elem x xs × (f x ≡ some y)
  unfolding all_some
  all_some-from [] [] y h m = elim m [ ]
  all_some-from [] (z ∷ ys) y h m = absurd (ground (arith, h))
  all_some-from (x ∷ xs) ys y h m =
      let (z, zs, e, rest, split) = all_some-cons (f x) (map f xs) ys h in
      elim (rw split at m) [
        | inl here ↦ (x, inl refl, e ∙ ap some (sym here))
        | inr there ↦ let (x', n, g) = all_some-from xs zs y rest there in (x', inr n, g)
      ]

  pub all_some-to :
      (xs : List A) (ys : List B) (x : A)
      → all_some (map f xs) ≡ some ys
      → Elem x xs
      → (y : B) × Elem y ys × (f x ≡ some y)
  all_some-to [] ys x h m = elim m [ ]
  all_some-to (x' ∷ xs) ys x h m =
      let (z, zs, e, rest, split) = all_some-cons (f x') (map f xs) ys h in
      elim m [
        | inl here ↦ (z, rw split (inl refl), ap f here ∙ e)
        | inr there ↦ let (y, n, g) = all_some-to xs zs x rest there in (y, rw split (inr n), g)
      ]

-- What upserting entries one after the other makes of what a key held.
abbrev pub replay : String → List SavedEntry → Option Held → Option Held
replay k [] base = base
replay k (e ∷ entries) base =
    replay k entries (if e.key == k then some (e.value, e.created_by) else base)

pub replay-eq :
    (k : String) (entries : List SavedEntry) (base v : Option Held)
    → ((e : SavedEntry) → Elem e entries → (e.key == k) ≡ true → some (e.value, e.created_by) ≡ v)
    → (base ≡ v) ⊎ ((e : SavedEntry) × Elem e entries × ((e.key == k) ≡ true))
    → replay k entries base ≡ v
replay-eq k [] base v h (inl e) = e
replay-eq k [] base v h (inr (e, m, s)) = elim m [ ]
replay-eq k (e ∷ entries) base v h start = elim (Bool-cases (e.key == k)) [
  | inl s ↦ rw s (replay-eq k entries _ v (λ x m. h x (inr m)) (inl (h e (inl refl) s)))
  | inr n ↦ rw n (
      replay-eq k entries base v (λ x m. h x (inr m))
        (elim start [
          | inl b ↦ inl b
          | inr (x, inl here, t) ↦ absurd (ground (arith, here, t, n))
          | inr (x, inr there, t) ↦ inr (x, there, t)
        ]))
]
