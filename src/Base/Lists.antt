-- ===== src/Base/Lists.antt =====
-- Lists measured by native numbers, Boolean quantifiers that run, and predicates by recursion.
use Prim.Native.Nat.{ℕ, zero, suc, ◌+◌, ◌≤◌, ◌<◌}
use mathlib.Core.Path.{◌≡◌, refl, sym, ap, ◌∙◌}
use mathlib.Core.Logic.{◌⊎◌, ◌↔◌, inl, inr}
use mathlib.Core.Bool.{Bool, true, false, ◌&&◌, ◌||◌, not}
use mathlib.Core.List.Perm
use mathlib.Core.List.{List, [], ◌∷◌, ◌++◌, Perm, perm_middle, append-nil, append_assoc}
use native.Mathlib.Omega.{arith}
use open_thinking.Base.Tests.{and-eq-true}

module _ {ℓ} {A : Type ℓ} where
  abbrev pub length : List A → ℕ
  length [] = 0
  length (x ∷ xs) = suc (length xs)

  pub length-append : (xs ys : List A) → length (xs ++ ys) ≡ length xs + length ys
  length-append [] ys = omega arith
  length-append (x ∷ xs) ys = omega (arith, length-append xs ys)

  abbrev pub all : (A → Bool) → List A → Bool
  all p [] = true
  all p (x ∷ xs) = p x && all p xs

  abbrev pub any : (A → Bool) → List A → Bool
  any p [] = false
  any p (x ∷ xs) = p x || any p xs

  abbrev pub is_empty : List A → Bool
  is_empty [] = true
  is_empty (x ∷ xs) = false

  -- `xs.filter(p)`
  abbrev pub keep : (A → Bool) → List A → List A
  keep p [] = []
  keep p (x ∷ xs) = elim (p x) [ true ↦ x ∷ keep p xs | false ↦ keep p xs ]

module _ {ℓ κ} {A : Type ℓ} (P : A → Type κ) where
  abbrev pub All : List A → Type κ
  All [] = Unit
  All (x ∷ xs) = P x × All xs

module _ {ℓ} {A : Type ℓ} (P : A → Type 0) where
  abbrev pub Any : List A → Type 0
  Any [] = ⊥
  Any (x ∷ xs) = P x ⊎ Any xs

module _ {ℓ κ} {A : Type ℓ} (P : A → Type κ) where
  pub All-append : (xs ys : List A) → All P xs → All P ys → All P (xs ++ ys)
  All-append [] ys hx hy = hy
  All-append (x ∷ xs) ys (p, hx) hy = (p, All-append xs ys hx hy)

module _ {ℓ} {A : Type ℓ} (p : A → Bool) where
  pub keep_cases :
      (x : A) (xs : List A)
      → ((p x ≡ true) × (keep p (x ∷ xs) ≡ x ∷ keep p xs))
        ⊎ ((p x ≡ false) × (keep p (x ∷ xs) ≡ keep p xs))
  keep_cases x xs = ground arith

-- Membership, as a position that can be matched.
abbrev pub Elem : {A : Type 0} → A → List A → Type 0
Elem x xs = Any (λ y. x ≡ y) xs

pub mem-keep :
    {A : Type 0} (p : A → Bool) (x : A) (xs : List A)
    → Elem x (keep p xs) ↔ (Elem x xs × (p x ≡ true))
mem-keep p x [] = ((λ h. elim h [ ]), (λ (h, _). elim h [ ]))
mem-keep p x (y ∷ ys) = elim (keep_cases p y ys) [
  | inl (t, e) ↦ rw e (
    (λ h. elim h [
      | inl s ↦ (inl s, ap p s ∙ t)
      | inr m ↦ let (a, b) = (mem-keep p x ys).0 m in (inr a, b)
    ]),
    (λ (h, q). elim h [ inl s ↦ inl s | inr m ↦ inr ((mem-keep p x ys).1 (m, q)) ]),
  )
  | inr (f, e) ↦ rw e (
    (λ m. let (a, b) = (mem-keep p x ys).0 m in (inr a, b)),
    (λ (h, q). elim h [ inl s ↦ cc | inr m ↦ (mem-keep p x ys).1 (m, q) ]),
  )
]

module _ {ℓ} {A : Type ℓ} where
  abbrev pub flatten : List (List A) → List A
  flatten [] = []
  flatten (xs ∷ xss) = xs ++ flatten xss

  pub flatten-snoc :
      (xss : List (List A)) (xs : List A) → flatten (xss ++ xs ∷ []) ≡ flatten xss ++ xs
  flatten-snoc [] xs = append-nil xs
  flatten-snoc (ys ∷ xss) xs = rw (flatten-snoc xss xs) (sym (append_assoc ys (flatten xss) xs))

  -- What is kept and what is not are together the list.
  pub keep-append-perm :
      (p : A → Bool) (xs : List A) → Perm (keep p xs ++ keep (λ x. not (p x)) xs) xs
  keep-append-perm p [] = Perm.rfl
  keep-append-perm p (x ∷ xs) =
      let kept = Perm.cons x (keep-append-perm p xs) in
      ground (arith, Perm.trans (perm_middle (keep p xs) _) kept)

  pub length-keep-add :
      (p : A → Bool) (xs : List A)
      → length (keep p xs) + length (keep (λ x. not (p x)) xs) ≡ length xs
  length-keep-add p [] = omega arith
  length-keep-add p (x ∷ xs) = ground (arith, length-keep-add p xs)

-- A filter looks only at the tests of the members.
pub keep_ext :
    {A : Type 0} (p q : A → Bool) (xs : List A)
    → ((x : A) → Elem x xs → p x ≡ q x)
    → keep p xs ≡ keep q xs
keep_ext p q [] h = refl
keep_ext p q (x ∷ xs) h = ground (arith, h x (inl refl), keep_ext p q xs (λ y m. h y (inr m)))

pub All-of-Elem :
    {A : Type 0} (P : A → Type 0) (xs : List A) → ((x : A) → Elem x xs → P x) → All P xs
All-of-Elem P [] h = tt
All-of-Elem P (x ∷ xs) h = (h x (inl refl), All-of-Elem P xs (λ y m. h y (inr m)))

pub Elem-of-All : {A : Type 0} (P : A → Type 0) {x : A} (xs : List A) → All P xs → Elem x xs → P x
Elem-of-All P [] h m = elim m [ ]
Elem-of-All P (y ∷ ys) (p, h) (inl e) = rw e p
Elem-of-All P (y ∷ ys) (p, h) (inr m) = Elem-of-All P ys h m

pub Elem-append_left : {A : Type 0} (x : A) (xs ys : List A) → Elem x xs → Elem x (xs ++ ys)
Elem-append_left x [] ys m = elim m [ ]
Elem-append_left x (z ∷ xs) ys (inl e) = inl e
Elem-append_left x (z ∷ xs) ys (inr m) = inr (Elem-append_left x xs ys m)

pub Elem-append_right : {A : Type 0} (x : A) (xs ys : List A) → Elem x ys → Elem x (xs ++ ys)
Elem-append_right x [] ys m = m
Elem-append_right x (z ∷ xs) ys m = inr (Elem-append_right x xs ys m)

pub Elem-append_cases :
    {A : Type 0} (x : A) (xs ys : List A) → Elem x (xs ++ ys) → Elem x xs ⊎ Elem x ys
Elem-append_cases x [] ys m = inr m
Elem-append_cases x (z ∷ xs) ys (inl e) = inl (inl e)
Elem-append_cases x (z ∷ xs) ys (inr m) = elim (Elem-append_cases x xs ys m) [
  | inl a ↦ inl (inr a)
  | inr b ↦ inr b
]

pub all_iff :
    {A : Type 0} (p : A → Bool) (xs : List A) → (all p xs ≡ true) ↔ All (λ x. p x ≡ true) xs
all_iff p [] = ((λ h. tt), (λ h. refl))
all_iff p (x ∷ xs) = (
  (λ h. let (a, b) = (and-eq-true _ _).0 h in (a, (all_iff p xs).0 b)),
  (λ (a, b). (and-eq-true _ _).1 (a, (all_iff p xs).1 b)),
)

module _ {ℓ} {A : Type ℓ} where
  abbrev pub take : (count : ℕ) → List A → List A
  take zero _ = []
  take (suc count) [] = []
  take (suc count) (y ∷ ys) = y ∷ take count ys

  abbrev pub drop : ℕ → List A → List A
  drop zero xs = xs
  drop (suc n) [] = []
  drop (suc n) (x ∷ xs) = drop n xs

  -- Nothing is cut off a list that is short enough.
  pub take_of_length-le : (most : ℕ) (xs : List A) → length xs ≤ most → take most xs ≡ xs
  take_of_length-le zero [] short = refl
  take_of_length-le zero (y ∷ ys) short = absurd (omega (arith, short))
  take_of_length-le (suc most) [] short = refl
  take_of_length-le (suc most) (y ∷ ys) short =
      rw (take_of_length-le most ys (omega (arith, short))) refl

-- A filter that lets less through keeps less, and strictly less when a member is the difference.
pub length-keep-le :
    {A : Type 0} (p q : A → Bool) (xs : List A)
    → ((x : A) → q x ≡ true → p x ≡ true)
    → length (keep q xs) ≤ length (keep p xs)
length-keep-le p q [] h = omega arith
length-keep-le p q (x ∷ xs) h =
    let rest = length-keep-le p q xs h in
    elim (keep_cases q x xs) [
      | inl (t, e) ↦ elim (keep_cases p x xs) [
        | inl (_, f) ↦ rw (e, f) (omega arith)
        | inr (u, _) ↦ absurd (let v = h x t in cc)
      ]
      | inr (_, e) ↦ elim (keep_cases p x xs) [
        | inl (_, f) ↦ rw (e, f) (omega arith)
        | inr (_, f) ↦ rw (e, f) (omega arith)
      ]
    ]

pub length-keep-lt :
    {A : Type 0} (p q : A → Bool) (xs : List A)
    → ((x : A) → q x ≡ true → p x ≡ true)
    → (y : A) → Elem y xs
    → p y ≡ true
    → q y ≡ false
    → length (keep q xs) < length (keep p xs)
length-keep-lt p q [] h y m t f = elim m [ ]
length-keep-lt p q (x ∷ xs) h y (inl s) t f =
    let rest = length-keep-le p q xs h in
    let t' : p x ≡ true = ap p (sym s) ∙ t in
    let f' : q x ≡ false = ap q (sym s) ∙ f in
    elim (keep_cases q x xs) [
      | inl (u, _) ↦ absurd cc
      | inr (_, e) ↦ elim (keep_cases p x xs) [
        | inl (_, g) ↦ rw (e, g) (omega arith)
        | inr (v, _) ↦ absurd cc
      ]
    ]
length-keep-lt p q (x ∷ xs) h y (inr m) t f =
    let rest = length-keep-lt p q xs h y m t f in
    elim (keep_cases q x xs) [
      | inl (u, e) ↦ elim (keep_cases p x xs) [
        | inl (_, g) ↦ rw (e, g) (omega arith)
        | inr (v, _) ↦ absurd (let w = h x u in cc)
      ]
      | inr (_, e) ↦ elim (keep_cases p x xs) [
        | inl (_, g) ↦ rw (e, g) (omega arith)
        | inr (_, g) ↦ rw (e, g) (omega arith)
      ]
    ]
