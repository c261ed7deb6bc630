-- ===== src/Providers/Pricing/Laws.antt =====
-- Which price a model gets.
use Prim.Native.Char.{code}
use open_thinking.Base.{
  ℕ, String, ◌≤◌, ◌≡◌, refl, sym, ap, ◌∙◌, inl, inr, true, ◌&&◌, Option, none, some, [], ◌∷◌, arith,
  ◌==◌, eq_iff, ltb, eqb, ltb→lt, Bool-cases, Option-cases, and-eq-true, Elem,
}
use open_thinking.Base.Texts.{starts_with}
use open_thinking.Providers.Pricing.{
  ModelPrice, Prices, size, exact_price, longest_prefix, get_price,
}

size-starts_with : (s p : String) → starts_with s p ≡ true → size p ≤ size s
unfolding starts_with size
size-starts_with s String.[] h = omega arith
size-starts_with String.[] (String.◌∷◌ d p) h = absurd (ground (arith, h))
size-starts_with (String.◌∷◌ c s) (String.◌∷◌ d p) h =
    let (_, t) = (and-eq-true (eqb (code c) (code d)) (starts_with s p)).0 h in
    let rest = size-starts_with s p t in omega (arith, rest)

starts_with_self : (s : String) → starts_with s s ≡ true
unfolding starts_with
starts_with_self String.[] = refl
starts_with_self (String.◌∷◌ c s) = (and-eq-true _ _).1 (ground arith, starts_with_self s)

-- A key of the table that the name begins with.
abbrev pub IsPrefix : String → Prices → String → ModelPrice → Type 0
IsPrefix model prices key p = Elem (key, p) prices × (starts_with model key ≡ true)

-- No price and no prefix, or the price of a longest prefix.
abbrev pub IsLongest : String → Prices → Option ModelPrice → Type 0
IsLongest model prices none = (k : String) (q : ModelPrice) → IsPrefix model prices k q → size k ≡ 0
IsLongest model prices (some p) =
    (key : String) × IsPrefix model prices key p
    × ((k : String) (q : ModelPrice) → IsPrefix model prices k q → size k ≤ size key)

-- The best match so far is a prefix of its length.
abbrev IsSoFar : String → Prices → Option ModelPrice → ℕ → Type 0
IsSoFar model all none n = n ≡ 0
IsSoFar model all (some p) n = (key : String) × IsPrefix model all key p × (size key ≡ n)

-- What the loop returns is a match of the whole table, no shorter than the best so far or than a match
-- among the entries that the loop goes over.
abbrev IsBetter : String → Prices → Prices → ℕ → Option ModelPrice → Type 0
IsBetter model all prices n r =
    (m : ℕ) × IsSoFar model all r m
    × (n ≤ m)
    × ((k : String) (q : ModelPrice) → IsPrefix model prices k q → size k ≤ m)

longest_prefix-IsBetter :
    (model : String) (all prices : Prices) (best : Option ModelPrice) (n : ℕ)
    → ((k : String) (q : ModelPrice) → Elem (k, q) prices → Elem (k, q) all)
    → IsSoFar model all best n
    → IsBetter model all prices n (longest_prefix model prices best n)
unfolding longest_prefix
longest_prefix-IsBetter model all [] best n sub h = (n, h, omega arith, (λ k q (m, _). elim m [ ]))
longest_prefix-IsBetter model all ((key, p) ∷ prices) best n sub h =
    let tail : (k : String) (q : ModelPrice) → Elem (k, q) prices → Elem (k, q) all =
      λ k q m. sub k q (inr m) in
    elim (Bool-cases (starts_with model key && ltb n (size key))) [
      | inl t ↦
          let (s, l) = (and-eq-true (starts_with model key) (ltb n (size key))).0 t in
          let lt = ltb→lt n (size key) l in
          let (m, so_far, le, rest) =
            longest_prefix-IsBetter model all prices (some p) (size key) tail
              (key, (sub key p (inl refl), s), refl) in
          rw (longest_prefix, t)
            (
              m,
              so_far,
              omega (arith, le, lt),
              (λ k q (i, u). elim i [
                | inl e ↦ let same = ap (λ x. size x.0) e in omega (arith, same, le)
                | inr j ↦ rest k q (j, u)
              ]),
            )
      | inr f ↦
          let (m, so_far, le, rest) = longest_prefix-IsBetter model all prices best n tail h in
          rw (longest_prefix, f)
            (
              m,
              so_far,
              le,
              (λ k q (i, u). elim i [
                | inl e ↦
                    let u' : starts_with model key ≡ true =
                      ap (λ x. starts_with model x.0) (sym e) ∙ u in
                    let same = ap (λ x. size x.0) e in
                    let short : size key ≤ n = ground (arith, f, u') in
                    omega (arith, same, le, short)
                | inr j ↦ rest k q (j, u)
              ]),
            )
    ]

exact_price-Elem :
    (model : String) (prices : Prices) (p : ModelPrice)
    → exact_price model prices ≡ some p
    → Elem (model, p) prices
unfolding exact_price
exact_price-Elem model [] p h = absurd (ground (arith, h))
exact_price-Elem model ((key, q) ∷ prices) p h = elim (Bool-cases (key == model)) [
  | inl e ↦
      let h' = rw e at h in
      let same : q ≡ p = ground (arith, h') in inl (rw (same, (eq_iff key model).0 e) refl)
  | inr f ↦ inr (exact_price-Elem model prices p (rw f at h))
]

-- In any table, a model gets the price of a key that its name begins with, and no such key is longer;
-- it gets no price only when its name begins with no key but the empty one.
pub get_price-IsLongest :
    (model : String) (prices : Prices) → IsLongest model prices (get_price model prices)
unfolding get_price
get_price-IsLongest model prices = elim (Option-cases (exact_price model prices)) [
  | inr (p, e) ↦
      rw (get_price, e)
        (
          model,
          (exact_price-Elem model prices p e, starts_with_self model),
          (λ k q (m, s). size-starts_with model k s),
        )
  | inl e ↦
      rw (get_price, e)
        (longest (longest_prefix model prices none 0)
          (longest_prefix-IsBetter model prices prices none 0 (λ k q m. m) refl))
]
  where
    longest : (r : Option ModelPrice) → IsBetter model prices prices 0 r → IsLongest model prices r
    longest none (m, z, _, all) = λ k q i. let le = all k q i in omega (arith, le, z)
    longest (some p) (m, (key, i, s), _, all) =
        (key, i, (λ k q j. let le = all k q j in omega (arith, le, s)))
