-- ===== src/Base/Texts.antt =====
-- Texts read as numbers: the decimal digits that the patterns `\d+` accept, and their value.
use Prim.Native.Char.{Char, code, len_utf8}
use Prim.Native.String
use Prim.Native.String.{String}
use Prim.Native.Nat.{ℕ, zero, suc, ◌+◌, ◌-◌, ◌*◌, ◌/◌, ◌%◌}
use mathlib.Core.Bool.{Bool, true, false, ◌&&◌, ◌||◌}
use mathlib.Core.Path.{◌≡◌, refl, sym, ap, ◌∙◌}
use mathlib.Core.Logic.{◌≢◌, ◌↔◌, inl, inr}
use mathlib.Core.List.{List, [], ◌∷◌}
use text.Mathlib.Text.{◌==◌}
use text.Mathlib.TextEquality.{eq_iff, Char-path}
use native.Mathlib.Omega.{arith}
use text.Mathlib.TextLemmas.{cons-append, nil-append}
use open_thinking.Base.Tests.{ltb, eqb, if◌then◌else◌, leb, or-eq-true, and-eq-true, Bool-cases}
use open_thinking.Base.Lists.{any, Elem}

abbrev pub is_digit : ℕ → Bool
is_digit c = leb b'0' c && leb c b'9'

abbrev pub digits : String → Bool
digits String.[] = true
digits (String.◌∷◌ c s) = is_digit (code c) && digits s

-- `^\d+$`
unfoldable pub all_digits : String → Bool
all_digits String.[] = false
all_digits (String.◌∷◌ c s) = is_digit (code c) && digits s

unfoldable pub decimal_from : ℕ → String → ℕ
decimal_from acc String.[] = acc
decimal_from acc (String.◌∷◌ c s) = decimal_from (acc * 10 + (code c - b'0')) s

-- `Number.parseInt(s, 10)` of a text of digits.
unfoldable pub decimal : String → ℕ
unfolding decimal_from
decimal s = decimal_from 0 s

-- `xs.includes(x)`, `set.has(x)`
unfoldable pub contains : List String → String → Bool
contains xs x = any (λ y. x == y) xs

pub contains_iff : (xs : List String) (x : String) → (contains xs x ≡ true) ↔ Elem x xs
unfolding contains
contains_iff [] x = ((λ h. cc), (λ h. elim h [ ]))
contains_iff (y ∷ ys) x = (
  (λ h. elim ((or-eq-true _ _).0 h) [
    | inl e ↦ inl ((eq_iff x y).0 e)
    | inr m ↦ inr ((contains_iff ys x).0 m)
  ]),
  (λ h.
      (or-eq-true _ _).1
        (elim h [ inl e ↦ inl ((eq_iff x y).1 e) | inr m ↦ inr ((contains_iff ys x).1 m) ])),
)

pub eq_comm : (a b : String) → (a == b) ≡ (b == a)
eq_comm a b = elim (Bool-cases (a == b)) [
  | inl e ↦ e ∙ sym ((eq_iff b a).1 (sym ((eq_iff a b).0 e)))
  | inr e ↦ elim (Bool-cases (b == a)) [
    | inl f ↦ absurd (let t = (eq_iff a b).1 (sym ((eq_iff b a).0 f)) in cc)
    | inr f ↦ e ∙ sym f
  ]
]

-- `s.split(sep)` for a one-character separator.
abbrev push_front : Char → List String → List String
push_front c [] = (String.◌∷◌ c String.[]) ∷ []
push_front c (part ∷ parts) = (String.◌∷◌ c part) ∷ parts

unfoldable pub split : ℕ → String → List String
split sep String.[] = "" ∷ []
split sep (String.◌∷◌ c s) =
    let parts = split sep s in if eqb (code c) sep then "" ∷ parts else push_front c parts

-- `parts.join(sep)`
unfoldable pub join : String → List String → String
join sep [] = ""
join sep (part ∷ []) = part
join sep (part ∷ (next ∷ parts)) =
    let rest = join sep (next ∷ parts) in String.◌++◌ part (String.◌++◌ sep rest)

-- `s.length`: the UTF-16 units of a text, two for a character outside the basic plane.
unfoldable pub units : String → ℕ
units String.[] = 0
units (String.◌∷◌ c s) = (if eqb (len_utf8 c) 4 then 2 else 1) + units s

-- The characters of a text before a position: `s.slice(0, n)`, over code points.
unfoldable pub slice_to : ℕ → String → String
slice_to zero s = ""
slice_to (suc n) String.[] = ""
slice_to (suc n) (String.◌∷◌ c s) = String.◌∷◌ c (slice_to n s)

abbrev digit : ℕ → String
digit n =
    if eqb n 0
    then "0"
    else if eqb n 1
    then "1"
    else if eqb n 2
    then "2"
    else if eqb n 3
    then "3"
    else if eqb n 4
    then "4"
    else if eqb n 5
    then "5"
    else if eqb n 6
    then "6"
    else if eqb n 7
    then "7"
    else if eqb n 8
    then "8"
    else "9"

unfoldable pub show_from : ℕ → ℕ → String
show_from zero n = digit n
show_from (suc fuel) n =
    let rest = show_from fuel (n / 10) in
    if ltb n 10 then digit n else String.◌++◌ rest (digit (n % 10))

-- A number in a template literal.
unfoldable pub show : ℕ → String
unfolding show_from
show n = show_from n n

join-push_front :
    (c : Char) (parts : List String) (sep : String)
    → parts ≢ []
    → join sep (push_front c parts) ≡ String.◌∷◌ c (join sep parts)
unfolding join
join-push_front c [] sep h = absurd (h refl)
join-push_front c (part ∷ []) sep h = refl
join-push_front c (part ∷ (next ∷ parts)) sep h = cons-append c part _

join_gap :
    (parts : List String) (sep : String)
    → parts ≢ []
    → join sep ("" ∷ parts) ≡ String.◌++◌ sep (join sep parts)
unfolding join
join_gap [] sep h = absurd (h refl)
join_gap (part ∷ parts) sep h = nil-append _

split-ne-nil : (sep : ℕ) (s : String) → split sep s ≢ []
unfolding split
split-ne-nil sep String.[] = ground arith
split-ne-nil sep (String.◌∷◌ c s) = elim (Bool-cases (eqb (code c) sep)) [
  | inl e ↦ rw e (ground arith)
  | inr f ↦ rw f (push (split sep s))
]
  where
    push : (parts : List String) → push_front c parts ≢ []
    push [] = ground arith
    push (part ∷ parts) = ground arith

-- Joining with the separator undoes the split.
pub join-split :
    (sep : Char) (s : String) → join (String.◌∷◌ sep String.[]) (split (code sep) s) ≡ s
unfolding split
join-split sep String.[] = unfold join in refl
join-split sep (String.◌∷◌ c s) =
    let full = split-ne-nil (code sep) s in
    elim (Bool-cases (eqb (code c) (code sep))) [
      | inl e ↦
          let same : c ≡ sep = Char-path c sep (ground arith) in
          rw e (
            join_gap (split (code sep) s) _ full
            ∙ ap (λ t. String.◌++◌ (String.◌∷◌ sep String.[]) t) (join-split sep s)
            ∙ cons-append sep String.[] s
            ∙ ap (λ t. String.◌∷◌ sep t) (nil-append s)
            ∙ ap (λ x. String.◌∷◌ x s) (sym same))
      | inr f ↦ rw f (
          join-push_front c (split (code sep) s) _ full
          ∙ ap (λ t. String.◌∷◌ c t) (join-split sep s))
    ]

unfoldable pub starts_with : String → String → Bool
starts_with s String.[] = true
starts_with String.[] (String.◌∷◌ d p) = false
starts_with (String.◌∷◌ c s) (String.◌∷◌ d p) = eqb (code c) (code d) && starts_with s p

-- `s.includes(p)`
unfoldable pub includes : String → String → Bool
unfolding starts_with
includes String.[] p = starts_with "" p
includes (String.◌∷◌ c s) p = starts_with (String.◌∷◌ c s) p || includes s p

starts_with_sound :
    (s p : String) → starts_with s p ≡ true → (rest : String) × (s ≡ String.◌++◌ p rest)
unfolding starts_with
starts_with_sound s String.[] h = (s, sym (nil-append s))
starts_with_sound String.[] (String.◌∷◌ d p) h = absurd (ground (arith, h))
starts_with_sound (String.◌∷◌ c s) (String.◌∷◌ d p) h =
    let (e, t) = (and-eq-true (eqb (code c) (code d)) (starts_with s p)).0 h in
    let same : c ≡ d = Char-path c d (ground arith) in
    let (rest, f) = starts_with_sound s p t in
    (rest, ap (λ x. String.◌∷◌ x s) same ∙ ap (λ x. String.◌∷◌ d x) f ∙ sym (cons-append d p rest))

pub starts_with-append : (p rest : String) → starts_with (String.◌++◌ p rest) p ≡ true
unfolding starts_with
starts_with-append String.[] rest = refl
starts_with-append (String.◌∷◌ d p) rest =
    rw (cons-append d p rest) ((and-eq-true _ _).1 (ground arith, starts_with-append p rest))

-- A text begins with another exactly when it is that text with a rest.
pub starts_with_iff :
    (s p : String) → (starts_with s p ≡ true) ↔ ((rest : String) × (s ≡ String.◌++◌ p rest))
starts_with_iff s p = (
  (λ h. starts_with_sound s p h),
  (λ (rest, e). ap (λ x. starts_with x p) e ∙ starts_with-append p rest),
)
