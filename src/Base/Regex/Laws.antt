-- ===== src/Base/Regex/Laws.antt =====
-- What it means for an expression to match, with no search order in it, and that the search decides it.
use Prim.Native.Char.{Char, code}
use open_thinking.Base.{
  ℕ, String, ◌≡◌, refl, ◌↔◌, inl, inr, Bool, true, Option, none, some, List, [], ◌∷◌, arith, Any,
  and-eq-true, or-eq-true,
}
use open_thinking.Base.Regex.{
  one, many, boundary, start, finish, Sequence, is_boundary, is_start, is_finish, one_then,
  many_then, match_here, match_from, test_regex,
}

-- The sequence matches at a place: the character before it, and the text from it on.
pub data Match : Sequence → Option ℕ → String → Type 0 where
  done : {prev : Option ℕ} {s : String} → Match [] prev s
  char :
      {test : ℕ → Bool} {p : Sequence} {prev : Option ℕ} {c : Char} {s : String}
      → test (code c) ≡ true
      → Match p (some (code c)) s
      → Match (one test ∷ p) prev (String.◌∷◌ c s)
  leave :
      {test : ℕ → Bool} {p : Sequence} {prev : Option ℕ} {s : String}
      → Match p prev s
      → Match (many test ∷ p) prev s
  take :
      {test : ℕ → Bool} {p : Sequence} {prev : Option ℕ} {c : Char} {s : String}
      → test (code c) ≡ true
      → Match (many test ∷ p) (some (code c)) s
      → Match (many test ∷ p) prev (String.◌∷◌ c s)
  at_boundary :
      {p : Sequence} {prev : Option ℕ} {s : String}
      → is_boundary prev s ≡ true
      → Match p prev s
      → Match (boundary ∷ p) prev s
  at_start :
      {p : Sequence} {prev : Option ℕ} {s : String}
      → prev ≡ none
      → Match p prev s
      → Match (start ∷ p) prev s
  at_finish :
      {p : Sequence} {prev : Option ℕ} {s : String}
      → s ≡ ""
      → Match p prev s
      → Match (finish ∷ p) prev s

-- The sequence matches at the place or a later one.
pub data Occurs (p : Sequence) : Option ℕ → String → Type 0 where
  here : {prev : Option ℕ} {s : String} → Match p prev s → Occurs p prev s
  later :
      {prev : Option ℕ} {c : Char} {s : String}
      → Occurs p (some (code c)) s
      → Occurs p prev (String.◌∷◌ c s)

is_start_iff : (prev : Option ℕ) → (is_start prev ≡ true) ↔ (prev ≡ none)
unfolding is_start
is_start_iff none = ((λ h. refl), (λ h. refl))
is_start_iff (some c) = ((λ h. absurd (ground (arith, h))), (λ h. absurd (ground (arith, h))))

is_finish_sound : (s : String) → is_finish s ≡ true → s ≡ ""
unfolding is_finish
is_finish_sound String.[] h = refl
is_finish_sound (String.◌∷◌ c s) h = absurd (ground (arith, h))

is_finish_complete : (s : String) → s ≡ "" → is_finish s ≡ true
unfolding is_finish
is_finish_complete s e = rw e refl

-- A repeated test, where what follows it is decided.
many_then_sound :
    (test : ℕ → Bool) (p : Sequence) (prev : Option ℕ) (s : String)
    → ((prev' : Option ℕ) (s' : String) → match_here p prev' s' ≡ true → Match p prev' s')
    → many_then test (match_here p) prev s ≡ true
    → Match (many test ∷ p) prev s
unfolding many_then
many_then_sound test p prev String.[] rest h = leave (rest prev String.[] h)
many_then_sound test p prev (String.◌∷◌ c s) rest h =
    elim ((or-eq-true (match_here p prev (String.◌∷◌ c s)) _).0 h) [
      | inl now ↦ leave (rest prev (String.◌∷◌ c s) now)
      | inr more ↦
          let (t, r) =
            (and-eq-true (test (code c)) (many_then test (match_here p) (some (code c)) s)).0
              more in
          take t (many_then_sound test p (some (code c)) s rest r)
    ]

match_here_sound :
    (p : Sequence) (prev : Option ℕ) (s : String) → match_here p prev s ≡ true → Match p prev s
unfolding match_here one_then
match_here_sound [] prev s h = done
match_here_sound (one test ∷ p) prev String.[] h = absurd (ground (arith, h))
match_here_sound (one test ∷ p) prev (String.◌∷◌ c s) h =
    let (t, r) = (and-eq-true (test (code c)) (match_here p (some (code c)) s)).0 h in
    char t (match_here_sound p (some (code c)) s r)
match_here_sound (many test ∷ p) prev s h =
    many_then_sound test p prev s (λ prev' s' r. match_here_sound p prev' s' r) h
match_here_sound (boundary ∷ p) prev s h =
    let (t, r) = (and-eq-true (is_boundary prev s) (match_here p prev s)).0 h in
    at_boundary t (match_here_sound p prev s r)
match_here_sound (start ∷ p) prev s h =
    let (t, r) = (and-eq-true (is_start prev) (match_here p prev s)).0 h in
    at_start ((is_start_iff prev).0 t) (match_here_sound p prev s r)
match_here_sound (finish ∷ p) prev s h =
    let (t, r) = (and-eq-true (is_finish s) (match_here p prev s)).0 h in
    at_finish (is_finish_sound s t) (match_here_sound p prev s r)

many_then_now :
    (test : ℕ → Bool) (p : Sequence) (prev : Option ℕ) (s : String)
    → match_here p prev s ≡ true
    → many_then test (match_here p) prev s ≡ true
unfolding many_then
many_then_now test p prev String.[] h = h
many_then_now test p prev (String.◌∷◌ c s) h = (or-eq-true _ _).1 (inl h)

match_here_complete :
    {p : Sequence} {prev : Option ℕ} {s : String} → Match p prev s → match_here p prev s ≡ true
unfolding match_here one_then many_then
match_here_complete done = refl
match_here_complete (char t m) = (and-eq-true _ _).1 (t, match_here_complete m)
match_here_complete {s = s} (leave {test} {p} {prev} m) =
    many_then_now test p prev s (match_here_complete m)
match_here_complete (take t m) =
    (or-eq-true _ _).1 (inr ((and-eq-true _ _).1 (t, match_here_complete m)))
match_here_complete (at_boundary t m) = (and-eq-true _ _).1 (t, match_here_complete m)
match_here_complete (at_start e m) =
    (and-eq-true _ _).1 ((is_start_iff _).1 e, match_here_complete m)
match_here_complete (at_finish e m) =
    (and-eq-true _ _).1 (is_finish_complete _ e, match_here_complete m)

match_from_sound :
    (p : Sequence) (prev : Option ℕ) (s : String) → match_from p prev s ≡ true → Occurs p prev s
unfolding match_from
match_from_sound p prev String.[] h = here (match_here_sound p prev String.[] h)
match_from_sound p prev (String.◌∷◌ c s) h =
    elim ((or-eq-true (match_here p prev (String.◌∷◌ c s)) (match_from p (some (code c)) s)).0 h) [
      | inl now ↦ here (match_here_sound p prev (String.◌∷◌ c s) now)
      | inr more ↦ later (match_from_sound p (some (code c)) s more)
    ]

match_from_now :
    (p : Sequence) (prev : Option ℕ) (s : String)
    → match_here p prev s ≡ true
    → match_from p prev s ≡ true
unfolding match_from
match_from_now p prev String.[] h = h
match_from_now p prev (String.◌∷◌ c s) h = (or-eq-true _ _).1 (inl h)

match_from_complete :
    {p : Sequence} {prev : Option ℕ} {s : String} → Occurs p prev s → match_from p prev s ≡ true
unfolding match_from
match_from_complete {p} {prev} {s} (here m) = match_from_now p prev s (match_here_complete m)
match_from_complete (later o) = (or-eq-true _ _).1 (inr (match_from_complete o))

-- Some sequence of the expression matches somewhere in the text.
abbrev pub Tests : List Sequence → String → Type 0
Tests sequences s = Any (λ p. Occurs p none s) sequences

pub test_regex_iff :
    (sequences : List Sequence) (s : String) → (test_regex sequences s ≡ true) ↔ Tests sequences s
unfolding test_regex
test_regex_iff [] s = ((λ h. cc), (λ h. elim h [ ]))
test_regex_iff (p ∷ ps) s = (
  (λ h. elim ((or-eq-true _ _).0 h) [
    | inl now ↦ inl (match_from_sound p none s now)
    | inr more ↦ inr ((test_regex_iff ps s).0 more)
  ]),
  (λ t. (or-eq-true _ _).1 (elim t [
    | inl o ↦ inl (match_from_complete o)
    | inr more ↦ inr ((test_regex_iff ps s).1 more)
  ])),
)
