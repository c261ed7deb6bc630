-- ===== src/Policy/Glob/Laws.antt =====
-- What a glob means, as a relation, and that the matcher decides it.
use open_thinking.Base.{
  sym, ◌∙◌, String, ◌≡◌, refl, ◌↔◌, ◌⊎◌, inl, inr, Bool, true, List, [], ◌∷◌, arith, eq_iff, all,
  or-eq-true, ◌==◌, and-eq-true,
}
use open_thinking.Base.Texts.{split}
use open_thinking.Policy.Glob.{skip_any, glob_step, glob_match, match_glob}

-- `**` stands for any number of segments, `*` for one, and any segment for itself.
pub data Matches : List String → List String → Type 0 where
  done : Matches [] []
  here : {seg : String} {ps ks : List String} → seg ≡ "**" → Matches ps ks → Matches (seg ∷ ps) ks
  skip :
      {seg k : String} {ps ks : List String}
      → seg ≡ "**"
      → Matches (seg ∷ ps) ks
      → Matches (seg ∷ ps) (k ∷ ks)
  one :
      {seg k : String} {ps ks : List String}
      → seg ≡ "*"
      → Matches ps ks
      → Matches (seg ∷ ps) (k ∷ ks)
  same :
      {seg k : String} {ps ks : List String} → seg ≡ k → Matches ps ks → Matches (seg ∷ ps) (k ∷ ks)

stars_sound : (ps : List String) → all (λ p. p == "**") ps ≡ true → Matches ps []
stars_sound [] h = done
stars_sound (p ∷ ps) h =
    let (a, b) = (and-eq-true _ _).0 h in here ((eq_iff p "**").0 a) (stars_sound ps b)

skip_sound :
    {seg : String} (ps ks : List String)
    → seg ≡ "**"
    → ((ls : List String) → glob_match ps ls ≡ true → Matches ps ls)
    → skip_any (glob_match ps) ks ≡ true
    → Matches (seg ∷ ps) ks
unfolding skip_any
skip_sound ps [] e ih h = here e (ih [] h)
skip_sound ps (k ∷ ks) e ih h = elim ((or-eq-true _ _).0 h) [
  | inl now ↦ here e (ih (k ∷ ks) now)
  | inr later ↦ skip e (skip_sound ps ks e ih later)
]

glob_step_cases :
    (rest : List String → Bool) (seg k : String) (ks : List String)
    → glob_step rest seg k ks ≡ true
    → ((seg ≡ "**") × (skip_any rest (k ∷ ks) ≡ true))
      ⊎ ((seg ≡ "*") × (rest ks ≡ true))
      ⊎ ((seg ≡ k) × (rest ks ≡ true))
unfolding glob_step
glob_step_cases rest seg k ks h = ground (arith, eq_iff seg "**", eq_iff seg "*", eq_iff seg k)

glob_match_sound : (ps ks : List String) → glob_match ps ks ≡ true → Matches ps ks
unfolding glob_match
glob_match_sound [] [] h = done
glob_match_sound [] (k ∷ ks) h = cc
glob_match_sound (seg ∷ ps) [] h = stars_sound (seg ∷ ps) h
glob_match_sound (seg ∷ ps) (k ∷ ks) h = elim (glob_step_cases (glob_match ps) seg k ks h) [
  | inl (e, s) ↦ skip_sound ps (k ∷ ks) e (glob_match_sound ps) s
  | inr (inl (e, s)) ↦ one e (glob_match_sound ps ks s)
  | inr (inr (e, s)) ↦ same e (glob_match_sound ps ks s)
]

stars_complete : {ps : List String} → Matches ps [] → all (λ p. p == "**") ps ≡ true
stars_complete done = refl
stars_complete (here {seg} {ps} e m) = (and-eq-true _ _).1 ((eq_iff seg "**").1 e, stars_complete m)

skip_any_now :
    (rest : List String → Bool) (ks : List String) → rest ks ≡ true → skip_any rest ks ≡ true
unfolding skip_any
skip_any_now rest [] h = h
skip_any_now rest (k ∷ ks) h = ground arith

-- The steps that a derivation may take are steps of the loop.
module _ (rest : List String → Bool) (seg k : String) (ks : List String) where
  glob_step_any : seg ≡ "**" → skip_any rest (k ∷ ks) ≡ true → glob_step rest seg k ks ≡ true
  unfolding glob_step
  glob_step_any e h = ground (arith, eq_iff seg "**")

  glob_step_one : seg ≡ "*" → rest ks ≡ true → glob_step rest seg k ks ≡ true
  unfolding glob_step
  glob_step_one e h = ground (arith, eq_iff seg "**", eq_iff seg "*", eq_iff "*" "**")

  glob_step_same : seg ≡ k → rest ks ≡ true → glob_step rest seg k ks ≡ true
  unfolding glob_step skip_any
  glob_step_same e h = ground (arith, eq_iff seg k, skip_any_now rest ks h)

glob_match_end : (ps : List String) → glob_match ps [] ≡ all (λ p. p == "**") ps
unfolding glob_match
glob_match_end [] = refl
glob_match_end (p ∷ ps) = refl

-- After a `**` the matcher looks for a suffix, whatever is left of the key.
glob_match_stars :
    {seg : String} (ps ks : List String)
    → seg ≡ "**"
    → glob_match (seg ∷ ps) ks ≡ skip_any (glob_match ps) ks
unfolding glob_match skip_any
glob_match_stars {seg} ps [] e = rw (glob_match_end ps) (ground (arith, eq_iff seg "**"))
glob_match_stars {seg} ps (k ∷ ks) e = ground (arith, eq_iff seg "**")

glob_match_complete : {ps ks : List String} → Matches ps ks → glob_match ps ks ≡ true
unfolding glob_match
glob_match_complete done = refl
glob_match_complete (here {ps} {ks} e m) =
    glob_match_stars ps ks e ∙ skip_any_now (glob_match ps) ks (glob_match_complete m)
glob_match_complete (skip {seg} {k} {ps} {ks} e m) =
    glob_match_stars ps (k ∷ ks) e
    ∙ (or-eq-true _ _).1 (inr (sym (glob_match_stars ps ks e) ∙ glob_match_complete m))
glob_match_complete (one {seg} {k} {ps} {ks} e m) =
    glob_step_one (glob_match ps) seg k ks e (glob_match_complete m)
glob_match_complete (same {seg} {k} {ps} {ks} e m) =
    glob_step_same (glob_match ps) seg k ks e (glob_match_complete m)

-- A key is matched exactly when the pattern is the single text "*", or the key's segments are a
-- match of the pattern's: `**` for any number of segments, `*` for one, a segment for itself.
pub match_glob_iff :
    (pattern key : String)
    → (match_glob pattern key ≡ true)
      ↔ ((pattern ≡ "*") ⊎ Matches (split b'.' pattern) (split b'.' key))
unfolding match_glob
match_glob_iff pattern key = (
  (λ h. ground (arith, eq_iff pattern "*", glob_match_sound (split b'.' pattern) (split b'.' key))),
  (λ h. elim h [
    | inl e ↦ ground (arith, eq_iff pattern "*")
    | inr m ↦ ground (arith, glob_match_complete m)
  ]),
)
