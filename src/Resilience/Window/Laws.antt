-- ===== src/Resilience/Window/Laws.antt =====
-- A call that has waited fits into the limit.
use open_thinking.Base.{
  ℕ, ◌+◌, ◌-◌, ◌≤◌, ◌<◌, ◌≡◌, refl, ◌⊎◌, inl, inr, List, [], ◌∷◌, arith, eqb, leb, ltb, leb→le,
  lt→ltb, Bool-cases, All,
}
use open_thinking.Resilience.Window.{
  TokenUsageEntry, Window, minute, prune, total, current_window_usage, wait_until, acquire,
}

-- Entries in the order of their times.
abbrev pub InOrder : List TokenUsageEntry → Type 0
InOrder [] = Unit {0}
InOrder (e ∷ entries) = All (λ x. e.timestamp ≤ x.timestamp) entries × InOrder entries

prune-drops :
    (now : ℕ) (e : TokenUsageEntry) (entries : List TokenUsageEntry)
    → e.timestamp + minute < now
    → prune now (e ∷ entries) ≡ prune now entries
unfolding prune
prune-drops now e entries h = rw (lt→ltb (e.timestamp + minute) now h) refl

prune-le : (now : ℕ) (entries : List TokenUsageEntry) → total (prune now entries) ≤ total entries
unfolding prune total
prune-le now [] = omega arith
prune-le now (e ∷ entries) = elim (Bool-cases (ltb (e.timestamp + minute) now)) [
  | inl t ↦ let rest = prune-le now entries in rw t (omega (arith, rest))
  | inr f ↦ rw f (omega arith)
]

prune-All :
    (P : TokenUsageEntry → Type 0) (now : ℕ) (entries : List TokenUsageEntry)
    → All P entries
    → All P (prune now entries)
unfolding prune
prune-All P now [] h = tt
prune-All P now (e ∷ entries) (p, h) = elim (Bool-cases (ltb (e.timestamp + minute) now)) [
  | inl t ↦ rw t (prune-All P now entries h)
  | inr f ↦ rw f (p, h)
]

prune-InOrder :
    (now : ℕ) (entries : List TokenUsageEntry) → InOrder entries → InOrder (prune now entries)
unfolding prune
prune-InOrder now [] o = tt
prune-InOrder now (e ∷ entries) (first, o) = elim (Bool-cases (ltb (e.timestamp + minute) now)) [
  | inl t ↦ rw t (prune-InOrder now entries o)
  | inr f ↦ rw f (first, o)
]

-- The wait ends no earlier than it is said to so far, and no later than the last entry ages out.
wait_until-ge :
    (need least until : ℕ) (entries : List TokenUsageEntry)
    → least ≤ until
    → All (λ x. least ≤ x.timestamp + minute) entries
    → least ≤ wait_until need until entries
unfolding wait_until
wait_until-ge need least until [] h a = h
wait_until-ge need least until (e ∷ entries) h (p, a) = elim (Bool-cases (eqb need 0)) [
  | inl t ↦ rw t h
  | inr f ↦ rw f (wait_until-ge (need - e.tokens) least (e.timestamp + minute) entries p a)
]

wait_until-le :
    (need most until : ℕ) (entries : List TokenUsageEntry)
    → until ≤ most
    → All (λ x. x.timestamp + minute ≤ most) entries
    → wait_until need until entries ≤ most
unfolding wait_until
wait_until-le need most until [] h a = h
wait_until-le need most until (e ∷ entries) h (p, a) = elim (Bool-cases (eqb need 0)) [
  | inl t ↦ rw t h
  | inr f ↦ rw f (wait_until-le (need - e.tokens) most (e.timestamp + minute) entries p a)
]

All-map :
    {P Q : TokenUsageEntry → Type 0} (entries : List TokenUsageEntry)
    → ((e : TokenUsageEntry) → P e → Q e)
    → All P entries
    → All Q entries
All-map [] f h = tt
All-map (e ∷ entries) f (p, h) = (f e p, All-map entries f h)

-- After the wait the rest of the window is small enough, or nothing is left of it.
wait_until-frees :
    (need until : ℕ) (entries : List TokenUsageEntry) (later : ℕ)
    → InOrder entries
    → wait_until need until entries < later
    → (total (prune later entries) + need ≤ total entries) ⊎ (total (prune later entries) ≡ 0)
unfolding wait_until total
wait_until-frees need until [] later o h = inr (unfold prune in refl)
wait_until-frees need until (e ∷ entries) later (first, o) h = elim (Bool-cases (eqb need 0)) [
  | inl t ↦
      let zero_need : need ≡ 0 = ground (arith, t) in
      let le = prune-le later (e ∷ entries) in inl (omega (arith, zero_need, le))
  | inr f ↦
      let h' : wait_until (need - e.tokens) (e.timestamp + minute) entries < later = rw f at h in
      let ge =
        wait_until-ge (need - e.tokens) (e.timestamp + minute) (e.timestamp + minute) entries
          (omega arith) (All-map entries (λ x p. omega (arith, p)) first) in
      rw (prune-drops later e entries (omega (arith, h', ge)))
        (elim (wait_until-frees (need - e.tokens) (e.timestamp + minute) entries later o h') [
          | inl rest ↦ inl (omega (arith, rest))
          | inr gone ↦ inr gone
        ])
]

-- When the estimate is within the limit and the window is in order, a call waits at most a minute, and
-- at any time after the wait the estimate and what the window still counts are within the limit,
-- provided that nothing else was recorded in between.
pub acquire-fits :
    (now estimated later : ℕ) (w : Window)
    → InOrder w.entries
    → All (λ e. e.timestamp ≤ now) w.entries
    → estimated ≤ w.tpm_limit
    → now + (acquire now estimated w).0 < later
    → ((acquire now estimated w).0 ≤ minute)
      × (estimated + (current_window_usage later (acquire now estimated w).1).0 ≤ w.tpm_limit)
unfolding acquire current_window_usage
acquire-fits now estimated later w o past small h =
    let entries = prune now w.entries in
    let until = wait_until (estimated + total entries - w.tpm_limit) 0 entries in
    elim (Bool-cases (leb (estimated + total entries) w.tpm_limit)) [
      | inl t ↦
          let fits = leb→le (estimated + total entries) w.tpm_limit t in
          let le = prune-le later entries in rw (acquire, t) (omega arith, omega (arith, fits, le))
      | inr f ↦
          let h' : now + (until - now) < later = rw (acquire, f) at h in
          let le =
            wait_until-le (estimated + total entries - w.tpm_limit) (now + minute) 0 entries
              (omega arith)
              (prune-All (λ e. e.timestamp + minute ≤ now + minute) now w.entries
                (All-map w.entries (λ e p. omega (arith, p)) past)) in
          rw (acquire, f)
            (
              omega (arith, le),
              elim (wait_until-frees (estimated + total entries - w.tpm_limit) 0 entries later
                  (prune-InOrder now w.entries o) (omega (arith, h'))) [
                    | inl freed ↦ omega (arith, freed, small)
                    | inr gone ↦ omega (arith, gone, small)
                  ],
            )
    ]
