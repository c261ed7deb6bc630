-- ===== src/Permission/Gate/Settle.antt =====
-- A sound state of the manager, and what settling a promise keeps of it.
use open_thinking.Base.{
  ℕ, String, ◌<◌, ◌≡◌, refl, sym, ap, ◌∙◌, ◌⊎◌, inl, inr, true, false, some, List, [], ◌∷◌, ◌++◌,
  arith, ◌==◌, eqb, eq_iff, Bool-cases, or-eq-true, Elem, Elem-append_left, Elem-append_right,
  Elem-append_cases,
}
use open_thinking.Permission.Engine.{PermissionResponse}
use open_thinking.Permission.Gate.{
  PendingConfirmation, Manager, put_pending, find_pending, is_answered, settle,
}

abbrev pub HasAnswer : ℕ → Manager → Type 0
HasAnswer promise m = (r : PermissionResponse) × Elem (promise, r) m.answers

abbrev pub IsPending : ℕ → Manager → Type 0
IsPending promise m = (c : PendingConfirmation) × Elem c m.pending × (c.promise ≡ promise)

pub record IsSound (used : List String) (m : Manager) : Type 0 where
  -- A promise that was made has an answer or is pending.
  pub kept : (p : ℕ) → p < m.next_promise → HasAnswer p m ⊎ IsPending p m
  -- What a clean-up will delete has an answer.
  pub safe :
      (c : PendingConfirmation)
      → Elem c m.pending
      → Elem c.request_id m.cleanups
      → HasAnswer c.promise m
  -- One promise for an id.
  pub single :
      (c d : PendingConfirmation)
      → Elem c m.pending
      → Elem d m.pending
      → c.request_id ≡ d.request_id
      → c.promise ≡ d.promise
  -- One answer for a promise.
  pub once :
      (p : ℕ) (r t : PermissionResponse) → Elem (p, r) m.answers → Elem (p, t) m.answers → r ≡ t
  pub pending_used : (c : PendingConfirmation) → Elem c m.pending → Elem c.request_id used
  pub cleanups_used : (id : String) → Elem id m.cleanups → Elem id used

pub find_pending-Elem :
    (id : String) (pending : List PendingConfirmation) (c : PendingConfirmation)
    → find_pending id pending ≡ some c
    → Elem c pending
unfolding find_pending
find_pending-Elem id [] c h = absurd (ground (arith, h))
find_pending-Elem id (p ∷ pending) c h = elim (Bool-cases (p.request_id == id)) [
  | inl t ↦ inl (let h' = rw t at h in ground (arith, h'))
  | inr f ↦ inr (find_pending-Elem id pending c (rw f at h))
]

-- With a new id, the confirmation is put at the end.
pub put_pending-new :
    (c : PendingConfirmation) (pending : List PendingConfirmation)
    → ((p : PendingConfirmation) → Elem p pending → p.request_id ≡ c.request_id → ⊥)
    → put_pending c pending ≡ pending ++ c ∷ []
unfolding put_pending
put_pending-new c [] h = refl
put_pending-new c (p ∷ pending) h = elim (Bool-cases (p.request_id == c.request_id)) [
  | inl t ↦ absurd (h p (inl refl) ((eq_iff p.request_id c.request_id).0 t))
  | inr f ↦ rw (f, put_pending-new c pending (λ q m. h q (inr m))) refl
]

is_answered-HasAnswer :
    (p : ℕ) (answers : List (ℕ × PermissionResponse))
    → is_answered p answers ≡ true
    → (r : PermissionResponse) × Elem (p, r) answers
unfolding is_answered
is_answered-HasAnswer p [] h = absurd (ground (arith, h))
is_answered-HasAnswer p ((q, r) ∷ answers) h = elim (Bool-cases (eqb q p)) [
  | inl t ↦ let same : p ≡ q = ground (arith, t) in (r, inl (ap (λ x. (x, r)) same))
  | inr f ↦ let (s, m) = is_answered-HasAnswer p answers (ground (arith, h, f)) in (s, inr m)
]

-- Settling a pending confirmation: what it keeps, and that there is an answer now.
pub settle-HasAnswer :
    (c : PendingConfirmation) (r : PermissionResponse) (m : Manager)
    → HasAnswer c.promise (settle c r m)
unfolding settle
settle-HasAnswer c r m = elim (Bool-cases (is_answered c.promise m.answers)) [
  | inl t ↦ rw (settle, t) (is_answered-HasAnswer c.promise m.answers t)
  | inr f ↦ rw (settle, f) (r, Elem-append_right (c.promise, r) m.answers _ (inl refl))
]

pub settle-keeps :
    (c : PendingConfirmation) (r : PermissionResponse) (m : Manager) (p : ℕ)
    → HasAnswer p m
    → HasAnswer p (settle c r m)
unfolding settle
settle-keeps c r m p (s, i) = elim (Bool-cases (is_answered c.promise m.answers)) [
  | inl t ↦ rw (settle, t) (s, i)
  | inr f ↦ rw (settle, f) (s, Elem-append_left (p, s) m.answers _ i)
]

pub settle-same :
    (c : PendingConfirmation) (r : PermissionResponse) (m : Manager)
    → ((settle c r m).pending ≡ m.pending) × ((settle c r m).next_promise ≡ m.next_promise)
unfolding settle
settle-same c r m = elim (Bool-cases (is_answered c.promise m.answers)) [
  | inl t ↦ rw (settle, t) (refl, refl)
  | inr f ↦ rw (settle, f) (refl, refl)
]

settle-cleanups :
    (c : PendingConfirmation) (r : PermissionResponse) (m : Manager) (id : String)
    → Elem id (settle c r m).cleanups
    → Elem id m.cleanups ⊎ (id ≡ c.request_id)
unfolding settle
settle-cleanups c r m id = elim (Bool-cases (is_answered c.promise m.answers)) [
  | inl t ↦ rw (settle, t) (λ i. inl i)
  | inr f ↦
      rw (settle, f)
        (λ i. elim (Elem-append_cases id m.cleanups _ i) [
          | inl j ↦ inl j
          | inr j ↦ inr (elim j [ inl e ↦ e | inr k ↦ elim k [ ] ])
        ])
]

HasAnswer-is_answered :
    (p : ℕ) (r : PermissionResponse) (answers : List (ℕ × PermissionResponse))
    → Elem (p, r) answers
    → is_answered p answers ≡ true
unfolding is_answered
HasAnswer-is_answered p r [] i = elim i [ ]
HasAnswer-is_answered p r ((q, t) ∷ answers) (inl e) =
    let same = ap (λ x. x.0) e in
    (or-eq-true (eqb q p) (is_answered p answers)).1 (inl (ground (arith, same)))
HasAnswer-is_answered p r ((q, t) ∷ answers) (inr i) =
    (or-eq-true (eqb q p) (is_answered p answers)).1 (inr (HasAnswer-is_answered p r answers i))

settle-once :
    (c : PendingConfirmation) (r : PermissionResponse) (m : Manager)
    → ((p : ℕ) (t u : PermissionResponse) → Elem (p, t) m.answers → Elem (p, u) m.answers → t ≡ u)
    → (p : ℕ) (t u : PermissionResponse) → Elem (p, t) (settle c r m).answers
    → Elem (p, u) (settle c r m).answers
    → t ≡ u
unfolding settle
settle-once c r m once p t u = elim (Bool-cases (is_answered c.promise m.answers)) [
  | inl a ↦ rw (settle, a) (once p t u)
  | inr f ↦
      rw (settle, f)
        (λ i j. elim (Elem-append_cases (p, t) m.answers _ i) [
          | inl i' ↦ elim (Elem-append_cases (p, u) m.answers _ j) [
            | inl j' ↦ once p t u i' j'
            | inr j' ↦ absurd (clash p t i' ((only p u j').0) f)
          ]
          | inr i' ↦ elim (Elem-append_cases (p, u) m.answers _ j) [
            | inl j' ↦ absurd (clash p u j' ((only p t i').0) f)
            | inr j' ↦ ((only p t i').1) ∙ sym ((only p u j').1)
          ]
        ])
]
  where
    only :
        (q : ℕ) (v : PermissionResponse)
        → Elem {A = ℕ × PermissionResponse} (q, v) ((c.promise, r) ∷ [])
        → (q ≡ c.promise) × (v ≡ r)
    only q v (inl e) = (ap (λ x. x.0) e, ap (λ x. x.1) e)
    only q v (inr k) = elim k [ ]

    clash :
        (q : ℕ) (v : PermissionResponse)
        → Elem (q, v) m.answers
        → q ≡ c.promise
        → is_answered c.promise m.answers ≡ false
        → ⊥
    clash q v i e f =
        let t = ap (λ x. is_answered x m.answers) (sym e) ∙ HasAnswer-is_answered q v m.answers i in
        ground (arith, t, f)

pub settle-IsSound :
    (used : List String) (c : PendingConfirmation) (r : PermissionResponse) (m : Manager)
    → Elem c m.pending
    → IsSound used m
    → IsSound used (settle c r m)
settle-IsSound used c r m i s =
    let (same, next) = settle-same c r m in
    record {
      kept = λ p lt. elim (s.kept p (rw (← next) lt)) [
        | inl a ↦ inl (settle-keeps c r m p a)
        | inr (d, j, e) ↦ inr (d, rw same j, e)
      ];
      safe = λ d j k. elim (settle-cleanups c r m d.request_id k) [
        | inl old ↦ settle-keeps c r m d.promise (s.safe d (rw (← same) j) old)
        | inr e ↦ rw (s.single d c (rw (← same) j) i e) (settle-HasAnswer c r m)
      ];
      single = λ d e j k. s.single d e (rw (← same) j) (rw (← same) k);
      once = settle-once c r m s.once;
      pending_used = λ d j. s.pending_used d (rw (← same) j);
      cleanups_used = λ id k. elim (settle-cleanups c r m id k) [
        | inl old ↦ s.cleanups_used id old
        | inr e ↦ rw e (s.pending_used c i)
      ];
    }
