-- ===== src/Permission/Gate/Laws.antt =====
-- No request is lost, and no answer is taken back.
use native.Mathlib.Decide.{dec_lt}
use open_thinking.Base.{
  ℕ, String, ◌<◌, ◌≡◌, refl, sym, ap, ◌∙◌, ◌⊎◌, inl, inr, not, List, [], ◌∷◌, ◌++◌, arith, ◌==◌,
  eq_iff, keep, Bool-cases, Option-cases, Elem, mem-keep, Elem-append_left, Elem-append_right,
  Elem-append_cases,
}
use open_thinking.Permission.Engine.{PermissionResponse}
use open_thinking.Permission.Gate.{
  PendingConfirmation, Manager, create_confirmation_manager, put_pending, find_pending, add, settle,
  resolve, denial, deny_all, clear, clean_up,
}
use open_thinking.Permission.Gate.Settle.{
  HasAnswer, IsPending, IsSound, find_pending-Elem, put_pending-new, settle-HasAnswer, settle-keeps,
  settle-same, settle-IsSound,
}

-- What may happen to the manager, with the ids that were used. Every request has an id of its own; a
-- clean-up runs at any time after its promise was settled.
pub data Runs : List String → Manager → Type 0 where
  started : Runs [] create_confirmation_manager
  added :
      {used : List String} {m : Manager}
      → Runs used m
      → (id : String) → ¬ Elem id used
      → Runs (id ∷ used) (add id m).1
  answered :
      {used : List String} {m : Manager}
      → Runs used m
      → (id : String) (response : PermissionResponse) → Runs used (resolve id response m).1
  cleared : {used : List String} {m : Manager} → Runs used m → Runs used (clear m)
  cleaned : {used : List String} {m : Manager} → Runs used m → Runs used (clean_up m.cleanups m)

resolve-IsSound :
    (used : List String) (id : String) (r : PermissionResponse) (m : Manager)
    → IsSound used m
    → IsSound used (resolve id r m).1
unfolding resolve
resolve-IsSound used id r m s = elim (Option-cases (find_pending id m.pending)) [
  | inl e ↦ rw (resolve, e) s
  | inr (c, e) ↦ rw (resolve, e) (settle-IsSound used c r m (find_pending-Elem id m.pending c e) s)
]

-- Denying some of the pending requests answers them.
deny_all-IsSound :
    (used : List String) (cs : List PendingConfirmation) (m : Manager)
    → ((c : PendingConfirmation) → Elem c cs → Elem c m.pending)
    → IsSound used m
    → IsSound used (deny_all cs m)
      × ((deny_all cs m).pending ≡ m.pending)
      × ((c : PendingConfirmation) → Elem c cs → HasAnswer c.promise (deny_all cs m))
      × ((p : ℕ) → HasAnswer p m → HasAnswer p (deny_all cs m))
unfolding deny_all
deny_all-IsSound used [] m sub s = (s, refl, (λ c i. elim i [ ]), (λ p a. a))
deny_all-IsSound used (c ∷ cs) m sub s =
    let (same, next) = settle-same c denial m in
    let (t, q, all, keeps) =
      deny_all-IsSound used cs (settle c denial m) (λ d i. rw same (sub d (inr i)))
        (settle-IsSound used c denial m (sub c (inl refl)) s) in
    (
      t,
      q ∙ same,
      (λ d i. elim i [
        | inl e ↦ rw e (keeps c.promise (settle-HasAnswer c denial m))
        | inr j ↦ all d j
      ]),
      (λ p a. keeps p (settle-keeps c denial m p a)),
    )

clear-IsSound : (used : List String) (m : Manager) → IsSound used m → IsSound used (clear m)
unfolding clear
clear-IsSound used m s =
    let (t, same, all, keeps) = deny_all-IsSound used m.pending m (λ c i. i) s in
    record {
      kept = λ p lt. elim (t.kept p lt) [
        | inl a ↦ inl a
        | inr (c, i, e) ↦ inl (rw (← e) (all c (rw (← same) i)))
      ];
      safe = λ c i k. elim i [ ];
      single = λ c d i j e. elim i [ ];
      once = t.once;
      pending_used = λ c i. elim i [ ];
      cleanups_used = t.cleanups_used;
    }

clean_up-IsSound :
    (used : List String) (m : Manager) (ids : List String)
    → m.cleanups ≡ ids
    → IsSound used m
    → IsSound used (clean_up ids m)
unfolding clean_up
clean_up-IsSound used m [] e s = s
clean_up-IsSound used m (id ∷ ids) e s =
    let left : (c : PendingConfirmation)
        → Elem c (keep (λ p. not (p.request_id == id)) m.pending)
        → Elem c m.pending =
      λ c i. ((mem-keep (λ p. not (p.request_id == id)) c m.pending).0 i).0 in
    let queued : (x : String) → Elem x ids → Elem x m.cleanups = λ x i. rw e (inr i) in
    record {
      kept = λ p lt. elim (s.kept p lt) [
        | inl a ↦ inl a
        | inr (c, i, f) ↦ elim (Bool-cases (c.request_id == id)) [
          | inl t ↦ inl (rw (← f) (s.safe c i (rw (e, (eq_iff c.request_id id).0 t) (inl refl))))
          | inr n ↦
              inr (c, (mem-keep (λ p. not (p.request_id == id)) c m.pending).1 (i, rw n refl), f)
        ]
      ];
      safe = λ c i k. s.safe c (left c i) (queued c.request_id k);
      single = λ c d i j. s.single c d (left c i) (left d j);
      once = s.once;
      pending_used = λ c i. s.pending_used c (left c i);
      cleanups_used = λ x i. s.cleanups_used x (queued x i);
    }

add-IsSound :
    (used : List String) (id : String) (m : Manager)
    → ¬ Elem id used
    → IsSound used m
    → IsSound (id ∷ used) (add id m).1
unfolding add
add-IsSound used id m new s = record {
  kept = λ p lt. elim (dec_lt p m.next_promise) [
    | yes old ↦ elim (s.kept p old) [
      | inl a ↦ inl a
      | inr (d, i, e) ↦ inr (d, rw put (Elem-append_left d m.pending _ i), e)
    ]
    | no n ↦ inr (c, rw put (Elem-append_right c m.pending _ (inl refl)), omega arith)
  ];
  safe = λ d i k. elim (cases d i) [
    | inl old ↦ s.safe d old k
    | inr e ↦ absurd (new (s.cleanups_used id (rw (ap (λ x. x.request_id) e) at k)))
  ];
  single = λ d e i j same. elim (cases d i) [
    | inl old ↦ elim (cases e j) [
      | inl old' ↦ s.single d e old old' same
      | inr f ↦ absurd (fresh d old (same ∙ ap (λ x. x.request_id) f))
    ]
    | inr f ↦ elim (cases e j) [
      | inl old' ↦ absurd (fresh e old' (sym same ∙ ap (λ x. x.request_id) f))
      | inr g ↦ ap (λ x. x.promise) (f ∙ sym g)
    ]
  ];
  once = s.once;
  pending_used = λ d i. elim (cases d i) [
    | inl old ↦ inr (s.pending_used d old)
    | inr e ↦ inl (ap (λ x. x.request_id) e)
  ];
  cleanups_used = λ x i. inr (s.cleanups_used x i);
}
  where
    c : PendingConfirmation
    c = record { request_id = id; promise = m.next_promise }

    fresh : (p : PendingConfirmation) → Elem p m.pending → p.request_id ≡ id → ⊥
    fresh p i e = new (rw (← e) (s.pending_used p i))

    put : put_pending c m.pending ≡ m.pending ++ c ∷ []
    put = put_pending-new c m.pending fresh

    cases :
        (d : PendingConfirmation) → Elem d (put_pending c m.pending) → Elem d m.pending ⊎ (d ≡ c)
    cases d i = elim (Elem-append_cases d m.pending (c ∷ []) (rw put at i)) [
      | inl old ↦ inl old
      | inr j ↦ elim j [ inl e ↦ inr e | inr k ↦ elim k [ ] ]
    ]

Runs-IsSound : {used : List String} {m : Manager} → Runs used m → IsSound used m
unfolding create_confirmation_manager
Runs-IsSound started = record {
  kept = λ p lt. absurd (omega (arith, lt));
  safe = λ c i k. elim i [ ];
  single = λ c d i j e. elim i [ ];
  once = λ p r t i j. elim i [ ];
  pending_used = λ c i. elim i [ ];
  cleanups_used = λ id i. elim i [ ];
}
Runs-IsSound (added {used = used} {m = m} r id new) = add-IsSound used id m new (Runs-IsSound r)
Runs-IsSound (answered {used = used} {m = m} r id response) =
    resolve-IsSound used id response m (Runs-IsSound r)
Runs-IsSound (cleared {used = used} {m = m} r) = clear-IsSound used m (Runs-IsSound r)
Runs-IsSound (cleaned {used = used} {m = m} r) =
    clean_up-IsSound used m m.cleanups refl (Runs-IsSound r)

-- When every request has an id of its own, then in whatever order requests are added, answered and
-- cleared and clean-ups run, each promise that was made has an answer or is still pending, and none
-- has two different answers.
pub no_request_lost :
    (used : List String) (m : Manager) (promise : ℕ)
    → Runs used m
    → promise < m.next_promise
    → (HasAnswer promise m ⊎ IsPending promise m)
      × ((r t : PermissionResponse)
          → Elem (promise, r) m.answers
          → Elem (promise, t) m.answers
          → r ≡ t)
no_request_lost used m promise runs made =
    let s = Runs-IsSound runs in (s.kept promise made, s.once promise)
