-- ===== src/Permission/GateTests.antt =====
-- Two requests, of which one is answered.
use open_thinking.Base.{String, ◌≡◌, refl, ◌⊎◌, false, [], ◌∷◌, arith, Elem}
use open_thinking.Base.Texts.{contains, contains_iff}
use open_thinking.Permission.Engine.{PermissionResponse}
use open_thinking.Permission.Store.{allow}
use open_thinking.Permission.Gate.{Manager, create_confirmation_manager, add, resolve}
use open_thinking.Permission.Gate.Settle.{HasAnswer, IsPending}
use open_thinking.Permission.Gate.Laws.{Runs, started, added, answered, no_request_lost}

abbrev allowed : PermissionResponse
allowed = record { action = allow; remember = false }

abbrev both : Manager
both = (add "r2" (add "r1" create_confirmation_manager).1).1

abbrev one_left : Manager
one_left = (resolve "r1" allowed both).1

resolved : one_left ≡ record {
  pending =
      record { request_id = "r1"; promise = 0 } ∷ record { request_id = "r2"; promise = 1 } ∷ [];
  answers = (0, allowed) ∷ [];
  cleanups = "r1" ∷ [];
  next_promise = 2;
}
unfolding resolve add create_confirmation_manager
resolved = refl

new : ¬ Elem {A = String} "r2" ("r1" ∷ [])
unfolding contains
new i = let t = (contains_iff ("r1" ∷ []) "r2").1 i in absurd (ground (arith, t))

one_left-Runs : Runs ("r2" ∷ "r1" ∷ []) one_left
one_left-Runs = answered (added (added started "r1" (λ i. elim i [ ])) "r2" new) "r1" allowed

no_request_lost_example :
    (HasAnswer 1 one_left ⊎ IsPending 1 one_left)
    × ((r t : PermissionResponse)
        → Elem (1, r) one_left.answers
        → Elem (1, t) one_left.answers
        → r ≡ t)
unfolding resolve add create_confirmation_manager
no_request_lost_example = no_request_lost ("r2" ∷ "r1" ∷ []) one_left 1 one_left-Runs (omega arith)
