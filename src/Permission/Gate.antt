-- ===== src/Permission/Gate.antt =====
-- src/core/permissions/confirmation-gate.ts, createConfirmationManager. A promise is a number, with the
-- answer that settled it; what `then` runs after a promise is settled waits in a queue of clean-ups.
pub mod Settle
pub mod Laws
use open_thinking.Base.{
  ℕ, suc, String, ◌+◌, Bool, true, false, not, Option, none, some, List, [], ◌∷◌, ◌++◌, ◌==◌, eqb,
  if◌then◌else◌, keep, any, map,
}
use open_thinking.Permission.Engine.{PermissionResponse}
use open_thinking.Permission.Store.{deny}

pub record PendingConfirmation : Type 0 where
  pub request_id : String
  pub promise : ℕ

pub record Manager : Type 0 where
  -- In the order of insertion, under the id of the request.
  pub pending : List PendingConfirmation
  pub answers : List (ℕ × PermissionResponse)
  pub cleanups : List String
  pub next_promise : ℕ

unfoldable pub create_confirmation_manager : Manager
create_confirmation_manager = record { pending = []; answers = []; cleanups = []; next_promise = 0 }

-- `pending.set(id, confirmation)`
unfoldable pub put_pending :
    PendingConfirmation → List PendingConfirmation → List PendingConfirmation
put_pending c [] = c ∷ []
put_pending c (p ∷ pending) =
    let rest = put_pending c pending in
    if p.request_id == c.request_id then c ∷ pending else p ∷ rest

-- `pending.get(id)`
unfoldable pub find_pending : String → List PendingConfirmation → Option PendingConfirmation
find_pending id [] = none
find_pending id (p ∷ pending) =
    let rest = find_pending id pending in if p.request_id == id then some p else rest

-- A new request, and its promise.
unfoldable pub add : (request_id : String) → Manager → ℕ × Manager
unfolding put_pending
add request_id m =
    let c : PendingConfirmation = record { request_id = request_id; promise = m.next_promise } in
    (
      m.next_promise,
      record m { pending = put_pending c m.pending; next_promise = suc m.next_promise },
    )

unfoldable pub is_answered : ℕ → List (ℕ × PermissionResponse) → Bool
is_answered promise answers = any (λ a. eqb a.0 promise) answers

-- A promise is settled once; then its clean-up is queued.
unfoldable pub settle : PendingConfirmation → PermissionResponse → Manager → Manager
unfolding is_answered
settle c response m = if is_answered c.promise m.answers then m else record m {
  answers = m.answers ++ (c.promise, response) ∷ [];
  cleanups = m.cleanups ++ c.request_id ∷ [];
}

unfoldable pub resolve : (request_id : String) → PermissionResponse → Manager → Bool × Manager
unfolding find_pending settle
resolve request_id response m = elim (find_pending request_id m.pending) [
  | none ↦ (false, m)
  | some c ↦ (true, settle c response m)
]

-- `{ action: "deny", remember: false }`
abbrev pub denial : PermissionResponse
denial = record { action = deny; remember = false }

unfoldable pub deny_all : List PendingConfirmation → Manager → Manager
unfolding settle
deny_all [] m = m
deny_all (c ∷ pending) m = deny_all pending (settle c denial m)

unfoldable pub clear : Manager → Manager
unfolding deny_all
clear m = record (deny_all m.pending m) { pending = [] }

-- The first clean-up that waits runs: `pending.delete(id)`.
unfoldable pub clean_up : List String → Manager → Manager
clean_up [] m = m
clean_up (id ∷ ids) m = record m {
  pending = keep (λ p. not (p.request_id == id)) m.pending;
  cleanups = ids;
}
