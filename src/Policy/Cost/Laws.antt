-- ===== src/Policy/Cost/Laws.antt =====
-- The cost tracker over a run of charges.
use open_thinking.Base.{ℕ, String, ◌+◌, ◌≤◌, ◌≡◌, refl, List, [], ◌∷◌, arith, ltb, if◌then◌else◌}
use open_thinking.Policy.Cost.{CostTracker, record_cost}

-- The charges of a run in order: the tracker after them.
pub charge : List (ℕ × String) → CostTracker → CostTracker
charge [] t = t
charge ((amount, stage) ∷ more) t = charge more (record_cost amount stage t).0

-- The specification: a charge is taken if it fits beside those taken before it.
pub taken : ℕ → ℕ → List (ℕ × String) → ℕ
taken limit spent [] = spent
taken limit spent ((amount, stage) ∷ more) =
    taken limit (if ltb limit (spent + amount) then spent else spent + amount) more

record_cost_cases :
    (amount : ℕ) (stage : String) (t : CostTracker)
    → (record_cost amount stage t).0 ≡ record t {
      total_cost =
          if ltb t.max_cost (t.total_cost + amount) then t.total_cost else t.total_cost + amount;
    }
unfolding record_cost
record_cost_cases amount stage t = ground arith

taken-le :
    (limit spent : ℕ) (charges : List (ℕ × String))
    → spent ≤ limit
    → taken limit spent charges ≤ limit
unfolding taken
taken-le limit spent [] h = h
taken-le limit spent ((amount, stage) ∷ more) h =
    taken-le limit (if ltb limit (spent + amount) then spent else spent + amount) more
      (ground arith)

charge-eq-taken :
    (charges : List (ℕ × String)) (t : CostTracker)
    → charge charges t ≡ record t { total_cost = taken t.max_cost t.total_cost charges }
unfolding charge taken
charge-eq-taken [] t = refl
charge-eq-taken ((amount, stage) ∷ more) t =
    rw (record_cost_cases amount stage t) (charge-eq-taken more _)

-- However the stages charge their cost, the total is the sum of the charges that fitted beside
-- those before them, and it never passes the limit.
pub charge-le-max :
    (charges : List (ℕ × String)) (t : CostTracker)
    → t.total_cost ≤ t.max_cost
    → ((charge charges t).total_cost ≡ taken t.max_cost t.total_cost charges)
      × ((charge charges t).total_cost ≤ t.max_cost)
charge-le-max charges t h = rw (charge-eq-taken charges t) (refl, taken-le _ _ charges h)
