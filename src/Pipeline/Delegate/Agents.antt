-- ===== src/Pipeline/Delegate/Agents.antt =====
-- Which agents a delegation can name.
use open_thinking.Base.{
  String, ◌≡◌, refl, sym, ap, ◌≢◌, inl, inr, true, none, [], ◌∷◌, arith, Bool-cases, Option-cases,
  ◌==◌, eq_iff, Elem, mem-keep, map, keep,
}
use open_thinking.Types.{StageDefinition, orchestrator}
use open_thinking.Pipeline.Order.{Stages}
use open_thinking.Pipeline.Delegate.{is_worker, available_agents, stage_named}

-- A stage of the configuration that is no orchestrator.
abbrev pub IsWorker : Stages → String → Type 0
IsWorker stages name =
    (stage_def : StageDefinition) × Elem (name, stage_def) stages × (stage_def.role ≡ none)

is_worker-role : (x : String × StageDefinition) → is_worker x ≡ true → x.1.role ≡ none
unfolding is_worker
is_worker-role (name, d) h = elim (Option-cases d.role) [
  | inl e ↦ e
  | inr (orchestrator, e) ↦ absurd (let h' = rw (is_worker, e) at h in ground (arith, h'))
]

IsWorker-of :
    (name : String) (stages kept : Stages)
    → ((x : String × StageDefinition) → Elem x kept → Elem x stages × (is_worker x ≡ true))
    → Elem name (map (λ x. x.0) kept)
    → IsWorker stages name
IsWorker-of name stages [] h m = elim m [ ]
IsWorker-of name stages ((n, d) ∷ kept) h (inl e) =
    let (k, w) = h (n, d) (inl refl) in (d, rw e k, is_worker-role (n, d) w)
IsWorker-of name stages (x ∷ kept) h (inr m) = IsWorker-of name stages kept (λ y k. h y (inr k)) m

pub named-IsWorker :
    (stages : Stages) (name : String) → Elem name (available_agents stages) → IsWorker stages name
unfolding available_agents
named-IsWorker stages name m =
    IsWorker-of name stages (keep is_worker stages) (λ x k. (mem-keep is_worker x stages).0 k) m

pub worker-Elem :
    (stages : Stages) (name : String) → IsWorker stages name → Elem name (available_agents stages)
unfolding available_agents is_worker
worker-Elem stages name (d, m, e) =
    mapped (keep is_worker stages) (name, d)
      ((mem-keep is_worker (name, d) stages).1 (m, rw (is_worker, e) refl))
  where
    mapped :
        (kept : Stages) (x : String × StageDefinition)
        → Elem x kept
        → Elem x.0 (map (λ y. y.0) kept)
    mapped [] x m = elim m [ ]
    mapped (y ∷ kept) x (inl e) = inl (ap (λ z. z.0) e)
    mapped (y ∷ kept) x (inr m) = inr (mapped kept x m)

pub stage_named-found :
    (stages : Stages) (name : String) (d : StageDefinition)
    → Elem (name, d) stages
    → stage_named name stages ≢ none
unfolding stage_named
stage_named-found [] name d m h = elim m [ ]
stage_named-found ((n, d') ∷ stages) name d m h = elim (Bool-cases (n == name)) [
  | inl e ↦ let h' = rw (stage_named, e) at h in ground (arith, h')
  | inr e ↦ elim m [
    | inl same ↦ let t = (eq_iff n name).1 (sym (ap (λ x. x.0) same)) in ground (arith, e, t)
    | inr k ↦ stage_named-found stages name d k (rw (stage_named, e) at h)
  ]
]
