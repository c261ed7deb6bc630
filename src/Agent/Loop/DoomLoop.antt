-- ===== src/Agent/Loop/DoomLoop.antt =====
-- When a tool call is a third equal one in a row, and what is done about it.
use open_thinking.Base.{
  ℕ, zero, suc, String, ◌-◌, ◌<◌, ◌≡◌, refl, ◌⊎◌, inl, inr, Bool, true, false, ◌&&◌, not, none,
  some, List, [], ◌∷◌, ◌++◌, ◌==◌, eq_iff, eq_refl, arith, ltb, all, length, drop, All, All-append,
  Bool-cases, Option-cases, and-eq-true,
}
use open_thinking.Result.{Result-cases}
use open_thinking.Chat.{ToolCall}
use open_thinking.Agent.Text.{Args}
use open_thinking.Agent.Memory.{
  Environment, ToolCallSignature, find, cache_key, same_call, check_doom_loop, execute_tool,
}
use open_thinking.Agent.Loop.{emit}
use open_thinking.Agent.Loop.Calls.{
  Round, push_message, set_if_new, repeat_call, finish_call, make_call, run_call,
}

-- Every call that was made has a cached result.
abbrev pub IsCached : List ToolCallSignature → List (String × String) → Type 0
IsCached recent cached =
    All (λ c. (v : String) × (find (cache_key c.tool_name c.args) cached ≡ some v)) recent

-- The last two calls are this one.
abbrev pub is_repeat : List ToolCallSignature → String → String → Bool
is_repeat recent name args =
    not (ltb (length recent) 2) && all (same_call name args) (drop (length recent - 2) recent)

find-append :
    (key : String) (es fs : List (String × String)) (v : String)
    → find key es ≡ some v
    → find key (es ++ fs) ≡ some v
unfolding find
find-append key [] fs v h = absurd (ground arith)
find-append key ((k, x) ∷ es) fs v h = elim (Bool-cases (key == k)) [
  | inl e ↦ rw e (rw e at h)
  | inr e ↦ rw e (find-append key es fs v (rw e at h))
]

find-snoc :
    (key value : String) (es : List (String × String))
    → find key es ≡ none
    → find key (es ++ (key, value) ∷ []) ≡ some value
unfolding find
find-snoc key value [] h = rw (eq_refl key) refl
find-snoc key value ((k, x) ∷ es) h = elim (Bool-cases (key == k)) [
  | inl e ↦ absurd (ground (arith, e, h))
  | inr e ↦ rw e (find-snoc key value es (rw e at h))
]

find-set_if_new :
    (key value : String) (es : List (String × String))
    → (v : String) × (find key (set_if_new key value es) ≡ some v)
unfolding set_if_new
find-set_if_new key value es = elim (Option-cases (find key es)) [
  | inl e ↦ (value, rw (set_if_new, e) (find-snoc key value es e))
  | inr (v, e) ↦ (v, rw (set_if_new, e) e)
]

find-set_if_new_keeps :
    (key value other : String) (es : List (String × String)) (v : String)
    → find other es ≡ some v
    → find other (set_if_new key value es) ≡ some v
unfolding set_if_new
find-set_if_new_keeps key value other es v h = elim (Option-cases (find key es)) [
  | inl e ↦ rw (set_if_new, e) (find-append other es _ v h)
  | inr (x, e) ↦ rw (set_if_new, e) h
]

IsCached-set_if_new :
    (recent : List ToolCallSignature) (key value : String) (es : List (String × String))
    → IsCached recent es
    → IsCached recent (set_if_new key value es)
IsCached-set_if_new [] key value es h = tt
IsCached-set_if_new (c ∷ recent) key value es ((v, e), h) =
    ((v, find-set_if_new_keeps key value _ es v e), IsCached-set_if_new recent key value es h)

same_call-eq :
    (name args : String) (c : ToolCallSignature)
    → same_call name args c ≡ true
    → (c.tool_name ≡ name) × (c.args ≡ args)
unfolding same_call
same_call-eq name args c h =
    let (s, t) = (and-eq-true _ _).0 h in ((eq_iff c.tool_name name).0 s, (eq_iff c.args args).0 t)

some_of_drop :
    (k : ℕ) (recent : List ToolCallSignature) (es : List (String × String)) (name args : String)
    → k < length recent
    → IsCached recent es
    → all (same_call name args) (drop k recent) ≡ true
    → (v : String) × (find (cache_key name args) es ≡ some v)
some_of_drop zero [] es name args lt h t = absurd (omega arith)
some_of_drop (suc k) [] es name args lt h t = absurd (omega arith)
some_of_drop (suc k) (c ∷ recent) es name args lt (_, h) t =
    some_of_drop k recent es name args (omega arith) h t
some_of_drop zero (c ∷ recent) es name args lt ((v, e), h) t =
    let (n, g) = same_call-eq name args c ((and-eq-true _ _).0 t).0 in (v, rw (n, g) at e)

check_doom_loop-cases :
    (recent : List ToolCallSignature) (name args : String) (cached : List (String × String))
    → IsCached recent cached
    → ((is_repeat recent name args ≡ true)
        × ((v : String) × (check_doom_loop recent name args cached ≡ some v)
            × (find (cache_key name args) cached ≡ some v)))
      ⊎ ((is_repeat recent name args ≡ false) × (check_doom_loop recent name args cached ≡ none))
unfolding check_doom_loop
check_doom_loop-cases recent name args cached h = elim (Bool-cases (ltb (length recent) 2)) [
  | inl few ↦ inr (rw few refl, rw (check_doom_loop, few) refl)
  | inr many ↦ elim (Bool-cases (all (same_call name args) (drop (length recent - 2) recent))) [
    | inr other ↦ inr (rw (many, other) refl, rw (check_doom_loop, many, other) refl)
    | inl same ↦
        let short : length recent - 2 < length recent = ground (arith, many) in
        let (v, e) = some_of_drop (length recent - 2) recent cached name args short h same in
        inl (rw (many, same) refl, (v, rw (check_doom_loop, many, same) e, e))
  ]
]

extended :
    (recent : List ToolCallSignature) (c : ToolCallSignature) (value : String)
    (es : List (String × String))
    → IsCached recent es
    → IsCached (recent ++ c ∷ []) (set_if_new (cache_key c.tool_name c.args) value es)
extended recent c value es h =
    let key = cache_key c.tool_name c.args in
    All-append _ recent (c ∷ []) (IsCached-set_if_new recent key value es h)
      (find-set_if_new key value es, tt)

repeated :
    (recent : List ToolCallSignature) (name args : String) (es : List (String × String))
    → (v : String) × (find (cache_key name args) es ≡ some v)
    → IsCached recent es
    → IsCached (recent ++ (record { tool_name = name; args = args }) ∷ []) es
repeated recent name args es found h = All-append _ recent _ h (found, tt)

module _ {W : Type 0} (env : Environment W) where
  make_call-IsCached :
      (call : ToolCall) (args : Args) (r : Round) (w : W)
      → IsCached r.state.recent_calls r.state.cached_results
      → (let s = (make_call env call args r w).0.state in IsCached s.recent_calls s.cached_results)
  unfolding make_call finish_call push_message emit
  make_call-IsCached call args r w h =
      let s = r.state in
      let signature : ToolCallSignature = record { tool_name = call.name; args = args.json } in
      elim (Result-cases (execute_tool env call.name args s.memory w).0) [
        | inl (value, e) ↦
            rw (make_call, e) (extended s.recent_calls signature _ s.cached_results h)
        | inr (message, e) ↦
            rw (make_call, e) (extended s.recent_calls signature _ s.cached_results h)
      ]

  -- Where every call of the run so far has a cached result, a call that equals the last two is answered
  -- without the tool: the world is left as it was and no work is noted. Any other call is made. Either
  -- way every call of the run has a cached result afterwards.
  pub run_call-IsGuarded :
      (call : ToolCall) (r : Round) (w : W)
      → IsCached r.state.recent_calls r.state.cached_results
      → (let args = env.parse_args call.arguments in
          let out = run_call env call r w in
          IsCached out.0.state.recent_calls out.0.state.cached_results
          × (((is_repeat r.state.recent_calls call.name args.json ≡ true)
                × (out.1 ≡ w)
                × (out.0.state.work ≡ r.state.work))
              ⊎ ((is_repeat r.state.recent_calls call.name args.json ≡ false)
                  × (out ≡ make_call env call args r w))))
  unfolding run_call repeat_call push_message emit
  run_call-IsGuarded call r w h =
      let args = env.parse_args call.arguments in
      let s = r.state in
      elim (check_doom_loop-cases s.recent_calls call.name args.json s.cached_results h) [
        | inr (n, e) ↦ rw (run_call, e) (make_call-IsCached call args r w h, inr (n, refl))
        | inl (y, (v, e, f)) ↦
            rw (run_call, e)
              (
                repeated s.recent_calls call.name args.json s.cached_results (v, f) h,
                inl (y, refl, refl),
              )
      ]
