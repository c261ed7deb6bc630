-- ===== src/Tools/Registry/Laws.antt =====
-- When the registry executes a tool, and when it does not.
use open_thinking.Base.{
  String, ◌≡◌, refl, sym, ap, ◌∙◌, ◌↔◌, or-eq-true, ◌⊎◌, inl, inr, Bool, true, false, Option, none,
  some, List, [], ◌∷◌, ◌==◌, eq_iff, arith, Bool-cases, Option-cases, if◌then◌else◌, Elem, some-eq,
  none-ne-some,
}
use open_thinking.Base.Texts.{eq_comm, contains_iff}
use open_thinking.Result.{Result, err}
use open_thinking.Agent.Text.{Args}
use open_thinking.Permission.Store.{PermissionAction, allow, deny}
use open_thinking.Permission.Engine.{PermissionRequest, PermissionResponse, PermissionState}
use open_thinking.Permission.Engine.Laws.{Decided, check-Decided, Action-cases}
use open_thinking.Tools.Registry.{
  Tool, Builtins, PermissionAccess, is_offered, text_result, set_tool, get_tool, register,
  builtins_of, create_tool_registry, run_tool, permit, execute,
}

module _ {W : Type 0} (name : String) where
  get_tool-set_tool :
      (t : Tool W) (tools : List (Tool W))
      → get_tool name (set_tool t tools)
        ≡ (if t.definition.name == name then some t else get_tool name tools)
  unfolding get_tool set_tool
  get_tool-set_tool t [] = refl
  get_tool-set_tool t (u ∷ tools) = elim (Bool-cases (u.definition.name == t.definition.name)) [
    | inl e ↦
        let same = (eq_iff u.definition.name t.definition.name).0 e in
        rw (set_tool, e)
          (elim (Bool-cases (t.definition.name == name)) [
            | inl f ↦ rw (get_tool, f) refl
            | inr f ↦
                let g : (u.definition.name == name) ≡ false = ap (λ n. n == name) same ∙ f in
                rw (get_tool, f, g) refl
          ])
    | inr e ↦
        rw (set_tool, e)
          (elim (Bool-cases (u.definition.name == name)) [
            | inl f ↦
                let apart : (t.definition.name == name) ≡ false =
                  eq_comm t.definition.name name
                  ∙ ap (λ n. n == t.definition.name) (sym ((eq_iff u.definition.name name).0 f))
                  ∙ e in
                rw (get_tool, f, apart) refl
            | inr f ↦ rw (get_tool, f, get_tool-set_tool t tools) refl
          ])
  ]

  module _ (allowed : Option (List String)) where
    -- A tool that is found was offered, or it was there before.
    register_found :
        (builtins tools : List (Tool W)) (t : Tool W)
        → get_tool name (register allowed builtins tools) ≡ some t
        → (Elem t builtins × (t.definition.name ≡ name) × (is_offered allowed name ≡ true))
          ⊎ (get_tool name tools ≡ some t)
    unfolding register
    register_found [] tools t h = inr h
    register_found (u ∷ builtins) tools t h =
        elim (Bool-cases (is_offered allowed u.definition.name)) [
          | inr o ↦ elim (register_found builtins tools t (rw (register, o) at h)) [
            | inl (m, e, f) ↦ inl (inr m, e, f)
            | inr k ↦ inr k
          ]
          | inl o ↦ elim (register_found builtins (set_tool u tools) t (rw (register, o) at h)) [
            | inl (m, e, f) ↦ inl (inr m, e, f)
            | inr k ↦ elim (Bool-cases (u.definition.name == name)) [
              | inl f ↦
                  let same = some-eq _ _ (rw (get_tool-set_tool u tools, f) at k) in
                  let named = (eq_iff u.definition.name name).0 f in
                  inl (
                    inl (sym same),
                    ap (λ x. x.definition.name) (sym same) ∙ named,
                    ap (is_offered allowed) (sym named) ∙ o,
                  )
              | inr f ↦ inr (rw (get_tool-set_tool u tools, f) at k)
            ]
          ]
        ]

    -- What is not found was not there, and no built-in tool of the name is offered.
    register_missing :
        (builtins tools : List (Tool W))
        → get_tool name (register allowed builtins tools) ≡ none
        → (get_tool name tools ≡ none)
          × ((t : Tool W)
              → Elem t builtins
              → t.definition.name ≡ name
              → is_offered allowed name ≡ false)
    unfolding register
    register_missing [] tools h = (h, (λ t m. elim m [ ]))
    register_missing (u ∷ builtins) tools h =
        elim (Bool-cases (is_offered allowed u.definition.name)) [
          | inr o ↦
              let (old, rest) = register_missing builtins tools (rw (register, o) at h) in
              (
                old,
                (λ t m e. elim m [
                  | inl same ↦
                      ap (is_offered allowed) (sym (ap (λ x. x.definition.name) (sym same) ∙ e)) ∙ o
                  | inr n ↦ rest t n e
                ]),
              )
          | inl o ↦
              let (old, rest) =
                register_missing builtins (set_tool u tools) (rw (register, o) at h) in
              elim (Bool-cases (u.definition.name == name)) [
                | inl f ↦ absurd (none-ne-some u (sym (rw (get_tool-set_tool u tools, f) at old)))
                | inr f ↦ (
                  rw (get_tool-set_tool u tools, f) at old,
                  (λ t m e. elim m [
                    | inl same ↦
                        let g =
                          (eq_iff u.definition.name name).1
                            (ap (λ x. x.definition.name) (sym same) ∙ e) in
                        absurd (ground (arith, f, g))
                    | inr n ↦ rest t n e
                  ]),
                )
              ]
        ]

-- The stage has no list of allowed tools, the list names the tool, or the tool is get_context.
abbrev pub Offered : Option (List String) → String → Type 0
Offered none name = Unit {0}
Offered (some allowed) name = Elem name allowed ⊎ (name ≡ "get_context")

is_offered_iff :
    (allowed : Option (List String)) (name : String)
    → (is_offered allowed name ≡ true) ↔ Offered allowed name
unfolding is_offered
is_offered_iff none name = ((λ h. tt), (λ o. refl))
is_offered_iff (some allowed) name = (
  (λ h. elim ((or-eq-true _ _).0 h) [
    | inl m ↦ inl ((contains_iff allowed name).0 m)
    | inr e ↦ inr ((eq_iff name "get_context").0 e)
  ]),
  (λ o. (or-eq-true _ _).1 (elim o [
    | inl m ↦ inl ((contains_iff allowed name).1 m)
    | inr e ↦ inr ((eq_iff name "get_context").1 e)
  ])),
)

-- Why a call was permitted or denied, with the world that the check left.
abbrev Permitted :
    {W : Type 0} (ask : PermissionRequest → W → PermissionResponse × W)
    → Option PermissionAccess
    → String
    → Args
    → PermissionState W
    → PermissionAction
    → W
    → Type 0
Permitted ask none name args s action w = (action ≡ allow) × (w ≡ s.world)
Permitted ask (some access) name args s action w =
    Decided ask access.mode name args (access.classify name args) s action w

-- What a call of the registry comes to: the result and the world.
pub data Executed {W : Type 0} (ask : PermissionRequest → W → PermissionResponse × W)
    (builtins : List (Tool W)) (allowed : Option (List String)) (access : Option PermissionAccess)
    (name : String) (args : Args) (s : PermissionState W)
    : Option (Result String String) → W → Type 0 where
  unknown :
      (e : String)
      → ((t : Tool W) → Elem t builtins → t.definition.name ≡ name → ¬ Offered allowed name)
      → Executed ask builtins allowed access name args s (some (err e)) s.world
  refused :
      (e : String) (w : W)
      → Permitted ask access name args s deny w
      → Executed ask builtins allowed access name args s (some (err e)) w
  ran :
      (tool : Tool W) (w : W)
      → Elem tool builtins
      → tool.definition.name ≡ name
      → Offered allowed name
      → Permitted ask access name args s allow w
      → Executed ask builtins allowed access name args s
          (text_result (tool.execute args w).0)
          (tool.execute args w).1

module _ {W : Type 0} (ask : PermissionRequest → W → PermissionResponse × W) where
  permit-Permitted :
      (access : Option PermissionAccess) (name : String) (args : Args) (s : PermissionState W)
      → (let out = permit ask access name args s in
          Permitted ask access name args s out.0 out.1.world)
  unfolding permit
  permit-Permitted none name args s = (refl, refl)
  permit-Permitted (some access) name args s =
      check-Decided ask access.classify access.mode name args s

  execute_found :
      (builtins tools : List (Tool W)) (allowed : Option (List String))
      (access : Option PermissionAccess) (name : String) (args : Args) (s : PermissionState W)
      (tool : Tool W)
      → get_tool name tools ≡ some tool
      → Elem tool builtins
      → tool.definition.name ≡ name
      → Offered allowed name
      → (let out = execute ask tools access name args s in
          Executed ask builtins allowed access name args s out.0 out.1.world)
  unfolding execute run_tool
  execute_found builtins tools allowed access name args s tool found m named offered =
      let why = permit-Permitted access name args s in
      elim (Action-cases (permit ask access name args s).0) [
        | inl a ↦ rw (execute, found, a) (ran tool _ m named offered (rw a at why))
        | inr a ↦ rw (execute, found, a) (refused _ _ (rw a at why))
      ]

-- A call of a registry, as it is created for a stage, runs a tool only if it is a built-in tool of that
-- name, the stage's list of allowed tools names it (or there is no list, or it is get_context), and the
-- permission engine, if there is one, decided to allow it; the result is then that of the tool, in the
-- world that the decision left. Otherwise the call is an error and no tool is run: no built-in tool of
-- that name is offered and the world is as it was, or the engine decided to deny.
pub execute-Executed :
    {W : Type 0} (ask : PermissionRequest → W → PermissionResponse × W) (builtins : Builtins W)
    (allowed : Option (List String)) (context_tool : Option (Tool W)) (sandbox : Bool)
    (access : Option PermissionAccess) (name : String) (args : Args) (s : PermissionState W)
    → (let tools = create_tool_registry builtins allowed context_tool sandbox in
        let out = execute ask tools access name args s in
        Executed ask
          (builtins_of builtins context_tool sandbox)
          allowed
          access
          name
          args
          s
          out.0
          out.1.world)
unfolding create_tool_registry execute
execute-Executed ask builtins allowed context_tool sandbox access name args s =
    let made = builtins_of builtins context_tool sandbox in
    elim (Option-cases (get_tool name (register allowed made []))) [
      | inl e ↦
          rw (execute, e)
            (unknown _ (λ t m named o.
              let closed = (register_missing name allowed made [] e).1 t m named in
              let open_to = (is_offered_iff allowed name).1 o in
              absurd (ground (arith, closed, open_to))))
      | inr (tool, e) ↦ elim (register_found name allowed made [] tool e) [
        | inr old ↦ absurd (none-ne-some tool old)
        | inl (m, named, offered) ↦
            execute_found ask made (register allowed made []) allowed access name args s tool e m
              named ((is_offered_iff allowed name).0 offered)
      ]
    ]
