-- ===== src/Permission/Engine.antt =====
-- src/core/permissions/permission-engine.ts. The classification of a call is a parameter: it is made of
-- the risk, the subject and the description. The answer of the confirmation gate comes from a world.
pub mod Laws
use open_thinking.Base.{
  String, Bool, true, false, ◌&&◌, Option, none, some, List, [], ◌∷◌, ◌++◌, if◌then◌else◌, ◌≡◌,
  refl, ap, ◌∙◌, ◌⊎◌, inl, inr, Bool-cases, Option-cases, arith,
}
use open_thinking.Types.{PermissionMode, auto, sandbox, confirm, strict}
use open_thinking.Agent.Text.{Args}
use open_thinking.Permission.Store.{
  PermissionAction, allow, deny, PermissionRule, find_rule, add_rule,
}

pub data RiskLevel : Type 0 where
  safe moderate dangerous : RiskLevel

pub record Risk : Type 0 where
  pub risk : RiskLevel
  pub subject : String
  pub description : String

pub record PermissionRequest : Type 0 where
  pub tool : String
  pub args : Args
  pub risk : Risk

pub record PermissionResponse : Type 0 where
  pub action : PermissionAction
  pub remember : Bool

pub data PermissionEvent : Type 0 where
  requested : PermissionRequest → PermissionEvent
  granted denied : (remembered : Bool) → PermissionEvent
  auto_allowed : (tool subject : String) → PermissionEvent

pub record PermissionState (W : Type 0) : Type 0 where
  pub rules : List PermissionRule
  pub events : List PermissionEvent
  pub world : W

unfoldable pub is_safe : RiskLevel → Bool
is_safe safe = true
is_safe risk = false

unfoldable pub is_open : PermissionMode → Bool
is_open auto = true
is_open sandbox = true
is_open mode = false

unfoldable pub is_confirm : PermissionMode → Bool
is_confirm confirm = true
is_confirm mode = false

unfoldable pub resolution : PermissionResponse → PermissionEvent
resolution response = elim response.action [
  | allow ↦ granted response.remember
  | deny ↦ denied response.remember
]

module _ {W : Type 0} (ask : PermissionRequest → W → PermissionResponse × W) where
  unfoldable pub emit : PermissionEvent → PermissionState W → PermissionState W
  emit event s = record s { events = s.events ++ event ∷ [] }

  -- The request to the human, and what is kept of the answer.
  unfoldable pub ask_human :
      String → Args → Risk → PermissionState W → PermissionAction × PermissionState W
  unfolding emit resolution
  ask_human tool args risk s =
      let request : PermissionRequest = record { tool = tool; args = args; risk = risk } in
      let asked = emit (requested request) s in
      let (response, w) = ask request s.world in
      let rules =
        if response.remember then add_rule tool risk.subject response.action s.rules else s.rules in
      (response.action, emit (resolution response) (record asked { rules = rules; world = w }))

  -- A rule was found.
  unfoldable pub follow_rule :
      String → String → PermissionRule → PermissionState W → PermissionAction × PermissionState W
  unfolding emit
  follow_rule tool subject rule s = elim rule.action [
    | allow ↦ (allow, emit (auto_allowed tool subject) s)
    | deny ↦ (deny, s)
  ]

  module _ (classify : String → Args → Risk) (mode : PermissionMode) where
    unfoldable pub check : String → Args → PermissionState W → PermissionAction × PermissionState W
    unfolding emit ask_human follow_rule is_open is_confirm is_safe
    check tool args s =
        let risk = classify tool args in
        elim (is_open mode) [
          | true ↦ (allow, emit (auto_allowed tool risk.subject) s)
          | false ↦ elim (find_rule tool risk.subject s.rules) [
            | some rule ↦ follow_rule tool risk.subject rule s
            | none ↦ elim (is_confirm mode && is_safe risk.risk) [
              | true ↦ (allow, emit (auto_allowed tool risk.subject) s)
              | false ↦ ask_human tool args risk s
            ]
          ]
        ]
