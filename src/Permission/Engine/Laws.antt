-- ===== src/Permission/Engine/Laws.antt =====
-- Why a tool call is allowed or denied, and what a remembered answer does.
use open_thinking.Base.{
  String, true, false, List, All, ◌≢◌, arith, ◌&&◌, none, some, ◌≡◌, refl, sym, ap, ◌∙◌, ◌⊎◌, inl,
  inr, Bool-cases, Option-cases, if◌then◌else◌,
}
use open_thinking.Types.{PermissionMode, auto, sandbox, confirm, strict}
use open_thinking.Agent.Text.{Args}
use open_thinking.Permission.Store.{
  PermissionAction, allow, deny, PermissionRule, find_rule, add_rule, applies,
}
use open_thinking.Permission.Store.Laws.{
  IsLatest, find_rule-IsLatest, find_rule-none, find_rule-add_rule,
}
use open_thinking.Permission.Engine.{
  RiskLevel, safe, moderate, dangerous, Risk, PermissionRequest, PermissionResponse,
  PermissionState, is_safe, is_open, is_confirm, emit, ask_human, follow_rule, check,
}

-- The modes in which no call is looked at.
abbrev pub IsOpen : PermissionMode → Type 0
IsOpen mode = (mode ≡ auto) ⊎ (mode ≡ sandbox)

-- The calls that only a human may allow: every one in the mode strict, and in the mode confirm those
-- that are not safe.
abbrev pub NeedsHuman : PermissionMode → RiskLevel → Type 0
NeedsHuman mode risk = (mode ≡ strict) ⊎ ((mode ≡ confirm) × (risk ≢ safe))

-- No rule applies to the call.
abbrev pub IsUnruled : String → String → List PermissionRule → Type 0
IsUnruled tool subject rules = All (λ r. applies tool subject r ≡ false) rules

-- Why a call was allowed or denied, and what was asked.
pub data Decided {W : Type 0} (ask : PermissionRequest → W → PermissionResponse × W)
    (mode : PermissionMode) (tool : String) (args : Args) (risk : Risk) (s : PermissionState W)
    : PermissionAction → W → Type 0 where
  by_mode : IsOpen mode → Decided ask mode tool args risk s allow s.world
  by_rule :
      (rule : PermissionRule)
      → ¬ IsOpen mode
      → IsLatest tool risk.subject s.rules rule
      → Decided ask mode tool args risk s rule.action s.world
  by_safety :
      mode ≡ confirm
      → IsUnruled tool risk.subject s.rules
      → risk.risk ≡ safe
      → Decided ask mode tool args risk s allow s.world
  by_human :
      NeedsHuman mode risk.risk
      → IsUnruled tool risk.subject s.rules
      → Decided ask mode tool args risk s
          (ask (record { tool = tool; args = args; risk = risk }) s.world).0.action
          (ask (record { tool = tool; args = args; risk = risk }) s.world).1

is_open-IsOpen : (mode : PermissionMode) → is_open mode ≡ true → IsOpen mode
unfolding is_open
is_open-IsOpen auto h = inl refl
is_open-IsOpen sandbox h = inr refl
is_open-IsOpen confirm h = absurd (ground (arith, h))
is_open-IsOpen strict h = absurd (ground (arith, h))

closed-not-IsOpen : (mode : PermissionMode) → is_open mode ≡ false → ¬ IsOpen mode
unfolding is_open
closed-not-IsOpen mode h (inl e) = let k = rw e at h in ground (arith, k)
closed-not-IsOpen mode h (inr e) = let k = rw e at h in ground (arith, k)

safe_call :
    (mode : PermissionMode) (risk : RiskLevel)
    → (is_confirm mode && is_safe risk) ≡ true
    → (mode ≡ confirm) × (risk ≡ safe)
unfolding is_confirm is_safe
safe_call confirm safe h = (refl, refl)
safe_call confirm moderate h = absurd (ground (arith, h))
safe_call confirm dangerous h = absurd (ground (arith, h))
safe_call auto risk h = absurd (ground (arith, h))
safe_call sandbox risk h = absurd (ground (arith, h))
safe_call strict risk h = absurd (ground (arith, h))

unsafe_call-NeedsHuman :
    (mode : PermissionMode) (risk : RiskLevel)
    → is_open mode ≡ false
    → (is_confirm mode && is_safe risk) ≡ false
    → NeedsHuman mode risk
unfolding is_open is_confirm is_safe
unsafe_call-NeedsHuman strict risk h g = inl refl
unsafe_call-NeedsHuman confirm risk h g = inr (refl, (λ e. let k = rw e at g in ground (arith, k)))
unsafe_call-NeedsHuman auto risk h g = absurd (ground (arith, h))
unsafe_call-NeedsHuman sandbox risk h g = absurd (ground (arith, h))

pub Action-cases : (a : PermissionAction) → (a ≡ allow) ⊎ (a ≡ deny)
Action-cases allow = inl refl
Action-cases deny = inr refl

module _ {W : Type 0} (ask : PermissionRequest → W → PermissionResponse × W)
    (classify : String → Args → Risk) (mode : PermissionMode) where
  follow_rule-eq :
      (tool subject : String) (rule : PermissionRule) (s : PermissionState W)
      → ((follow_rule ask tool subject rule s).0 ≡ rule.action)
        × ((follow_rule ask tool subject rule s).1.world ≡ s.world)
  unfolding follow_rule emit
  follow_rule-eq tool subject rule s = elim (Action-cases rule.action) [
    | inl e ↦ rw (follow_rule, e) (refl, refl)
    | inr e ↦ rw (follow_rule, e) (refl, refl)
  ]

  pub check-Decided :
      (tool : String) (args : Args) (s : PermissionState W)
      → (let out = check ask classify mode tool args s in
          Decided ask mode tool args (classify tool args) s out.0 out.1.world)
  unfolding check ask_human emit
  check-Decided tool args s = elim (Bool-cases (is_open mode)) [
    | inl e ↦ rw (check, e) (by_mode (is_open-IsOpen mode e))
    | inr e ↦ elim (Option-cases (find_rule tool (classify tool args).subject s.rules)) [
      | inr (rule, f) ↦
          rw (check, e, f)
            (let (a, b) = follow_rule-eq tool (classify tool args).subject rule s in
              rw (a, b)
                (by_rule rule (closed-not-IsOpen mode e)
                  ((find_rule-IsLatest tool (classify tool args).subject s.rules rule).0 f)))
      | inl f ↦ elim (Bool-cases (is_confirm mode && is_safe (classify tool args).risk)) [
        | inl g ↦
            let (m, r) = safe_call mode (classify tool args).risk g in
            rw (check, e, f, g)
              (by_safety m (find_rule-none tool (classify tool args).subject s.rules f) r)
        | inr g ↦
            rw (check, e, f, g)
              (by_human (unsafe_call-NeedsHuman mode (classify tool args).risk e g)
                (find_rule-none tool (classify tool args).subject s.rules f))
      ]
    ]
  ]

module _ {W : Type 0} (ask : PermissionRequest → W → PermissionResponse × W)
    (classify : String → Args → Risk) (mode : PermissionMode) (tool : String) (args : Args)
    (s : PermissionState W) where
  first_check :
      is_open mode ≡ false
      → find_rule tool (classify tool args).subject s.rules ≡ none
      → (is_confirm mode && is_safe (classify tool args).risk) ≡ false
      → (ask (record { tool = tool; args = args; risk = classify tool args }) s.world).0.remember
        ≡ true
      → (let out = check ask classify mode tool args s in
          let response =
            (ask (record { tool = tool; args = args; risk = classify tool args }) s.world).0 in
          (out.0 ≡ response.action)
          × (out.1.rules ≡ add_rule tool (classify tool args).subject response.action s.rules))
  unfolding check ask_human emit
  first_check e f g r = rw (check, e, f, g) (refl, rw r refl)

  second_check :
      (rule : PermissionRule)
      → is_open mode ≡ false
      → find_rule tool (classify tool args).subject s.rules ≡ some rule
      → check ask classify mode tool args s
        ≡ follow_rule ask tool (classify tool args).subject rule s
  unfolding check
  second_check rule e f = rw (check, e, f) refl

-- A call that no rule decides, where the mode is not open.
pub check_unruled :
    {W : Type 0} (ask : PermissionRequest → W → PermissionResponse × W)
    (classify : String → Args → Risk) (mode : PermissionMode) (tool : String) (args : Args)
    (s : PermissionState W)
    → is_open mode ≡ false
    → find_rule tool (classify tool args).subject s.rules ≡ none
    → (let out = check ask classify mode tool args s in
        let asked = ask (record { tool = tool; args = args; risk = classify tool args }) s.world in
        let decided : PermissionAction × W = (out.0, out.1.world) in
        decided ≡ (
          if is_confirm mode && is_safe (classify tool args).risk
          then (allow, s.world)
          else (asked.0.action, asked.1)))
unfolding check ask_human emit
check_unruled ask classify mode tool args s e f =
    elim (Bool-cases (is_confirm mode && is_safe (classify tool args).risk)) [
      | inl g ↦ rw (check, e, f, g) refl
      | inr g ↦ rw (check, e, f, g) refl
    ]

-- When a human's answer was to be remembered, the same call is decided by that answer the next time,
-- without asking anyone.
pub check-remembers :
    {W : Type 0} (ask ask' : PermissionRequest → W → PermissionResponse × W)
    (classify : String → Args → Risk) (mode : PermissionMode) (tool : String) (args : Args)
    (s : PermissionState W)
    → is_open mode ≡ false
    → find_rule tool (classify tool args).subject s.rules ≡ none
    → (is_confirm mode && is_safe (classify tool args).risk) ≡ false
    → (ask (record { tool = tool; args = args; risk = classify tool args }) s.world).0.remember
      ≡ true
    → (let first = check ask classify mode tool args s in
        let again = check ask' classify mode tool args first.1 in
        (again.0 ≡ first.0) × (again.1.world ≡ first.1.world))
check-remembers ask ask' classify mode tool args s e f g r =
    let response =
      (ask (record { tool = tool; args = args; risk = classify tool args }) s.world).0 in
    let subject = (classify tool args).subject in
    let first = check ask classify mode tool args s in
    let rule : PermissionRule = record {
      tool = tool;
      pattern = subject;
      action = response.action;
    } in
    let kept = first_check ask classify mode tool args s e f g r in
    let found : find_rule tool subject first.1.rules ≡ some rule =
      ap (find_rule tool subject) kept.1
      ∙ find_rule-add_rule tool subject response.action s.rules in
    let next = follow_rule-eq ask' classify mode tool subject rule first.1 in
    let same = second_check ask' classify mode tool args first.1 rule e found in
    (ap (λ p. p.0) same ∙ next.0 ∙ sym kept.0, ap (λ p. p.1.world) same ∙ next.1)
