-- ===== src/Permission/Risk/Laws.antt =====
-- Which commands run without a question in the mode confirm.
use open_thinking.Base.{
  String, ◌≡◌, refl, ap, ◌∙◌, ◌↔◌, ◌⊎◌, inl, inr, true, false, none, some, List, [], ◌∷◌, eq_iff,
  arith, Bool-cases, or-eq-true, any, Any,
}
use open_thinking.Base.Texts.{starts_with_iff}
use open_thinking.Base.Regex.{test_regex}
use open_thinking.Base.Regex.Laws.{Tests, test_regex_iff}
use open_thinking.Types.{confirm}
use open_thinking.Agent.Text.{◌⋯◌, Args, text_arg}
use open_thinking.Permission.Store.{allow, find_rule}
use open_thinking.Permission.Engine.{
  PermissionRequest, PermissionResponse, PermissionState, is_safe, is_open, is_confirm, check,
}
use open_thinking.Permission.Engine.Laws.{check_unruled}
use open_thinking.Permission.Risk.{
  dangerous_command_patterns, safe_command_prefixes, trim, begins_with, command_risk, text_or_empty,
  classify_tool_risk,
}

-- The text is the prefix, or it goes on with a blank after it.
abbrev pub Begins : String → String → Type 0
Begins trimmed prefix = (trimmed ≡ prefix) ⊎ ((rest : String) × (trimmed ≡ (prefix ⋯ " ") ⋯ rest))

-- No destructive pattern occurs in the command, and it begins with a command that is listed as safe.
abbrev pub IsQuiet : String → Type 0
IsQuiet trimmed =
    (¬ Tests dangerous_command_patterns trimmed) × Any (λ p. Begins trimmed p) safe_command_prefixes

begins_with_iff :
    (trimmed prefix : String) → (begins_with trimmed prefix ≡ true) ↔ Begins trimmed prefix
unfolding begins_with
begins_with_iff trimmed prefix = (
  (λ h. elim ((or-eq-true _ _).0 h) [
    | inl e ↦ inl ((eq_iff trimmed prefix).0 e)
    | inr t ↦ inr ((starts_with_iff trimmed (prefix ⋯ " ")).0 t)
  ]),
  (λ b. (or-eq-true _ _).1 (elim b [
    | inl e ↦ inl ((eq_iff trimmed prefix).1 e)
    | inr t ↦ inr ((starts_with_iff trimmed (prefix ⋯ " ")).1 t)
  ])),
)

any-Begins :
    (trimmed : String) (prefixes : List String)
    → (any (begins_with trimmed) prefixes ≡ true) ↔ Any (λ p. Begins trimmed p) prefixes
any-Begins trimmed [] = ((λ h. cc), (λ h. elim h [ ]))
any-Begins trimmed (p ∷ ps) = (
  (λ h. elim ((or-eq-true _ _).0 h) [
    | inl now ↦ inl ((begins_with_iff trimmed p).0 now)
    | inr more ↦ inr ((any-Begins trimmed ps).0 more)
  ]),
  (λ b. (or-eq-true _ _).1 (elim b [
    | inl now ↦ inl ((begins_with_iff trimmed p).1 now)
    | inr more ↦ inr ((any-Begins trimmed ps).1 more)
  ])),
)

-- The classifier calls a command safe, or it is not quiet.
command_risk-cases :
    (trimmed : String)
    → ((is_safe (command_risk trimmed) ≡ true) × IsQuiet trimmed)
      ⊎ ((is_safe (command_risk trimmed) ≡ false) × ¬ IsQuiet trimmed)
command_risk-cases trimmed = elim (Bool-cases (test_regex dangerous_command_patterns trimmed)) [
  | inl e ↦ inr (
    unfold command_risk is_safe in rw e refl,
    (λ q. q.0 ((test_regex_iff dangerous_command_patterns trimmed).0 e)),
  )
  | inr e ↦
      let clean : ¬ Tests dangerous_command_patterns trimmed = λ t.
        (let e' = (test_regex_iff dangerous_command_patterns trimmed).1 t in
          ground (arith, e, e')) in
      elim (Bool-cases (any (begins_with trimmed) safe_command_prefixes)) [
        | inl f ↦ inl (
          unfold command_risk is_safe in rw (e, f) refl,
          (clean, (any-Begins trimmed safe_command_prefixes).0 f),
        )
        | inr f ↦ inr (
          unfold command_risk is_safe in rw (e, f) refl,
          (λ q. let f' = (any-Begins trimmed safe_command_prefixes).1 q.1 in ground (arith, f, f')),
        )
      ]
]

module _ {W : Type 0} (ask : PermissionRequest → W → PermissionResponse × W)
    (resolve : String → String → String) (working_dir : String) where
  classified :
      (args : Args) (command : String)
      → text_arg "command" args.texts ≡ some command
      → ((classify_tool_risk resolve working_dir "run_command" args).subject ≡ command)
        × ((classify_tool_risk resolve working_dir "run_command" args).risk
            ≡ command_risk (trim command))
  unfolding classify_tool_risk text_or_empty
  classified args command e = (rw (text_or_empty, e) refl, rw (text_or_empty, e) refl)

  -- In the mode confirm, a command that no rule decides is allowed without a question when no
  -- destructive pattern occurs in it and it begins with a command that is listed as safe; in every
  -- other case the human is asked, and the answer decides.
  pub check-IsQuiet :
      (args : Args) (command : String) (s : PermissionState W)
      → text_arg "command" args.texts ≡ some command
      → find_rule "run_command" command s.rules ≡ none
      → (let classify = classify_tool_risk resolve working_dir in
          let out = check ask classify confirm "run_command" args s in
          let asked =
            ask
              (record { tool = "run_command"; args = args; risk = classify "run_command" args })
              s.world in
          (IsQuiet (trim command) × (out.0 ≡ allow) × (out.1.world ≡ s.world))
          ⊎ ((¬ IsQuiet (trim command)) × (out.0 ≡ asked.0.action) × (out.1.world ≡ asked.1)))
  unfolding is_open is_confirm
  check-IsQuiet args command s e f =
      let (subject, risk) = classified args command e in
      let unruled =
        check_unruled ask (classify_tool_risk resolve working_dir) confirm "run_command" args s refl
          (ap (λ x. find_rule "run_command" x s.rules) subject ∙ f) in
      elim (command_risk-cases (trim command)) [
        | inl (quiet, q) ↦
            let same = unruled ∙ rw (ap is_safe risk ∙ quiet) refl in
            inl (q, ap (λ x. x.0) same, ap (λ x. x.1) same)
        | inr (loud, n) ↦
            let same = unruled ∙ rw (ap is_safe risk ∙ loud) refl in
            inr (n, ap (λ x. x.0) same, ap (λ x. x.1) same)
      ]
