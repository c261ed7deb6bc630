-- ===== src/Permission/Store/Laws.antt =====
-- Which rule decides, and what a rule that was just added decides.
use open_thinking.Base.{
  String, ◌≡◌, refl, ap, ◌∙◌, ◌↔◌, inl, inr, true, false, none, some, List, [], ◌∷◌, ◌++◌, eq_refl,
  arith, All, Bool-cases, Option-cases,
}
use open_thinking.Permission.Store.{
  PermissionAction, PermissionRule, match_pattern, applies, find_rule, add_rule,
}

-- The rule applies, and no later one does.
pub record IsLatest (tool subject : String) (rules : List PermissionRule) (rule : PermissionRule)
    : Type 0 where
  pub before : List PermissionRule
  pub after : List PermissionRule
  pub split : rules ≡ before ++ rule ∷ after
  pub applying : applies tool subject rule ≡ true
  pub later : All (λ r. applies tool subject r ≡ false) after

module _ (tool subject : String) where
  find_rule-snoc :
      (rules : List PermissionRule) (rule : PermissionRule)
      → applies tool subject rule ≡ true
      → find_rule tool subject (rules ++ rule ∷ []) ≡ some rule
  unfolding find_rule
  find_rule-snoc [] rule a = rw a refl
  find_rule-snoc (r ∷ rules) rule a = rw (find_rule-snoc rules rule a) refl

  pub find_rule-none :
      (rules : List PermissionRule)
      → find_rule tool subject rules ≡ none
      → All (λ r. applies tool subject r ≡ false) rules
  unfolding find_rule
  find_rule-none [] h = tt
  find_rule-none (r ∷ rules) h = elim (Option-cases (find_rule tool subject rules)) [
    | inr (x, e) ↦ absurd (ground (arith, e, h))
    | inl e ↦ elim (Bool-cases (applies tool subject r)) [
      | inl a ↦ absurd (ground (arith, e, a, h))
      | inr a ↦ (a, find_rule-none rules e)
    ]
  ]

  find_rule-skips :
      (rules : List PermissionRule)
      → All (λ r. applies tool subject r ≡ false) rules
      → find_rule tool subject rules ≡ none
  unfolding find_rule
  find_rule-skips [] h = refl
  find_rule-skips (r ∷ rules) (a, h) = rw (find_rule-skips rules h, a) refl

  found_last :
      (before : List PermissionRule) (rule : PermissionRule) (after : List PermissionRule)
      → applies tool subject rule ≡ true
      → All (λ r. applies tool subject r ≡ false) after
      → find_rule tool subject (before ++ rule ∷ after) ≡ some rule
  unfolding find_rule
  found_last [] rule after a h = rw (find_rule-skips after h, a) refl
  found_last (r ∷ before) rule after a h = rw (found_last before rule after a h) refl

  find_rule_sound :
      (rules : List PermissionRule) (rule : PermissionRule)
      → find_rule tool subject rules ≡ some rule
      → IsLatest tool subject rules rule
  unfolding find_rule
  find_rule_sound [] rule h = absurd (ground arith)
  find_rule_sound (r ∷ rules) rule h = elim (Option-cases (find_rule tool subject rules)) [
    | inr (x, e) ↦
        let same : some x ≡ some rule = rw e at h in
        let deeper = find_rule_sound rules rule (e ∙ same) in
        record {
          before = r ∷ deeper.before;
          after = deeper.after;
          split = ap (◌∷◌ r) deeper.split;
          applying = deeper.applying;
          later = deeper.later;
        }
    | inl e ↦ elim (Bool-cases (applies tool subject r)) [
      | inl a ↦
          let here : some r ≡ some rule = rw (e, a) at h in
          let same : r ≡ rule = ground arith in
          record {
            before = [];
            after = rules;
            split = ap (λ x. x ∷ rules) same;
            applying = rw (same) at a;
            later = find_rule-none rules e;
          }
      | inr a ↦ absurd (ground (arith, e, a, h))
    ]
  ]

-- A rule is found exactly when it applies to the tool and the subject and no rule after it does.
pub find_rule-IsLatest :
    (tool subject : String) (rules : List PermissionRule) (rule : PermissionRule)
    → (find_rule tool subject rules ≡ some rule) ↔ IsLatest tool subject rules rule
find_rule-IsLatest tool subject rules rule = (
  find_rule_sound tool subject rules rule,
  (λ l.
      ap (find_rule tool subject) l.split
      ∙ found_last tool subject l.before rule l.after l.applying l.later),
)

applies_self :
    (tool pattern : String) (action : PermissionAction)
    → applies tool pattern (record { tool = tool; pattern = pattern; action = action }) ≡ true
unfolding applies match_pattern
applies_self tool pattern action = rw (eq_refl tool, eq_refl pattern) refl

-- Right after a rule was added, it decides its tool and the subject that is its pattern.
pub find_rule-add_rule :
    (tool pattern : String) (action : PermissionAction) (rules : List PermissionRule)
    → find_rule tool pattern (add_rule tool pattern action rules)
      ≡ some (record { tool = tool; pattern = pattern; action = action })
unfolding add_rule
find_rule-add_rule tool pattern action rules =
    find_rule-snoc tool pattern _ (record { tool = tool; pattern = pattern; action = action })
      (applies_self tool pattern action)
