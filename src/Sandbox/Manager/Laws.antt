-- ===== src/Sandbox/Manager/Laws.antt =====
-- What `apply` makes of the project, told from what the sandbox shows before it.
use open_thinking.Base.{
  ℕ, String, ◌≡◌, refl, sym, ap, ◌∙◌, ◌⊎◌, inl, inr, Bool, Option, none, some, List, [], ◌∷◌, ◌==◌,
  ◌+◌, eq_iff, arith, Bool-cases, Option-cases, if◌then◌else◌, Elem, some-eq, none-ne-some,
}
use open_thinking.Sandbox.Files.{sandbox_dir, working_dir, FileSystem, IsFileSystem, same_place}
use open_thinking.Sandbox.Manager.{
  SandboxFileDiff, SandboxState, added, modified, deleted, DiffStatus, Applied, thrown,
  already_finalized, applied, new_text, remove_target, write_target, apply_diff, apply_diffs, diff,
  clean_up, apply,
}
use open_thinking.Sandbox.Manager.Diffs.{overlay, target, view, diff-IsDiff}

Status-cases : (s : DiffStatus) → (s ≡ deleted) ⊎ ((s ≡ added) ⊎ (s ≡ modified))
Status-cases deleted = inl refl
Status-cases added = inr (inl refl)
Status-cases modified = inr (inr refl)

module _ {Fs : Type 0} (fs : FileSystem Fs) (law : IsFileSystem fs) where
  -- The file of a difference becomes its target, and no other file of the project changes.
  Leads : SandboxFileDiff → Fs → Fs → Type 0
  Leads x d d' =
      (q : String)
      → law.content working_dir q d'
        ≡ (if x.path == q then target x else law.content working_dir q d)

  write_target-Leads :
      (x : SandboxFileDiff) (d d' : Fs) (n : ℕ)
      → target x ≡ some (new_text x)
      → write_target fs x d ≡ some (n, d')
      → Leads x d d'
  unfolding write_target Leads same_place
  write_target-Leads x d d' n t h q = elim (Option-cases (fs.make_parent working_dir x.path d)) [
    | inl e ↦ absurd (none-ne-some (n, d') (rw (write_target, e) at h))
    | inr (d₁, e) ↦ elim (Option-cases (fs.write working_dir x.path (new_text x) d₁)) [
      | inl f ↦ absurd (none-ne-some (n, d') (rw (write_target, e, f) at h))
      | inr (d₂, f) ↦
          let same = ap (λ r. r.1) (some-eq _ _ (rw (write_target, e, f) at h)) in
          ap (law.content working_dir q) (sym same)
          ∙ law.write_content working_dir x.path (new_text x) d₁ d₂ working_dir q f
          ∙ rw (law.make_parent_content working_dir x.path d d₁ working_dir q e, t) refl
    ]
  ]

  remove_target-Leads :
      (x : SandboxFileDiff) (d d' : Fs) (n : ℕ)
      → target x ≡ none
      → remove_target fs x d ≡ some (n, d')
      → Leads x d d'
  unfolding remove_target Leads same_place
  remove_target-Leads x d d' n t h q = elim (Bool-cases (fs.exists working_dir x.path d)) [
    | inr e ↦
        let same = ap (λ r. r.1) (some-eq _ _ (rw (remove_target, e) at h)) in
        ap (law.content working_dir q) (sym same) ∙ elim (Bool-cases (x.path == q)) [
          | inl f ↦
              rw (f, t)
                (ap (λ r. law.content working_dir r d) (sym ((eq_iff x.path q).0 f))
                  ∙ law.absent_content working_dir x.path d e)
          | inr f ↦ rw f refl
        ]
    | inl e ↦ elim (Option-cases (fs.remove working_dir x.path d)) [
      | inl f ↦ absurd (none-ne-some (n, d') (rw (remove_target, e, f) at h))
      | inr (d₂, f) ↦
          let same = ap (λ r. r.1) (some-eq _ _ (rw (remove_target, e, f) at h)) in
          ap (law.content working_dir q) (sym same)
          ∙ law.remove_content working_dir x.path d d₂ working_dir q f
          ∙ rw t refl
    ]
  ]

  apply_diff-Leads :
      (x : SandboxFileDiff) (d d' : Fs) (n : ℕ) → apply_diff fs x d ≡ some (n, d') → Leads x d d'
  unfolding apply_diff target
  apply_diff-Leads x d d' n h = elim (Status-cases x.status) [
    | inl e ↦ remove_target-Leads x d d' n (rw (target, e) refl) (rw (apply_diff, e) at h)
    | inr (inl e) ↦ write_target-Leads x d d' n (rw (target, e) refl) (rw (apply_diff, e) at h)
    | inr (inr e) ↦ write_target-Leads x d d' n (rw (target, e) refl) (rw (apply_diff, e) at h)
  ]

  -- A file ends as `v` where every difference of it leads there, and it is so or has a difference.
  apply_diffs-leads :
      (q : String) (v : Option String) (xs : List SandboxFileDiff) (count n : ℕ) (d d' : Fs)
      → apply_diffs fs xs count d ≡ (applied n, d')
      → ((x : SandboxFileDiff) → Elem x xs → x.path ≡ q → target x ≡ v)
      → (law.content working_dir q d ≡ v) ⊎ ((x : SandboxFileDiff) × Elem x xs × (x.path ≡ q))
      → law.content working_dir q d' ≡ v
  unfolding apply_diffs Leads
  apply_diffs-leads q v [] count n d d' h leads (inl e) =
      ap (λ r. law.content working_dir q r.1) (sym h) ∙ e
  apply_diffs-leads q v [] count n d d' h leads (inr (x, m, e)) = elim m [ ]
  apply_diffs-leads q v (x ∷ xs) count n d d' h leads start =
      elim (Option-cases (apply_diff fs x d)) [
        | inl e ↦ absurd (let h' = ap (λ r. r.0) (rw (apply_diffs, e) at h) in ground (arith, h'))
        | inr ((k, d₁), e) ↦
            let h' = rw (apply_diffs, e) at h in
            let step = apply_diff-Leads x d d₁ k e q in
            apply_diffs-leads q v xs (count + k) n d₁ d' h' (λ y m. leads y (inr m))
              (elim (Bool-cases (x.path == q)) [
                | inl f ↦ inl (step ∙ rw f (leads x (inl refl) ((eq_iff x.path q).0 f)))
                | inr f ↦ elim start [
                  | inl s ↦ inl (step ∙ rw f s)
                  | inr (y, m, s) ↦ elim m [
                    | inr l ↦ inr (y, l, s)
                    | inl same ↦
                        let t = (eq_iff x.path q).1 (ap (λ r. r.path) (sym same) ∙ s) in
                        absurd (ground (arith, f, t))
                  ]
                ]
              ])
      ]

  clean_up-applied :
      (r : Applied × Fs) (n : ℕ) (d' : Fs)
      → clean_up fs r ≡ (applied n, d')
      → (d : Fs) × (r ≡ (applied n, d)) × (d' ≡ fs.remove_sandbox d)
  unfolding clean_up
  clean_up-applied (applied m, d) n d' h =
      let count_eq : m ≡ n = ground (arith, h) in
      (d, ap (λ k. (applied k, d)) count_eq, sym (ap (λ r. r.1) h))
  clean_up-applied (thrown, d) n d' h = absurd (let h' = ap (λ r. r.0) h in ground (arith, h'))
  clean_up-applied (already_finalized, d) n d' h =
      absurd (let h' = ap (λ r. r.0) h in ground (arith, h'))

  pub apply-view :
      (le : String → String → Bool) (s : SandboxState) (n : ℕ) (d d' : Fs)
      → (apply fs le s d).1 ≡ (applied n, d')
      → (q : String) → law.content working_dir q d' ≡ view fs law q d
  unfolding apply clean_up view overlay
  apply-view le s n d d' h q = elim (Bool-cases s.finalized) [
    | inl e ↦ absurd (let h' = ap (λ r. r.0) (rw (apply, e) at h) in ground (arith, h'))
    | inr e ↦ elim (Option-cases (diff fs le d)) [
      | inl f ↦ absurd (let h' = ap (λ r. r.0) (rw (apply, e, f) at h) in ground (arith, h'))
      | inr (xs, f) ↦
          let found = diff-IsDiff fs law le d xs f in
          let (d₁, g, same) = clean_up-applied _ n d' (rw (apply, e, f) at h) in
          ap (law.content working_dir q) same
          ∙ law.remove_sandbox_content q d₁
          ∙ apply_diffs-leads q (view fs law q d) xs 0 n d d₁ g
              (λ x k t. found.leads x k ∙ ap (λ r. view fs law r d) t)
              (elim (Option-cases (law.content sandbox_dir q d)) [
                | inl a ↦ inl (rw (view, a, overlay) refl)
                | inr (c, a) ↦ found.covers q (law.tree_content q c d a)
              ])
    ]
  ]
