-- ===== src/Sandbox/Tools/Session/Laws.antt =====
-- The changes of a session, followed at one path.
use open_thinking.Base.{
  ℕ, String, ◌≡◌, refl, sym, ap, ◌∙◌, ◌⊎◌, inl, inr, Bool, ◌&&◌, none, some, List, [], ◌∷◌, ◌==◌,
  Bool-cases, Option-cases, if◌then◌else◌, some-eq, none-ne-some,
}
use open_thinking.Result.{Result}
use open_thinking.Agent.Text.{Args, text_arg}
use open_thinking.Sandbox.Files.{
  Place, sandbox_dir, working_dir, same_place, FileSystem, IsFileSystem,
}
use open_thinking.Sandbox.Manager.{
  SandboxState, applied, tombstone_marker, create_sandbox, resolve_read_path, resolve_write_path,
  mark_deleted, apply,
}
use open_thinking.Sandbox.Manager.Diffs.{overlay, view}
use open_thinking.Sandbox.Manager.Laws.{apply-view}
use open_thinking.Sandbox.Tools.{Paths, path_arg, safe_relative, write_content_to, write_file}
use open_thinking.Sandbox.Tools.Session.{
  Change, write, delete, kept, written, replay, change, run_session, read_shown,
}

module _ {Fs : Type 0} (fs : FileSystem Fs) (law : IsFileSystem fs) where
  -- The sandbox holds `text` at a path, and nothing else has changed.
  Puts : String → String → Fs → Fs → Type 0
  Puts rel text d d' =
      (place : Place) (q : String)
      → law.content place q d'
        ≡ (if same_place sandbox_dir place && rel == q then some text else law.content place q d)

  parent-write-Puts :
      (rel text : String) (d d₁ d₂ : Fs)
      → fs.make_parent sandbox_dir rel d ≡ some d₁
      → fs.write sandbox_dir rel text d₁ ≡ some d₂
      → Puts rel text d d₂
  unfolding Puts
  parent-write-Puts rel text d d₁ d₂ e f place q =
      law.write_content sandbox_dir rel text d₁ d₂ place q f
      ∙ ap (λ old. if same_place sandbox_dir place && rel == q then some text else old)
          (law.make_parent_content sandbox_dir rel d d₁ place q e)

  mark_deleted-Puts :
      (rel : String) (s s' : SandboxState) (d d' : Fs)
      → mark_deleted fs rel s d ≡ some (s', d')
      → Puts rel tombstone_marker d d'
  unfolding mark_deleted
  mark_deleted-Puts rel s s' d d' h = elim (Option-cases (fs.make_parent sandbox_dir rel d)) [
    | inl e ↦ absurd (none-ne-some (s', d') (rw (mark_deleted, e) at h))
    | inr (d₁, e) ↦ elim (Option-cases (fs.write sandbox_dir rel tombstone_marker d₁)) [
      | inl f ↦ absurd (none-ne-some (s', d') (rw (mark_deleted, e, f) at h))
      | inr (d₂, f) ↦
          let same = ap (λ r. r.1) (some-eq _ _ (rw (mark_deleted, e, f) at h)) in
          rw (← same) (parent-write-Puts rel tombstone_marker d d₁ d₂ e f)
    ]
  ]

  module _ (paths : Paths) (root : String) where
    write_content_to-Puts :
        (path rel text : String) (s : SandboxState) (d d' : Fs) (r : Result String String)
        (s' : SandboxState)
        → write_content_to paths root fs path rel text s d ≡ some (r, (s', d'))
        → Puts rel text d d'
    unfolding write_content_to resolve_write_path
    write_content_to-Puts path rel text s d d' r s' h =
        elim (Option-cases (fs.make_parent sandbox_dir rel d)) [
          | inl e ↦
              absurd
                (none-ne-some (r, (s', d')) (rw (write_content_to, resolve_write_path, e) at h))
          | inr (d₁, e) ↦ elim (Option-cases (fs.write sandbox_dir rel text d₁)) [
            | inl f ↦
                absurd (
                  none-ne-some (r, (s', d')) (rw (write_content_to, resolve_write_path, e, f) at h))
            | inr (d₂, f) ↦
                let same =
                  ap (λ x. x.1.1)
                    (some-eq _ _ (rw (write_content_to, resolve_write_path, e, f) at h)) in
                rw (← same) (parent-write-Puts rel text d d₁ d₂ e f)
          ]
        ]

    -- A call of `write_file` puts the text that it is given, or it changes nothing.
    write_file-cases :
        (args : Args) (s : SandboxState) (d d' : Fs) (r : Result String String) (s' : SandboxState)
        → write_file paths root fs args s d ≡ some (r, (s', d'))
        → ((written paths root args ≡ none) × (d ≡ d'))
          ⊎ ((put : String × String) × (written paths root args ≡ some put) × Puts put.0 put.1 d d')
    unfolding written write_file
    write_file-cases args s d d' r s' h = elim (Option-cases (path_arg paths root args)) [
      | inl e ↦ inl (rw (written, e) refl, ap (λ x. x.1.1) (some-eq _ _ (rw (write_file, e) at h)))
      | inr (path, e) ↦ elim (Option-cases (text_arg "content" args.texts)) [
        | inl f ↦
            inl
              (rw (written, e, f) refl, ap (λ x. x.1.1) (some-eq _ _ (rw (write_file, e, f) at h)))
        | inr (text, f) ↦ elim (Option-cases (safe_relative paths root path)) [
          | inl g ↦ inl (
            rw (written, e, f, g) refl,
            ap (λ x. x.1.1) (some-eq _ _ (rw (write_file, e, f, g) at h)),
          )
          | inr (rel, g) ↦ inr (
            (rel, text),
            rw (written, e, f, g) refl,
            write_content_to-Puts path rel text s d d' r s' (rw (write_file, e, f, g) at h),
          )
        ]
      ]
    ]

    -- Where the project is as before, the view of a path that text was put at is that text.
    Puts-view :
        (rel text q : String) (d d' : Fs)
        → Puts rel text d d'
        → (law.content working_dir q d' ≡ law.content working_dir q d)
          × (view fs law q d' ≡ (if rel == q then kept text else view fs law q d))
    unfolding Puts same_place view overlay kept
    Puts-view rel text q d d' puts = (
      puts working_dir q,
      ap (λ c. overlay c (law.content working_dir q d')) (puts sandbox_dir q)
          ∙ ap (λ c. overlay (if rel == q then some text else law.content sandbox_dir q d) c)
              (puts working_dir q)
          ∙ elim (Bool-cases (rel == q)) [ inl e ↦ rw (e, overlay) refl | inr e ↦ rw e refl ],
    )

    run_session-view :
        (q : String) (changes : List Change) (s s' : SandboxState) (d d' : Fs)
        → run_session paths root fs changes s d ≡ some (s', d')
        → (law.content working_dir q d' ≡ law.content working_dir q d)
          × (view fs law q d' ≡ replay paths root q changes (view fs law q d))
    unfolding run_session replay
    run_session-view q [] s s' d d' h =
        let same = ap (λ x. x.1) (some-eq _ _ h) in rw (← same) (refl, refl)
    run_session-view q (write args ∷ changes) s s' d d' h =
        elim (Option-cases (write_file paths root fs args s d)) [
          | inl e ↦ absurd (none-ne-some (s', d') (rw (run_session, change, e) at h))
          | inr ((r, (s₁, d₁)), e) ↦
              let h' = rw (run_session, change, e) at h in
              let (below, shown) = run_session-view q changes s₁ s' d₁ d' h' in
              elim (write_file-cases args s d d₁ r s₁ e) [
                | inl (w, same) ↦ (
                  below ∙ ap (law.content working_dir q) (sym same),
                  shown ∙ rw w (ap (λ x. replay paths root q changes (view fs law q x)) (sym same)),
                )
                | inr ((rel, text), w, puts) ↦
                    let (b, v) = Puts-view rel text q d d₁ puts in
                    (below ∙ b, shown ∙ rw w (ap (replay paths root q changes) v))
              ]
        ]
    run_session-view q (delete rel ∷ changes) s s' d d' h =
        elim (Option-cases (mark_deleted fs rel s d)) [
          | inl e ↦ absurd (none-ne-some (s', d') (rw (run_session, change, e) at h))
          | inr ((s₁, d₁), e) ↦
              let h' = rw (run_session, change, e) at h in
              let (below, shown) = run_session-view q changes s₁ s' d₁ d' h' in
              let (b, v) =
                Puts-view rel tombstone_marker q d d₁ (mark_deleted-Puts rel s s₁ d d₁ e) in
              let gone : kept tombstone_marker ≡ none = unfold kept in refl in
              (below ∙ b, shown ∙ ap (replay paths root q changes) (v ∙ rw gone refl))
        ]

  read_shown-view :
      (q : String) (d : Fs) → (read_shown fs q d ≡ none) ⊎ (read_shown fs q d ≡ view fs law q d)
  unfolding read_shown resolve_read_path view overlay
  read_shown-view q d = elim (Bool-cases (fs.exists sandbox_dir q d)) [
    | inr e ↦
        let empty = law.absent_content sandbox_dir q d e in
        elim (Option-cases (fs.read working_dir q d)) [
          | inl f ↦ inl (rw (read_shown, resolve_read_path, e, f) refl)
          | inr (c, f) ↦ inr (
              rw (read_shown, resolve_read_path, e, f, empty, overlay)
                (sym (law.read_content working_dir q c d f)))
        ]
    | inl e ↦ elim (Option-cases (fs.read sandbox_dir q d)) [
      | inl f ↦ inl (rw (read_shown, resolve_read_path, e, f, f) refl)
      | inr (c, f) ↦ elim (Bool-cases (c == tombstone_marker)) [
        | inl g ↦ inl (rw (read_shown, resolve_read_path, e, f, g) refl)
        | inr g ↦ inr (
            rw
              (
                read_shown,
                resolve_read_path,
                e,
                f,
                g,
                f,
                law.read_content sandbox_dir q c d f,
                overlay,
                g,
              )
              refl)
      ]
    ]
  ]

-- A session of writes and deletions in a new sandbox, none of whose calls throws, leaves every file of
-- the project as it was. When `apply` then succeeds, every file holds what the last change of its path
-- gave it, or what it held before if no change names it (a written text that equals the mark of a
-- deleted file counts as a deletion); and what a read through the sandbox returned before `apply`,
-- where it returned a text, is what the file holds after.
pub session-applied :
    {Fs : Type 0} (fs : FileSystem Fs) (law : IsFileSystem fs) (paths : Paths) (root id : String)
    (le : String → String → Bool) (changes : List Change) (d₀ d d' : Fs) (s : SandboxState) (n : ℕ)
    (q : String)
    → law.content sandbox_dir q d₀ ≡ none
    → run_session paths root fs changes (create_sandbox id) d₀ ≡ some (s, d)
    → (apply fs le s d).1 ≡ (applied n, d')
    → (law.content working_dir q d ≡ law.content working_dir q d₀)
      × (law.content working_dir q d' ≡ replay paths root q changes (law.content working_dir q d₀))
      × ((read_shown fs q d ≡ none) ⊎ (read_shown fs q d ≡ law.content working_dir q d'))
session-applied fs law paths root id le changes d₀ d d' s n q fresh run done =
    let (same, shown) =
      run_session-view fs law paths root q changes (create_sandbox id) s d₀ d run in
    let left = apply-view fs law le s n d d' done q in
    let start : view fs law q d₀ ≡ law.content working_dir q d₀ =
      unfold view in rw (fresh, overlay) refl in
    (
      same,
      left ∙ shown ∙ ap (replay paths root q changes) start,
      elim (read_shown-view fs law q d) [ inl e ↦ inl e | inr e ↦ inr (e ∙ sym left) ],
    )
