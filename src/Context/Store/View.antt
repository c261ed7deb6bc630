-- ===== src/Context/Store/View.antt =====
-- The context as a map: what a key holds at a time, whoever wrote it and however it is stored.
use mathlib.Core.Path.{subst}
use open_thinking.Base.{
  ℕ, String, ◌≤◌, ◌≡◌, sym, some-eq, refl, ap, ◌∙◌, ◌⊎◌, inl, inr, true, false, Option, none, some,
  arith, Bool-cases, Option-cases, ◌==◌, eq_iff, if◌then◌else◌,
}
use open_thinking.Result.{Result, ok, err}
use open_thinking.Errors.{ContextError, read_error}
use open_thinking.Context.Compression.{Gzip, is_compressed, maybe_decompress}
use open_thinking.Context.Compression.Laws.{maybe_decompress-maybe_compress}
use open_thinking.Context.Database.{Row, is_expired, Database, IsTable}
use open_thinking.Context.Store.{
  ContextEntry, Config, expiry, row_to_entry, new_row, get_row, get, set,
}

-- A value, and the stage that wrote it.
abbrev pub Held : Type 0
Held = String × String

abbrev held_by : String → Option String → Option Held
held_by stage none = none
held_by stage (some value) = some (value, stage)

abbrev pub contents : Option ContextEntry → Option Held
contents none = none
contents (some e) = some (e.value, e.created_by)

-- The time is not past the expiry.
abbrev pub NotPast : ℕ → Option ℕ → Type 0
NotPast now none = Unit {0}
NotPast now (some t) = now ≤ t

-- The compression is undone by the decompression.
abbrev pub Undone : Gzip → Type 0
Undone zip = (value : String) → zip.gunzip (zip.gzip value) ≡ some value

module _ (config : Config) where
  abbrev pub view_row : ℕ → Option Row → Option Held
  view_row now none = none
  view_row now (some r) =
      if is_expired now r then none else held_by r.created_by (maybe_decompress config.zip r.value)

  expired_iff : (now : ℕ) (r : Row) → NotPast now r.expires_at → is_expired now r ≡ false
  unfolding is_expired
  expired_iff now r h = elim (Option-cases r.expires_at) [
    | inl e ↦ rw (is_expired, e) refl
    | inr (t, e) ↦ let h' = rw e at h in rw (is_expired, e) (ground arith)
  ]

  -- What a new row shows until it expires.
  pub view-new_row :
      Undone config.zip
      → (t now : ℕ) (key value stage : String) → is_compressed value ≡ false
      → NotPast now (expiry config.default_ttl_ms t)
      → view_row now (some (new_row config t key value stage)) ≡ some (value, stage)
  unfolding new_row
  view-new_row undo t now key value stage plain h =
      rw
        (
          expired_iff now (new_row config t key value stage) h,
          maybe_decompress-maybe_compress config.zip undo value plain,
        )
        refl

module _ {Db : Type 0} (config : Config) (db : Database Db) (table : IsTable db) where
  -- What the key holds at the time.
  abbrev pub view : ℕ → String → Db → Option Held
  view now key d = view_row config now (table.row key d)

  deleted :
      (now : ℕ) (key : String) (row : Row) (d d' : Db)
      → some row ≡ table.row key d
      → is_expired now row ≡ true
      → db.delete key d ≡ some d'
      → (k : String) → view now k d' ≡ view now k d
  deleted now key row d d' e old h k = elim (Bool-cases (key == k)) [
    | inl s ↦
        let same = (eq_iff key k).0 s in
        rw (table.delete_row key d d' k h, s, ← same, ← e, old) refl
    | inr s ↦ rw (table.delete_row key d d' k h, s) refl
  ]

  -- A statement fails, or the decompression: the look-up, the deletion of the expired row of the key, or
  -- the decompression of its live row.
  pub data RowFails (now : ℕ) (key : String) (d : Db) (row : Row) : Type 0 where
    not_deleted : is_expired now row ≡ true → db.delete key d ≡ none → RowFails now key d row
    not_decompressed :
        is_expired now row ≡ false
        → maybe_decompress config.zip row.value ≡ none
        → RowFails now key d row

  pub data Fails (now : ℕ) (key : String) (d : Db) : Type 0 where
    not_selected : db.select key d ≡ none → Fails now key d
    row_failed : (row : Row) → table.row key d ≡ some row → RowFails now key d row → Fails now key d

  not-Fails :
      (now : ℕ) (key : String) (d : Db) (row : Row)
      → db.select key d ≡ some (some row)
      → ¬ RowFails now key d row
      → ¬ Fails now key d
  not-Fails now key d row found quiet (not_selected e) = absurd (ground (arith, found, e))
  not-Fails now key d row found quiet (row_failed row' e fails) =
      let same = some-eq row row' (table.select_row key d (some row) found ∙ e) in
      quiet (subst (RowFails now key d) (sym same) fails)

  absent-not-Fails :
      (now : ℕ) (key : String) (d : Db) → db.select key d ≡ some none → ¬ Fails now key d
  absent-not-Fails now key d found (not_selected e) = absurd (ground (arith, found, e))
  absent-not-Fails now key d found (row_failed row e _) =
      let r = table.select_row key d none found ∙ e in absurd (ground (arith, r))

  deleted-not-RowFails :
      (now : ℕ) (key : String) (d d' : Db) (row : Row)
      → is_expired now row ≡ true
      → db.delete key d ≡ some d'
      → ¬ RowFails now key d row
  deleted-not-RowFails now key d d' row old f (not_deleted _ g) = absurd (ground (arith, f, g))
  deleted-not-RowFails now key d d' row old f (not_decompressed g _) =
      absurd (ground (arith, old, g))

  read-not-RowFails :
      (now : ℕ) (key value : String) (d : Db) (row : Row)
      → is_expired now row ≡ false
      → maybe_decompress config.zip row.value ≡ some value
      → ¬ RowFails now key d row
  read-not-RowFails now key value d row live f (not_deleted g _) = absurd (ground (arith, live, g))
  read-not-RowFails now key value d row live f (not_decompressed _ g) =
      absurd (ground (arith, f, g))

  -- What `get` returns: the error of a failure, or what the key holds where nothing fails; no key holds
  -- anything else afterwards.
  abbrev pub Reads : ℕ → String → Db → Result (Option ContextEntry) ContextError × Db → Type 0
  Reads now key d out =
      (Fails now key d × (out ≡ (err (record { code = read_error; key = some key }), d)))
      ⊎ ((entry : Option ContextEntry) × (out.0 ≡ ok entry)
          × ¬ Fails now key d
          × (contents entry ≡ view now key d)
          × ((k : String) → view now k out.1 ≡ view now k d))

  get_row-Reads :
      (now : ℕ) (key : String) (row : Row) (d : Db)
      → some row ≡ table.row key d
      → db.select key d ≡ some (some row)
      → Reads now key d (get_row config db now key row d)
  unfolding get_row row_to_entry
  get_row-Reads now key row d e found = elim (Bool-cases (is_expired now row)) [
    | inl old ↦ elim (Option-cases (db.delete key d)) [
      | inl f ↦ rw (get_row, old, f) (inl (row_failed row (sym e) (not_deleted old f), refl))
      | inr (d', f) ↦
          rw (get_row, old, f)
            (inr (
              none,
              refl,
              not-Fails now key d row found (deleted-not-RowFails now key d d' row old f),
              rw (← e, old) refl,
              deleted now key row d d' e old f,
            ))
    ]
    | inr live ↦ elim (Option-cases (maybe_decompress config.zip row.value)) [
      | inl f ↦ rw (get_row, live, f) (inl (row_failed row (sym e) (not_decompressed live f), refl))
      | inr (value, f) ↦
          rw (get_row, live, f)
            (inr (
              _,
              refl,
              not-Fails now key d row found (read-not-RowFails now key value d row live f),
              rw (← e, live, f) refl,
              (λ k. refl),
            ))
    ]
  ]

  -- Reading a key returns an error, with the code READ_ERROR and the key, exactly when the look-up fails,
  -- the deletion of the key's expired row fails, or its live row cannot be decompressed; and then the
  -- database is as it was. Otherwise it returns what the key holds, and changes what no key holds.
  pub get-Reads : (now : ℕ) (key : String) (d : Db) → Reads now key d (get config db now key d)
  unfolding get
  get-Reads now key d = elim (Option-cases (db.select key d)) [
    | inl e ↦ rw (get, e) (inl (not_selected e, refl))
    | inr (none, e) ↦
        rw (get, e)
          (inr (
            none,
            refl,
            absent-not-Fails now key d e,
            rw (← table.select_row key d none e) refl,
            (λ k. refl),
          ))
    | inr (some row, e) ↦
        rw (get, e) (get_row-Reads now key row d (table.select_row key d (some row) e) e)
  ]

  pub view-upsert :
      (now : ℕ) (row : Row) (d d' : Db)
      → db.upsert row d ≡ some d'
      → (k : String)
      → view now k d' ≡ (if row.key == k then view_row config now (some row) else view now k d)
  view-upsert now row d d' e k = elim (Bool-cases (row.key == k)) [
    | inl s ↦ rw (table.upsert_row row d d' k e, s) refl
    | inr s ↦ rw (table.upsert_row row d d' k e, s) refl
  ]

  -- Writing a value that does not begin with the mark of compressed texts fails and changes nothing, or
  -- it makes the key hold the value, with the stage that wrote it, until it expires, and leaves every
  -- other key as it was.
  pub set-view :
      Undone config.zip
      → (t now : ℕ) (key value stage : String) (d : Db) → is_compressed value ≡ false
      → NotPast now (expiry config.default_ttl_ms t)
      → (let out = set config db t key value stage d in
          ((e : ContextError) × (out ≡ (err e, d)))
          ⊎ ((out.0 ≡ ok tt)
              × ((k : String)
                  → view now k out.1 ≡ (if key == k then some (value, stage) else view now k d))))
  unfolding set
  set-view undo t now key value stage d plain h =
      elim (Option-cases (db.upsert (new_row config t key value stage) d)) [
        | inl e ↦ rw (set, e) (inl (_, refl))
        | inr (d', e) ↦
            rw (set, e)
              (inr (
                refl,
                (λ k.
                    view-upsert now (new_row config t key value stage) d d' e k
                    ∙ ap (λ v. if key == k then v else view now k d)
                        (view-new_row config undo t now key value stage plain h)),
              ))
      ]
