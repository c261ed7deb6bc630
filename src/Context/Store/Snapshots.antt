-- ===== src/Context/Store/Snapshots.antt =====
-- A snapshot brings back what every key held when it was taken.
use open_thinking.Base.{
  ℕ, String, ◌≡◌, refl, sym, ap, ◌∙◌, ◌↔◌, inl, inr, true, false, not, Option, none, some, List, [],
  ◌∷◌, arith, Bool-cases, Option-cases, ◌==◌, eq_iff, if◌then◌else◌, map, length, Elem, mem-keep,
}
use open_thinking.Result.{ok}
use open_thinking.Context.Compression.{is_compressed, maybe_decompress}
use open_thinking.Context.Database.{Row, SnapshotRow, is_expired, Database, IsTable}
use open_thinking.Context.Store.{
  Config, SavedEntry, ContextSnapshot, expiry, all_some, new_row, live_rows, saved_entry,
  saved_entries, save_snapshot, restore_entries, restore_from, restore_snapshot,
}
use open_thinking.Context.Store.Replay.{all_some-from, all_some-to, replay, replay-eq}
use open_thinking.Context.Store.View.{
  Held, NotPast, Undone, view_row, view, view-new_row, view-upsert,
}

module _ {Db : Type 0} (config : Config) (db : Database Db) (table : IsTable db) where
  restore_entries-replay :
      Undone config.zip
      → (t now : ℕ) (entries : List SavedEntry) (d d' : Db)
      → ((e : SavedEntry) → Elem e entries → is_compressed e.value ≡ false)
      → NotPast now (expiry config.default_ttl_ms t)
      → restore_entries config db t entries d ≡ (true, d')
      → (k : String)
      → view config db table now k d' ≡ replay k entries (view config db table now k d)
  unfolding restore_entries new_row
  restore_entries-replay undo t now [] d d' plain fresh h k =
      ap (λ p. view config db table now k p.1) (sym h)
  restore_entries-replay undo t now (e ∷ entries) d d' plain fresh h k =
      elim (Option-cases (db.upsert (new_row config t e.key e.value e.created_by) d)) [
        | inl f ↦ let h' = rw (restore_entries, f) at h in absurd (ground (arith, ap (λ p. p.0) h'))
        | inr (d₁, f) ↦
            let h' = rw (restore_entries, f) at h in
            let row = new_row config t e.key e.value e.created_by in
            let first =
              view-upsert config db table now row d d₁ f k
              ∙ ap (λ v. if e.key == k then v else view config db table now k d)
                  (view-new_row config undo t now e.key e.value e.created_by (plain e (inl refl))
                    fresh) in
            restore_entries-replay undo t now entries d₁ d' (λ x m. plain x (inr m)) fresh h' k
            ∙ ap (replay k entries) first
      ]

  saved_rows :
      (t : ℕ) (d : Db) (entries : List SavedEntry)
      → saved_entries config db t d ≡ some entries
      → (rs : List Row) × (db.list_all d ≡ some rs)
        × (all_some (map (saved_entry config) (live_rows t rs)) ≡ some entries)
  unfolding saved_entries
  saved_rows t d entries h = elim (Option-cases (db.list_all d)) [
    | inl e ↦ absurd (let h' = rw (saved_entries, e) at h in ground (arith, h'))
    | inr (rs, e) ↦ (rs, e, rw (saved_entries, e) at h)
  ]

  saved_entry-eq :
      (r : Row) (e : SavedEntry)
      → saved_entry config r ≡ some e
      → (e.key ≡ r.key)
        × (e.created_by ≡ r.created_by)
        × (maybe_decompress config.zip r.value ≡ some e.value)
  unfolding saved_entry
  saved_entry-eq r e h = elim (Option-cases (maybe_decompress config.zip r.value)) [
    | inl f ↦ absurd (let h' = rw (saved_entry, f) at h in ground (arith, h'))
    | inr (v, f) ↦
        let h' = rw (saved_entry, f) at h in
        let same : record { key = r.key; value = v; created_by = r.created_by } ≡ e =
          ground (arith, h') in
        (
          ap (λ x. x.key) (sym same),
          ap (λ x. x.created_by) (sym same),
          f ∙ ap (λ x. some x.value) same,
        )
  ]

  live :
      (t : ℕ) (rs : List Row) (r : Row)
      → Elem r (live_rows t rs) ↔ (Elem r rs × (not (is_expired t r) ≡ true))
  unfolding live_rows
  live t rs r = mem-keep (λ x. not (is_expired t x)) r rs

  module _ (t : ℕ) (d : Db) (entries : List SavedEntry)
      (h : saved_entries config db t d ≡ some entries) where
    -- An entry of the snapshot is what its key holds.
    saved_held :
        (e : SavedEntry)
        → Elem e entries
        → view config db table t e.key d ≡ some (e.value, e.created_by)
    saved_held e m =
        let (rs, listed, all) = saved_rows t d entries h in
        let (r, n, f) = all_some-from (saved_entry config) (live_rows t rs) entries e all m in
        let (k, b, v) = saved_entry-eq r e f in
        let (n', l) = (live t rs r).0 n in
        let fresh : is_expired t r ≡ false = ground (arith, l) in
        rw (k, table.list_row d rs r listed n', fresh, v, b) refl

    -- What a key holds is in the snapshot.
    held_saved :
        (k : String) (v : Held)
        → view config db table t k d ≡ some v
        → (e : SavedEntry) × Elem e entries × ((e.key == k) ≡ true)
    held_saved k v g = elim (Option-cases (table.row k d)) [
      | inl e ↦ absurd (let g' = rw e at g in ground (arith, g'))
      | inr (r, e) ↦ elim (Bool-cases (is_expired t r)) [
        | inl old ↦ absurd (let g' = rw (e, old) at g in ground (arith, g'))
        | inr fresh ↦
            let (rs, listed, all) = saved_rows t d entries h in
            let (named, m) = table.row_listed d rs r k listed e in
            let m' = (live t rs r).1 (m, ground (arith, fresh)) in
            let (x, n, f) = all_some-to (saved_entry config) (live_rows t rs) entries r all m' in
            (x, n, (eq_iff x.key k).1 ((saved_entry-eq r x f).0 ∙ named))
      ]
    ]

    replay-saved : (k : String) → replay k entries none ≡ view config db table t k d
    replay-saved k =
        replay-eq k entries none (view config db table t k d)
          (λ e m s.
            sym (saved_held e m) ∙ ap (λ x. view config db table t x d) ((eq_iff e.key k).0 s))
          (elim (Option-cases (view config db table t k d)) [
            | inl e ↦ inl (sym e)
            | inr (v, e) ↦ inr (held_saved k v e)
          ])

  saved_snapshot :
      (t : ℕ) (id name stage : String) (description : Option String) (d d' : Db)
      (snapshot : ContextSnapshot)
      → save_snapshot config db t id name stage description d ≡ (ok snapshot, d')
      → (entries : List SavedEntry) × (row : SnapshotRow) × (saved_entries config db t d
          ≡ some entries)
        × (table.snapshot id d' ≡ some row)
        × (row.content ≡ config.write_json entries)
  unfolding save_snapshot
  saved_snapshot t id name stage description d d' snapshot h =
      elim (Option-cases (saved_entries config db t d)) [
        | inl e ↦ absurd (let h' = rw (save_snapshot, e) at h in ground (arith, ap (λ p. p.0) h'))
        | inr (entries, e) ↦
            let row : SnapshotRow = record {
              id = id;
              name = name;
              description = description;
              created_at = t;
              created_by = stage;
              entry_count = length entries;
              content = config.write_json entries;
            } in
            elim (Option-cases (db.insert_snapshot row d)) [
              | inl f ↦
                  absurd
                    (let h' = rw (save_snapshot, e, f) at h in ground (arith, ap (λ p. p.0) h'))
              | inr (x, f) ↦
                  let h' = rw (save_snapshot, e, f) at h in
                  (
                    entries,
                    row,
                    e,
                    rw (← ap (λ p. p.1) h') ((table.insert_snapshot_row row d x f).0),
                    refl,
                  )
            ]
      ]

  restored_entries :
      (t : ℕ) (id : String) (row : SnapshotRow) (entries : List SavedEntry) (d d' : Db) (n : ℕ)
      → table.snapshot id d ≡ some row
      → config.read_json row.content ≡ some entries
      → restore_snapshot config db t id d ≡ (ok n, d')
      → (cleared : Db) × (db.clear d ≡ some cleared)
        × (restore_entries config db t entries cleared ≡ (true, d'))
  unfolding restore_snapshot restore_from
  restored_entries t id row entries d d' n s j h = elim (Option-cases (db.select_snapshot id d)) [
    | inl e ↦ absurd (let h' = rw (restore_snapshot, e) at h in ground (arith, ap (λ p. p.0) h'))
    | inr (o, e) ↦
        let found : o ≡ some row = table.select_snapshot_row id d o e ∙ s in
        let e' = e ∙ ap some found in
        elim (Option-cases (db.clear d)) [
          | inl f ↦ absurd (
              let h' = rw (restore_snapshot, e', j, restore_from, f) at h in
              ground (arith, ap (λ p. p.0) h'))
          | inr (cleared, f) ↦
              let h' = rw (restore_snapshot, e', j, restore_from, f) at h in
              (
                cleared,
                f,
                elim (Bool-cases (restore_entries config db t entries cleared).0) [
                  | inl g ↦ let h'' = rw g at h' in rw (← g, ← ap (λ p. p.1) h'') refl
                  | inr g ↦ absurd (let h'' = rw g at h' in ground (arith, ap (λ p. p.0) h''))
                ],
              )
        ]
  ]

-- Where decompression undoes compression, JSON is read as it was written, and no value begins with the
-- mark of compressed texts: when a snapshot was saved, the database changed in any way that keeps the
-- snapshot, and the snapshot is restored, every key holds what it held when the snapshot was taken,
-- until the restored entries expire. What was written in between is gone.
pub restore_snapshot-save_snapshot :
    {Db : Type 0} (config : Config) (db : Database Db) (table : IsTable db)
    → Undone config.zip
    → ((entries : List SavedEntry) → config.read_json (config.write_json entries) ≡ some entries)
    → (t t' now : ℕ) (id name stage : String) (description : Option String) (d₀ d₁ d₂ d₃ : Db)
      (snapshot : ContextSnapshot) (n : ℕ)
    → ((k : String) (v : Held) → view config db table t k d₀ ≡ some v → is_compressed v.0 ≡ false)
    → save_snapshot config db t id name stage description d₀ ≡ (ok snapshot, d₁)
    → table.snapshot id d₂ ≡ table.snapshot id d₁
    → restore_snapshot config db t' id d₂ ≡ (ok n, d₃)
    → NotPast now (expiry config.default_ttl_ms t')
    → (k : String) → view config db table now k d₃ ≡ view config db table t k d₀
restore_snapshot-save_snapshot config db table undo json t t' now id name stage description d₀ d₁ d₂
      d₃ snapshot n plain saved kept restored fresh k =
    let (entries, row, s, stored, content) =
      saved_snapshot config db table t id name stage description d₀ d₁ snapshot saved in
    let (cleared, c, r) =
      restored_entries config db table t' id row entries d₂ d₃ n (kept ∙ stored)
        (ap config.read_json content ∙ json entries) restored in
    let all_plain : (e : SavedEntry) → Elem e entries → is_compressed e.value ≡ false =
      λ e m. plain e.key _ (saved_held config db table t d₀ entries s e m) in
    restore_entries-replay config db table undo t' now entries cleared d₃ all_plain fresh r k
    ∙ ap (λ o. replay k entries (view_row config now o)) (table.clear_row d₂ cleared k c)
    ∙ replay-saved config db table t d₀ entries s k
