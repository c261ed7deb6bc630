-- ===== src/Context/Store.antt =====
-- src/context/store/context-store.ts, `createContextStore`. Each operation returns its result and the
-- database that it leaves. The clock, the id that a snapshot gets, the default time to live, the
-- JSON functions and the compression are parameters; an operation whose statement throws returns an
-- error, with the database as it is at that point.
pub mod View
mod Replay
pub mod Snapshots
use Prim.Native.String
use open_thinking.Base.{
  ℕ, String, ◌+◌, Bool, true, false, not, Option, none, some, List, [], ◌∷◌, ◌++◌, ◌==◌, eqb, ltb,
  if◌then◌else◌, keep, length, map,
}
use open_thinking.Result.{Result, Void, ok, err}
use open_thinking.Errors.{ContextError, read_error, write_error}
use open_thinking.Context.Compression.{
  Gzip, maybe_compress, maybe_decompress, CompressionStats, compute_compression_stats, StoredPair,
}
use open_thinking.Context.Database.{Row, SnapshotRow, is_expired, Database}

pub record ContextEntry : Type 0 where
  pub key : String
  pub value : String
  pub created_by : String
  pub created_at : ℕ
  pub expires_at : Option ℕ

pub record ContextSnapshot : Type 0 where
  pub id : String
  pub name : String
  pub description : Option String
  pub created_at : ℕ
  pub created_by : String
  pub entry_count : ℕ

-- An entry of a snapshot.
pub record SavedEntry : Type 0 where
  pub key : String
  pub value : String
  pub created_by : String

pub record ContextSnapshotFull : Type 0 where
  pub snapshot : ContextSnapshot
  pub entries : List SavedEntry

pub record Config : Type 0 where
  pub zip : Gzip
  pub default_ttl_ms : Option ℕ
  -- `JSON.stringify(entries)`, and `JSON.parse`, which may throw.
  pub write_json : List SavedEntry → String
  pub read_json : String → Option (List SavedEntry)

abbrev pub read_failed : ContextError
read_failed = record { code = read_error; key = none }

abbrev pub write_failed : ContextError
write_failed = record { code = write_error; key = none }

-- What a list of texts that may not be decompressed amounts to: all, or an error.
unfoldable pub all_some : {A : Type 0} → List (Option A) → Option (List A)
all_some [] = some []
all_some (none ∷ xs) = none
all_some (some x ∷ xs) = elim (all_some xs) [ none ↦ none | some ys ↦ some (x ∷ ys) ]

-- `defaultTtlMs ? … : null`
unfoldable pub expiry : Option ℕ → ℕ → Option ℕ
expiry none now = none
expiry (some ttl) now = if eqb ttl 0 then none else some (now + ttl)

unfoldable pub snapshot_of : SnapshotRow → ContextSnapshot
snapshot_of r = record {
  id = r.id;
  name = r.name;
  description = r.description;
  created_at = r.created_at;
  created_by = r.created_by;
  entry_count = r.entry_count;
}

-- Rows that are not expired, as entries.
unfoldable pub live_rows : ℕ → List Row → List Row
unfolding is_expired
live_rows now rows = keep (λ r. not (is_expired now r)) rows

unfoldable pub entries_result : Option (List ContextEntry) → Result (List ContextEntry) ContextError
entries_result none = err read_failed
entries_result (some entries) = ok entries

module _ (config : Config) where
  unfoldable pub row_to_entry : Row → Option ContextEntry
  row_to_entry row = elim (maybe_decompress config.zip row.value) [
    | none ↦ none
    | some value ↦ some (record {
      key = row.key;
      value = value;
      created_by = row.created_by;
      created_at = row.created_at;
      expires_at = row.expires_at;
    })
  ]

  -- What `set` and `restoreSnapshot` store.
  unfoldable pub new_row : ℕ → String → String → String → Row
  unfolding expiry
  new_row now key value created_by = record {
    key = key;
    value = (maybe_compress config.zip value).stored;
    created_by = created_by;
    created_at = now;
    expires_at = expiry config.default_ttl_ms now;
  }

  unfoldable pub entries_of : List Row → Option (List ContextEntry)
  unfolding all_some row_to_entry
  entries_of rows = all_some (map row_to_entry rows)

  unfoldable pub saved_entry : Row → Option SavedEntry
  saved_entry r = elim (maybe_decompress config.zip r.value) [
    | none ↦ none
    | some value ↦ some (record { key = r.key; value = value; created_by = r.created_by })
  ]

  unfoldable pub stored_pair : Row → Option StoredPair
  stored_pair r = elim (maybe_decompress config.zip r.value) [
    | none ↦ none
    | some raw ↦ some (r.value, raw)
  ]

module _ {Db : Type 0} (config : Config) (db : Database Db) where
  -- A row was selected.
  unfoldable pub get_row : ℕ → String → Row → Db → Result (Option ContextEntry) ContextError × Db
  unfolding is_expired row_to_entry
  get_row now key row d =
      let failed : ContextError = record { code = read_error; key = some key } in
      elim (is_expired now row) [
        | true ↦ elim (db.delete key d) [ none ↦ (err failed, d) | some d' ↦ (ok none, d') ]
        | false ↦ elim (row_to_entry config row) [
          | none ↦ (err failed, d)
          | some e ↦ (ok (some e), d)
        ]
      ]

  unfoldable pub get : ℕ → String → Db → Result (Option ContextEntry) ContextError × Db
  unfolding get_row
  get now key d = elim (db.select key d) [
    | none ↦ (err (record { code = read_error; key = some key }), d)
    | some none ↦ (ok none, d)
    | some (some row) ↦ get_row now key row d
  ]

  unfoldable pub set : ℕ → String → String → String → Db → Result Void ContextError × Db
  unfolding new_row
  set now key value created_by d = elim (db.upsert (new_row config now key value created_by) d) [
    | none ↦ (err (record { code = write_error; key = some key }), d)
    | some d' ↦ (ok tt, d')
  ]

  unfoldable pub del : String → Db → Result Void ContextError × Db
  del key d = elim (db.delete key d) [
    | none ↦ (err (record { code = write_error; key = some key }), d)
    | some d' ↦ (ok tt, d')
  ]

  unfoldable pub list : ℕ → Option String → Db → Result (List ContextEntry) ContextError
  unfolding live_rows entries_of entries_result
  list now prefix d =
      let found : Option (Db → Option (List Row)) = elim prefix [
        | none ↦ none
        | some p ↦ if p == "" then none else some (db.list (String.◌++◌ p "%"))
      ] in
      let rows : Option (List Row) = elim found [ none ↦ db.list_all d | some query ↦ query d ] in
      elim rows [
        | none ↦ err read_failed
        | some rs ↦ entries_result (entries_of config (live_rows now rs))
      ]

  unfoldable pub clear : Db → Result Void ContextError × Db
  clear d = elim (db.clear d) [ none ↦ (err write_failed, d) | some d' ↦ (ok tt, d') ]

  unfoldable pub inspect : Db → Result (List ContextEntry) ContextError
  unfolding entries_of entries_result
  inspect d = elim (db.list_all d) [
    | none ↦ err read_failed
    | some rows ↦ entries_result (entries_of config rows)
  ]

  unfoldable pub purge_expired : ℕ → Db → Result ℕ ContextError × Db
  purge_expired now d = elim (db.purge_expired now d) [
    | none ↦ (err write_failed, d)
    | some (d', changes) ↦ (ok changes, d')
  ]

  -- The live rows, as a snapshot keeps them.
  unfoldable pub saved_entries : ℕ → Db → Option (List SavedEntry)
  unfolding live_rows saved_entry all_some
  saved_entries now d = elim (db.list_all d) [
    | none ↦ none
    | some rows ↦ all_some (map (saved_entry config) (live_rows now rows))
  ]

  unfoldable pub save_snapshot :
      ℕ
      → (id name created_by : String) → Option String
      → Db
      → Result ContextSnapshot ContextError × Db
  unfolding saved_entries snapshot_of
  save_snapshot now id name created_by description d = elim (saved_entries now d) [
    | none ↦ (err write_failed, d)
    | some entries ↦
        let row : SnapshotRow = record {
          id = id;
          name = name;
          description = description;
          created_at = now;
          created_by = created_by;
          entry_count = length entries;
          content = config.write_json entries;
        } in
        elim (db.insert_snapshot row d) [
          | none ↦ (err write_failed, d)
          | some d' ↦ (ok (snapshot_of row), d')
        ]
  ]

  -- The loop of the upserts; it stops where one throws.
  unfoldable pub restore_entries : ℕ → List SavedEntry → Db → Bool × Db
  unfolding new_row
  restore_entries now [] d = (true, d)
  restore_entries now (e ∷ entries) d =
      elim (db.upsert (new_row config now e.key e.value e.created_by) d) [
        | none ↦ (false, d)
        | some d' ↦ restore_entries now entries d'
      ]

  -- The snapshot was found and parsed.
  unfoldable pub restore_from : ℕ → List SavedEntry → Db → Result ℕ ContextError × Db
  unfolding restore_entries
  restore_from now entries d = elim (db.clear d) [
    | none ↦ (err read_failed, d)
    | some cleared ↦
        let (done, d') = restore_entries now entries cleared in
        elim done [ true ↦ (ok (length entries), d') | false ↦ (err read_failed, d') ]
  ]

  -- The number of the entries that were restored.
  unfoldable pub restore_snapshot : ℕ → String → Db → Result ℕ ContextError × Db
  unfolding restore_from
  restore_snapshot now id d = elim (db.select_snapshot id d) [
    | none ↦ (err read_failed, d)
    | some none ↦ (err read_failed, d)
    | some (some row) ↦ elim (config.read_json row.content) [
      | none ↦ (err read_failed, d)
      | some entries ↦ restore_from now entries d
    ]
  ]

  unfoldable pub list_snapshots : Db → Result (List ContextSnapshot) ContextError
  unfolding snapshot_of
  list_snapshots d = elim (db.list_snapshots d) [
    | none ↦ err read_failed
    | some rows ↦ ok (map snapshot_of rows)
  ]

  unfoldable pub delete_snapshot : String → Db → Result Bool ContextError × Db
  delete_snapshot id d = elim (db.delete_snapshot id d) [
    | none ↦ (err write_failed, d)
    | some (d', changes) ↦ (ok (ltb 0 changes), d')
  ]

  unfoldable pub get_snapshot : String → Db → Result (Option ContextSnapshotFull) ContextError
  unfolding snapshot_of
  get_snapshot id d = elim (db.select_snapshot id d) [
    | none ↦ err read_failed
    | some none ↦ ok none
    | some (some row) ↦ elim (config.read_json row.content) [
      | none ↦ err read_failed
      | some entries ↦ ok (some (record { snapshot = snapshot_of row; entries = entries }))
    ]
  ]

  unfoldable pub compression_stats : Db → Result CompressionStats ContextError
  unfolding stored_pair all_some compute_compression_stats
  compression_stats d = elim (db.list_all d) [
    | none ↦ err read_failed
    | some rows ↦ elim (all_some (map (stored_pair config) rows)) [
      | none ↦ err read_failed
      | some pairs ↦ ok (compute_compression_stats pairs)
    ]
  ]
