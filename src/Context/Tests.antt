-- ===== src/Context/Tests.antt =====
-- The context store at concrete inputs: a database in memory, texts that are not compressed, and the
-- entries of a snapshot as a text in which a mark stands before every character and ends every value.
use Prim.Native.Char.{Char, char, code, nul}
use open_thinking.Base.{
  ℕ, String, ◌≡◌, refl, sym, ap, ◌⊎◌, inl, inr, false, Option, none, some, List, [], ◌∷◌, arith,
  eqb, if◌then◌else◌, ◌==◌, Bool-cases,
}
use open_thinking.Result.{Result, ok, err}
use open_thinking.Errors.{ContextError}
use open_thinking.Context.Compression.{Gzip, is_compressed, maybe_compress, maybe_decompress}
use open_thinking.Context.Compression.Laws.{maybe_decompress-maybe_compress}
use open_thinking.Context.Database.{is_expired}
use open_thinking.Context.Memory.{
  Memory, distinct, find_row, find_saved, remove_row, memory, memory-IsTable,
}
use open_thinking.Context.Store.{
  Config, ContextSnapshot, expiry, SavedEntry, get, set, save_snapshot, restore_snapshot,
}
use open_thinking.Context.Store.View.{Held, view, Reads, get-Reads, set-view}
use open_thinking.Context.Store.Snapshots.{restore_snapshot-save_snapshot}

abbrev more : Char
more = char 1 tt

unfoldable write_text : String → String → String
write_text String.[] rest = String.◌∷◌ nul (String.◌∷◌ nul rest)
write_text (String.◌∷◌ c s) rest = String.◌∷◌ more (String.◌∷◌ c (write_text s rest))

unfoldable write_entries : List SavedEntry → String
unfolding write_text
write_entries [] = ""
write_entries (e ∷ entries) =
    write_text e.key (write_text e.value (write_text e.created_by (write_entries entries)))

unfoldable put : Char → List String → List String
put c [] = []
put c (s ∷ texts) = String.◌∷◌ c s ∷ texts

unfoldable read_texts : String → List String
unfolding put
read_texts String.[] = []
read_texts (String.◌∷◌ m String.[]) = []
read_texts (String.◌∷◌ m (String.◌∷◌ c s)) =
    let rest = read_texts s in if eqb (code m) 0 then "" ∷ rest else put c rest

unfoldable group : List String → List SavedEntry
group (k ∷ v ∷ b ∷ texts) = record { key = k; value = v; created_by = b } ∷ group texts
group _ = []

abbrev read_entries : String → Option (List SavedEntry)
read_entries s = some (group (read_texts s))

read_texts-write_text : (s rest : String) → read_texts (write_text s rest) ≡ s ∷ read_texts rest
unfolding read_texts write_text put
read_texts-write_text String.[] rest = refl
read_texts-write_text (String.◌∷◌ c s) rest = rw (read_texts-write_text s rest) refl

read_entries-write_entries :
    (entries : List SavedEntry) → read_entries (write_entries entries) ≡ some entries
unfolding write_entries group read_texts
read_entries-write_entries [] = refl
read_entries-write_entries (e ∷ entries) =
    let rest = write_entries entries in
    let by = write_text e.created_by rest in
    rw
      (
        read_texts-write_text e.key (write_text e.value by),
        read_texts-write_text e.value by,
        read_texts-write_text e.created_by rest,
      )
      (ap (λ o. some (e ∷ o)) (let t = read_entries-write_entries entries in ground (arith, t)))

abbrev as_is : Gzip
as_is = record { gzip = λ s. s; gunzip = λ s. some s }

abbrev config : Config
config = record {
  zip = as_is;
  default_ttl_ms = some 1000;
  write_json = write_entries;
  read_json = read_entries;
}

abbrev empty : Memory
empty = ([], [])

maybe_decompress-maybe_compress_example :
    maybe_decompress as_is (maybe_compress as_is "a plan").stored ≡ some "a plan"
unfolding is_compressed
maybe_decompress-maybe_compress_example =
    maybe_decompress-maybe_compress as_is (λ v. refl) "a plan" refl

set-view_example :
    (let out = set config memory 500 "plan.output" "a plan" "planner" empty in
      ((e : ContextError) × (out ≡ (err e, empty)))
      ⊎ ((out.0 ≡ ok tt)
          × ((k : String)
              → view config memory memory-IsTable 1500 k out.1 ≡ (
                  if "plan.output" == k
                  then some ("a plan", "planner")
                  else view config memory memory-IsTable 1500 k empty))))
unfolding is_compressed expiry
set-view_example =
    set-view config memory memory-IsTable (λ v. refl) 500 1500 "plan.output" "a plan" "planner"
      empty refl (omega arith)

abbrev planned : Memory
planned = (set config memory 500 "plan.output" "a plan" "planner" empty).1

get-Reads_example :
    Reads config memory memory-IsTable 700 "plan.output" planned
      (get config memory 700 "plan.output" planned)
get-Reads_example = get-Reads config memory memory-IsTable 700 "plan.output" planned

abbrev saved : Result ContextSnapshot ContextError × Memory
saved = save_snapshot config memory 600 "s1" "before" "system" none planned

abbrev snapshot : ContextSnapshot
snapshot = record {
  id = "s1";
  name = "before";
  description = none;
  created_at = 600;
  created_by = "system";
  entry_count = 1;
}

-- The plan is written again before the snapshot is restored.
abbrev overwritten : Memory
overwritten = (set config memory 650 "plan.output" "no plan" "reviewer" saved.1).1

abbrev restored : Result ℕ ContextError × Memory
restored = restore_snapshot config memory 700 "s1" overwritten

saved-ok : saved ≡ (ok snapshot, saved.1)
unfolding save_snapshot set distinct remove_row maybe_decompress maybe_compress
saved-ok = refl

restored-ok : restored ≡ (ok 1, restored.1)
unfolding save_snapshot set restore_snapshot group read_texts write_entries find_saved distinct
    remove_row maybe_decompress maybe_compress
restored-ok = refl

same_snapshot : memory-IsTable.snapshot "s1" overwritten ≡ memory-IsTable.snapshot "s1" saved.1
unfolding set save_snapshot memory-IsTable distinct remove_row maybe_decompress maybe_compress
same_snapshot = refl

planned-plain :
    (k : String) (v : Held)
    → view config memory memory-IsTable 600 k planned ≡ some v
    → is_compressed v.0 ≡ false
unfolding set memory-IsTable find_row remove_row maybe_compress maybe_decompress is_compressed
    expiry is_expired
planned-plain k v h = elim (Bool-cases ("plan.output" == k)) [
  | inl e ↦
      let h' = rw e at h in ap (λ o. elim o [ none ↦ false | some w ↦ is_compressed w.0 ]) (sym h')
  | inr e ↦ absurd (let h' = rw e at h in ground (arith, h'))
]

restore_snapshot-save_snapshot_example :
    view config memory memory-IsTable 1200 "plan.output" restored.1
    ≡ view config memory memory-IsTable 600 "plan.output" planned
unfolding expiry
restore_snapshot-save_snapshot_example =
    restore_snapshot-save_snapshot config memory memory-IsTable (λ v. refl)
      read_entries-write_entries 600 700 1200 "s1" "before" "system" none planned saved.1
      overwritten restored.1 snapshot 1 planned-plain saved-ok same_snapshot restored-ok
      (omega arith) "plan.output"
