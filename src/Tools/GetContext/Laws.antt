-- ===== src/Tools/GetContext/Laws.antt =====
-- Which keys the tool answers for, and when it gives a note in place of a value.
use open_thinking.Base.{
  ℕ, String, ◌≡◌, refl, sym, ap, ◌∙◌, ◌≢◌, ◌⊎◌, inl, inr, true, false, Option, none, some, [], ◌∷◌,
  ◌==◌, eq_iff, arith, Bool-cases, Option-cases, if◌then◌else◌, some-eq, none-ne-some,
}
use open_thinking.Base.Texts.{starts_with, eq_comm}
use open_thinking.Result.{Result, ok, err}
use open_thinking.Errors.{read_error, PolicyError, ContextError, read_denied}
use open_thinking.Agent.Text.{Args}
use open_thinking.Agent.Memory.{find}
use open_thinking.Policy.Access.{Permissions}
use open_thinking.Policy.Access.Laws.{Covers, check_access-Decides}
use open_thinking.Context.Database.{Database, IsTable}
use open_thinking.Context.Store.{Config, ContextEntry}
use open_thinking.Context.Store
use open_thinking.Context.Store.View.{Reads, Fails, view, get-Reads}
use open_thinking.Tools.GetContext.{
  GetError, no_key, read_refused, store_failed, missing, remember, cached_note, is_repeated,
  read_allowed, key_arg, Cache, hand_out, answer, get_context,
}

-- The executor's own notes, and what the read patterns cover.
abbrev pub MayRead : Permissions → String → Type 0
MayRead permissions key = (starts_with key "persistent." ≡ true) ⊎ Covers permissions.read key

pub read_allowed-Decides :
    (stage_name : String) (permissions : Permissions) (key : String)
    → ((read_allowed stage_name permissions key ≡ ok tt) × MayRead permissions key)
      ⊎ ((e : PolicyError) × (read_allowed stage_name permissions key ≡ err e)
          × ¬ MayRead permissions key)
unfolding read_allowed
read_allowed-Decides stage_name permissions key =
    elim (Bool-cases (starts_with key "persistent.")) [
      | inl e ↦ inl (rw (read_allowed, e) refl, inl e)
      | inr e ↦ elim (check_access-Decides stage_name key permissions).0 [
        | inl (o, c) ↦ inl (rw (read_allowed, e) o, inr c)
        | inr (o, n) ↦ inr (
          record { code = read_denied; stage_name = some stage_name },
          rw (read_allowed, e) o,
          (λ m. elim m [ inl f ↦ absurd (ground (arith, e, f)) | inr c ↦ n c ]),
        )
      ]
    ]

remember-cons :
    (key value j v : String) (cache : Cache)
    → remember key value ((j, v) ∷ cache)
      ≡ (if key == j then (key, value) ∷ cache else (j, v) ∷ remember key value cache)
unfolding remember
remember-cons key value j v cache = refl

find-cons :
    (k j v : String) (cache : Cache)
    → find k ((j, v) ∷ cache) ≡ (if k == j then some v else find k cache)
unfolding find
find-cons k j v cache = refl

find-remember :
    (key value k : String) (cache : Cache)
    → find k (remember key value cache) ≡ (if k == key then some value else find k cache)
find-remember key value k [] = unfold find remember in refl
find-remember key value k ((j, v) ∷ cache) = elim (Bool-cases (key == j)) [
  | inl e ↦
      let same = (eq_iff key j).0 e in
      rw (remember-cons key value j v cache, e, find-cons k key value cache, find-cons k j v cache)
        (elim (Bool-cases (k == key)) [
          | inl f ↦ rw f refl
          | inr f ↦ let g : (k == j) ≡ false = ap (λ x. k == x) (sym same) ∙ f in rw (f, g) refl
        ])
  | inr e ↦
      rw
        (
          remember-cons key value j v cache,
          e,
          find-cons k j v (remember key value cache),
          find-cons k j v cache,
        )
        (elim (Bool-cases (k == j)) [
          | inl f ↦
              let apart : (k == key) ≡ false =
                ap (λ x. x == key) ((eq_iff k j).0 f) ∙ eq_comm j key ∙ e in
              rw (f, apart) refl
          | inr f ↦ rw (f, find-remember key value k cache) refl
        ])
]

is_repeated_iff : (o : Option String) (value : String) → is_repeated o value ≡ true → o ≡ some value
unfolding is_repeated
is_repeated_iff none value h = absurd (ground (arith, h))
is_repeated_iff (some old) value h = ap some ((eq_iff old value).0 h)

not_repeated : (o : Option String) (value : String) → is_repeated o value ≡ false → o ≢ some value
unfolding is_repeated
not_repeated none value h e = none-ne-some value e
not_repeated (some old) value h e =
    let t = (eq_iff old value).1 (some-eq old value e) in ground (arith, h, t)

module _ {Db : Type 0} (config : Config) (db : Database Db) (table : IsTable db)
    (permissions : Permissions) (now : ℕ) (args : Args) (cache : Cache) (d : Db) where
  -- No key holds anything else in the second database.
  abbrev Same : Db → Type 0
  Same d' = (k : String) → view config db table now k d' ≡ view config db table now k d

  -- What a call of the tool comes to: the result, the values handed out, and the database.
  pub data Served : Result String GetError → Cache → Db → Type 0 where
    unnamed : key_arg args ≡ none → Served (err no_key) cache d
    forbidden :
        (key : String) (e : PolicyError)
        → key_arg args ≡ some key
        → ¬ MayRead permissions key
        → Served (err (read_refused e)) cache d
    failing :
        (key : String)
        → key_arg args ≡ some key
        → MayRead permissions key
        → Fails config db table now key d
        → Served (err (store_failed (record { code = read_error; key = some key }))) cache d
    absent :
        (key : String) (d' : Db)
        → key_arg args ≡ some key
        → MayRead permissions key
        → view config db table now key d ≡ none
        → Same d'
        → Served (err (missing key)) cache d'
    fresh :
        (key value stage : String) (cache' : Cache) (d' : Db)
        → key_arg args ≡ some key
        → MayRead permissions key
        → view config db table now key d ≡ some (value, stage)
        → find key cache ≢ some value
        → ((k : String) → find k cache' ≡ (if k == key then some value else find k cache))
        → Same d'
        → Served (ok value) cache' d'
    repeated :
        (key value stage : String) (d' : Db)
        → key_arg args ≡ some key
        → MayRead permissions key
        → view config db table now key d ≡ some (value, stage)
        → find key cache ≡ some value
        → Same d'
        → Served (ok (cached_note key)) cache d'

  hand_out-Served :
      (key value stage : String) (d' : Db)
      → key_arg args ≡ some key
      → MayRead permissions key
      → view config db table now key d ≡ some (value, stage)
      → Same d'
      → Served (hand_out cache key value).0 (hand_out cache key value).1 d'
  unfolding hand_out
  hand_out-Served key value stage d' named may held same =
      elim (Bool-cases (is_repeated (find key cache) value)) [
        | inl e ↦
            rw (hand_out, e)
              (repeated key value stage d' named may held (is_repeated_iff (find key cache) value e)
                same)
        | inr e ↦
            rw (hand_out, e)
              (fresh key value stage (remember key value cache) d' named may held
                (not_repeated (find key cache) value e) (λ k. find-remember key value k cache) same)
      ]

  answer-Served :
      (key : String) (out : Result (Option ContextEntry) ContextError × Db)
      → key_arg args ≡ some key
      → MayRead permissions key
      → Reads config db table now key d out
      → (let said = answer cache key out.0 in Served said.0 said.1 out.1)
  unfolding answer
  answer-Served key out named may (inl (e, h)) = rw h (failing key named may e)
  answer-Served key out named may (inr (none, h, _, held, same)) =
      rw h (absent key out.1 named may (sym held) same)
  answer-Served key out named may (inr (some entry, h, _, held, same)) =
      rw h (hand_out-Served key entry.value entry.created_by out.1 named may (sym held) same)

-- A call of get_context answers for a key that a read pattern of the stage covers, or that is one of
-- the executor's own notes (`persistent.`), and for no other: then the store is not read. The answer is
-- the value that the key holds, or, exactly if that value was the last handed out for the key, a note
-- that says so, or it is an error: a key that holds nothing, or a failure of the store. No call changes
-- what a key holds, and the values kept are those handed out.
pub get_context-Served :
    {Db : Type 0} (config : Config) (db : Database Db) (table : IsTable db) (stage_name : String)
    (permissions : Permissions) (now : ℕ) (args : Args) (cache : Cache) (d : Db)
    → (let out = get_context config db stage_name permissions now args cache d in
        Served config db table permissions now args cache d out.0 out.1.0 out.1.1)
unfolding get_context
get_context-Served config db table stage_name permissions now args cache d =
    elim (Option-cases (key_arg args)) [
      | inl e ↦ rw (get_context, e) (unnamed e)
      | inr (key, e) ↦ elim (read_allowed-Decides stage_name permissions key) [
        | inl (a, may) ↦
            rw (get_context, e, a)
              (answer-Served config db table permissions now args cache d key
                (Store.get config db now key d) e may (get-Reads config db table now key d))
        | inr (denied, a, not) ↦ rw (get_context, e, a) (forbidden key denied e not)
      ]
    ]
