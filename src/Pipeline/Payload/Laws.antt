-- ===== src/Pipeline/Payload/Laws.antt =====
-- The payload of a stage is what its read permissions cover, and nothing else.
use open_thinking.Errors.{PolicyError}
use open_thinking.Base.{
  ℕ, String, ◌≡◌, refl, sym, ap, ◌∙◌, ◌⊎◌, inl, inr, true, none, some, List, [], ◌∷◌, arith, ◌==◌,
  eq_iff, map, Bool-cases, Option-cases, Elem,
}
use open_thinking.Result.{Result, Void, ok, err}
use open_thinking.Policy.Access.{Permissions, check_read_access, filter_readable_keys}
use open_thinking.Policy.Access.Laws.{mem-filter_readable_keys}
use open_thinking.Context.Database.{Database}
use open_thinking.Context.Store
use open_thinking.Context.Store.{ContextEntry, Config}
use open_thinking.Pipeline.Payload.{
  StageEvent, Payload, put_value, find_entry, is_allowed, add_entry, gather, payload_of,
  build_context_payload,
}

put_value-Elem :
    (key value k v : String) (p : Payload)
    → Elem (k, v) (put_value key value p)
    → ((k ≡ key) × (v ≡ value)) ⊎ Elem (k, v) p
unfolding put_value
put_value-Elem key value k v [] (inl e) = inl (ap (λ x. x.0) e, ap (λ x. x.1) e)
put_value-Elem key value k v [] (inr m) = elim m [ ]
put_value-Elem key value k v ((j, w) ∷ p) m = elim (Bool-cases (j == key)) [
  | inl t ↦ elim (rw t at m) [
    | inl e ↦ inl (ap (λ x. x.0) e, ap (λ x. x.1) e)
    | inr i ↦ inr (inr i)
  ]
  | inr f ↦ elim (rw f at m) [
    | inl e ↦ inr (inl e)
    | inr i ↦ elim (put_value-Elem key value k v p i) [ inl e ↦ inl e | inr l ↦ inr (inr l) ]
  ]
]

-- The payload has a value for the key.
abbrev pub HasKey : String → Payload → Type 0
HasKey k p = (v : String) × Elem (k, v) p

put_value-HasKey : (key value : String) (p : Payload) → HasKey key (put_value key value p)
unfolding put_value
put_value-HasKey key value [] = (value, inl refl)
put_value-HasKey key value ((j, w) ∷ p) = elim (Bool-cases (j == key)) [
  | inl t ↦ rw t (value, inl refl)
  | inr f ↦ let (v, m) = put_value-HasKey key value p in rw f (v, inr m)
]

put_value-keeps :
    (key value k : String) (p : Payload) → HasKey k p → HasKey k (put_value key value p)
unfolding put_value
put_value-keeps key value k [] (v, m) = elim m [ ]
put_value-keeps key value k ((j, w) ∷ p) (v, m) = elim (Bool-cases (j == key)) [
  | inl t ↦ rw t (elim m [
    | inl e ↦ (value, inl (ap (λ x. (x, value)) (ap (λ x. x.0) e ∙ (eq_iff j key).0 t)))
    | inr i ↦ (v, inr i)
  ])
  | inr f ↦ rw f (elim m [
    | inl e ↦ (v, inl e)
    | inr i ↦ let (u, l) = put_value-keeps key value k p (v, i) in (u, inr l)
  ])
]

find_entry-Elem :
    (key : String) (entries : List ContextEntry) (e : ContextEntry)
    → find_entry key entries ≡ some e
    → Elem e entries × (e.key ≡ key)
unfolding find_entry
find_entry-Elem key [] e h = absurd (ground (arith, h))
find_entry-Elem key (x ∷ entries) e h = elim (Bool-cases (x.key == key)) [
  | inl t ↦
      let h' = rw t at h in
      let same : x ≡ e = ground (arith, h') in
      (inl (sym same), ap (λ y. y.key) (sym same) ∙ (eq_iff x.key key).0 t)
  | inr f ↦ let (m, n) = find_entry-Elem key entries e (rw f at h) in (inr m, n)
]

find_entry-some :
    (entries : List ContextEntry) (e : ContextEntry)
    → Elem e entries
    → (x : ContextEntry) × (find_entry e.key entries ≡ some x)
unfolding find_entry
find_entry-some [] e m = elim m [ ]
find_entry-some (x ∷ entries) e m = elim (Bool-cases (x.key == e.key)) [
  | inl t ↦ (x, rw t refl)
  | inr f ↦ rw f (
      find_entry-some entries e (elim m [
        | inl s ↦
            absurd
              (let t = (eq_iff x.key e.key).1 (ap (λ y. y.key) (sym s)) in ground (arith, f, t))
        | inr i ↦ i
      ]))
]

module _ (stage_name : String) (permissions : Permissions) (entries : List ContextEntry) where
  -- A value of the payload is that of an entry which the stage may read.
  abbrev pub IsOffered : String → String → Type 0
  IsOffered k v =
      (check_read_access stage_name permissions k ≡ ok tt)
      × (e : ContextEntry) × Elem e entries
      × (e.key ≡ k)
      × (e.value ≡ v)

  abbrev AllOffered : Payload → Type 0
  AllOffered p = (k v : String) → Elem (k, v) p → IsOffered k v

  allowed-ok : (r : Result Void PolicyError) → is_allowed r ≡ true → r ≡ ok tt
  unfolding is_allowed
  allowed-ok (ok tt) h = refl
  allowed-ok (err e) h = absurd (ground (arith, h))

  gather-AllOffered :
      (keys : List String) (p : Payload) (events : List StageEvent)
      → AllOffered p
      → AllOffered (gather stage_name permissions entries keys (p, events)).0
  unfolding gather add_entry
  gather-AllOffered [] p events h = h
  gather-AllOffered (key ∷ keys) p events h = elim (Option-cases (find_entry key entries)) [
    | inl e ↦ rw (gather, e) (gather-AllOffered keys p events h)
    | inr (x, e) ↦ elim (Bool-cases (is_allowed (check_read_access stage_name permissions key))) [
      | inr f ↦ rw (gather, e, add_entry, f) (gather-AllOffered keys p events h)
      | inl t ↦
          rw (gather, e, add_entry, t)
            (gather-AllOffered keys (put_value key x.value p) _ (λ k v m.
              elim (put_value-Elem key x.value k v p m) [
                | inl (i, j) ↦
                    let (n, q) = find_entry-Elem key entries x e in
                    (
                      ap (check_read_access stage_name permissions) i ∙ allowed-ok _ t,
                      x,
                      n,
                      q ∙ sym i,
                      sym j,
                    )
                | inr i ↦ h k v i
              ]))
    ]
  ]

  gather-keeps :
      (keys : List String) (p : Payload) (events : List StageEvent) (k : String)
      → HasKey k p
      → HasKey k (gather stage_name permissions entries keys (p, events)).0
  unfolding gather add_entry
  gather-keeps [] p events k h = h
  gather-keeps (key ∷ keys) p events k h = elim (Option-cases (find_entry key entries)) [
    | inl e ↦ rw (gather, e) (gather-keeps keys p events k h)
    | inr (x, e) ↦ elim (Bool-cases (is_allowed (check_read_access stage_name permissions key))) [
      | inr f ↦ rw (gather, e, add_entry, f) (gather-keeps keys p events k h)
      | inl t ↦
          rw (gather, e, add_entry, t)
            (gather-keeps keys (put_value key x.value p) _ k (put_value-keeps key x.value k p h))
    ]
  ]

  -- A readable key of an entry gets a value.
  gather-HasKey :
      (keys : List String) (p : Payload) (events : List StageEvent) (e : ContextEntry)
      → Elem e entries
      → check_read_access stage_name permissions e.key ≡ ok tt
      → Elem e.key keys
      → HasKey e.key (gather stage_name permissions entries keys (p, events)).0
  unfolding gather add_entry is_allowed
  gather-HasKey [] p events e m r i = elim i [ ]
  gather-HasKey (key ∷ keys) p events e m r (inl s) =
      let (x, found) = find_entry-some entries e m in
      let found' : find_entry key entries ≡ some x =
        ap (λ k. find_entry k entries) (sym s) ∙ found in
      let readable : check_read_access stage_name permissions key ≡ ok tt =
        ap (check_read_access stage_name permissions) (sym s) ∙ r in
      rw (gather, found', add_entry, readable)
        (gather-keeps keys (put_value key x.value p) _ e.key
          (rw s (put_value-HasKey key x.value p)))
  gather-HasKey (key ∷ keys) p events e m r (inr i) = elim (Option-cases (find_entry key entries)) [
    | inl f ↦ rw (gather, f) (gather-HasKey keys p events e m r i)
    | inr (x, f) ↦ elim (Bool-cases (is_allowed (check_read_access stage_name permissions key))) [
      | inr g ↦ rw (gather, f, add_entry, g) (gather-HasKey keys p events e m r i)
      | inl t ↦
          rw (gather, f, add_entry, t) (gather-HasKey keys (put_value key x.value p) _ e m r i)
    ]
  ]

map-Elem :
    (entries : List ContextEntry) (e : ContextEntry)
    → Elem e entries
    → Elem e.key (map (λ x. x.key) entries)
map-Elem [] e m = elim m [ ]
map-Elem (x ∷ entries) e (inl s) = inl (ap (λ y. y.key) s)
map-Elem (x ∷ entries) e (inr m) = inr (map-Elem entries e m)

-- When the payload of a stage is built, it holds values of listed entries that the stage's read check
-- accepts, and no others, and every listed entry whose key the check accepts is there under its key.
pub build_context_payload-Offers :
    {Db : Type 0} (config : Config) (db : Database Db) (now : ℕ) (stage_name : String)
    (permissions : Permissions) (d : Db) (entries : List ContextEntry) (payload : Payload)
    (events : List StageEvent)
    → Store.list config db now none d ≡ ok entries
    → build_context_payload config db now stage_name permissions d ≡ ok (payload, events)
    → ((k v : String) → Elem (k, v) payload → IsOffered stage_name permissions entries k v)
      × ((e : ContextEntry)
          → Elem e entries
          → check_read_access stage_name permissions e.key ≡ ok tt
          → HasKey e.key payload)
unfolding build_context_payload payload_of
build_context_payload-Offers config db now stage_name permissions d entries payload events listed
      built =
    let built' = rw (build_context_payload, listed) at built in
    let keys = filter_readable_keys permissions (map (λ x. x.key) entries) in
    let same : (gather stage_name permissions entries keys ([], [])).0 ≡ payload =
      ground (arith, built') in
    (
      (λ k v m.
          gather-AllOffered stage_name permissions entries keys [] [] (λ j w i. elim i [ ]) k v
            (rw same m)),
      (λ e m r. rw (← same) (
          gather-HasKey stage_name permissions entries keys [] [] e m r (
            (mem-filter_readable_keys stage_name e.key permissions (map (λ x. x.key) entries)).1
              (map-Elem entries e m, r)))),
    )
