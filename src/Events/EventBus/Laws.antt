-- ===== src/Events/EventBus/Laws.antt =====
-- Which handlers an event reaches, told from the subscriptions alone.
use open_thinking.Base.{
  ℕ, String, ◌≡◌, refl, sym, ap, ◌∙◌, Bool, true, false, ◌&&◌, ◌||◌, not, Option, none, some, List,
  [], ◌∷◌, ◌++◌, ◌+◌, ◌==◌, eqb, Bool-cases, keep_cases, ◌⊎◌, inl, inr, arith,
}
use open_thinking.Events.EventBus.{
  Handler, EventBus, create_event_bus, member, add, delete, members, on, delete_from, off, on_any,
  off_any, clear, call_each, emit,
}

-- What a client does to a bus.
pub data Operation : Type 0 where
  subscribe unsubscribe : String → Handler → Operation
  subscribe_any unsubscribe_any : Handler → Operation
  clear_all : Operation

unfoldable apply : Operation → EventBus → EventBus
unfolding on off on_any off_any clear
apply (subscribe type handler) bus = on type handler bus
apply (unsubscribe type handler) bus = off type handler bus
apply (subscribe_any handler) bus = on_any handler bus
apply (unsubscribe_any handler) bus = off_any handler bus
apply clear_all bus = clear bus

-- The bus after some operations, the latest first.
unfoldable pub bus_after : List Operation → EventBus
unfolding apply create_event_bus
bus_after [] = create_event_bus
bus_after (op ∷ ops) = apply op (bus_after ops)

-- The latest operation that concerns the type and the handler left it subscribed.
unfoldable pub listens : String → Handler → List Operation → Bool
listens type handler [] = false
listens type handler (subscribe t h ∷ ops) =
    (t == type && eqb h handler) || listens type handler ops
listens type handler (unsubscribe t h ∷ ops) =
    not (t == type && eqb h handler) && listens type handler ops
listens type handler (subscribe_any h ∷ ops) = listens type handler ops
listens type handler (unsubscribe_any h ∷ ops) = listens type handler ops
listens type handler (clear_all ∷ ops) = false

-- The same, of the handlers for all events.
unfoldable pub listens_any : Handler → List Operation → Bool
listens_any handler [] = false
listens_any handler (subscribe t h ∷ ops) = listens_any handler ops
listens_any handler (unsubscribe t h ∷ ops) = listens_any handler ops
listens_any handler (subscribe_any h ∷ ops) = eqb h handler || listens_any handler ops
listens_any handler (unsubscribe_any h ∷ ops) = not (eqb h handler) && listens_any handler ops
listens_any handler (clear_all ∷ ops) = false

unfoldable pub bit : Bool → ℕ
bit false = 0
bit true = 1

unfoldable pub count : Handler → List Handler → ℕ
unfolding bit
count handler [] = 0
count handler (h ∷ hs) = bit (eqb h handler) + count handler hs

count-append : (x : Handler) (xs ys : List Handler) → count x (xs ++ ys) ≡ count x xs + count x ys
unfolding count
count-append x [] ys = omega arith
count-append x (y ∷ xs) ys = rw (count-append x xs ys) omega arith

count_absent : (x : Handler) (xs : List Handler) → member x xs ≡ false → count x xs ≡ 0
unfolding count member bit
count_absent x [] m = refl
count_absent x (y ∷ xs) m = elim (Bool-cases (eqb y x)) [
  | inl e ↦ absurd (ground (arith, e, m))
  | inr e ↦ let m' : member x xs ≡ false = rw e at m in rw (e, count_absent x xs m') refl
]

count_present :
    (x : Handler) (xs : List Handler) (b : Bool)
    → member x xs ≡ true
    → count x xs ≡ bit b
    → b ≡ true
unfolding count member bit
count_present x [] b m c = absurd (ground arith)
count_present x (y ∷ xs) true m c = refl
count_present x (y ∷ xs) false m c = elim (Bool-cases (eqb y x)) [
  | inl e ↦ let c' : 1 + count x xs ≡ 0 = rw e at c in absurd (omega arith)
  | inr e ↦
      let m' : member x xs ≡ true = rw e at m in
      let c' : 0 + count x xs ≡ 0 = rw e at c in count_present x xs false m' (omega (arith, c'))
]

eqb-true : (a b : Handler) → eqb a b ≡ true → a ≡ b
eqb-true a b e = ground arith

-- Adding keeps every handler at most once.
count-add :
    (x h : Handler) (hs : List Handler) (b : Bool)
    → count x hs ≡ bit b
    → count x (add h hs) ≡ bit (eqb h x || b)
unfolding add count bit
count-add x h hs b c = elim (Bool-cases (member h hs)) [
  | inl m ↦ elim (Bool-cases (eqb h x)) [
    | inl e ↦
        let m' : member x hs ≡ true = ap (λ y. member y hs) (sym (eqb-true h x e)) ∙ m in
        let t = count_present x hs b m' c in rw (m, e, c, t) refl
    | inr e ↦ rw (m, e, c) refl
  ]
  | inr m ↦ elim (Bool-cases (eqb h x)) [
    | inl e ↦
        let m' : member x hs ≡ false = ap (λ y. member y hs) (sym (eqb-true h x e)) ∙ m in
        rw (m, count-append x hs (h ∷ []), e, count_absent x hs m') refl
    | inr e ↦ rw (m, count-append x hs (h ∷ []), e, c) omega arith
  ]
]

-- A member stays, or it is the handler that is deleted.
delete-cases :
    (h y : Handler) (hs : List Handler)
    → ((eqb y h ≡ false) × (delete h (y ∷ hs) ≡ y ∷ delete h hs))
      ⊎ ((eqb y h ≡ true) × (delete h (y ∷ hs) ≡ delete h hs))
unfolding delete
delete-cases h y hs = elim (keep_cases (λ z. not (eqb z h)) y hs) [
  | inl (p, kept) ↦ inl (ground arith, kept)
  | inr (p, gone) ↦ inr (ground arith, gone)
]

count_deleted : (x h : Handler) (hs : List Handler) → eqb h x ≡ true → count x (delete h hs) ≡ 0
unfolding delete count bit
count_deleted x h [] e = refl
count_deleted x h (y ∷ hs) e = elim (delete-cases h y hs) [
  | inr (d, gone) ↦ ap (count x) gone ∙ count_deleted x h hs e
  | inl (d, kept) ↦
      let other : eqb y x ≡ false = ap (eqb y) (sym (eqb-true h x e)) ∙ d in
      let first : count x (y ∷ delete h hs) ≡ 0 = rw (other, count_deleted x h hs e) refl in
      ap (count x) kept ∙ first
]

count_kept :
    (x h : Handler) (hs : List Handler) → eqb h x ≡ false → count x (delete h hs) ≡ count x hs
unfolding delete count bit
count_kept x h [] e = refl
count_kept x h (y ∷ hs) e = elim (delete-cases h y hs) [
  | inr (d, gone) ↦
      let other : eqb y x ≡ false = ap (λ z. eqb z x) (eqb-true y h d) ∙ e in
      let first : count x hs ≡ count x (y ∷ hs) = rw (other) omega arith in
      ap (count x) gone ∙ count_kept x h hs e ∙ first
  | inl (d, kept) ↦ ap (count x) kept ∙ ap (λ n. bit (eqb y x) + n) (count_kept x h hs e)
]

count-delete :
    (x h : Handler) (hs : List Handler) (b : Bool)
    → count x hs ≡ bit b
    → count x (delete h hs) ≡ bit (not (eqb h x) && b)
unfolding bit
count-delete x h hs b c = elim (Bool-cases (eqb h x)) [
  | inl e ↦ rw (e) (count_deleted x h hs e)
  | inr e ↦ rw (e) (count_kept x h hs e ∙ c)
]

members-delete_from :
    (h : Handler) (o : Option (List Handler)) → members (delete_from h o) ≡ delete h (members o)
unfolding members delete_from delete
members-delete_from h none = refl
members-delete_from h (some hs) = refl

typed_bit :
    (type : String) (x : Handler) (ops : List Operation)
    → count x (members ((bus_after ops).handlers type)) ≡ bit (listens type x ops)
unfolding bus_after listens members count bit on off on_any off_any clear apply create_event_bus
typed_bit type x [] = refl
typed_bit type x (subscribe t h ∷ ops) = elim (Bool-cases (t == type)) [
  | inl e ↦ rw (e) (count-add x h _ _ (typed_bit type x ops))
  | inr e ↦ rw (e) (typed_bit type x ops)
]
typed_bit type x (unsubscribe t h ∷ ops) = elim (Bool-cases (t == type)) [
  | inl e ↦
      rw (e, members-delete_from h ((bus_after ops).handlers type))
        (count-delete x h _ _ (typed_bit type x ops))
  | inr e ↦ rw (e) (typed_bit type x ops)
]
typed_bit type x (subscribe_any h ∷ ops) = typed_bit type x ops
typed_bit type x (unsubscribe_any h ∷ ops) = typed_bit type x ops
typed_bit type x (clear_all ∷ ops) = refl

global_bit :
    (x : Handler) (ops : List Operation)
    → count x (bus_after ops).global_handlers ≡ bit (listens_any x ops)
unfolding bus_after listens_any count bit on off on_any off_any clear apply create_event_bus
global_bit x [] = refl
global_bit x (subscribe t h ∷ ops) = global_bit x ops
global_bit x (unsubscribe t h ∷ ops) = global_bit x ops
global_bit x (subscribe_any h ∷ ops) = count-add x h _ _ (global_bit x ops)
global_bit x (unsubscribe_any h ∷ ops) = count-delete x h _ _ (global_bit x ops)
global_bit x (clear_all ∷ ops) = refl

module _ (throws : Handler → Bool) where
  call_each-called :
      (hs : List Handler)
      → ((h : Handler) → throws h ≡ false)
      → ((call_each throws hs).called ≡ hs) × ((call_each throws hs).thrown ≡ false)
  unfolding call_each
  call_each-called [] quiet = (refl, refl)
  call_each-called (h ∷ hs) quiet =
      let rest = call_each-called hs quiet in rw (quiet h) (ap (◌∷◌ h) rest.0, rest.1)

-- After any subscriptions, unsubscriptions and clearings, an event that no handler throws on is
-- delivered to each handler as often as the latest operations tell: once if the handler is subscribed
-- to the event's type, however often it was subscribed, and once more if it is to all events.
pub emit-Subscribed :
    {Event : Type 0} (type_of : Event → String) (throws : Event → Handler → Bool) (event : Event)
    (ops : List Operation) (handler : Handler)
    → ((h : Handler) → throws event h ≡ false)
    → count handler (emit type_of throws event (bus_after ops)).called
      ≡ bit (listens (type_of event) handler ops) + bit (listens_any handler ops)
unfolding emit
emit-Subscribed type_of throws event ops handler quiet =
    let bus = bus_after ops in
    let typed = call_each-called (throws event) (members (bus.handlers (type_of event))) quiet in
    let global = call_each-called (throws event) bus.global_handlers quiet in
    rw
      (
        typed.1,
        typed.0,
        global.0,
        count-append handler (members (bus.handlers (type_of event))) bus.global_handlers,
        typed_bit (type_of event) handler ops,
        global_bit handler ops,
      )
      refl
