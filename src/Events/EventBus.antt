-- ===== src/Events/EventBus.antt =====
-- src/core/events/event-bus.ts. A handler is a number that stands for the function's identity; a `Set`
-- is the list of its members in the order they were added. Of an event the bus reads the type alone.
-- Handlers that call the bus while it delivers are left out.
pub mod Laws
use open_thinking.Base.{
  ℕ, String, Bool, true, false, ◌||◌, not, Option, none, some, List, [], ◌∷◌, ◌++◌, ◌==◌, eqb, keep,
  if◌then◌else◌,
}

abbrev pub Handler : Type 0
Handler = ℕ

-- `none` for a type that no set was made for.
pub record EventBus : Type 0 where
  pub handlers : String → Option (List Handler)
  pub global_handlers : List Handler

unfoldable pub create_event_bus : EventBus
create_event_bus = record { handlers = λ type. none; global_handlers = [] }

unfoldable pub member : Handler → List Handler → Bool
member handler [] = false
member handler (h ∷ hs) = eqb h handler || member handler hs

-- `set.add(handler)`
unfoldable pub add : Handler → List Handler → List Handler
unfolding member
add handler hs = if member handler hs then hs else hs ++ handler ∷ []

-- `set.delete(handler)`
unfoldable pub delete : Handler → List Handler → List Handler
delete handler hs = keep (λ h. not (eqb h handler)) hs

-- The set of a type, `none` read as the empty set.
unfoldable pub members : Option (List Handler) → List Handler
members none = []
members (some hs) = hs

unfoldable pub on : String → Handler → EventBus → EventBus
unfolding add members
on type handler bus = record {
  handlers =
      λ t. if type == t then some (add handler (members (bus.handlers t))) else bus.handlers t;
  global_handlers = bus.global_handlers;
}

-- `handlers.get(type)?.delete(handler)`
unfoldable pub delete_from : Handler → Option (List Handler) → Option (List Handler)
unfolding delete
delete_from handler none = none
delete_from handler (some hs) = some (delete handler hs)

-- The function that `on` returns.
unfoldable pub off : String → Handler → EventBus → EventBus
unfolding delete_from
off type handler bus = record {
  handlers = λ t. if type == t then delete_from handler (bus.handlers t) else bus.handlers t;
  global_handlers = bus.global_handlers;
}

unfoldable pub on_any : Handler → EventBus → EventBus
unfolding add
on_any handler bus = record {
  handlers = bus.handlers;
  global_handlers = add handler bus.global_handlers;
}

-- The function that `onAny` returns.
unfoldable pub off_any : Handler → EventBus → EventBus
unfolding delete
off_any handler bus = record {
  handlers = bus.handlers;
  global_handlers = delete handler bus.global_handlers;
}

unfoldable pub clear : EventBus → EventBus
clear bus = record { handlers = λ type. none; global_handlers = [] }

-- The handlers that were called, in order, and whether the last one threw.
pub record Delivery : Type 0 where
  pub called : List Handler
  pub thrown : Bool

-- `for (const handler of ...) handler(event)`, which an exception leaves.
unfoldable pub call_each : (Handler → Bool) → List Handler → Delivery
call_each throws [] = record { called = []; thrown = false }
call_each throws (h ∷ hs) =
    let rest = call_each throws hs in
    if throws h
    then record { called = h ∷ []; thrown = true }
    else record { called = h ∷ rest.called; thrown = rest.thrown }

module _ {Event : Type 0} (type_of : Event → String) (throws : Event → Handler → Bool) where
  unfoldable pub emit : Event → EventBus → Delivery
  unfolding call_each members
  emit event bus =
      let typed = call_each (throws event) (members (bus.handlers (type_of event))) in
      let global = call_each (throws event) bus.global_handlers in
      if typed.thrown
      then typed
      else record { called = typed.called ++ global.called; thrown = global.thrown }
