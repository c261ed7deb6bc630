-- ===== src/Events/Tests.antt =====
-- A status line that was subscribed twice, and a log of all events.
use open_thinking.Base.{String, Bool, true, false, List, [], ◌∷◌, ◌≡◌, refl, ◌+◌}
use open_thinking.Events.EventBus.{Handler, emit}
use open_thinking.Events.EventBus.Laws.{
  Operation, subscribe, subscribe_any, unsubscribe, bus_after, listens, listens_any, bit, count,
  emit-Subscribed,
}

abbrev history : List Operation
history =
    subscribe "stage:start" 1
    ∷ subscribe "stage:start" 1
    ∷ unsubscribe "stage:start" 3
    ∷ subscribe_any 1
    ∷ subscribe "stage:start" 3
    ∷ subscribe_any 2
    ∷ []

abbrev silent : String → Handler → Bool
silent event handler = false

abbrev broken_one : String → Handler → Bool
broken_one event handler = true

deliveries : (emit (λ e. e) silent "stage:start" (bus_after history)).called ≡ 1 ∷ 2 ∷ 1 ∷ []
unfolding emit bus_after
deliveries = refl

-- A handler that throws keeps the event from all that come after it.
first_only : (emit (λ e. e) broken_one "stage:start" (bus_after history)).called ≡ 1 ∷ []
unfolding emit bus_after
first_only = refl

emit-Subscribed_example :
    count 1 (emit (λ e. e) silent "stage:start" (bus_after history)).called
    ≡ bit (listens "stage:start" 1 history) + bit (listens_any 1 history)
emit-Subscribed_example = emit-Subscribed (λ e. e) silent "stage:start" history 1 (λ h. refl)
