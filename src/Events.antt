-- ===== src/Events.antt =====
-- src/core/events: the event bus.
pub mod EventBus
mod Tests
