-- ===== src/Policy.antt =====
-- src/policies/engine/policy-engine.ts: access control, rate limit, cost limit, and the engine that
-- joins them. A child for each part; the laws stand in the part's own children.
pub mod Glob
pub mod Access
pub mod Rate
pub mod Cost
pub mod Engine
mod Tests
