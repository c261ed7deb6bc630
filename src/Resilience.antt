-- ===== src/Resilience.antt =====
-- src/providers/resilience: retries with backoff, and the limiters in front of a provider.
pub mod Retry
pub mod Bucket
pub mod Window
pub mod Limits
mod Tests
mod LimiterTests
