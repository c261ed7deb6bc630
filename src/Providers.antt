-- ===== src/Providers.antt =====
-- src/providers: what a call of a model costs.
pub mod Pricing
mod Tests
