-- ===== src/Context.antt =====
-- src/context/store: the shared context of a pipeline's stages.
pub mod Compression
pub mod Database
pub mod Store
pub mod Memory
mod Tests
