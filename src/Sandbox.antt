-- ===== src/Sandbox.antt =====
-- src/core/sandbox: the overlay in which a stage's file operations happen until a user applies it.
pub mod Files
pub mod Manager
pub mod Tools
mod Memory
mod Tests
