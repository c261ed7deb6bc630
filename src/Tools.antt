-- ===== src/Tools.antt =====
-- src/tools: the registry that a stage's tool calls go through, and the tool that reads the context.
pub mod Registry
pub mod GetContext
mod Tests
