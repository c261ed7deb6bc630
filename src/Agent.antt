-- ===== src/Agent.antt =====
-- src/pipeline/executor/agent-loop.ts: the loop that calls a model and runs the tools it asks for.
pub mod Text
pub mod Memory
pub mod Loop
mod Tests
