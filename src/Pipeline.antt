-- ===== src/Pipeline.antt =====
-- src/pipeline/executor/stage-executor.ts: the order of the stages, the retries of a stage, and the
-- run of a pipeline.
pub mod Order
pub mod Stage
pub mod Recovery
pub mod Run
pub mod Parser
pub mod Payload
pub mod Execute
pub mod Delegate
mod DelegateTests
pub mod Orchestrate
pub mod Assembly
mod AssemblyTests
mod Tests
mod RunTests
mod StageTests
