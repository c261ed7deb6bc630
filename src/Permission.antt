-- ===== src/Permission.antt =====
-- src/core/permissions: the rules that a user laid down, and the decision on a tool call.
pub mod Store
pub mod Engine
pub mod Gate
pub mod Risk
mod RiskTests
mod Tests
mod GateTests
