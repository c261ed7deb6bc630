-- ===== src/Pipeline/Parser.antt =====
-- src/pipeline/parser/pipeline-parser.ts.
pub mod Yaml
pub mod Providers
pub mod Circular
pub mod Validation
mod Tests
