-- ===== src/Lib.antt =====
-- Open-Thinking runs pipelines of AI agents. A pipeline is a set of named stages; each stage asks a
-- language model, lets it call tools, and leaves its output in a shared context. This library models
-- the parts that decide what runs, how often, and with which rights.
--
-- The parts, and how they meet
--   A pipeline's stages are put into layers by their dependencies, and the layers run one after the
--   other, the stages of a layer side by side. Each stage is run with retries, fallback models and a
--   question to the user. A run of a stage is an agent loop: it asks the model, executes the tools the
--   model calls, and hands the results back until the model stops. A policy engine guards the context
--   keys a stage may read and write, the number of requests and the cost; a retry loop with backoff
--   stands around each request to a provider.
--
-- The files
--   Pipeline/Order      src/pipeline/executor/stage-executor.ts: resolveExecutionOrder
--   Pipeline/Stage      the same file: stage results, work summaries, validateOrchestratedWork
--   Pipeline/Recovery   the same file: executeStageWithRetry, rollbackContext
--   Pipeline/Run        the same file: executePipeline, executeOrchestrated
--   Pipeline/Payload    the same file: buildContextPayload, formatContextForPrompt, writeStageOutput
--   Pipeline/Execute    the same file: executeStage
--   Pipeline/Delegate   src/tools/delegate-tool.ts: createDelegateTool, with its texts (Texts)
--   Pipeline/Orchestrate  src/pipeline/executor/stage-executor.ts: executeStageWithDelegateTool, its
--                       variables (State) and what follows its agent loop (Finish)
--   Pipeline/Assembly   the same file: the retries and the orchestrated run over the stages' shared state
--   Pipeline/Parser     src/pipeline/parser/pipeline-parser.ts: interpolation (Yaml), resolveProviders
--                       (Providers), detectCircularDeps (Circular), validateConfig (Validation)
--   Agent/Text          src/pipeline/executor/agent-loop.ts: truncateToolOutput, summarizeToolCall,
--                       buildTaskMessage
--   Agent/Memory        the same file: checkDoomLoop, withScratchpad; the environment of a run
--   Agent/Loop          the same file: runAgentLoop, its state (Loop), its inner loop over tool calls
--                       (Loop/Calls) and its outer loop (Loop/Rounds)
--   Policy              src/policies/engine/policy-engine.ts: matchGlob (Glob), checkReadAccess,
--                       checkWriteAccess, filterReadableKeys (Access), createRateLimiter (Rate),
--                       createCostTracker (Cost), createPolicyEngine (Engine)
--   Context/Compression src/context/store/compression.ts
--   Context/Store       src/context/store/context-store.ts, over the statements of Context/Database;
--                       Context/Memory is a database for the tests
--   Permission          src/core/permissions: permission-store.ts (Store), permission-engine.ts
--                       (Engine), confirmation-gate.ts (Gate), risk-classifier.ts (Risk)
--   Resilience/Retry    src/providers/resilience/retry.ts: withRetry, computeDelay
--   Resilience/Bucket   src/providers/resilience/rate-limiter.ts: createRateLimiter; Window is
--                       createTpmLimiter, Limits the tables and registries
--   Providers/Pricing   src/providers/pricing.ts
--   Tools/Registry      src/tools/tool-registry.ts
--   Tools/GetContext    src/tools/built-in-tools.ts: createGetContextTool
--   Sandbox/Manager     src/core/sandbox/sandbox-manager.ts, over the calls of Sandbox/Files; Sandbox/Memory
--                       is a file system for the tests
--   Sandbox/Tools       src/core/sandbox/sandbox-tools.ts: safePath, the tools read_file and write_file;
--                       Tools/Session follows a stage from its first call to apply
--   Events/EventBus     src/core/events/event-bus.ts
--   Types, Chat         src/shared/types.ts
--   Result, Errors      src/shared/result.ts, src/shared/errors.ts
--   Base                what the others share: lists, Boolean tests, texts, regular expressions
--
-- How the code is modelled
--   An object that is mutated is a record, and an operation returns the new record beside its result.
--   Asynchronous code is the sequence of its steps. What a part calls and does not define itself (the
--   provider, the tools, the callbacks, timers, the abort signal, JSON) is a record of functions over an
--   arbitrary world `W` that each call may change: Environment, Executor and Runner. To speak about
--   the calls that were made, the theorems wrap such a record in one that logs them. A clock and a
--   random number are arguments. Numbers are natural numbers; money is in nano-dollars, so rounding in
--   floating point is left out. The tokens of the provider rate limiter are exact fractions where the
--   source counts in doubles: a timer may find a bucket just under a token there, and the next timer
--   serves the caller. A text is cut by code points where the source cuts by UTF-16 units; its length is
--   the number of those units.
--
-- Fuel and bounds
--   The outer loop of resolveExecutionOrder runs on as much fuel as there are stages, which is enough
--   because every round that goes on deletes at least one of them. The search of detectCircularDeps runs
--   on one more than there are stages: each call inside another marks a stage that was not marked. The
--   other loops are by recursion on what is left of a list or a count.
--
-- What is not modelled
--   Pipeline/Recovery and Pipeline/Run are over the steps of an environment; Pipeline/Assembly gives them
--   the runs of a stage and of an orchestrator of Pipeline/Execute and Pipeline/Orchestrate. A layer's
--   side-by-side run is one step that returns the results by position. Durations, screen texts, error texts, and the Date and header
--   parsers are left out. SQLite, gzip, JSON, YAML, the file system and the paths of node are
--   parameters; the sandbox's listing of files and its commands are left out. Event handlers do not call the
--   event bus while it delivers. Provider adapters, the
--   other tools, the configuration files, the command line, the server and the
--   web interface have no model here.
pub mod Base
pub mod Errors
pub mod Events
pub mod Sandbox
pub mod Tools
pub mod Result
pub mod Policy
pub mod Types
pub mod Chat
pub mod Pipeline
pub mod Resilience
pub mod Agent
pub mod Permission
pub mod Context
pub mod Providers
