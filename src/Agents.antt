-- ===== src/Agents.antt =====
-- packages/agents: the specialists, what they decide without a model, and their runtime.
pub mod Optimizer
pub mod DeliberationReducer
pub mod CachedProvider
pub mod Specialists
pub mod Invocation
pub mod AgentRuntime
