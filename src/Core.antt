-- ===== src/Core.antt =====
-- packages/core: the types, the state machine, the event reducer and the policy data.
pub mod Types
pub mod StateMachine
pub mod Events
pub mod Actions
pub mod Taxonomy
pub mod Playbooks
pub mod Platform
pub mod Json
pub mod Capability
pub mod Policy
pub mod Roles
pub mod Floats
pub mod Stats
