-- ===== src/Engine.antt =====
-- packages/engine: the components that decide and that write the database.
pub mod Tier0
pub mod WorkRouter
pub mod Blackboard
pub mod Scheduler
pub mod ObligationLease
pub mod PolicyEngine
pub mod MandateSequencer
pub mod Incident
pub mod Detector
pub mod ReleaseController
pub mod TokenBurner
pub mod Executor
pub mod Reconciler
pub mod Verifier
pub mod CaseManager
pub mod IntentRouter
pub mod CheckoutWatcher
