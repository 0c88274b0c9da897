-- ===== src/Connectors.antt =====
-- packages/connectors: the interface of a provider, the simulated provider and the inbound webhook.
pub mod Adapter
pub mod SimulatedPsp
pub mod Webhook
