-- ===== src/Console.antt =====
-- packages/console: the inbound route of the provider's webhook.
pub mod WebhookRoute
