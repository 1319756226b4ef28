-- ===== src/Webhook.antt =====
-- internal/webhook: the delivery of events to the merchants' endpoints.
pub mod Backoff
pub mod Truncate
pub mod Delivery
pub mod Endpoint
mod Examples
