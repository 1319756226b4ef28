-- ===== src/Gateway.antt =====
-- internal/gateway: what a merchant's request passes before its handler: signature, limits, and the
-- idempotency key.
pub mod Request
pub mod RateLimit
pub mod Once
mod Examples
