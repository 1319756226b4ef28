-- ===== src/Payment.antt =====
-- internal/payment/domain: payments, their attempts and their refunds.
pub mod Status
pub mod ProviderError
pub mod Model
pub mod Attempt
pub mod Refund
pub mod Create
pub mod Attempts
pub mod Authorization
pub mod Refunding
pub mod Rules
pub mod Invariant
pub mod Trace
mod Examples
