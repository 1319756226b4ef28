-- ===== src/Reconciliation.antt =====
-- internal/reconciliation: a provider's settlement file against the payments, refunds and disputes
-- that the gateway knows of.
pub mod Settlement
pub mod Record
pub mod Discrepancy
pub mod Matcher
pub mod Run
pub mod Event
pub mod Store
pub mod Command
pub mod Reconcile
pub mod Import
pub mod Closing
pub mod Projector
mod Requests
mod Examples
