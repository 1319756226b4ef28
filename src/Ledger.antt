-- ===== src/Ledger.antt =====
-- internal/ledger: the double-entry ledger.
pub mod Chart
pub mod Account
pub mod Journal
pub mod Reversal
pub mod Event
pub mod Fee
pub mod Posting
pub mod Template
pub mod Settlement
pub mod Balances
mod Examples
