-- ===== src/Account.antt =====
-- Package account.
pub mod Bech32
pub mod State
pub mod Invoice
pub mod AddInvoice
