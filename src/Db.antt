-- ===== src/Db.antt =====
-- Package db: the application's bbolt database.
pub mod Basics
pub mod Payments
pub mod Funds
pub mod Samples
pub mod ReverseSwap
pub mod Network
pub mod AccountState
pub mod SyncStatus
pub mod Lnurl
mod Tests
