-- ===== src/SyncJob.antt =====
-- The sync job of package sync: its store (sync/db.go), the scan for closed channels
-- (sync/channelswatcher.go) and the download of the filters (sync/job.go).
pub mod Store
pub mod Heights
pub mod Watcher
pub mod Rescan
pub mod Scanning
pub mod Watched
pub mod Job
pub mod Waits
pub mod Filters
pub mod Run
pub mod Ending
mod Tests
