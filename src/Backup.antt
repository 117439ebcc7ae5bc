-- ===== src/Backup.antt =====
-- Package backup: when the node's files are backed up, and with which key.
pub mod Store
pub mod Manager
