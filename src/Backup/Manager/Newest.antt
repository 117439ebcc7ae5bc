-- ===== src/Backup/Manager/Newest.antt =====
-- A round of the loop in backup/manager.go completes no request that came after its start.
use breez.Bolt.{Bolt}
use breez.Backup.Store.Requests.{Requests}
use breez.Backup.Manager.{Manager}
