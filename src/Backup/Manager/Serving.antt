-- ===== src/Backup/Manager/Serving.antt =====
-- What a round of the loop in backup/manager.go sends, and which request it completes.
use breez.Common.{
  ℕ, ◌≡◌, ◌⊎◌, Bool, true, false, Option, none, some, List, [], ◌∷◌, ◌++◌, Bytes, All,
}
use breez.Bolt.{Bolt}
use breez.Db.Basics.{Error}
use breez.Backup.Store.{Bucket, mark_backup_request_completed}
use breez.Backup.Manager.{
  Call, notified, encrypted, removed, renamed, compressed, uploaded, backup_request, World, Manager,
  encryption_calls,
}

-- Whether a call sends nothing to the provider.
abbrev pub is_quiet : Call → Bool
is_quiet (notified e) = true
is_quiet (encrypted p d k) = true
is_quiet (removed p) = true
is_quiet (renamed p d) = true
is_quiet (compressed ps d) = true
is_quiet (uploaded f n t) = false

abbrev pub Quiet : List Call → Type 0
Quiet calls = All (λ c. is_quiet c ≡ true) calls

-- The calls that a round makes before it zips.
abbrev pub encryption : Option Bytes → List Bytes → List Call
encryption none paths = []
encryption (some key) paths = encryption_calls key paths

-- From the trace `a` to the trace `b`, nothing was sent.
abbrev pub Silent : List Call → List Call → Type 0
Silent a b = (rest : List Call) × (b ≡ a ++ rest) × Quiet rest

-- From `a` to `b`, one archive was sent, of files that were encrypted just before if there is a key.
abbrev pub Sent : Option Bytes → Bytes → List Call → List Call → Type 0
Sent key encryption_type a b =
    (paths : List Bytes) × (archive : Bytes) × (node_id : Bytes) × (rest : List Call) × (b
      ≡ a
        ++ (notified backup_request ∷ encryption key paths
            ++ (compressed paths archive ∷ uploaded archive node_id encryption_type ∷ rest)))
    × Quiet rest

-- What an upload did to the database: nothing, or the request it served was completed.
module _ (s : Bolt Bucket Error) (world : World s.Tx) where
  open s use {Tx}
  open world use {outcome, meanwhile}

  -- The database after a round that served `id`.
  abbrev pub Completes : ℕ → Manager Tx → Manager Tx → Type 0
  Completes id m m' =
      (m'.db ≡ m.db) ⊎ (m'.db ≡ (mark_backup_request_completed s (meanwhile m.db) id).1)

  -- What a round may do.
  abbrev pub Round : ℕ → Manager Tx → Manager Tx → Type 0
  Round id m m' =
      (Silent m.trace m'.trace × (m'.db ≡ m.db))
      ⊎ (Sent m.encryption_key m.encryption_type m.trace m'.trace × Completes id m m')
