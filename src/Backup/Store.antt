-- ===== src/Backup/Store.antt =====
-- backup/db.go: the pending backup request and the encryption setting, in a database of their own.
-- Its copies of itob and btoi are those of db/db.go.
pub mod Requests
use breez.Common.{
  ℕ, Bool, true, false, not, ◌&&◌, ◌||◌, Option, none, some, [], ◌∷◌, Bytes, codes, length, ◌==◌,
  if◌then◌else◌, Result, ok, err, ◌>>=◌,
}
use breez.Bolt.{Bolt, update}
use breez.Db.Basics.{Error, itob, btoi}

pub data Bucket : Type 0 where
  backup : Bucket

abbrev pub mark_id_key : Bytes
mark_id_key = codes "lastBackupMarkID"

abbrev pub use_encryption_key : Bytes
use_encryption_key = codes "useEncryption"

-- Whether the bytes are the byte 1.
abbrev pub is_one_byte : Option Bytes → Bool
is_one_byte none = false
is_one_byte (some b) = length b == 1 && elim b [ [] ↦ false | x ∷ _ ↦ x == 1 ]

module _ (s : Bolt Bucket Error) where
  open s use {Tx, create_bucket, read, put, delete, next_sequence}

  pub open_db : Tx → Result Error (Unit {0}) × Tx
  open_db t = update s t (λ t. create_bucket t backup >>= λ u. ok (tt, u))

  unfoldable pub add_request_body : Tx → Result Error (Unit {0} × Tx)
  add_request_body t = do
    (backup_seq, t1) ← next_sequence t backup
    t2 ← put t1 backup mark_id_key (itob backup_seq)
    ok (tt, t2)

  unfoldable pub add_backup_request : Tx → Result Error (Unit {0}) × Tx
  add_backup_request t = update s t add_request_body

  unfoldable pub last_backup_request : Tx → Result Error ℕ
  last_backup_request t = elim (read t backup mark_id_key) [
    | none ↦ ok 0
    | some pending_request ↦ btoi pending_request
  ]

  unfoldable pub mark_completed_body : ℕ → Tx → Result Error (Unit {0} × Tx)
  mark_completed_body request_id t = elim (read t backup mark_id_key) [
    | none ↦ ok (tt, t)
    | some pending_request ↦ btoi pending_request >>= λ pending.
        if not (request_id == pending)
        then ok (tt, t)
        else (delete t backup mark_id_key >>= λ u. ok (tt, u))
  ]

  unfoldable pub mark_backup_request_completed : Tx → ℕ → Result Error (Unit {0}) × Tx
  mark_backup_request_completed t request_id = update s t (mark_completed_body request_id)

  pub set_use_encryption : Tx → Bool → Result Error (Unit {0}) × Tx
  set_use_encryption t enabled =
      update s t
        (λ t. put t backup use_encryption_key ((if enabled then 1 else 0) ∷ []) >>= λ u. ok (tt, u))

  -- It reads the key of the pending request.
  unfoldable pub use_encryption : Tx → Bool
  use_encryption t = is_one_byte (read t backup mark_id_key)
