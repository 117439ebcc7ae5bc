-- ===== src/Backup/Manager.antt =====
-- backup/manager.go: the manager that serves backup requests. The calls that leave the package
-- (files, zip, encryption, provider, application) are kept in a trace, oldest first, and their
-- outcomes are a parameter that may depend on what was called before.
pub mod Serving
pub mod Newest
pub mod Safety
mod Tests
use breez.Common.{
  ℕ, ◌+◌, ◌≡◌, Bool, true, false, not, ◌&&◌, Option, none, some, List, [], ◌∷◌, ◌++◌, map, Bytes,
  codes, bytes_eq, length, ltb, ◌==◌, if◌then◌else◌, Result, ok, err, ◌>>=◌,
}
use breez.Bolt.{Bolt}
use breez.Db.Basics.{Error}
use breez.Backup.Store.{
  Bucket, add_backup_request, last_backup_request, mark_backup_request_completed,
  set_use_encryption, use_encryption,
}

-- The errors of the calls; a ProviderError tells whether it is one of authentication.
pub data Failure : Type 0 where
  no_provider : Failure
  provider_error : Bool → Failure
  other : ℕ → Failure

pub data Event : Type 0 where
  backup_request backup_failed backup_auth_failed : Event
  backup_success : Bytes → Event

pub data Call : Type 0 where
  notified : Event → Call
  -- source, destination and key
  encrypted : Bytes → Bytes → Bytes → Call
  removed : Bytes → Call
  renamed : Bytes → Bytes → Call
  compressed : List Bytes → Bytes → Call
  -- file, node and encryption type
  uploaded : Bytes → Bytes → Bytes → Call

pub record SnapshotInfo : Type 0 where
  pub node_id : Bytes
  pub backup_id : Bytes

-- The outside. `archive_beside` is path.Join(path.Dir(p), backupFileName), and `meanwhile` is what
-- others do to the database during a round.
pub record World (Tx : Type 0) : Type 0 where
  pub prepare_backup_data : List Call → Result Failure (List Bytes × Bytes)
  pub outcome : List Call → Call → Option Failure
  pub account_name : List Call → Bytes
  pub archive_beside : Bytes → Bytes
  pub meanwhile : Tx → Tx

-- `none` is the nil slice. `wakes` counts the sends on backupRequestChan.
pub record Manager (Tx : Type 0) : Type 0 where
  pub db : Tx
  pub has_provider : Bool
  pub encryption_key : Option Bytes
  pub encryption_type : Bytes
  pub started : Bool
  pub stopped : Bool
  pub wakes : ℕ
  pub trace : List Call

abbrev pub failure_event : Failure → Event
failure_event (provider_error true) = backup_auth_failed
failure_event (provider_error false) = backup_failed
failure_event no_provider = backup_failed
failure_event (other n) = backup_failed

abbrev pub enc_suffix : Bytes
enc_suffix = codes ".enc"

-- One round of the encryption loop, and the whole of it.
pub encryption_calls : Bytes → List Bytes → List Call
encryption_calls key [] = []
encryption_calls key (p ∷ paths) =
    encrypted p (p ++ enc_suffix) key
    ∷ removed p
    ∷ renamed (p ++ enc_suffix) p
    ∷ encryption_calls key paths

-- Whether no snapshot of the node is another instance's.
pub is_safe_snapshots : Bytes → Bytes → List SnapshotInfo → Bool
is_safe_snapshots node_id backup_id [] = true
is_safe_snapshots node_id backup_id (x ∷ snapshots) =
    let rest = is_safe_snapshots node_id backup_id snapshots in
    if bytes_eq x.node_id node_id
      && (not (bytes_eq x.backup_id []) && not (bytes_eq backup_id x.backup_id))
    then false
    else rest

module _ {Tx : Type 0} where
  pub notify : Event → Manager Tx → Manager Tx
  notify e m = record m { trace = m.trace ++ (notified e ∷ []) }

  pub notify_backup_failed : Failure → Manager Tx → Manager Tx
  notify_backup_failed e m = notify (failure_event e) m

  module _ (world : World Tx) where
    open world use {outcome}

    -- The calls in turn, up to the first that fails.
    pub perform : List Call → List Call → List Call × Option Failure
    perform [] trace = (trace, none)
    perform (call ∷ calls) trace = elim (outcome trace call) [
      | some e ↦ (trace ++ (call ∷ []), some e)
      | none ↦ perform calls (trace ++ (call ∷ []))
    ]

    pub encrypt_files : Option Bytes → List Bytes → List Call → List Call × Option Failure
    encrypt_files none paths trace = (trace, none)
    encrypt_files (some key) paths trace = perform (encryption_calls key paths) trace

    -- The errors of these removals are dropped.
    pub remove_files : List Bytes → Manager Tx → Manager Tx
    remove_files paths m = record m { trace = m.trace ++ map removed paths }

module _ (s : Bolt Bucket Error) where
  open s use {Tx}

  pub request_backup : Manager Tx → Manager Tx
  request_backup m =
      let (answer, t) = add_backup_request s m.db in
      elim answer [
        | err _ ↦ notify backup_failed m
        | ok _ ↦ record m { db = t; wakes = m.wakes + 1 }
      ]

  pub set_encryption_key : Option Bytes → Bytes → Manager Tx → Result Error (Unit {0}) × Manager Tx
  set_encryption_key enc_key encryption_type m =
      let given : ℕ = elim enc_key [ none ↦ 0 | some k ↦ length k ] in
      let (answer, t) = set_use_encryption s m.db (ltb 0 given) in
      elim answer [
        | err e ↦ (err e, m)
        | ok _ ↦ (
          ok tt,
          record m {
            db = t;
            encryption_key = enc_key;
            encryption_type = encryption_type;
            wakes = m.wakes + 1;
          },
        )
      ]

  -- Start wakes the loop once; Stop ends it.
  pub start : Manager Tx → Manager Tx
  start m = if m.started then m else record m { started = true; wakes = m.wakes + 1 }

  pub stop : Manager Tx → Manager Tx
  stop m = record m { stopped = true }

  -- IsSafeToRunNode over what the provider and the identifier file answer.
  pub is_safe_to_run_node :
      Manager Tx
      → Bytes
      → Result Failure (List SnapshotInfo)
      → Result Failure Bytes
      → Result Failure Bool
  is_safe_to_run_node m node_id snapshots identifier =
      if not m.has_provider
      then err no_provider
      else snapshots >>= λ xs.
          identifier >>= λ backup_id. ok (is_safe_snapshots node_id backup_id xs)

  module _ (world : World Tx) where
    open world use {outcome, account_name, archive_beside, prepare_backup_data, meanwhile}

    -- The end of a round, from the upload on.
    pub upload : ℕ → List Bytes → Bytes → Bytes → Manager Tx → Manager Tx
    upload pending_id paths archive node_id m =
        let call = uploaded archive node_id m.encryption_type in
        let sent = record m { trace = m.trace ++ (call ∷ []) } in
        elim (outcome m.trace call) [
          | some e ↦ notify_backup_failed e (remove_files world paths sent)
          | none ↦
              let done = remove_files world paths sent in
              notify (backup_success (account_name m.trace)) (record done {
                db = (mark_backup_request_completed s (meanwhile done.db) pending_id).1;
              })
        ]

    -- From the archive on; paths[0] of no paths panics, and a failed compression is not notified.
    pub archive_and_upload : ℕ → List Bytes → Bytes → Manager Tx → Option (Manager Tx)
    archive_and_upload pending_id [] node_id m = none
    archive_and_upload pending_id (p ∷ paths) node_id m =
        let call = compressed (p ∷ paths) (archive_beside p) in
        let zipped = record m { trace = m.trace ++ (call ∷ []) } in
        elim (outcome m.trace call) [
          | some _ ↦ some zipped
          | none ↦ some (upload pending_id (p ∷ paths) (archive_beside p) node_id zipped)
        ]

    -- From the preparation on.
    pub back_up : ℕ → Manager Tx → Option (Manager Tx)
    back_up pending_id m =
        let asked = notify backup_request m in
        elim (prepare_backup_data asked.trace) [
          | err e ↦ some (notify_backup_failed e asked)
          | ok prepared ↦
              if not asked.has_provider
              then some (notify_backup_failed no_provider asked)
              else let ready = encrypt_files world asked.encryption_key prepared.0 asked.trace in
                elim ready.1 [
                  | some e ↦ some (notify_backup_failed e (record asked { trace = ready.0 }))
                  | none ↦
                      archive_and_upload pending_id prepared.0 prepared.1
                        (record asked { trace = ready.0 })
                ]
        ]

    abbrev pub is_nil {ℓ} : {A : Type ℓ} → Option A → Bool
    is_nil none = true
    is_nil (some a) = false

    -- One request received by the loop of Start; `none` is a panic.
    pub serve : Manager Tx → Option (Manager Tx)
    serve m = elim (last_backup_request s m.db) [
      | err _ ↦ none
      | ok pending_id ↦
          if pending_id == 0
          then some m
          else if use_encryption s m.db && is_nil m.encryption_key
          then some m
          else back_up pending_id m
    ]
