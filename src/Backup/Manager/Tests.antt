-- ===== src/Backup/Manager/Tests.antt =====
-- A served backup request, and the theorems of package backup on it.
use breez.Common.{◌≡◌, refl, true, false, none, some, [], ◌∷◌, codes, ok, arith}
use breez.Bolt.{Bolt}
use breez.Bolt.Memory.{memory}
use breez.Bolt.Transactions.{AllOrNothing}
use breez.Db.Basics.{Error, store_failed}
use breez.Backup.Store.{Bucket, backup, add_backup_request, last_backup_request, use_encryption}
use breez.Backup.Store.Requests.{
  Requests, requested, spec_step, apply, Shows, apply-Shows, last_backup_request-Shows,
}
use breez.Backup.Manager.{
  World, Manager, notified, encrypted, removed, renamed, compressed, uploaded, backup_request,
  backup_success,
}
use breez.Backup.Manager.{SnapshotInfo, is_safe_to_run_node}
use breez.Backup.Manager.Safety.{IsHarmless, is_safe_to_run_node_iff}
use breez.Common.{All, List, ◌↔◌}

unfoldable same_bucket : Discrete Bucket
same_bucket backup backup = yes refl

abbrev store : Bolt Bucket Error
store = memory same_bucket (store_failed 0)

unfoldable empty_store : store.Tx
unfolding memory
empty_store = record { buckets = λ b. true; cells = λ b. []; sequences = λ b. 0 }

abbrev nothing : Requests
nothing = record { made = 0; pending = none }

abbrev one : Requests
one = record { made = 1; pending = some 1 }

abbrev two : Requests
two = record { made = 2; pending = some 2 }

nothing-Shows : Shows store nothing empty_store
unfolding memory empty_store
nothing-Shows = record { made = refl; mark = refl; small = omega arith; known = λ n e. cc }

apply-Shows_example :
    AllOrNothing store empty_store
      (apply store requested empty_store)
      (λ _ u. Shows store (spec_step nothing requested) u)
apply-Shows_example = apply-Shows store requested nothing empty_store (omega arith) nothing-Shows

last_backup_request-Shows_example :
    (last_backup_request store empty_store ≡ ok 0) × (use_encryption store empty_store ≡ false)
last_backup_request-Shows_example =
    last_backup_request-Shows store nothing empty_store nothing-Shows

abbrev after_one : store.Tx
after_one = (add_backup_request store empty_store).1

abbrev after_two : store.Tx
after_two = (add_backup_request store after_one).1

-- All calls succeed; the node has one file; and a second request comes in meanwhile.
abbrev world : World store.Tx
world = record {
  prepare_backup_data = λ calls. ok (codes "/w/f" ∷ [], codes "node");
  outcome = λ calls call. none;
  account_name = λ calls. codes "me";
  archive_beside = λ p. codes "/w/backup.zip";
  meanwhile = λ t. after_two;
}

abbrev waiting : Manager store.Tx
waiting = record {
  db = after_one;
  has_provider = true;
  encryption_key = some (codes "key");
  encryption_type = codes "Pin";
  started = true;
  stopped = false;
  wakes = 1;
  trace = [];
}

-- The pending request is the second one.
abbrev served : Manager store.Tx
served = record waiting {
  db = after_two;
  trace =
      notified backup_request
      ∷ encrypted (codes "/w/f") (codes "/w/f.enc") (codes "key")
      ∷ removed (codes "/w/f")
      ∷ renamed (codes "/w/f.enc") (codes "/w/f")
      ∷ compressed (codes "/w/f" ∷ []) (codes "/w/backup.zip")
      ∷ uploaded (codes "/w/backup.zip") (codes "node") (codes "Pin")
      ∷ removed (codes "/w/f")
      ∷ notified (backup_success (codes "me"))
      ∷ [];
}

-- Two snapshots, one of them of another instance that runs the node.
abbrev snapshots : List SnapshotInfo
snapshots =
    record { node_id = codes "other"; backup_id = codes "b" }
    ∷ record { node_id = codes "node"; backup_id = codes "b" }
    ∷ []

is_safe_to_run_node_iff_example :
    (is_safe_to_run_node store waiting (codes "node") (ok snapshots) (ok (codes "a")) ≡ ok true)
    ↔ ((waiting.has_provider ≡ true) × All (IsHarmless (codes "node") (codes "a")) snapshots)
is_safe_to_run_node_iff_example =
    is_safe_to_run_node_iff store waiting (codes "node") (codes "a") snapshots
