-- ===== src/SyncJob/Store.antt =====
-- sync/db.go: three numbers in one bucket of a database of their own.
use breez.Common.{ℕ, true, false, none, some, Bytes, codes, Result, ok, ◌>>=◌}
use breez.Bolt.{Bolt, update}
use breez.Db.Basics.{Error, itob, btoi}

pub data Bucket : Type 0 where
  sync_info : Bucket

unfoldable pub Bucket-discrete : Discrete Bucket
Bucket-discrete = hlevel

-- Why a call of the job fails: the node's libraries, the store, or one of the job's own errors.
pub data Failure (E : Type 0) : Type 0 where
  chain_failed : E → Failure E
  store_failed : Error → Failure E
  has_quit no_peer : Failure E

abbrev pub last_c_filter_height_key : Bytes
last_c_filter_height_key = codes "lastCFilterHeight"

abbrev pub channels_watcher_height_key : Bytes
channels_watcher_height_key = codes "channelsWatcherHeightKey"

abbrev pub last_success_run_date_key : Bytes
last_success_run_date_key = codes "lastSuccessRunDate"

module _ (s : Bolt Bucket Error) where
  open s use {Tx, has_bucket, create_bucket, read, put}

  unfoldable pub set_number_body : Bytes → ℕ → Tx → Result Error (Unit {0} × Tx)
  set_number_body key number t = do
    t1 ← create_bucket t sync_info
    t2 ← put t1 sync_info key (itob number)
    ok (tt, t2)

  -- The body that the three setters share, and the one of the three getters.
  unfoldable pub set_number : Bytes → Tx → ℕ → Result Error (Unit {0}) × Tx
  set_number key t number = update s t (set_number_body key number)

  unfoldable pub fetch_number : Bytes → Tx → Result Error ℕ
  fetch_number key t = elim (has_bucket t sync_info) [
    | false ↦ ok 0
    | true ↦ elim (read t sync_info key) [ none ↦ ok 0 | some bytes ↦ btoi bytes ]
  ]

  abbrev pub set_c_filter_sync_height : Tx → ℕ → Result Error (Unit {0}) × Tx
  set_c_filter_sync_height = set_number last_c_filter_height_key

  abbrev pub fetch_c_filter_sync_height : Tx → Result Error ℕ
  fetch_c_filter_sync_height = fetch_number last_c_filter_height_key

  abbrev pub set_channels_watcher_block_height : Tx → ℕ → Result Error (Unit {0}) × Tx
  set_channels_watcher_block_height = set_number channels_watcher_height_key

  abbrev pub fetch_channels_watcher_block_height : Tx → Result Error ℕ
  fetch_channels_watcher_block_height = fetch_number channels_watcher_height_key

  -- Dates are Unix seconds.
  abbrev pub set_last_success_run_date : Tx → ℕ → Result Error (Unit {0}) × Tx
  set_last_success_run_date = set_number last_success_run_date_key

  abbrev pub last_success_run_date : Tx → Result Error ℕ
  last_success_run_date = fetch_number last_success_run_date_key
