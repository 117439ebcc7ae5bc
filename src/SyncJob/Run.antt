-- ===== src/SyncJob/Run.antt =====
-- sync/job.go: one run of the job, from its checks to the scan, and the flag that ends it.
use breez.Common.{
  ℕ, ◌+◌, ◌%◌, ◌^◌, Bool, true, false, ◌&&◌, Option, none, some, [], ltb, ◌==◌, if◌then◌else◌,
  Result, ok, err,
}
use breez.Bolt.{Bolt, Codec}
use breez.Db.Basics as Basics
use breez.Db.Basics.{Error}
use breez.Db.SyncStatus.{MismatchedChannels, set_last_synced_header_timestamp}
use breez.SyncJob.Store.{
  Bucket, Failure, chain_failed, store_failed, no_peer, fetch_c_filter_sync_height,
  set_last_success_run_date, last_success_run_date,
}
use breez.SyncJob.Watcher.{ChannelSource, ScanSource, new_channels_watcher, scan}
use breez.SyncJob.Job.{Chain, Downloaded, wait_for_headers, sync_headers, filter_loop}

-- The ten minutes between two runs; the dates are Unix seconds, and Sub saturates at a date before 1970.
abbrev pub rate_limit_job_interval : ℕ
rate_limit_job_interval = 600

unfoldable pub is_rate_limited : ℕ → ℕ → Bool
is_rate_limited now last_run = ltb last_run (2 ^ 63) && ltb now (last_run + rate_limit_job_interval)

-- What syncFilters needs before it starts: whether the chain is bootstrapped, the databases and the
-- chain service, and the time.
pub record Setup (E : Type 0) : Type 0 where
  pub bootstrapped : Result E Bool
  pub breez_db : Result E (Unit {0})
  pub job_db : Result E (Unit {0})
  pub chain_service : Result E (Unit {0})
  pub started : ℕ
  pub finished : ℕ

module _ {E : Type 0} (setup : Setup E) (chain : Chain E) (blocks : ScanSource E)
    (lnd : ChannelSource E) (s : Bolt Bucket Error) (breez : Bolt Basics.Bucket Error)
    (json : Codec Error MismatchedChannels) where
  -- The answer of a run with both databases.
  pub record Synced : Type 0 where
    pub channel_closed : Bool
    pub failure : Option (Failure E)
    pub job : s.Tx
    pub breez_db : breez.Tx

  abbrev ended_with : Bool → Option (Failure E) → s.Tx → breez.Tx → Synced
  ended_with closed failure t b = record {
    channel_closed = closed;
    failure = failure;
    job = t;
    breez_db = b;
  }

  abbrev failed : Failure E → s.Tx → breez.Tx → Synced
  failed e t b = ended_with false (some e) t b

  abbrev pub date_set : Bool → Result Error (Unit {0}) × s.Tx → breez.Tx → Synced
  date_set closed (ok _, u) b = ended_with closed none u b
  date_set closed (err e, u) b = ended_with closed (some (store_failed e)) u b

  -- After the filters: the scan, the header's time stamp, whose error is only logged, and the date.
  unfoldable pub scanned : (Bool × Option (Failure E)) × s.Tx → breez.Tx → Synced
  scanned ((_, some e), u) b = failed e u b
  scanned ((closed, none), u) b =
      let after = (set_last_synced_header_timestamp breez json b setup.finished).1 in
      date_set closed (set_last_success_run_date s u setup.finished) after

  unfoldable pub check_channels : ℕ → s.Tx → breez.Tx → Synced
  check_channels best t b = elim (new_channels_watcher lnd) [
    | err e ↦ failed (chain_failed e) t b
    | ok watcher ↦ scanned (scan blocks s watcher best t) b
  ]

  abbrev pub after_filters : breez.Tx → Option (Downloaded chain s) → Option Synced
  after_filters b none = none
  after_filters b (some d) = elim d.answer [
    | err e ↦ some (failed e d.tx b)
    | ok none ↦ some (ended_with false none d.tx b)
    | ok (some best) ↦ some (check_channels best d.tx b)
  ]

  -- From the start of the chain service on.
  unfoldable pub sync_from : ℕ → ℕ → ℕ → ℕ → s.Tx → breez.Tx → Option Synced
  sync_from waits headers rounds saved t b = elim (wait_for_headers chain waits 0 saved) [
    | none ↦ none
    | some (err e, _) ↦ some (failed e t b)
    | some (ok first_best, now) ↦
        let start = if saved == 0 then first_best else saved in
        elim (sync_headers chain waits headers now start first_best) [
          | none ↦ none
          | some (err e, _) ↦ some (failed e t b)
          | some (ok none, _) ↦ some (ended_with false none t b)
          | some (ok (some best), later) ↦ elim (chain.connected_count later == 0) [
            | true ↦ some (failed no_peer t b)
            | false ↦ after_filters b (filter_loop chain s waits rounds later start best [] t)
          ]
        ]
  ]

  unfoldable pub sync_filters : ℕ → ℕ → ℕ → s.Tx → breez.Tx → Option Synced
  sync_filters waits headers rounds t b = elim setup.bootstrapped [
    | err e ↦ some (failed (chain_failed e) t b)
    | ok false ↦ some (ended_with false none t b)
    | ok true ↦ elim setup.breez_db [
      | err e ↦ some (failed (chain_failed e) t b)
      | ok _ ↦ elim setup.job_db [
        | err e ↦ some (failed (chain_failed e) t b)
        | ok _ ↦ elim (last_success_run_date s t) [
          | err e ↦ some (failed (store_failed e) t b)
          | ok last_run ↦ elim (is_rate_limited setup.started last_run) [
            | true ↦ some (ended_with false none t b)
            | false ↦ elim (fetch_c_filter_sync_height s t) [
              | err e ↦ some (failed (store_failed e) t b)
              | ok saved ↦ elim setup.chain_service [
                | err e ↦ some (failed (chain_failed e) t b)
                | ok _ ↦ sync_from waits headers rounds saved t b
              ]
            ]
          ]
        ]
      ]
    ]
  ]

-- The shutdown counter is an int32; the quit channel is closed once. `none` is the panic of a second close.
pub record Quit : Type 0 where
  pub shutdown : ℕ
  pub is_closed : Bool

unfoldable pub terminate : Quit → Option Quit
terminate q =
    let shutdown = (q.shutdown + 1) % 2 ^ 32 in
    if shutdown == 1
    then if q.is_closed then none else some (record { shutdown = shutdown; is_closed = true })
    else some (record q { shutdown = shutdown })

-- The end of Run: the job's quit channel is closed unless the run failed.
pub run_end : {E : Type 0} → Option E → Quit → Option Quit
run_end none q = terminate q
run_end (some e) q = some q
