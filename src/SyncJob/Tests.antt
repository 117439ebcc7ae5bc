-- ===== src/SyncJob/Tests.antt =====
-- A chain of 305 blocks with a match after block 200, two channels, and the job's theorems on them.
use breez.Common.{
  ℕ, ◌≡◌, inl, refl, true, false, none, some, List, [], ◌∷◌, ◌++◌, map, Bytes, codes, ok,
  ok-injective, arith, All,
}
use breez.Bolt.{Bolt, Codec}
use breez.Bolt.Memory.{memory, keyed}
use breez.Db.Basics.{Error, itob}
use breez.Db.Basics as Basics
use breez.Db.Samples as Samples
use breez.Db.SyncStatus.{MismatchedChannels}
use breez.SyncJob.Store.{Bucket, Bucket-discrete}
use breez.SyncJob.Watcher.{
  Channel, ChannelSource, ChannelsWatcher, InputWithScript, block_connected, progress, ScanSource,
  new_channels_watcher, watch_channels, watch_channel, raised, first_of, scan,
}
use breez.SyncJob.Scanning.{Outcome, scan-Scanned}
use breez.SyncJob.Watched.{with_balance, IsCovered, new_channels_watcher-Watched}
use breez.SyncJob.Job.{timed_out, Chain}
use breez.SyncJob.Run.{Setup, sync_filters}
use breez.SyncJob.Waits.{Settles, IsBounded}
use breez.SyncJob.Ending.{TimesOut, Returns, sync_filters_total}

abbrev jobs : Bolt Bucket Error
jobs = memory Bucket-discrete (Basics.store_failed 0)

unfoldable no_jobs : jobs.Tx
unfolding memory
no_jobs = record { buckets = λ b. false; cells = λ b. []; sequences = λ b. 0 }

data Refusal : Type 0 where
  refused : Refusal

abbrev channel : ℕ → Bytes → ℕ → Channel
channel balance point height = record {
  local_balance = balance;
  funding_outpoint = point;
  local_key = codes "k";
  remote_key = codes "r";
  block_height = height;
}

abbrev opened : List Channel
opened = channel 5 (codes "a:0") 120 ∷ channel 0 (codes "b:0") 90 ∷ channel 7 (codes "c:1") 110 ∷ []

abbrev lnd : ChannelSource Refusal
lnd = record {
  fetch_all_open_channels = ok opened;
  witness_script = λ k r. ok (k ++ r);
  query_spend_hint = λ point script. ok (some 115);
}

abbrev script : Bytes → InputWithScript
script point = record { out_point = point; pk_script = codes "kr" }

abbrev watcher : ChannelsWatcher
watcher = record {
  watched_scripts = script (codes "a:0") ∷ script (codes "c:1") ∷ [];
  first_channel_block_height = 115;
  closed_channel_detected = false;
}

watches : new_channels_watcher lnd ≡ ok watcher
unfolding new_channels_watcher watch_channels watch_channel raised first_of
watches = refl

new_channels_watcher-Watched_example :
    (map (λ (x : InputWithScript). x.out_point) watcher.watched_scripts
      ≡ map (λ (c : Channel). c.funding_outpoint) (with_balance opened))
    × (watcher.closed_channel_detected ≡ false)
    × All (IsCovered lnd watcher.first_channel_block_height) (with_balance opened)
new_channels_watcher-Watched_example =
    new_channels_watcher-Watched lnd opened watcher refl watches
      (omega arith, (omega arith, (omega arith, tt)))

-- The rescan reports block 200 before the match, and block 300 after it.
abbrev blocks : ScanSource Refusal
blocks = record {
  get_block_hash = λ height. ok (codes "h");
  rescan = λ from to scripts.
      (progress 200 ∷ block_connected 0 ∷ block_connected 1 ∷ progress 300 ∷ [], none);
}

scan-Scanned_example :
    Outcome blocks jobs watcher 305 no_jobs (scan blocks jobs watcher 305 no_jobs)
scan-Scanned_example =
    scan-Scanned blocks jobs watcher 305 no_jobs (omega arith)
      (λ from to. (omega arith, (omega arith, tt))) refl

-- A chain whose headers are current, with a peer.
abbrev chain : Chain Refusal
chain = record {
  best_block = λ now. ok 305;
  is_current = λ now. true;
  connected_count = λ now. 1;
  get_block_hash = λ now height. ok (codes "h");
  get_c_filter = λ now hash. ok tt;
  terminated = λ now. false;
  select = λ now. timed_out;
}

chain-Settles : Settles chain 1
chain-Settles now = (0, omega arith, inl refl)

chain-IsBounded : IsBounded chain 305
chain-IsBounded now best e = let same : 305 ≡ best = ok-injective e in omega (arith, same)

chain-TimesOut : TimesOut chain 0
chain-TimesOut now late e = cc

abbrev setup : Setup Refusal
setup = record {
  bootstrapped = ok true;
  breez_db = ok tt;
  job_db = ok tt;
  chain_service = ok tt;
  started = 1600000000;
  finished = 1600000100;
}

abbrev json : Codec Error MismatchedChannels
json = keyed (λ m. m.lsp_pubkey) (λ b. record { lsp_pubkey = b; chan_points = [] })

sync_filters_total_example : Returns setup chain blocks lnd jobs Samples.store json 305 (
    sync_filters setup chain blocks lnd jobs Samples.store json 1 1 400 no_jobs Samples.empty_store)
sync_filters_total_example =
    sync_filters_total setup chain blocks lnd jobs Samples.store json 305 0 1 1 400 no_jobs
      Samples.empty_store chain-Settles chain-IsBounded chain-TimesOut (omega arith) (omega arith)
      (omega arith)
