-- ===== src/SyncJob/Watcher.antt =====
-- sync/channelswatcher.go: NewChannelsWatcher, Scan and the handlers of the rescan.
use breez.Common.{
  ℕ, ◌%◌, ◌^◌, Bool, true, false, not, ◌&&◌, ◌||◌, Option, none, some, List, [], ◌∷◌, ◌++◌, Bytes,
  ltb, ◌==◌, if◌then◌else◌, Result, ok, err, ◌>>=◌,
}
use breez.Bolt.{Bolt}
use breez.Db.Basics.{Error}
use breez.SyncJob.Store.{
  Bucket, Failure, chain_failed, store_failed, set_channels_watcher_block_height,
  fetch_channels_watcher_block_height,
}

-- What NewChannelsWatcher reads of an open channel.
pub record Channel : Type 0 where
  pub local_balance : ℕ
  pub funding_outpoint : Bytes
  pub local_key : Bytes
  pub remote_key : Bytes
  pub block_height : ℕ

-- lnd's channel database, its scripts and its cache of height hints; the hint that is not found is
-- `none`.
pub record ChannelSource (E : Type 0) : Type 0 where
  pub fetch_all_open_channels : Result E (List Channel)
  pub witness_script : Bytes → Bytes → Result E Bytes
  pub query_spend_hint : Bytes → Bytes → Result E (Option ℕ)

pub record InputWithScript : Type 0 where
  pub out_point : Bytes
  pub pk_script : Bytes

pub record ChannelsWatcher : Type 0 where
  pub watched_scripts : List InputWithScript
  pub first_channel_block_height : ℕ
  pub closed_channel_detected : Bool

unfoldable pub raised : ℕ → Option ℕ → ℕ
raised height none = height
raised height (some start_block) = if ltb height start_block then start_block else height

unfoldable pub first_of : ℕ → ℕ → ℕ
first_of first height = if first == 0 || ltb height first then height else first

module _ {E : Type 0} (lnd : ChannelSource E) where
  -- The script of a channel and the height to watch it from.
  unfoldable pub watch_channel : Channel → Result E (InputWithScript × ℕ)
  watch_channel c = do
    pk_script ← lnd.witness_script c.local_key c.remote_key
    hint ← lnd.query_spend_hint c.funding_outpoint pk_script
    ok (
      record { out_point = c.funding_outpoint; pk_script = pk_script },
      raised c.block_height hint,
    )

  unfoldable pub watch_channels :
      List InputWithScript → ℕ → List Channel → Result E (List InputWithScript × ℕ)
  watch_channels scripts first [] = ok (scripts, first)
  watch_channels scripts first (c ∷ channels) = elim (c.local_balance == 0) [
    | true ↦ watch_channels scripts first channels
    | false ↦ watch_channel c >>= λ (script, height).
        watch_channels (scripts ++ (script ∷ [])) (first_of first height) channels
  ]

  unfoldable pub new_channels_watcher : Result E ChannelsWatcher
  new_channels_watcher = do
    channels ← lnd.fetch_all_open_channels
    (scripts, first) ← watch_channels [] 0 channels
    ok (record {
      watched_scripts = scripts;
      first_channel_block_height = first;
      closed_channel_detected = false;
    })

-- What neutrino's rescan tells its handlers: a block with as many matching transactions, and how far it is.
pub data Event : Type 0 where
  block_connected progress : ℕ → Event

-- neutrino's chain: block hashes, and the events of a rescan with the error that ends it.
pub record ScanSource (E : Type 0) : Type 0 where
  pub get_block_hash : ℕ → Result E Bytes
  pub rescan : ℕ × Bytes → ℕ × Bytes → List InputWithScript → List Event × Option E

unfoldable pub start_height : ChannelsWatcher → ℕ → ℕ
start_height b saved =
    if ltb saved b.first_channel_block_height then b.first_channel_block_height else saved

module _ {E : Type 0} (chain : ScanSource E) (s : Bolt Bucket Error) where
  open s use {Tx}

  -- The handlers; the error of the store is ignored.
  unfoldable pub on_event : Event → Bool → Tx → Bool × Tx
  on_event (block_connected txs) closed t = (closed || ltb 0 txs, t)
  on_event (progress last_block) closed t =
      if not closed && (last_block % 100 == 0)
      then (closed, (set_channels_watcher_block_height s t last_block).1)
      else (closed, t)

  unfoldable pub on_events : List Event → Bool → Tx → Bool × Tx
  on_events [] closed t = (closed, t)
  on_events (e ∷ events) closed t =
      let (now_closed, u) = on_event e closed t in on_events events now_closed u

  abbrev pub optional {ℓ} : {A : Type ℓ} → Result Error A → Option (Failure E)
  optional (ok _) = none
  optional (err e) = some (store_failed e)

  -- The end of Scan, with the error of the rescan.
  unfoldable pub end_scan : ℕ → Option E → Bool → Tx → (Bool × Option (Failure E)) × Tx
  end_scan tip (some e) closed t = ((closed, some (chain_failed e)), t)
  end_scan tip none closed t =
      if not closed
      then ((closed, none), (set_channels_watcher_block_height s t tip).1)
      else ((closed, none), t)

  -- The heights of the stamps are int32.
  unfoldable pub scan_range :
      ChannelsWatcher → ℕ → ℕ → Bytes → Bytes → Tx → (Bool × Option (Failure E)) × Tx
  scan_range b start tip start_hash tip_hash t =
      let (events, failure) =
        chain.rescan (start % 2 ^ 32, start_hash) (tip % 2 ^ 32, tip_hash) b.watched_scripts in
      let (closed, u) = on_events events b.closed_channel_detected t in
      end_scan tip failure closed u

  unfoldable pub scan : ChannelsWatcher → ℕ → Tx → (Bool × Option (Failure E)) × Tx
  scan b tip t = elim b.watched_scripts [
    | [] ↦
        let (answer, u) = set_channels_watcher_block_height s t tip in ((false, optional answer), u)
    | _ ∷ _ ↦ elim (fetch_channels_watcher_block_height s t) [
      | err e ↦ ((false, some (store_failed e)), t)
      | ok saved ↦
          let start = start_height b saved in
          elim (chain.get_block_hash start) [
            | err e ↦ ((false, some (chain_failed e)), t)
            | ok start_hash ↦ elim (chain.get_block_hash tip) [
              | err e ↦ ((false, some (chain_failed e)), t)
              | ok tip_hash ↦ scan_range b start tip start_hash tip_hash t
            ]
          ]
    ]
  ]
