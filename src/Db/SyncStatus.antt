-- ===== src/Db/SyncStatus.antt =====
-- db/syncstatus.go: up to which header the node is synced, and the channels that do not match.
pub mod Stored
use breez.Common.{ℕ, Option, none, some, List, Bytes, codes, Result, ok, err, ◌>>=◌}
use breez.Bolt.{Bolt, Codec}
use breez.Db.Basics.{Bucket, syncstatus, Error, itob, btoi, save_item, delete_item, fetch_item}

pub record MismatchedChannel : Type 0 where
  pub chan_point : Bytes
  pub short_chan_id : ℕ

pub record MismatchedChannels : Type 0 where
  pub lsp_pubkey : Bytes
  pub chan_points : List MismatchedChannel

abbrev pub last_header_timestamp : Bytes
last_header_timestamp = codes "last_header_timestamp"

abbrev pub mismatched_channels : Bytes
mismatched_channels = codes "mismatched_channels"

module _ (s : Bolt Bucket Error) (json : Codec Error MismatchedChannels) where
  open s use {Tx}
  open json use {encode, decode}

  -- Timestamps are the bit patterns of int64.
  pub fetch_last_synced_header_timestamp : Tx → Result Error ℕ
  fetch_last_synced_header_timestamp t = elim (fetch_item s t syncstatus last_header_timestamp) [
    | none ↦ ok 0
    | some bytes ↦ btoi bytes
  ]

  pub set_last_synced_header_timestamp : Tx → ℕ → Result Error (Unit {0}) × Tx
  set_last_synced_header_timestamp t ts = save_item s t syncstatus last_header_timestamp (itob ts)

  unfoldable pub set_mismatched_channels : Tx → MismatchedChannels → Result Error (Unit {0}) × Tx
  set_mismatched_channels t mismatched = elim (encode mismatched) [
    | err e ↦ (err e, t)
    | ok serialized ↦ save_item s t syncstatus mismatched_channels serialized
  ]

  pub fetch_mismatched_channels : Tx → Result Error (Option MismatchedChannels)
  fetch_mismatched_channels t = elim (fetch_item s t syncstatus mismatched_channels) [
    | none ↦ ok none
    | some raw ↦ decode raw >>= λ mismatched. ok (some mismatched)
  ]

  pub remove_channel_mismatch : Tx → Result Error (Unit {0}) × Tx
  remove_channel_mismatch t = delete_item s t syncstatus mismatched_channels
