-- ===== src/LspChannels/Tests.antt =====
-- Two unconfirmed channels of one LSP, of which the reply confirms one below the node's hint.
use breez.Common.{
  ℕ, zero, suc, ◌+◌, ◌*◌, ◌^◌, ◌≡◌, ◌⊎◌, refl, ap, true, none, some, List, [], ◌∷◌, ◌++◌, map,
  Bytes, codes, bytes_eq_refl, Result, ok, err, ok-injective,
}
use breez.Bolt.{Codec}
use breez.Bolt.Memory.{keyed}
use breez.Db.Basics.{Error}
use breez.Db.Samples.{store, empty_store}
use breez.Db.SyncStatus.{MismatchedChannel, MismatchedChannels, fetch_mismatched_channels}
use breez.LspChannels.{
  StringMap, Snapshots, OpenChannel, Failure, ChannelDb, get, collect_channels_status,
}
use breez.LspChannels.Sync.{record_channels_status}
use breez.LspChannels.Mismatch.{record_channels_status-AllOrNothing}

-- An encoding of the records that keeps all of them: a zero before each channel, and all else one higher.
shifted : List MismatchedChannel → Bytes
shifted [] = []
shifted (m ∷ points) = zero ∷ (map suc (m.short_chan_id ∷ m.chan_point) ++ shifted points)

point_of : Bytes → MismatchedChannel
point_of [] = record { chan_point = []; short_chan_id = 0 }
point_of (id ∷ point) = record { chan_point = point; short_chan_id = id }

unshifted : Bytes → Bytes × List MismatchedChannel
unshifted [] = ([], [])
unshifted (zero ∷ rest) = let (current, points) = unshifted rest in ([], point_of current ∷ points)
unshifted (suc x ∷ rest) = let (current, points) = unshifted rest in (x ∷ current, points)

bytes_of_record : MismatchedChannels → Bytes
bytes_of_record m = map suc m.lsp_pubkey ++ shifted m.chan_points

record_of_bytes : Bytes → MismatchedChannels
record_of_bytes b =
    let (key, points) = unshifted b in record { lsp_pubkey = key; chan_points = points }

abbrev json : Codec Error MismatchedChannels
json = keyed bytes_of_record record_of_bytes

-- A database of the channels and their hints.
abbrev channel : ℕ → Bytes → Bytes → OpenChannel
channel id outpoint txid = record {
  short_chan_id = id;
  active_htlcs = 0;
  peer = codes "lsp";
  outpoint = outpoint;
  funding_txid = txid;
}

data Refusal : Type 0 where
  refused : Refusal

get-new :
    (txid : Bytes) (height : ℕ) (hints : StringMap ℕ)
    → get txid ((txid, height) ∷ hints) ≡ some height
unfolding get
get-new txid height hints = rw (bytes_eq_refl txid) refl

abbrev lnd : ChannelDb Refusal
lnd = record {
  Chan = StringMap ℕ;
  open_channels =
      λ hints. ok (channel 1 (codes "a:0") (codes "a") ∷ channel 2 (codes "b:1") (codes "b") ∷ []);
  is_fake = λ id. true;
  confirm_hint = λ hints txid. ok (get txid hints);
  commit_confirm_hint = λ hints txid height. ok ((txid, height) ∷ hints);
  opening_state = λ hints outpoint. ok none;
  put_opening_state = λ hints outpoint state. ok hints;
  hash_from_text = λ text. ok text;
  confirm_hint-commit = λ {c} {d} {txid} {height} e.
      let same : (txid, height) ∷ c ≡ d = ok-injective e in
      rw (← same) (ap ok (get-new txid height c));
}

abbrev hints : StringMap ℕ
hints = (codes "a", 700) ∷ (codes "b", 600) ∷ []

abbrev before : Snapshots
before = (codes "lsp", (codes "a:0", 500) ∷ []) ∷ []

-- Both channels are confirmed at height 650.
abbrev reply : StringMap ℕ → Result Refusal (StringMap ℕ)
reply asked = ok ((codes "a:0", 650 * 2 ^ 40) ∷ (codes "b:1", 650 * 2 ^ 40 + 7) ∷ [])

record_channels_status-AllOrNothing_example :
    let r = record_channels_status lnd store json before hints empty_store in
    ((e : Failure Refusal) × (r.answer ≡ err e) × (r.tx ≡ empty_store))
    ⊎ ((channels : StringMap OpenChannel) × ((r.answer ≡ ok tt)
          × (collect_channels_status lnd hints ≡ ok (r.snapshots, channels))
          × (fetch_mismatched_channels store json r.tx ≡ ok none)))
record_channels_status-AllOrNothing_example =
    record_channels_status-AllOrNothing lnd store json before hints empty_store
