-- ===== src/LspChannels.antt =====
-- lsp_chan_state.go: channels that the node takes for unconfirmed and the LSP knows as confirmed.
pub mod Sync
pub mod Mismatch
mod Tests
use breez.Common.{
  ℕ, ◌+◌, ◌*◌, ◌/◌, ◌%◌, ◌^◌, ◌≡◌, Bool, true, false, not, ◌&&◌, ◌||◌, Option, none, some, List, [],
  ◌∷◌, ◌++◌, Bytes, bytes_eq, length, ltb, leb, ◌==◌, if◌then◌else◌, Result, ok, err, ◌>>=◌,
}
use breez.Common.Decimal.{parse_uint}
use breez.Bolt.{Bolt, Codec}
use breez.Db.Basics.{Bucket, Error, itob}
use breez.Db.SyncStatus.{
  MismatchedChannel, MismatchedChannels, set_mismatched_channels, fetch_mismatched_channels,
  remove_channel_mismatch,
}

-- A Go map from strings; the order of its entries is that of an iteration.
abbrev pub StringMap : Type 0 → Type 0
StringMap V = List (Bytes × V)

module _ {V : Type 0} where
  unfoldable pub get : Bytes → StringMap V → Option V
  get k [] = none
  get k ((j, v) ∷ m) = if bytes_eq j k then some v else get k m

  unfoldable pub set : Bytes → V → StringMap V → StringMap V
  set k v [] = (k, v) ∷ []
  set k v ((j, w) ∷ m) = if bytes_eq j k then (k, v) ∷ m else (j, w) ∷ set k v m

-- Reading a missing key gives 0.
abbrev pub value_or_zero : Option ℕ → ℕ
value_or_zero none = 0
value_or_zero (some n) = n

-- What the code reads of channeldb.OpenChannel: the ids, the HTLCs in flight, the other node in
-- hexadecimal, and the funding outpoint as text with its transaction.
pub record OpenChannel : Type 0 where
  pub short_chan_id : ℕ
  pub active_htlcs : ℕ
  pub peer : Bytes
  pub outpoint : Bytes
  pub funding_txid : Bytes

pub data Failure (E : Type 0) : Type 0 where
  lnd_failed : E → Failure E
  store_failed : Error → Failure E
  invalid_outpoint : Failure E

-- What the code relies on of lnd's channel database: the channels, the height hints, and the states of
-- channels that are being funded.
pub record ChannelDb (E : Type 0) : Type 1 where
  pub Chan : Type 0
  pub open_channels : Chan → Result E (List OpenChannel)
  pub is_fake : ℕ → Bool
  pub confirm_hint : Chan → Bytes → Result E (Option ℕ)
  pub commit_confirm_hint : Chan → Bytes → ℕ → Result E Chan
  pub opening_state : Chan → Bytes → Result E (Option Bytes)
  pub put_opening_state : Chan → Bytes → Bytes → Result E Chan
  pub hash_from_text : Bytes → Result E Bytes
  pub confirm_hint-commit :
      {c d : Chan} {txid : Bytes} {height : ℕ}
      → commit_confirm_hint c txid height ≡ ok d
      → confirm_hint d txid ≡ ok (some height)

-- strings.Split at one byte
unfoldable pub split : ℕ → Bytes → List Bytes
split sep [] = [] ∷ []
split sep (c ∷ s) = elim (split sep s) [
  | [] ↦ []
  | part ∷ parts ↦ if c == sep then [] ∷ (part ∷ parts) else (c ∷ part) ∷ parts
]

-- lnwire's block height of a short channel id
abbrev pub block_height : ℕ → ℕ
block_height short_chan_id = short_chan_id / 2 ^ 40

-- A channel's snapshot: the hint for each unconfirmed channel of each node.
abbrev pub Snapshots : Type 0
Snapshots = StringMap (StringMap ℕ)

module _ {E : Type 0} (lnd : ChannelDb E) where
  open lnd use {Chan, open_channels, is_fake, confirm_hint, commit_confirm_hint}
  open lnd use {opening_state, put_opening_state, hash_from_text}

  unfoldable pub from_lnd {ℓ} : {A : Type ℓ} → Result E A → Result (Failure E) A
  from_lnd (ok a) = ok a
  from_lnd (err e) = err (lnd_failed e)

  abbrev pub or_empty : Option (StringMap ℕ) → StringMap ℕ
  or_empty none = []
  or_empty (some m) = m

  unfoldable pub with_channel : OpenChannel → ℕ → Snapshots → Snapshots
  with_channel c height snapshots =
      set c.peer (set c.outpoint height (or_empty (get c.peer snapshots))) snapshots

  -- The loop of collectChannelsStatus over the channels: fake ones with no HTLCs are taken.
  unfoldable pub collect :
      Chan
      → List OpenChannel
      → Snapshots
      → StringMap OpenChannel
      → Result (Failure E) (Snapshots × StringMap OpenChannel)
  collect db [] snapshots channels = ok (snapshots, channels)
  collect db (c ∷ list) snapshots channels =
      let rest = λ (height : ℕ).
        collect db list (with_channel c height snapshots) (set c.outpoint c channels) in
      let skip = collect db list snapshots channels in
      if not (is_fake c.short_chan_id) || ltb 0 c.active_htlcs
      then skip
      else from_lnd (confirm_hint db c.funding_txid) >>= λ hint. rest (value_or_zero hint)

  unfoldable pub collect_channels_status :
      Chan → Result (Failure E) (Snapshots × StringMap OpenChannel)
  collect_channels_status db = from_lnd (open_channels db) >>= λ list. collect db list [] []

  -- parseOutpoint: the transaction's hash and the index.
  unfoldable pub parse_parts : List Bytes → Result (Failure E) (Bytes × ℕ)
  parse_parts (text ∷ index ∷ []) = from_lnd (hash_from_text text) >>= λ hash.
      elim (parse_uint 32 index) [ none ↦ err invalid_outpoint | some n ↦ ok (hash, n) ]
  parse_parts parts = err invalid_outpoint

  unfoldable pub parse_outpoint : Bytes → Result (Failure E) (Bytes × ℕ)
  parse_outpoint tx = parse_parts (split b':' tx)

  -- writeOutpoint: wire's variable bytes of a 32-byte hash, and the index in four bytes.
  pub outpoint_bytes : Bytes × ℕ → Bytes
  outpoint_bytes (hash, index) =
      length hash
      ∷ (hash
          ++ (index / 2 ^ 24 % 256 ∷ index / 2 ^ 16 % 256 ∷ index / 2 ^ 8 % 256 ∷ index % 256 ∷ []))

  pub reset_funding_flow : Chan → Bytes × ℕ → ℕ → Result (Failure E) Chan
  reset_funding_flow db outpoint short_chan_id =
      from_lnd (put_opening_state db (outpoint_bytes outpoint) (0 ∷ 1 ∷ itob short_chan_id))

  pub has_active_funding_workflow : Chan → Bytes × ℕ → Result (Failure E) Bool
  has_active_funding_workflow db outpoint =
      from_lnd (opening_state db (outpoint_bytes outpoint)) >>= λ state.
      ok (elim state [ none ↦ false | some _ ↦ true ])

  unfoldable pub commit_parts : Chan → ℕ → List Bytes → Result (Failure E) Chan
  commit_parts db short_chan_id (text ∷ index ∷ []) = from_lnd (hash_from_text text) >>= λ hash.
      from_lnd (commit_confirm_hint db hash (block_height short_chan_id))
  commit_parts db short_chan_id parts = err invalid_outpoint

  -- commitHeightHint: the database keeps the hints that were committed before an error.
  unfoldable pub commit_height_hint :
      Chan → List MismatchedChannel → Result (Failure E) (Unit {0}) × Chan
  commit_height_hint db [] = (ok tt, db)
  commit_height_hint db (m ∷ mismatched) =
      elim (commit_parts db m.short_chan_id (split b':' m.chan_point)) [
        | err e ↦ (err e, db)
        | ok after ↦ commit_height_hint after mismatched
      ]
