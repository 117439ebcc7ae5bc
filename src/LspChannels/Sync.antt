-- ===== src/LspChannels/Sync.antt =====
-- syncChannels, recordChannelsStatus and unconfirmedChannelsStatus of lsp_chan_state.go.
use breez.Common.{
  ℕ, ◌%◌, ◌^◌, Bool, true, false, Option, none, some, List, [], ◌∷◌, ◌++◌, Bytes, length, ltb, leb,
  if◌then◌else◌, Result, ok, err, ◌>>=◌,
}
use breez.Bolt.{Bolt, Codec}
use breez.Db.Basics.{Bucket, Error}
use breez.Db.SyncStatus.{
  MismatchedChannel, MismatchedChannels, set_mismatched_channels, fetch_mismatched_channels,
  remove_channel_mismatch,
}
use breez.LspChannels.{
  StringMap, Snapshots, OpenChannel, Failure, store_failed, ChannelDb, get, value_or_zero,
  block_height, from_lnd, collect_channels_status, parse_outpoint, has_active_funding_workflow,
  reset_funding_flow, commit_height_hint,
}

abbrev pub hint_or : Option ℕ → ℕ → ℕ
hint_or none height = height
hint_or (some hint) height = hint

-- The channels of now, each with the hint that it had before if it had one.
unfoldable pub merged : StringMap ℕ → StringMap ℕ → StringMap ℕ
merged before [] = []
merged before ((k, height) ∷ after) = (k, hint_or (get k before) height) ∷ merged before after

-- The channels that the LSP knows as confirmed no higher than the node's hint.
unfoldable pub mismatched_of : StringMap ℕ → StringMap ℕ → List MismatchedChannel
mismatched_of after [] = []
mismatched_of after ((c, short_chan_id) ∷ confirmed) =
    if leb (block_height short_chan_id) (value_or_zero (get c after) % 2 ^ 32)
    then record { chan_point = c; short_chan_id = short_chan_id } ∷ mismatched_of after confirmed
    else mismatched_of after confirmed

-- The fields of data.UnconfirmedChannelStatus.
pub record Status : Type 0 where
  pub channel_point : Bytes
  pub height_hint : ℕ
  pub lsp_confirmed_height : ℕ

-- With an old status only the hints of the channels that are still unconfirmed are taken.
unfoldable pub refreshed : StringMap ℕ → List Status → List Status
refreshed hints [] = []
refreshed hints (old ∷ statuses) = elim (get old.channel_point hints) [
  | none ↦ refreshed hints statuses
  | some hint ↦ record old { height_hint = hint } ∷ refreshed hints statuses
]

unfoldable pub statuses_of : StringMap ℕ → StringMap ℕ → List Status
statuses_of hints [] = []
statuses_of hints ((cp, height) ∷ confirmed) =
    record {
      channel_point = cp;
      height_hint = value_or_zero (get cp hints);
      lsp_confirmed_height = height;
    }
    ∷ statuses_of hints confirmed

-- The hints of all nodes in one map; a later node's come first.
unfoldable pub all_hints : Snapshots → StringMap ℕ → StringMap ℕ
all_hints [] hints = hints
all_hints ((_, snapshot) ∷ snapshots) hints = all_hints snapshots (snapshot ++ hints)

module _ {E : Type 0} (lnd : ChannelDb E) (s : Bolt Bucket Error)
    (json : Codec Error MismatchedChannels) where
  open lnd use {Chan}
  open s use {Tx}

  -- checkChannels asks the LSP over a signed and encrypted message; `check` is the reply's map of
  -- channels that are confirmed.
  module _ (check : StringMap ℕ → Result E (StringMap ℕ)) where
    abbrev pub answered : Bool → Result Error (Unit {0}) × Tx → Result (Failure E) Bool × Tx
    answered mismatch (err e, t) = (err (store_failed e), t)
    answered mismatch (ok _, t) = (ok mismatch, t)

    unfoldable pub sync_snapshots :
        Tx → Bytes → StringMap ℕ → StringMap ℕ → Result (Failure E) Bool × Tx
    sync_snapshots t lsp before after = elim (from_lnd lnd (check (merged before after))) [
      | err e ↦ (err e, t)
      | ok confirmed ↦
          let mismatched = mismatched_of after confirmed in
          answered (ltb 0 (length mismatched)) (
            set_mismatched_channels s json t
              (record { lsp_pubkey = lsp; chan_points = mismatched }))
    ]

    unfoldable pub sync_channels : Snapshots → Chan → Tx → Bytes → Result (Failure E) Bool × Tx
    sync_channels snapshots db t lsp = elim (get lsp snapshots) [
      | none ↦ (ok false, t)
      | some before ↦ elim (collect_channels_status lnd db) [
        | err e ↦ (err e, t)
        | ok (current, _) ↦ elim (get lsp current) [
          | none ↦ (ok false, t)
          | some after ↦ sync_snapshots t lsp before after
        ]
      ]
    ]

    -- The loop of unconfirmedChannelsStatus over the LSPs, each with its node's key.
    pub lsp_statuses : StringMap ℕ → Snapshots → List Bytes → Result (Failure E) (List Status)
    lsp_statuses hints current [] = ok []
    lsp_statuses hints current (lsp ∷ lsps) =
        let rest = lsp_statuses hints current lsps in
        elim (get lsp current) [
          | none ↦ rest
          | some [] ↦ rest
          | some (channel ∷ channels) ↦ from_lnd lnd (check (channel ∷ channels)) >>= λ confirmed.
              rest >>= λ statuses. ok (statuses_of hints confirmed ++ statuses)
        ]

    pub unconfirmed_channels_status :
        Result E (List Bytes) → Chan → List Status → Result (Failure E) (List Status)
    unconfirmed_channels_status lsps db old = from_lnd lnd lsps >>= λ keys.
        collect_channels_status lnd db >>= λ (current, _).
        let hints = all_hints current [] in
        elim old [
          | [] ↦ lsp_statuses hints current keys
          | o ∷ olds ↦ ok (refreshed hints (o ∷ olds))
        ]

  -- The loops of recordChannelsStatus over the unconfirmed channels of one node, and over the nodes.
  unfoldable pub reset_funding :
      StringMap OpenChannel → Chan → StringMap ℕ → Result (Failure E) (Unit {0}) × Chan
  reset_funding by_outpoint db [] = (ok tt, db)
  reset_funding by_outpoint db ((cp, _) ∷ unconfirmed) = elim (parse_outpoint lnd cp) [
    | err e ↦ (err e, db)
    | ok outpoint ↦ elim (has_active_funding_workflow lnd db outpoint) [
      | err e ↦ (err e, db)
      | ok true ↦ reset_funding by_outpoint db unconfirmed
      | ok false ↦ elim (get cp by_outpoint) [
        | none ↦ reset_funding by_outpoint db unconfirmed
        | some ch ↦ elim (reset_funding_flow lnd db outpoint ch.short_chan_id) [
          | err e ↦ (err e, db)
          | ok after ↦ reset_funding by_outpoint after unconfirmed
        ]
      ]
    ]
  ]

  unfoldable pub reset_all :
      StringMap OpenChannel → Chan → Snapshots → Result (Failure E) (Unit {0}) × Chan
  reset_all by_outpoint db [] = (ok tt, db)
  reset_all by_outpoint db ((_, snapshot) ∷ status) =
      let (r, after) = reset_funding by_outpoint db snapshot in
      elim r [ err e ↦ (err e, after) | ok _ ↦ reset_all by_outpoint after status ]

  -- The hints are committed if there are channels; an error of that is only logged.
  unfoldable pub purge : Chan → Option MismatchedChannels → Chan
  purge db none = db
  purge db (some channels) =
      if ltb 0 (length channels.chan_points)
      then (commit_height_hint lnd db channels.chan_points).1
      else db

  pub record Recorded : Type 0 where
    pub answer : Result (Failure E) (Unit {0})
    pub snapshots : Snapshots
    pub chan : Chan
    pub tx : Tx

  abbrev pub stored : Result Error (Unit {0}) → Result (Failure E) (Unit {0})
  stored (ok a) = ok a
  stored (err e) = err (store_failed e)

  unfoldable pub record_channels_status : Snapshots → Chan → Tx → Recorded
  record_channels_status old db t = elim (collect_channels_status lnd db) [
    | err e ↦ record { answer = err e; snapshots = old; chan = db; tx = t }
    | ok (status, by_outpoint) ↦ elim (fetch_mismatched_channels s json t) [
      | err e ↦ record { answer = err (store_failed e); snapshots = status; chan = db; tx = t }
      | ok channels ↦
          let (funded, after) = reset_all by_outpoint (purge db channels) status in
          elim funded [
            | err e ↦ record { answer = err e; snapshots = status; chan = after; tx = t }
            | ok _ ↦
                let (removed, u) = remove_channel_mismatch s json t in
                record { answer = stored removed; snapshots = status; chan = after; tx = u }
          ]
    ]
  ]
