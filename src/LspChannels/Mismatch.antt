-- ===== src/LspChannels/Mismatch.antt =====
-- What syncChannels of lsp_chan_state.go records, and how recordChannelsStatus drops it again.
use breez.Common.{
  ℕ, ◌%◌, ◌^◌, ◌≤◌, ◌≡◌, ◌⊎◌, ◌↔◌, inl, inr, refl, Bool, none, some, List, [], ◌∷◌, Bytes, length,
  ltb, Result, ok, err, Result-cases,
}
use breez.Bolt.{Bolt, Codec}
use breez.Db.Basics.{Bucket, Error}
use breez.Db.SyncStatus.{MismatchedChannel, MismatchedChannels, fetch_mismatched_channels}
use breez.Db.SyncStatus.Stored.{remove_channel_mismatch-AllOrNothing}
use breez.LspChannels.{
  StringMap, Snapshots, OpenChannel, Failure, store_failed, ChannelDb, get, value_or_zero,
  block_height, collect_channels_status,
}
use breez.LspChannels.Sync.{merged, purge, reset_all, record_channels_status}

-- The list holds the channel with the id.
abbrev pub IsListed : Bytes → ℕ → List MismatchedChannel → Type 0
IsListed c id [] = ⊥
IsListed c id (m ∷ mismatched) =
    ((m.chan_point ≡ c) × (m.short_chan_id ≡ id)) ⊎ IsListed c id mismatched

-- The map has the entry.
abbrev pub HasEntry : Bytes → ℕ → StringMap ℕ → Type 0
HasEntry c id [] = ⊥
HasEntry c id ((k, v) ∷ m) = ((k ≡ c) × (v ≡ id)) ⊎ HasEntry c id m

-- The LSP's confirmation is not above what the node would look for.
abbrev pub IsBelowHint : StringMap ℕ → Bytes → ℕ → Type 0
IsBelowHint after c id = block_height id ≤ value_or_zero (get c after) % 2 ^ 32

module _ {E : Type 0} (lnd : ChannelDb E) (s : Bolt Bucket Error)
    (json : Codec Error MismatchedChannels) where
  open lnd use {Chan}
  open s use {Tx}
  open json use {Plain}

  module _ (check : StringMap ℕ → Result E (StringMap ℕ)) where
    -- What is recorded for an LSP after a reply: its key, and of the channels that the reply confirms exactly
    -- those that are confirmed no higher than the hint of now; the answer is whether there are any.
    abbrev pub IsRecorded : Bytes → StringMap ℕ → StringMap ℕ → Bool → Tx → Type 0
    IsRecorded lsp before after answer u =
        (confirmed : StringMap ℕ) × (m : MismatchedChannels) × ((check (merged before after)
            ≡ ok confirmed)
          × (fetch_mismatched_channels s json u ≡ ok (some m))
          × (m.lsp_pubkey ≡ lsp)
          × (answer ≡ ltb 0 (length m.chan_points))
          × ((c : Bytes) (id : ℕ)
              → IsListed c id m.chan_points ↔ (HasEntry c id confirmed × IsBelowHint after c id)))

  -- A run of recordChannelsStatus either fails and leaves the recorded channels, the header time and all else
  -- of the database alone, or it succeeds, none are recorded any more, and what it collected of the
  -- channels is kept as the snapshots that syncChannels compares with.
  pub record_channels_status-AllOrNothing :
      (old : Snapshots) (db : Chan) (t : Tx)
      → let r = record_channels_status lnd s json old db t in
        ((e : Failure E) × (r.answer ≡ err e) × (r.tx ≡ t))
        ⊎ ((channels : StringMap OpenChannel) × ((r.answer ≡ ok tt)
              × (collect_channels_status lnd db ≡ ok (r.snapshots, channels))
              × (fetch_mismatched_channels s json r.tx ≡ ok none)))
  unfolding record_channels_status
  record_channels_status-AllOrNothing old db t =
      elim (Result-cases (collect_channels_status lnd db)) [
        | inr (e, failed) ↦ rw (failed, record_channels_status) (inl (e, refl, refl))
        | inl ((status, channels), collected) ↦
            elim (Result-cases (fetch_mismatched_channels s json t)) [
              | inr (e, failed) ↦
                  rw (collected, failed, record_channels_status) (inl (store_failed e, refl, refl))
              | inl (found, fetched) ↦
                  elim (Result-cases
                    (reset_all lnd s json channels (purge lnd s json db found) status).0) [
                      | inr (e, failed) ↦
                          rw (collected, fetched, failed, record_channels_status)
                            (inl (e, refl, refl))
                      | inl (_, funded) ↦ elim (remove_channel_mismatch-AllOrNothing s json t) [
                        | inl (e, failed) ↦
                            rw (collected, fetched, funded, failed, record_channels_status)
                              (inl (store_failed e, refl, refl))
                        | inr (_, u, removed, reads) ↦
                            rw (collected, fetched, funded, removed, record_channels_status)
                              (inr (channels, (refl, refl, reads.0)))
                      ]
                    ]
            ]
      ]
