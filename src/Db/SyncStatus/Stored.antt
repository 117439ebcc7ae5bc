-- ===== src/Db/SyncStatus/Stored.antt =====
-- db/syncstatus.go reads back what it wrote.
use breez.Common.{ℕ, ◌<◌, ◌^◌, ◌≡◌, refl, inr, none, some, ok, bytes_ne}
use breez.Bolt.{Bolt, Codec}
use breez.Db.Basics.{Bucket, syncstatus, Error, itob, fetch_item}
use breez.Db.Basics.Keys.{btoi-itob}
use breez.Db.Basics.Items.{AllOrNothing, AllOrNothing-map, items-AllOrNothing, encoded-AllOrNothing}
use breez.Db.SyncStatus.{
  MismatchedChannels, last_header_timestamp, mismatched_channels,
  fetch_last_synced_header_timestamp, set_last_synced_header_timestamp, set_mismatched_channels,
  fetch_mismatched_channels, remove_channel_mismatch,
}

module _ (s : Bolt Bucket Error) (json : Codec Error MismatchedChannels) where
  open s use {Tx}
  open json use {Plain}

  fetch_mismatched_channels-frame :
      (t u : Tx)
      → fetch_item s u syncstatus mismatched_channels
        ≡ fetch_item s t syncstatus mismatched_channels
      → fetch_mismatched_channels s json u ≡ fetch_mismatched_channels s json t
  unfolding fetch_mismatched_channels
  fetch_mismatched_channels-frame t u h = rw (h, fetch_mismatched_channels) refl

  -- Setting the header time fails and changes nothing, or that time is read back and the mismatched
  -- channels are as before.
  pub header_timestamp-AllOrNothing :
      (t : Tx) (ts : ℕ)
      → ts < 2 ^ 64
      → AllOrNothing s t (set_last_synced_header_timestamp s json t ts) (λ _ u.
        (fetch_last_synced_header_timestamp s json u ≡ ok ts)
        × (fetch_mismatched_channels s json u ≡ fetch_mismatched_channels s json t))
  unfolding set_last_synced_header_timestamp fetch_last_synced_header_timestamp
  header_timestamp-AllOrNothing t ts small =
      AllOrNothing-map s _ _ (items-AllOrNothing s t syncstatus last_header_timestamp (itob ts)).0
        (λ a u h. (
          rw (h.0, fetch_last_synced_header_timestamp) (btoi-itob ts small),
          fetch_mismatched_channels-frame t u (
              h.1 syncstatus mismatched_channels
                (inr (bytes_ne last_header_timestamp mismatched_channels refl))),
        ))

  fetch_last-frame :
      (t u : Tx)
      → fetch_item s u syncstatus last_header_timestamp
        ≡ fetch_item s t syncstatus last_header_timestamp
      → fetch_last_synced_header_timestamp s json u ≡ fetch_last_synced_header_timestamp s json t
  unfolding fetch_last_synced_header_timestamp
  fetch_last-frame t u h = rw (h, fetch_last_synced_header_timestamp) refl

  pub remove_channel_mismatch-AllOrNothing :
      (t : Tx)
      → AllOrNothing s t (remove_channel_mismatch s json t) (λ _ u.
        (fetch_mismatched_channels s json u ≡ ok none)
        × (fetch_last_synced_header_timestamp s json u
            ≡ fetch_last_synced_header_timestamp s json t))
  unfolding remove_channel_mismatch fetch_mismatched_channels
  remove_channel_mismatch-AllOrNothing t =
      AllOrNothing-map s _ _ (items-AllOrNothing s t syncstatus mismatched_channels (itob 0)).1
        (λ a u h. (
          rw (h.0, fetch_mismatched_channels) refl,
          fetch_last-frame t u (
              h.1 syncstatus last_header_timestamp
                (inr (bytes_ne mismatched_channels last_header_timestamp refl))),
        ))

  -- Setting the mismatched channels fails and changes nothing, or they are read back; removing them
  -- fails and changes nothing, or none are read back; and the header time stays in both cases.
  pub mismatched-AllOrNothing :
      (t : Tx) (mismatched : MismatchedChannels)
      → Plain mismatched
      → AllOrNothing s t (set_mismatched_channels s json t mismatched) (λ _ u.
        (fetch_mismatched_channels s json u ≡ ok (some mismatched))
        × (fetch_last_synced_header_timestamp s json u
            ≡ fetch_last_synced_header_timestamp s json t))
        × AllOrNothing s t (remove_channel_mismatch s json t) (λ _ u.
          (fetch_mismatched_channels s json u ≡ ok none)
          × (fetch_last_synced_header_timestamp s json u
              ≡ fetch_last_synced_header_timestamp s json t))
  unfolding set_mismatched_channels fetch_mismatched_channels
  mismatched-AllOrNothing t mismatched plain =
      let apart = inr (bytes_ne mismatched_channels last_header_timestamp refl) in
      (
        AllOrNothing-map s _ _
            (encoded-AllOrNothing s t syncstatus mismatched_channels (json.encode mismatched))
            (λ a u h. (
              rw (h.2.0, json.decode-encode mismatched plain h.1, fetch_mismatched_channels) refl,
              fetch_last-frame t u (h.2.1 syncstatus last_header_timestamp apart),
            )),
        remove_channel_mismatch-AllOrNothing t,
      )
