-- ===== src/Db/Tests.antt =====
-- The theorems on single items, the account, the sync status and reverse swaps, for a database in
-- memory.
use breez.Common.{ℕ, zero, suc, ◌≡◌, refl, none, some, [], ◌∷◌, Bytes, codes, ok}
use breez.Bolt.{Codec}
use breez.Bolt.Memory.{keyed}
use breez.Db.Basics.{Error}
use breez.Db.Basics.Items.{AllOrNothing}
use breez.Db.Samples.{store, empty_store}
use breez.Db.SyncStatus.{MismatchedChannels}
use breez.Db.ReverseSwap.{
  Hashing, fetch_reverse_swap, save_unconfirmed_claim_transaction,
  fetch_unconfirmed_claim_transaction, save_unspend_lockup_information,
  fetch_unspend_lockup_information,
}
use breez.Db.ReverseSwap.Stored.{open_transactions-apart}

-- Mismatched channels of an lsp, without channels.
abbrev channels_codec : Codec Error MismatchedChannels
channels_codec = keyed (λ m. m.lsp_pubkey) (λ b. record { lsp_pubkey = b; chan_points = [] })

abbrev lsp_channels : MismatchedChannels
lsp_channels = record { lsp_pubkey = codes "03ab"; chan_points = [] }

abbrev bytes_codec : Codec Error Bytes
bytes_codec = keyed (λ b. b) (λ b. b)

abbrev repeated : ℕ → Bytes
repeated zero = []
repeated (suc n) = 1 ∷ repeated n

-- A hash of the right length, in an encoding that keeps it.
abbrev hashing : Hashing
hashing = record {
  sum256 = λ b. repeated 32;
  encode_to_string = λ b. b;
  decode_string = λ b. ok b;
  length-sum256 = λ b. refl;
  decode-encode_sum = λ b. refl;
}

open_transactions-apart_example :
    AllOrNothing store empty_store
      (save_unconfirmed_claim_transaction store bytes_codec empty_store none)
      (λ _ u.
        (fetch_unconfirmed_claim_transaction store bytes_codec u ≡ ok none)
        × (fetch_unspend_lockup_information store bytes_codec u
            ≡ fetch_unspend_lockup_information store bytes_codec empty_store)
        × ((p : Bytes)
            → fetch_reverse_swap store bytes_codec (λ b. b) hashing u (repeated 32)
              ≡ fetch_reverse_swap store bytes_codec (λ b. b) hashing empty_store (repeated 32)))
    × AllOrNothing store empty_store
        (save_unspend_lockup_information store bytes_codec empty_store (some (codes "lockup")))
        (λ _ u.
          (fetch_unspend_lockup_information store bytes_codec u ≡ ok (some (codes "lockup")))
          × (fetch_unconfirmed_claim_transaction store bytes_codec u
              ≡ fetch_unconfirmed_claim_transaction store bytes_codec empty_store)
          × ((p : Bytes)
              → fetch_reverse_swap store bytes_codec (λ b. b) hashing u (repeated 32)
                ≡ fetch_reverse_swap store bytes_codec (λ b. b) hashing empty_store (repeated 32)))
open_transactions-apart_example =
    open_transactions-apart store bytes_codec bytes_codec bytes_codec (λ b. b) hashing empty_store
      none (some (codes "lockup")) (λ x e. refl) (λ x e. refl)
