-- ===== src/Db/Funds/Tests.antt =====
-- The theorems on db/funds.go for a database in memory.
use breez.Common.{◌≡◌, refl, true, none, some, [], ◌∷◌, Bytes, codes, Result, ok, err}
use breez.Bolt.Memory.{memory}
use breez.Db.Basics.{addresses, swap_addresses_by_hash, payments_hash, Error, payment_doesnt_exist}
use breez.Db.Basics.Items.{AllOrNothing}
use breez.Db.Payments.{PaymentInfo}
use breez.Db.Samples.{store, empty_store, swap, swap_bytes, swap_codec, payment_codec}
use breez.Db.Funds.{
  SwapAddressInfo, update_swap_address_by_payment_hash, update_redeem_tx_for_payment,
}
use breez.Db.Funds.Swaps.{IsSaved, Updated, update_by_payment_hash-saved}
use breez.Db.Funds.Redeem.{Holding, Redeemed, update_redeem_tx-Redeemed}

abbrev fresh_swap : SwapAddressInfo
fresh_swap = swap (codes "bc1") (7 ∷ 8 ∷ []) 0

-- A database with that address.
unfoldable with_swap : store.Tx
unfolding memory
with_swap = record {
  buckets = λ b. true;
  cells = λ b. elim b [
    | addresses ↦ (codes "bc1", some (swap_bytes fresh_swap)) ∷ []
    | swap_addresses_by_hash ↦ (7 ∷ 8 ∷ [], some (codes "bc1")) ∷ []
    | _ ↦ []
  ];
  sequences = λ b. 0;
}

fresh_swap-IsSaved : IsSaved store swap_codec fresh_swap with_swap
unfolding memory with_swap
fresh_swap-IsSaved = record {
  bytes = swap_bytes fresh_swap;
  decoded = refl;
  stored = refl;
  indexed = refl;
}

-- The block height at which the funds were confirmed is noted.
abbrev confirm : SwapAddressInfo → Result Error SwapAddressInfo
confirm a = ok (record a { lock_height = 700000 })

update_by_payment_hash-saved_example :
    let (found, r) =
      update_swap_address_by_payment_hash store swap_codec with_swap (7 ∷ 8 ∷ []) confirm in
    (found ≡ true)
    × ((new : SwapAddressInfo)
        → confirm fresh_swap ≡ ok new
        → swap_codec.Plain new
        → new.address ≡ fresh_swap.address
        → new.payment_hash ≡ fresh_swap.payment_hash
        → AllOrNothing store with_swap r (λ _ u. Updated store swap_codec new with_swap u))
    × ((e : Error) → confirm fresh_swap ≡ err e → r ≡ (err e, with_swap))
update_by_payment_hash-saved_example =
    update_by_payment_hash-saved store swap_codec with_swap fresh_swap confirm fresh_swap-IsSaved

update_redeem_tx-Redeemed_example :
    ((key : Bytes) (p : PaymentInfo)
      → Holding store payment_codec (codes "hash") key p empty_store
      → payment_codec.Plain (record p { redeem_tx_id = codes "tx" })
      → AllOrNothing store empty_store
          (update_redeem_tx_for_payment store payment_codec empty_store (codes "hash") (codes "tx"))
          (λ _ u.
            Redeemed store payment_codec
              (codes "hash")
              key
              (record p { redeem_tx_id = codes "tx" })
              empty_store
              u))
    × (store.read empty_store payments_hash (codes "hash") ≡ none
        → update_redeem_tx_for_payment store payment_codec empty_store (codes "hash") (codes "tx")
          ≡ (err (payment_doesnt_exist (codes "hash")), empty_store))
update_redeem_tx-Redeemed_example =
    update_redeem_tx-Redeemed store payment_codec empty_store (codes "hash") (codes "tx")
