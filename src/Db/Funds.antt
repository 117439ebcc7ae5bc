-- ===== src/Db/Funds.antt =====
-- db/funds.go: the submarine swap addresses, and the payments that are still to be redeemed.
pub mod Swaps
pub mod Redeem
mod Tests
use breez.Common.{
  ℕ, ◌≡◌, Bool, true, false, Option, none, some, List, [], ◌∷◌, map, Bytes, ltb, if◌then◌else◌,
  Result, ok, err, ◌>>=◌,
}
use breez.Bolt.{Bolt, Codec, update}
use breez.Db.Basics.{
  Bucket, payments, payments_hash, addresses, swap_addresses_by_hash, redeemable_hashes, Error,
  payment_doesnt_exist, fetch_item,
}
use breez.Db.Payments.{PaymentInfo}

-- The int64, int32 and uint32 fields are bit patterns.
pub record SwapAddressInfo : Type 0 where
  pub lsp_id : Bytes
  pub payment_request : Bytes
  pub address : Bytes
  pub created_timestamp : ℕ
  pub payment_hash : Bytes
  pub preimage : Bytes
  pub private_key : Bytes
  pub public_key : Bytes
  pub confirmed_transaction_ids : List Bytes
  pub confirmed_amount : ℕ
  pub invoiced_amount : ℕ
  pub paid_amount : ℕ
  pub lock_height : ℕ
  pub funding_tx_id : Bytes
  pub script : Bytes
  pub error_message : Bytes
  pub swap_error_reason : ℕ
  pub entered_mempool : Bool
  pub last_refund_tx_id : Bytes
  pub non_blocking : Bool

unfoldable pub confirmed : SwapAddressInfo → Bool
confirmed s = ltb 0 s.lock_height

abbrev pub is_some {ℓ} : {A : Type ℓ} → Option A → Bool
is_some none = false
is_some (some a) = true

module _ (s : Bolt Bucket Error) (json : Codec Error SwapAddressInfo) where
  open s use {Tx, read, put, entries}
  open json use {encode, decode}

  -- A nil value does not decode in the source either; the walk stops at the first error, which is
  -- dropped together with the rest of the addresses.
  unfoldable pub filter_addresses :
      (SwapAddressInfo → Bool) → List (Bytes × Option Bytes) → List SwapAddressInfo
  filter_addresses filter_func [] = []
  filter_addresses filter_func ((k, none) ∷ rest) = []
  filter_addresses filter_func ((k, some v) ∷ rest) =
      let others = filter_addresses filter_func rest in
      elim (decode v) [
        | err _ ↦ []
        | ok address ↦ if filter_func address then address ∷ others else others
      ]

  unfoldable pub fetch_swap_addresses : Tx → (SwapAddressInfo → Bool) → List SwapAddressInfo
  fetch_swap_addresses t filter_func = filter_addresses filter_func (entries t addresses)

  unfoldable pub fetch_all_swap_addresses : Tx → List SwapAddressInfo
  fetch_all_swap_addresses t = fetch_swap_addresses t (λ addr. true)

  pub save_swap_address_info_body : SwapAddressInfo → Tx → Result Error (Unit {0} × Tx)
  save_swap_address_info_body info t = do
    bytes ← encode info
    t1 ← put t swap_addresses_by_hash info.payment_hash info.address
    t2 ← put t1 addresses info.address bytes
    ok (tt, t2)

  pub save_swap_address_info : Tx → SwapAddressInfo → Result Error (Unit {0}) × Tx
  save_swap_address_info t info = update s t (save_swap_address_info_body info)

  -- `update_func` changes the record in place, or fails.
  pub update_swap_address_body :
      Bytes → (SwapAddressInfo → Result Error SwapAddressInfo) → Tx → Result Error (Unit {0} × Tx)
  update_swap_address_body address update_func t = elim (read t addresses address) [
    | none ↦ ok (tt, t)
    | some address_info_bytes ↦ do
      swap_address ← decode address_info_bytes
      swap_address' ← update_func swap_address
      swap_address_data ← encode swap_address'
      u ← put t addresses swap_address'.address swap_address_data
      ok (tt, u)
  ]

  -- `found` is true also when the update fails.
  pub update_swap_address :
      Tx
      → Bytes
      → (SwapAddressInfo → Result Error SwapAddressInfo)
      → Bool × (Result Error (Unit {0}) × Tx)
  update_swap_address t address update_func = (
    is_some (read t addresses address),
    update s t (update_swap_address_body address update_func),
  )

  pub update_swap_address_by_payment_hash :
      Tx
      → Bytes
      → (SwapAddressInfo → Result Error SwapAddressInfo)
      → Bool × (Result Error (Unit {0}) × Tx)
  update_swap_address_by_payment_hash t p_hash update_func =
      elim (fetch_item s t swap_addresses_by_hash p_hash) [
        | none ↦ (false, (ok tt, t))
        | some address ↦ update_swap_address t address update_func
      ]

module _ (s : Bolt Bucket Error) (json : Codec Error PaymentInfo) where
  open s use {Tx, read, put, delete, entries}
  open json use {encode, decode}

  pub add_redeemable_payment_hash : Tx → Bytes → Result Error (Unit {0}) × Tx
  add_redeemable_payment_hash t hash =
      update s t (λ t. put t redeemable_hashes hash [] >>= λ u. ok (tt, u))

  pub fetch_redeemable_payment_hashes : Tx → List Bytes
  fetch_redeemable_payment_hashes t = map (λ e. e.0) (entries t redeemable_hashes)

  -- A missing record reads as the empty slice.
  abbrev pub record_bytes : Option Bytes → Bytes
  record_bytes none = []
  record_bytes (some b) = b

  pub update_redeem_tx_body : Bytes → Bytes → Tx → Result Error (Unit {0} × Tx)
  update_redeem_tx_body hash tx_id t = elim (read t payments_hash hash) [
    | none ↦ err (payment_doesnt_exist hash)
    | some payment_index ↦ do
      payment ← decode (record_bytes (read t payments payment_index))
      payment_buf ← encode (record payment { redeem_tx_id = tx_id })
      t1 ← put t payments payment_index payment_buf
      t2 ← delete t1 redeemable_hashes hash
      ok (tt, t2)
  ]

  pub update_redeem_tx_for_payment : Tx → Bytes → Bytes → Result Error (Unit {0}) × Tx
  update_redeem_tx_for_payment t hash tx_id = update s t (update_redeem_tx_body hash tx_id)

  pub is_invoice_hash_paid : Tx → Bytes → Bool
  is_invoice_hash_paid t pay_req_hash = is_some (read t payments_hash pay_req_hash)
