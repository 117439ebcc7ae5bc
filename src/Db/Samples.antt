-- ===== src/Db/Samples.antt =====
-- A database in memory and records with a simple encoding, for the tests.
use breez.Common.{ℕ, false, [], ◌∷◌, ◌++◌, Bytes, length, take, drop}
use breez.Bolt.{Bolt, Codec}
use breez.Bolt.Memory.{memory, keyed}
use breez.Db.Basics.{Bucket, Bucket-discrete, Error, store_failed}
use breez.Db.Payments.{PaymentInfo}
use breez.Db.Funds.{SwapAddressInfo}

abbrev pub store : Bolt Bucket Error
store = memory Bucket-discrete (store_failed 0)

unfoldable pub empty_store : store.Tx
unfolding memory
empty_store = record { buckets = λ b. false; cells = λ b. []; sequences = λ b. 0 }

-- Payments by status, time, hash, channel point and redeem transaction.
abbrev pub payment : ℕ → ℕ → Bytes → Bytes → Bytes → PaymentInfo
payment status time hash point redeem = record {
  type = 0;
  amount = 0;
  fee = 0;
  creation_timestamp = time;
  description = [];
  payee_name = [];
  payee_image_url = [];
  payer_name = [];
  payer_image_url = [];
  transfer_request = false;
  payment_hash = hash;
  redeem_tx_id = redeem;
  destination = [];
  pending_expiration_height = 0;
  pending_expiration_timestamp = 0;
  pending_full = false;
  preimage = [];
  is_key_send = false;
  group_key = [];
  group_name = [];
  closed_channel_point = point;
  closed_channel_status = status;
  closed_channel_tx_id = [];
  closed_channel_remote_tx_id = [];
  closed_channel_sweep_tx_id = [];
}

abbrev pub payment_bytes : PaymentInfo → Bytes
payment_bytes p =
    p.closed_channel_status
    ∷ p.creation_timestamp
    ∷ length p.payment_hash
    ∷ length p.closed_channel_point
    ∷ (p.payment_hash ++ (p.closed_channel_point ++ p.redeem_tx_id))

abbrev pub payment_of : Bytes → PaymentInfo
payment_of (status ∷ time ∷ n ∷ k ∷ rest) =
    payment status time (take n rest) (take k (drop n rest)) (drop k (drop n rest))
payment_of short = payment 0 0 [] [] []

abbrev pub payment_codec : Codec Error PaymentInfo
payment_codec = keyed payment_bytes payment_of

-- Swap addresses by address, hash and lock height.
abbrev pub swap : Bytes → Bytes → ℕ → SwapAddressInfo
swap address hash height = record {
  lsp_id = [];
  payment_request = [];
  address = address;
  created_timestamp = 0;
  payment_hash = hash;
  preimage = [];
  private_key = [];
  public_key = [];
  confirmed_transaction_ids = [];
  confirmed_amount = 0;
  invoiced_amount = 0;
  paid_amount = 0;
  lock_height = height;
  funding_tx_id = [];
  script = [];
  error_message = [];
  swap_error_reason = 0;
  entered_mempool = false;
  last_refund_tx_id = [];
  non_blocking = false;
}

abbrev pub swap_bytes : SwapAddressInfo → Bytes
swap_bytes a = a.lock_height ∷ length a.address ∷ (a.address ++ a.payment_hash)

abbrev pub swap_of : Bytes → SwapAddressInfo
swap_of (height ∷ n ∷ rest) = swap (take n rest) (drop n rest) height
swap_of short = swap [] [] 0

abbrev pub swap_codec : Codec Error SwapAddressInfo
swap_codec = keyed swap_bytes swap_of
