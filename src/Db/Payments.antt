-- ===== src/Db/Payments.antt =====
-- db/payments.go: the payments, each under its id, with an index by payment hash, an index of the
-- payments for closed channels, and how far the lightning node was read.
pub mod Steps
pub mod Settled
pub mod Closed
pub mod Requests
pub mod Index
pub mod Keeps
pub mod KeepsClosed
pub mod History
mod Tests
use breez.Common.{
  ℕ, ◌+◌, ◌≡◌, Bool, true, false, not, ◌||◌, Option, none, some, List, [], ◌∷◌, ◌++◌, Bytes, codes,
  bytes_eq, ltb, ◌==◌, if◌then◌else◌, Result, ok, err, ◌>>=◌,
}
use breez.Bolt.{Bolt, Codec, update}
use breez.Db.Basics.{
  Bucket, incoming_pay_req, keysend_tip_messag, payment_group, payments, payments_hash,
  payments_sync_info, closed_channels, Error, must_have_payment_hash, itob, btoi, save_item,
  fetch_item,
}

-- PaymentType, ChannelCloseStatus, and the int64 and uint32 fields are bit patterns.
pub record PaymentInfo : Type 0 where
  pub type : ℕ
  pub amount : ℕ
  pub fee : ℕ
  pub creation_timestamp : ℕ
  pub description : Bytes
  pub payee_name : Bytes
  pub payee_image_url : Bytes
  pub payer_name : Bytes
  pub payer_image_url : Bytes
  pub transfer_request : Bool
  pub payment_hash : Bytes
  pub redeem_tx_id : Bytes
  pub destination : Bytes
  pub pending_expiration_height : ℕ
  pub pending_expiration_timestamp : ℕ
  pub pending_full : Bool
  pub preimage : Bytes
  pub is_key_send : Bool
  pub group_key : Bytes
  pub group_name : Bytes
  pub closed_channel_point : Bytes
  pub closed_channel_status : ℕ
  pub closed_channel_tx_id : Bytes
  pub closed_channel_remote_tx_id : Bytes
  pub closed_channel_sweep_tx_id : Bytes

abbrev pub confirmed_close : ℕ
confirmed_close = 2

abbrev pub last_sent_payment_time : Bytes
last_sent_payment_time = codes "lastSentPaymentTime"

abbrev pub last_settled_index : Bytes
last_settled_index = codes "lastSettledIndex"

module _ (s : Bolt Bucket Error) (json : Codec Error PaymentInfo) where
  open s use {Tx, read, put, delete, next_sequence, entries}
  open json use {encode, decode}

  -- An id that stands in a bucket, 0 if there is none.
  abbrev pub stored_id : Option Bytes → Result Error ℕ
  stored_id none = ok 0
  stored_id (some old) = btoi old

  -- The id under which addPayment writes: the given one, else that of the hash, else the next.
  pub choose_id : Tx → Bytes → ℕ → Result Error (ℕ × Tx)
  choose_id t hash existing_id =
      (if existing_id == 0 then stored_id (read t payments_hash hash) else ok existing_id) >>= λ id.
      if id == 0 then next_sequence t payments else ok (id, t)

  pub index_hash : Tx → Bytes → ℕ → Result Error Tx
  index_hash t hash id = if not (bytes_eq hash []) then put t payments_hash hash (itob id) else ok t

  pub add_payment : PaymentInfo → Tx → ℕ → Result Error (ℕ × Tx)
  add_payment acc_payment t existing_id = do
    payment_buf ← encode acc_payment
    (id, t1) ← choose_id t acc_payment.payment_hash existing_id
    t2 ← put t1 payments (itob id) payment_buf
    t3 ← index_hash t2 acc_payment.payment_hash id
    ok (id, t3)

  pub has_account_payment : PaymentInfo → Tx → Result Error Bool
  has_account_payment acc_payment t =
      if bytes_eq acc_payment.payment_hash []
      then err must_have_payment_hash
      else elim (read t payments_hash acc_payment.payment_hash) [
        | none ↦ ok false
        | some _ ↦ ok true
      ]

  -- The value under `key` is raised to `value` if that is newer.
  pub raise_sync_info : Tx → Bytes → ℕ → Result Error Tx
  raise_sync_info t key value = do
    last ← stored_id (read t payments_sync_info key)
    if ltb last value then put t payments_sync_info key (itob value) else ok t

  -- The closure of AddAccountPayment; its value is paymentExists.
  pub add_account_payment_body : PaymentInfo → ℕ → ℕ → Tx → Result Error (Bool × Tx)
  add_account_payment_body acc_payment received_index sent_time t =
      has_account_payment acc_payment t >>= λ exists. if exists then ok (true, t) else do
        (_, t1) ← add_payment acc_payment t 0
        t2 ← raise_sync_info t1 last_sent_payment_time sent_time
        t3 ← raise_sync_info t2 last_settled_index received_index
        ok (false, t3)

  pub add_account_payment : PaymentInfo → ℕ → ℕ → Tx → Result Error Bool × Tx
  add_account_payment acc_payment received_index sent_time t =
      update s t (add_account_payment_body acc_payment received_index sent_time)

  -- A record that does not decode is an error.
  pub fetch_closed_channel_payment : Tx → Bytes → Result Error (Option (PaymentInfo × ℕ))
  fetch_closed_channel_payment t channel_point = elim (read t closed_channels channel_point) [
    | none ↦ ok none
    | some rec_id ↦ elim (read t payments rec_id) [
      | none ↦ ok none
      | some rec ↦ do index ← btoi rec_id; payment ← decode rec; ok (some (payment, index))
    ]
  ]

  -- Whether the known payment stays as it is.
  pub is_skipped : PaymentInfo → PaymentInfo → Bool
  is_skipped existing acc_payment =
      existing.closed_channel_status == confirmed_close
      || ltb acc_payment.closed_channel_status existing.closed_channel_status

  -- A channel that is not confirmed closed keeps the time of its first payment.
  pub with_first_time : PaymentInfo → PaymentInfo → PaymentInfo
  with_first_time existing acc_payment =
      if not (acc_payment.closed_channel_status == confirmed_close)
      then record acc_payment { creation_timestamp = existing.creation_timestamp }
      else acc_payment

  -- What follows the check of AddChannelClosedPayment. The error of Delete is dropped.
  pub write_closed : PaymentInfo → ℕ → Tx → Result Error (Unit {0} × Tx)
  write_closed acc_payment payment_id t = do
    (id, t1) ← add_payment acc_payment t payment_id
    t2 ← elim (delete t1 payments acc_payment.closed_channel_point) [ ok u ↦ ok u | err _ ↦ ok t1 ]
    t3 ← put t2 closed_channels acc_payment.closed_channel_point (itob id)
    ok (tt, t3)

  pub add_channel_closed_payment_body : PaymentInfo → Tx → Result Error (Unit {0} × Tx)
  add_channel_closed_payment_body acc_payment t =
      fetch_closed_channel_payment t acc_payment.closed_channel_point >>= λ found. elim found [
        | none ↦ write_closed acc_payment 0 t
        | some (existing, payment_id) ↦
            if is_skipped existing acc_payment
            then ok (tt, t)
            else write_closed (with_first_time existing acc_payment) payment_id t
      ]

  pub add_channel_closed_payment : PaymentInfo → Tx → Result Error (Unit {0}) × Tx
  add_channel_closed_payment acc_payment t =
      update s t (add_channel_closed_payment_body acc_payment)

  -- The cursor of FetchAllAccountPayments: entries with no value are nested buckets.
  pub decode_all : List (Bytes × Option Bytes) → Result Error (List PaymentInfo)
  decode_all [] = ok []
  decode_all ((k, none) ∷ rest) = decode_all rest
  decode_all ((k, some v) ∷ rest) =
      decode v >>= λ payment. decode_all rest >>= λ others. ok (payment ∷ others)

  pub fetch_all_account_payments : Tx → Result Error (List PaymentInfo)
  fetch_all_account_payments t = decode_all (entries t payments)

  -- lastTime is read as an int64, so it is a bit pattern.
  pub fetch_payments_sync_info : Tx → Result Error (ℕ × ℕ)
  fetch_payments_sync_info t = do
    last_time ← stored_id (read t payments_sync_info last_sent_payment_time)
    last_index ← stored_id (read t payments_sync_info last_settled_index)
    ok (last_time, last_index)
