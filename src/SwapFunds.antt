-- ===== src/SwapFunds.antt =====
-- swapfunds/addfunds.go: what the service does to the records of the swap addresses, and the status
-- of the funds that it reports.
pub mod Unspent
pub mod Status
mod Tests
use breez.Common.{
  ℕ, ◌+◌, ◌-◌, ◌%◌, ◌^◌, Bool, true, false, not, ◌&&◌, ◌||◌, Option, none, some, List, [], ◌∷◌,
  ◌++◌, Bytes, bytes_eq, length, ltb, leb, ◌==◌, if◌then◌else◌, Result, ok, err,
}
use breez.Common.Int64.{lt64}
use breez.Bolt.{Bolt, Codec}
use breez.Db.Basics.{Bucket, Error}
use breez.Db.Funds.{
  SwapAddressInfo, confirmed, fetch_all_swap_addresses, fetch_swap_addresses, update_swap_address,
  update_swap_address_by_payment_hash,
}

-- What the sub-swap client answers about an address; block heights are int32 and uint32.
pub record Utxo : Type 0 where
  pub txid : Bytes
  pub block_height : ℕ

pub record UnspentAmount : Type 0 where
  pub amount : ℕ
  pub lock_height : ℕ
  pub utxos : List Utxo

unfoldable pub raise_lock_height : ℕ → ℕ → List Utxo → ℕ
raise_lock_height lock current [] = current
raise_lock_height lock current (u ∷ utxos) =
    let utxo_height = (u.block_height + lock) % 2 ^ 32 in
    raise_lock_height lock (if ltb current utxo_height then utxo_height else current) utxos

unfoldable pub has_txid : Bytes → List Bytes → Bool
has_txid txid [] = false
has_txid txid (id ∷ ids) = bytes_eq id txid || has_txid txid ids

-- The ids that are there and the ones added are the map `duplicates`.
unfoldable pub add_txids : List Bytes → List Utxo → List Bytes
add_txids ids [] = ids
add_txids ids (u ∷ utxos) = elim (has_txid u.txid ids) [
  | true ↦ add_txids ids utxos
  | false ↦ add_txids (ids ++ (u.txid ∷ [])) utxos
]

-- The change of the record in updateUnspentAmount; an error of the client leaves it.
unfoldable pub with_unspent :
    Result Error UnspentAmount → SwapAddressInfo → Result Error SwapAddressInfo
with_unspent (err e) info = err e
with_unspent (ok r) info = ok (record info {
  confirmed_amount = r.amount;
  lock_height = raise_lock_height r.lock_height info.lock_height r.utxos;
  confirmed_transaction_ids = add_txids info.confirmed_transaction_ids r.utxos;
})

-- The three lists of FundStatusReply.
pub record FundStatus : Type 0 where
  pub unconfirmed_addresses : List SwapAddressInfo
  pub confirmed_addresses : List SwapAddressInfo
  pub refundable_addresses : List SwapAddressInfo

-- Where the loop of GetFundStatus puts an address at a block height; NO_ERROR is 0, amounts are int64.
pub data Place : Type 0 where
  nowhere in_unconfirmed in_confirmed in_refundable : Place

unfoldable pub place : ℕ → SwapAddressInfo → Place
place block_height a =
    if not (confirmed a)
    then if a.entered_mempool then in_unconfirmed else nowhere
    else if lt64 0 a.confirmed_amount
    then if lt64 0 a.paid_amount && leb (length a.confirmed_transaction_ids) 1
      then nowhere
      else if not (a.swap_error_reason == 0) || leb a.lock_height block_height
      then in_refundable
      else in_confirmed
    else nowhere

unfoldable pub put_at : Place → SwapAddressInfo → FundStatus → FundStatus
put_at nowhere a s = s
put_at in_unconfirmed a s = record s { unconfirmed_addresses = s.unconfirmed_addresses ++ (a ∷ []) }
put_at in_confirmed a s = record s { confirmed_addresses = s.confirmed_addresses ++ (a ∷ []) }
put_at in_refundable a s = record s { refundable_addresses = s.refundable_addresses ++ (a ∷ []) }

unfoldable pub status_from : ℕ → FundStatus → List SwapAddressInfo → FundStatus
status_from block_height s [] = s
status_from block_height s (a ∷ addresses) =
    status_from block_height (put_at (place block_height a) a s) addresses

-- The addresses whose status GetFundStatus asks the server for; dates are Unix seconds.
abbrev pub is_young : ℕ → SwapAddressInfo → Bool
is_young now a =
    a.paid_amount == 0
    && ltb a.created_timestamp (2 ^ 63)
    && (length a.last_refund_tx_id == 0)
    && not a.entered_mempool
    && ltb now (a.created_timestamp + 86_400)

module _ (s : Bolt Bucket Error) (json : Codec Error SwapAddressInfo) where
  open s use {Tx}

  -- Whether the address was found, and the new contents.
  unfoldable pub update_unspent_amount :
      (Bytes → Result Error UnspentAmount) → Tx → Bytes → Bool × (Result Error (Unit {0}) × Tx)
  update_unspent_amount unspent_amount t address =
      update_swap_address s json t address (with_unspent (unspent_amount address))

  -- The loops over the addresses: onTransaction goes on after an error, onDaemonReady stops.
  pub update_all :
      (Bytes → Result Error UnspentAmount) → Bool → List SwapAddressInfo → Tx → Bool × Tx
  update_all unspent_amount new_confirmation [] t = (new_confirmation, t)
  update_all unspent_amount new_confirmation (a ∷ addresses) t =
      let (updated, (_, u)) = update_unspent_amount unspent_amount t a.address in
      update_all unspent_amount (new_confirmation || updated) addresses u

  pub on_transaction : (Bytes → Result Error UnspentAmount) → Tx → Bool × Tx
  on_transaction unspent_amount t =
      update_all unspent_amount false (fetch_all_swap_addresses s json t) t

  pub update_until_error :
      (Bytes → Result Error UnspentAmount)
      → List SwapAddressInfo
      → Tx
      → Result Error (Unit {0}) × Tx
  update_until_error unspent_amount [] t = (ok tt, t)
  update_until_error unspent_amount (a ∷ addresses) t =
      let (_, (answer, u)) = update_unspent_amount unspent_amount t a.address in
      elim answer [ err e ↦ (err e, u) | ok _ ↦ update_until_error unspent_amount addresses u ]

  -- A settled invoice; `none` is an invoice that is not settled.
  unfoldable pub on_invoice : Tx → Bytes → Option ℕ → Result Error (Unit {0}) × Tx
  on_invoice t r_hash none = (ok tt, t)
  on_invoice t r_hash (some amt_paid_sat) =
      (update_swap_address_by_payment_hash s json t r_hash
        (λ a. ok (record a { paid_amount = amt_paid_sat }))).1

  pub set_non_blocking : List SwapAddressInfo → Tx → Result Error (Unit {0}) × Tx
  set_non_blocking [] t = (ok tt, t)
  set_non_blocking (a ∷ addresses) t =
      let (_, (answer, u)) =
        update_swap_address s json t a.address (λ a. ok (record a { non_blocking = true })) in
      elim answer [ err e ↦ (err e, u) | ok _ ↦ set_non_blocking addresses u ]

  pub set_non_blocking_unconfirmed : Tx → Result Error (Unit {0}) × Tx
  set_non_blocking_unconfirmed t =
      set_non_blocking (fetch_swap_addresses s json t (λ a. not (confirmed a))) t

  -- The server's answers are addresses with their transactions; an empty one is left out, and an error of
  -- the store is ignored.
  pub note_statuses : List (Bytes × Bytes) → Tx → Tx
  note_statuses [] t = t
  note_statuses ((addr, tx) ∷ statuses) t =
      if length tx == 0
      then note_statuses statuses t
      else note_statuses statuses
          (update_swap_address s json t addr
            (λ a. ok (record a { entered_mempool = true; funding_tx_id = tx }))).1.1

  abbrev pub reported : ℕ → Tx → FundStatus × Tx
  reported block_height t = (
    status_from block_height
        (record { unconfirmed_addresses = []; confirmed_addresses = []; refundable_addresses = [] })
        (fetch_all_swap_addresses s json t),
    t,
  )

  -- `ask` is AddFundStatus of the server.
  unfoldable pub get_fund_status :
      {E : Type 0}
      → Result E ℕ
      → (List SwapAddressInfo → Result E (List (Bytes × Bytes)))
      → ℕ
      → Tx
      → Result E FundStatus × Tx
  get_fund_status (err e) ask now t = (err e, t)
  get_fund_status (ok block_height) ask now t =
      let young = fetch_swap_addresses s json t (is_young now) in
      if length young == 0 then (ok (reported block_height t).0, t) else elim (ask young) [
        | err e ↦ (err e, t)
        | ok statuses ↦ let u = note_statuses statuses t in (ok (reported block_height u).0, u)
      ]
