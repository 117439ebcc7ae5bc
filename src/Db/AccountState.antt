-- ===== src/Db/AccountState.antt =====
-- db/account.go: the cached account, whether it is enabled, and the zero-conf invoices.
pub mod Enabled
use breez.Common.{
  ℕ, Bool, true, false, Option, none, some, List, [], ◌∷◌, map, Bytes, codes, ◌==◌, if◌then◌else◌,
  Result, ok, err,
}
use breez.Bolt.{Bolt}
use breez.Db.Basics.{
  Bucket, account, zero_conf_invoices, Error, panicked, save_item, delete_item, fetch_item,
}

abbrev pub account_key : Bytes
account_key = codes "account"

abbrev pub enabled_key : Bytes
enabled_key = codes "enabled"

module _ (s : Bolt Bucket Error) where
  open s use {Tx, entries}

  pub save_account : Tx → Bytes → Result Error (Unit {0}) × Tx
  save_account t value = save_item s t account account_key value

  pub fetch_account : Tx → Option Bytes
  fetch_account t = fetch_item s t account account_key

  pub enable_account : Tx → Bool → Result Error (Unit {0}) × Tx
  enable_account t enabled = save_item s t account enabled_key ((if enabled then 1 else 0) ∷ [])

  -- An empty value is the read out of range.
  pub account_enabled : Tx → Result Error Bool
  account_enabled t = elim (fetch_item s t account enabled_key) [
    | none ↦ ok true
    | some [] ↦ err panicked
    | some (b ∷ bs) ↦ ok (b == 1)
  ]

  unfoldable pub add_zero_conf_hash : Tx → Bytes → Bytes → Result Error (Unit {0}) × Tx
  add_zero_conf_hash t hash payreq = save_item s t zero_conf_invoices hash payreq

  unfoldable pub fetch_zero_conf_invoice : Tx → Bytes → Option Bytes
  fetch_zero_conf_invoice t hash = fetch_item s t zero_conf_invoices hash

  pub remove_zero_conf_hash : Tx → Bytes → Result Error (Unit {0}) × Tx
  remove_zero_conf_hash t hash = delete_item s t zero_conf_invoices hash

  pub fetch_zero_conf_hashes : Tx → List Bytes
  fetch_zero_conf_hashes t = map (λ e. e.0) (entries t zero_conf_invoices)
