-- ===== src/Db/AccountState/Enabled.antt =====
-- The account settings of db/account.go read back what was written.
use breez.Common.{
  ◌≡◌, ◌≢◌, refl, ap, inr, Bool, true, false, none, some, Bytes, ok, if◌then◌else◌, ◌==◌, bytes_ne,
}
use breez.Bolt.{Bolt}
use breez.Db.Basics.{Bucket, account, zero_conf_invoices, Error, fetch_item}
use breez.Db.Basics.Items.{AllOrNothing, AllOrNothing-map, items-AllOrNothing}
use breez.Db.AccountState.{
  account_key, enabled_key, fetch_account, enable_account, account_enabled, add_zero_conf_hash,
  fetch_zero_conf_invoice, remove_zero_conf_hash,
}

module _ (s : Bolt Bucket Error) where
  open s use {Tx}

  enabled_byte : (enabled : Bool) → ((if enabled then 1 else 0) == 1) ≡ enabled
  enabled_byte true = refl
  enabled_byte false = refl

  -- The account is enabled if nothing was ever written; and enabling or disabling it fails and
  -- changes nothing, or is what is read afterwards, and leaves the cached account alone.
  pub account_enabled-enable_account :
      (t : Tx) (enabled : Bool)
      → (fetch_item s t account enabled_key ≡ none → account_enabled s t ≡ ok true)
        × AllOrNothing s t
            (enable_account s t enabled)
            (λ _ u. (account_enabled s u ≡ ok enabled) × (fetch_account s u ≡ fetch_account s t))
  unfolding account_enabled enable_account fetch_account
  account_enabled-enable_account t enabled = (
    λ unset. rw (unset, account_enabled) refl,
    AllOrNothing-map s _ _ (items-AllOrNothing s t account enabled_key _).0 (λ a u h. (
      rw (h.0, account_enabled) (ap ok (enabled_byte enabled)),
      h.1 account account_key (inr (bytes_ne enabled_key account_key refl)),
    )),
  )

  -- A zero-conf hash is tracked from its adding to its removal, and each of the two fails and changes
  -- nothing, or leaves all other hashes alone.
  pub zero_conf-tracked :
      (t : Tx) (hash payreq : Bytes)
      → AllOrNothing s t (add_zero_conf_hash s t hash payreq) (λ _ u.
        (fetch_zero_conf_invoice s u hash ≡ some payreq)
        × ((other : Bytes)
            → hash ≢ other
            → fetch_zero_conf_invoice s u other ≡ fetch_zero_conf_invoice s t other))
        × AllOrNothing s t (remove_zero_conf_hash s t hash) (λ _ u.
          (fetch_zero_conf_invoice s u hash ≡ none)
          × ((other : Bytes)
              → hash ≢ other
              → fetch_zero_conf_invoice s u other ≡ fetch_zero_conf_invoice s t other))
  unfolding add_zero_conf_hash remove_zero_conf_hash fetch_zero_conf_invoice
  zero_conf-tracked t hash payreq =
      let (saves, deletes) = items-AllOrNothing s t zero_conf_invoices hash payreq in
      (
        AllOrNothing-map s _ _ saves
            (λ a u h. (h.0, λ other ne. h.1 zero_conf_invoices other (inr ne))),
        AllOrNothing-map s _ _ deletes
            (λ a u h. (h.0, λ other ne. h.1 zero_conf_invoices other (inr ne))),
      )
