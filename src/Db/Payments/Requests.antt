-- ===== src/Db/Payments/Requests.antt =====
-- The payment requests, tip messages and payment groups of db/payments.go, each under a payment hash.
use breez.Common.{
  ◌≡◌, ◌≢◌, ◌⊎◌, inl, inr, refl, sym, ap, ◌∙◌, Option, some, [], ◌∷◌, ◌++◌, Bytes, codes, Result,
  ok, err, bytes_ne,
}
use mathlib.Core.Path.{ap₂}
use breez.Bolt.{Bolt}
use breez.Db.Basics.{
  Bucket, incoming_pay_req, keysend_tip_messag, payment_group, Error, save_item, fetch_item,
}
use breez.Db.Basics.Items.{items-AllOrNothing}

abbrev pub key_suffix : Bytes
key_suffix = codes "-key"

abbrev pub name_suffix : Bytes
name_suffix = codes "-name"

append-apart : (h a b : Bytes) → a ≢ b → h ++ a ≢ h ++ b
append-apart [] a b ne e = ne e
append-apart (x ∷ h) a b ne e = append-apart h a b ne cc

module _ (s : Bolt Bucket Error) where
  open s use {Tx}

  pub save_payment_request : Tx → Bytes → Bytes → Result Error (Unit {0}) × Tx
  save_payment_request t hash pay_req = save_item s t incoming_pay_req hash pay_req

  pub fetch_payment_request : Tx → Bytes → Option Bytes
  fetch_payment_request t hash = fetch_item s t incoming_pay_req hash

  pub save_tip_message : Tx → Bytes → Bytes → Result Error (Unit {0}) × Tx
  save_tip_message t hash message = save_item s t keysend_tip_messag hash message

  pub fetch_tip_message : Tx → Bytes → Option Bytes
  fetch_tip_message t hash = fetch_item s t keysend_tip_messag hash

  -- The second of two transactions: the first stays if it fails.
  pub save_group_name : Bytes → Bytes → Result Error (Unit {0}) × Tx → Result Error (Unit {0}) × Tx
  save_group_name hash group_name (err e, t) = (err e, t)
  save_group_name hash group_name (ok _, t) =
      save_item s t payment_group (hash ++ name_suffix) group_name

  pub save_payment_group : Tx → Bytes → Bytes → Bytes → Result Error (Unit {0}) × Tx
  save_payment_group t hash group_key group_name =
      save_group_name hash group_name (save_item s t payment_group (hash ++ key_suffix) group_key)

  pub fetch_payment_group : Tx → Bytes → Option Bytes × Option Bytes
  fetch_payment_group t hash = (
    fetch_item s t payment_group (hash ++ key_suffix),
    fetch_item s t payment_group (hash ++ name_suffix),
  )

  -- Saving a group succeeds and its key and name are read back; or it fails, and the group is as
  -- before or only its key was written.
  pub save_payment_group-fetch :
      (t : Tx) (hash group_key group_name : Bytes)
      → ((u : Tx) × (save_payment_group t hash group_key group_name ≡ (ok tt, u))
          × (fetch_payment_group u hash ≡ (some group_key, some group_name)))
        ⊎ ((e : Error) × (u : Tx) × (save_payment_group t hash group_key group_name ≡ (err e, u))
            × ((fetch_payment_group u hash ≡ fetch_payment_group t hash)
                ⊎ (fetch_payment_group u hash ≡ (some group_key, (fetch_payment_group t hash).1))))
  unfolding save_payment_group save_group_name fetch_payment_group
  save_payment_group-fetch t hash group_key group_name =
      let k = hash ++ key_suffix in
      let n = hash ++ name_suffix in
      let apart : k ≢ n =
        append-apart hash key_suffix name_suffix (bytes_ne key_suffix name_suffix refl) in
      elim (items-AllOrNothing s t payment_group k group_key).0 [
        | inl (e, failed) ↦ inr (e, t, ap (save_group_name hash group_name) failed, inl refl)
        | inr (a, t1, saved, holds) ↦
            let name_stays = holds.1 payment_group n (inr apart) in
            elim (items-AllOrNothing s t1 payment_group n group_name).0 [
              | inl (e, failed) ↦ inr (
                e,
                t1,
                ap (save_group_name hash group_name) saved ∙ failed,
                inr (ap₂ (λ x y. (x, y)) holds.0 name_stays),
              )
              | inr (a', u, saved', holds') ↦ inl (
                u,
                ap (save_group_name hash group_name) saved ∙ saved',
                ap₂ (λ x y. (x, y)) (holds'.1 payment_group k (inr (λ e. apart (sym e))) ∙ holds.0)
                    holds'.0,
              )
            ]
      ]
