-- ===== src/Db/Funds/Redeem.antt =====
-- UpdateRedeemTxForPayment of db/funds.go: a payment is redeemed.
use breez.Common.{
  ◌≡◌, ◌≢◌, ◌⊎◌, inl, refl, ap, ◌∙◌, subst, none, some, Bytes, ok, err, ok-injective,
}
use breez.Bolt.{Bolt, Codec}
use breez.Db.Basics.{
  Bucket, payments, payments_hash, redeemable_hashes, Error, payment_doesnt_exist,
}
use breez.Db.Basics.Items.{>>=-eq-ok, AllOrNothing, update-AllOrNothing}
use breez.Db.Payments.{PaymentInfo}
use breez.Db.Funds.{update_redeem_tx_body, update_redeem_tx_for_payment}

module _ (s : Bolt Bucket Error) (json : Codec Error PaymentInfo) where
  open s use {Tx, read, put, delete}
  open json use {encode, decode, Plain}

  -- The payment `p` is under the hash, with the key and the bytes of its record.
  abbrev pub Holding : Bytes → Bytes → PaymentInfo → Tx → Type 0
  Holding hash key p t =
      (read t payments_hash hash ≡ some key)
      × ((bytes : Bytes) × (read t payments key ≡ some bytes) × (decode bytes ≡ ok p))

  -- The payment was redeemed, and nothing else has changed.
  abbrev pub Redeemed : Bytes → Bytes → PaymentInfo → Tx → Tx → Type 0
  Redeemed hash key p t u =
      Holding hash key p u
      × (read u redeemable_hashes hash ≡ none)
      × ((c : Bucket) (j : Bytes)
          → (payments ≢ c) ⊎ (key ≢ j)
          → (redeemable_hashes ≢ c) ⊎ (hash ≢ j)
          → read u c j ≡ read t c j)

  abbrev with_redeem_tx : PaymentInfo → Bytes → PaymentInfo
  with_redeem_tx p tx_id = record p { redeem_tx_id = tx_id }

  body-Redeemed :
      (hash tx_id key : Bytes) (p : PaymentInfo) (t u : Tx) (a : Unit {0})
      → Holding hash key p t
      → Plain (with_redeem_tx p tx_id)
      → update_redeem_tx_body s json hash tx_id t ≡ ok (a, u)
      → Redeemed hash key (with_redeem_tx p tx_id) t u
  unfolding update_redeem_tx_body
  body-Redeemed hash tx_id key p t u a (indexed, (bytes, stored, decoded)) plain h =
      let h0 = rw (indexed, stored, decoded, update_redeem_tx_body) at h in
      let (buf, encoded, h1) = >>=-eq-ok (encode (with_redeem_tx p tx_id)) _ h0 in
      let (t1, written, h2) = >>=-eq-ok (put t payments key buf) _ h1 in
      let (t2, gone, h3) = >>=-eq-ok (delete t1 redeemable_hashes hash) _ h2 in
      subst (Redeemed hash key (with_redeem_tx p tx_id) t)
        (ap (λ (p : Unit {0} × Tx). p.1) (ok-injective h3))
        (
          (
            s.read-delete_ne gone payments_hash hash (inl (λ e. cc))
                ∙ s.read-put_ne written payments_hash hash (inl (λ e. cc))
                ∙ indexed,
            (
              buf,
              s.read-delete_ne gone payments key (inl (λ e. cc)) ∙ s.read-put_self written,
              json.decode-encode (with_redeem_tx p tx_id) plain encoded,
            ),
          ),
          s.read-delete_self gone,
          λ c j away away'. s.read-delete_ne gone c j away' ∙ s.read-put_ne written c j away,
        )

  -- Recording the redeeming transaction of a known payment fails and changes nothing, or that
  -- payment carries it, is not redeemable any more, and all else is as before; a payment that is not
  -- known is an error, and changes nothing.
  pub update_redeem_tx-Redeemed :
      (t : Tx) (hash tx_id : Bytes)
      → ((key : Bytes) (p : PaymentInfo)
          → Holding hash key p t
          → Plain (record p { redeem_tx_id = tx_id })
          → AllOrNothing s t
              (update_redeem_tx_for_payment s json t hash tx_id)
              (λ _ u. Redeemed hash key (record p { redeem_tx_id = tx_id }) t u))
        × (read t payments_hash hash ≡ none
            → update_redeem_tx_for_payment s json t hash tx_id
              ≡ (err (payment_doesnt_exist hash), t))
  unfolding update_redeem_tx_for_payment update_redeem_tx_body
  update_redeem_tx-Redeemed t hash tx_id = (
    λ key p holding plain.
        update-AllOrNothing {0, 0} s t (update_redeem_tx_body s json hash tx_id)
          (λ _ u. Redeemed hash key (with_redeem_tx p tx_id) t u)
          (λ a u h. body-Redeemed hash tx_id key p t u a holding plain h),
    λ unknown. rw (unknown, update_redeem_tx_body) refl,
  )
