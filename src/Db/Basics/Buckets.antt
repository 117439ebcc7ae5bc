-- ===== src/Db/Basics/Buckets.antt =====
-- openDB in db/db.go creates every bucket.
use breez.Common.{
  ◌≡◌, ◌⊎◌, inl, inr, refl, sym, ap, subst, ◌∙◌, true, List, [], ◌∷◌, Bytes, ok, ok-injective,
}
use breez.Bolt.{Bolt}
use breez.Db.Basics.{
  Bucket, incoming_pay_req, keysend_tip_messag, payment_group, payments, payments_sync_info,
  account, addresses, swap_addresses_by_hash, version, redeemable_hashes, payments_hash,
  encrypted_sessions, network, syncstatus, reverse_swap, closed_channels, zero_conf_invoices,
  lnurl_auth, lnurl_pay, Error, all_buckets, fetch_item, create_all,
}
use breez.Db.Basics.Items.{>>=-eq-ok}

abbrev In : Bucket → List Bucket → Type 0
In b [] = ⊥
In b (c ∷ cs) = (c ≡ b) ⊎ In b cs

pub every_bucket : (b : Bucket) → In b all_buckets
every_bucket incoming_pay_req = inl refl
every_bucket keysend_tip_messag = inr (inl refl)
every_bucket payment_group = inr (inr (inl refl))
every_bucket payments = inr (inr (inr (inl refl)))
every_bucket payments_sync_info = inr (inr (inr (inr (inl refl))))
every_bucket account = inr (inr (inr (inr (inr (inl refl)))))
every_bucket addresses = inr (inr (inr (inr (inr (inr (inl refl))))))
every_bucket swap_addresses_by_hash = inr (inr (inr (inr (inr (inr (inr (inl refl)))))))
every_bucket version = inr (inr (inr (inr (inr (inr (inr (inr (inl refl))))))))
every_bucket redeemable_hashes = inr (inr (inr (inr (inr (inr (inr (inr (inr (inl refl)))))))))
every_bucket payments_hash = inr (inr (inr (inr (inr (inr (inr (inr (inr (inr (inl refl))))))))))
every_bucket encrypted_sessions =
    inr (inr (inr (inr (inr (inr (inr (inr (inr (inr (inr (inl refl)))))))))))
every_bucket network =
    inr (inr (inr (inr (inr (inr (inr (inr (inr (inr (inr (inr (inl refl))))))))))))
every_bucket syncstatus =
    inr (inr (inr (inr (inr (inr (inr (inr (inr (inr (inr (inr (inr (inl refl)))))))))))))
every_bucket reverse_swap =
    inr (inr (inr (inr (inr (inr (inr (inr (inr (inr (inr (inr (inr (inr (inl refl))))))))))))))
every_bucket closed_channels =
    inr
      (inr (inr (inr (inr (inr (inr (inr (inr (inr (inr (inr (inr (inr (inr (inl refl)))))))))))))))
every_bucket zero_conf_invoices = inr (
    inr (
      inr (inr (inr (inr (inr (inr (inr (inr (inr (inr (inr (inr (inr (inr (inl refl))))))))))))))))
every_bucket lnurl_auth = inr (
    inr (
      inr (
        inr (
          inr (inr (inr (inr (inr (inr (inr (inr (inr (inr (inr (inr (inr (inl refl)))))))))))))))))
every_bucket lnurl_pay = inr (
    inr (
      inr (
        inr (
          inr (
            inr (
              inr (inr (inr (inr (inr (inr (inr (inr (inr (inr (inr (inr (inl refl))))))))))))))))))

module _ (s : Bolt Bucket Error) where
  open s use {Tx, has_bucket, create_bucket}

  pub create_all-read :
      (bs : List Bucket) (t u : Tx)
      → create_all s bs t ≡ ok u
      → (c : Bucket) (j : Bytes) → fetch_item s u c j ≡ fetch_item s t c j
  unfolding create_all fetch_item
  create_all-read [] t u h c j = ap (λ (u : Tx). s.read u c j) (sym (ok-injective h))
  create_all-read (b ∷ bs) t u h c j =
      let (t1, made, rest) = >>=-eq-ok (create_bucket t b) (create_all s bs) h in
      create_all-read bs t1 u rest c j ∙ s.create-read made c j

  create_all-kept :
      (bs : List Bucket) (t u : Tx)
      → create_all s bs t ≡ ok u
      → (c : Bucket) → has_bucket t c ≡ true
      → has_bucket u c ≡ true
  unfolding create_all
  create_all-kept [] t u h c p = subst (λ (u : Tx). has_bucket u c ≡ true) (ok-injective h) p
  create_all-kept (b ∷ bs) t u h c p =
      let (t1, made, rest) = >>=-eq-ok (create_bucket t b) (create_all s bs) h in
      create_all-kept bs t1 u rest c (s.create-has made c p)

  pub create_all-has :
      (bs : List Bucket) (t u : Tx)
      → create_all s bs t ≡ ok u
      → (c : Bucket) → In c bs
      → has_bucket u c ≡ true
  unfolding create_all
  create_all-has [] t u h c p = absurd p
  create_all-has (b ∷ bs) t u h c p =
      let (t1, made, rest) = >>=-eq-ok (create_bucket t b) (create_all s bs) h in
      elim p [
        | inl e ↦
            create_all-kept bs t1 u rest c
              (subst (λ (x : Bucket). has_bucket t1 x ≡ true) e (s.create-has_self made))
        | inr q ↦ create_all-has bs t1 u rest c q
      ]
