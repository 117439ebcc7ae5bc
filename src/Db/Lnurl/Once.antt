-- ===== src/Db/Lnurl/Once.antt =====
-- The auth key of db/lnurlauth.go is created once, and the pay infos of db/lnurlpay.go are kept.
use breez.Common.{
  ◌≡◌, ◌⊎◌, inl, inr, refl, sym, ap, ◌∙◌, none, some, Bytes, Result, ok, err, ◌>>=◌, ok-injective,
  Option-cases, Result-cases,
}
use breez.Bolt.{Bolt, Codec}
use breez.Db.Basics.{Bucket, lnurl_auth, lnurl_pay, Error, success_action_exists}
use breez.Db.Basics.Items.{>>=-eq-ok, update_cases, AllOrNothing, update-AllOrNothing}
use breez.Db.Lnurl.{
  auth_key, fetch_lnurl_auth_key, put_pay_info, save_lnurl_pay_info, fetch_lnurl_pay_info,
}

module _ (s : Bolt Bucket Error) where
  open s use {Tx, read, put}

  -- The closure of fetch_lnurl_auth_key.
  abbrev auth_body : Result Error Bytes → Tx → Result Error (Bytes × Tx)
  auth_body create_new t = elim (read t lnurl_auth auth_key) [
    | some key ↦ ok (key, t)
    | none ↦ do new_key ← create_new; u ← put t lnurl_auth auth_key new_key; ok (new_key, u)
  ]

  auth_body-stored :
      (create_new : Result Error Bytes) (t : Tx) (key : Bytes) (u : Tx)
      → auth_body create_new t ≡ ok (key, u)
      → read u lnurl_auth auth_key ≡ some key
  auth_body-stored create_new t key u h = elim (Option-cases (read t lnurl_auth auth_key)) [
    | inr (k, e) ↦
        let done = ok-injective (rw (e, auth_body) at h) in
        ap (λ (p : Bytes × Tx). read p.1 lnurl_auth auth_key) (sym done)
        ∙ e
        ∙ ap (λ (p : Bytes × Tx). some p.0) done
    | inl e ↦
        let (new_key, made, h1) = >>=-eq-ok create_new _ (rw (e, auth_body) at h) in
        let (v, written, h2) = >>=-eq-ok (put t lnurl_auth auth_key new_key) _ h1 in
        let done = ok-injective h2 in
        ap (λ (p : Bytes × Tx). read p.1 lnurl_auth auth_key) (sym done)
        ∙ s.read-put_self written
        ∙ ap (λ (p : Bytes × Tx). some p.0) done
  ]

  -- The key that a call returned is what every later call returns, whatever it would create, and
  -- nothing is written again, if the commit succeeds.
  pub fetch_lnurl_auth_key-once :
      (t u : Tx) (key : Bytes) (create_new create_other : Result Error Bytes)
      → fetch_lnurl_auth_key s t create_new ≡ (ok key, u)
      → s.commit u ≡ none
      → fetch_lnurl_auth_key s u create_other ≡ (ok key, u)
  unfolding fetch_lnurl_auth_key
  fetch_lnurl_auth_key-once t u key create_new create_other h commits =
      elim (update_cases {0} s t (auth_body create_new)) [
        | inl (e, failed) ↦ cc (ap (λ (r : Result Error Bytes × Tx). r.0) (sym h ∙ failed))
        | inr (k, v, body, done) ↦
            let key_is : k ≡ key =
              ok-injective (ap (λ (r : Result Error Bytes × Tx). r.0) (sym done ∙ h)) in
            let same : v ≡ u = ap (λ (r : Result Error Bytes × Tx). r.1) (sym done ∙ h) in
            let stored : read u lnurl_auth auth_key ≡ some key =
              ap (λ (w : Tx). read w lnurl_auth auth_key) (sym same)
              ∙ auth_body-stored create_new t k v body
              ∙ ap some key_is in
            rw (stored, fetch_lnurl_auth_key, commits) refl
      ]

  module _ {Info : Type 0} (json : Codec Error Info) (payment_hash : Info → Bytes) where
    open json use {encode, Plain}

    -- What a successful save did: the hash was unknown, and either the info is read back, or its
    -- writing failed, which the source does not report, and nothing was written.
    abbrev pub Saved : Info → Tx → Tx → Type 0
    Saved info t u =
        (read t lnurl_pay (payment_hash info) ≡ none)
        × ((fetch_lnurl_pay_info s json payment_hash u (payment_hash info) ≡ ok (some info))
            ⊎ ((buf : Bytes) × (e : Error) × (put t lnurl_pay (payment_hash info) buf ≡ err e)
                × (u ≡ t)))

    abbrev pay_body : Info → Tx → Result Error (Unit {0} × Tx)
    pay_body info t = elim (read t lnurl_pay (payment_hash info)) [
      | some _ ↦ err (success_action_exists (payment_hash info))
      | none ↦ do
        buf ← encode info
        ok (tt, put_pay_info s json payment_hash t (payment_hash info) buf)
    ]

    found :
        (info : Info) (buf : Bytes) (u : Tx)
        → Plain info
        → encode info ≡ ok buf
        → read u lnurl_pay (payment_hash info) ≡ some buf
        → fetch_lnurl_pay_info s json payment_hash u (payment_hash info) ≡ ok (some info)
    unfolding fetch_lnurl_pay_info
    found info buf u plain encoded h =
        rw (h, json.decode-encode info plain encoded, fetch_lnurl_pay_info) refl

    pay_body-Saved :
        (info : Info) (t u : Tx) (a : Unit {0})
        → Plain info
        → pay_body info t ≡ ok (a, u)
        → Saved info t u
    unfolding put_pay_info
    pay_body-Saved info t u a plain h = elim (Option-cases (read t lnurl_pay (payment_hash info))) [
      | inr (k, e) ↦ cc (rw (e, pay_body) at h)
      | inl e ↦
          let (buf, encoded, h1) = >>=-eq-ok (encode info) _ (rw (e, pay_body) at h) in
          let done = ap (λ (p : Unit {0} × Tx). p.1) (ok-injective h1) in
          elim (Result-cases (put t lnurl_pay (payment_hash info) buf)) [
            | inl (v, w) ↦ (
              e,
              inl (
                  found info buf u plain encoded
                    (s.read-put_self (w ∙ ap ok (rw (w, put_pay_info) at done)))),
            )
            | inr (x, w) ↦ (e, inr (buf, x, w, sym (rw (w, put_pay_info) at done)))
          ]
    ]

    -- Saving an info fails and changes nothing, or its hash was unknown and it is read back unless
    -- the store refused it; and a hash that is known is always refused.
    pub save_lnurl_pay_info-AllOrNothing :
        (t : Tx) (info : Info)
        → Plain info
        → AllOrNothing s t (save_lnurl_pay_info s json payment_hash t info) (λ _ u. Saved info t u)
          × ((old : Bytes)
              → read t lnurl_pay (payment_hash info) ≡ some old
              → save_lnurl_pay_info s json payment_hash t info
                ≡ (err (success_action_exists (payment_hash info)), t))
    unfolding save_lnurl_pay_info
    save_lnurl_pay_info-AllOrNothing t info plain = (
      update-AllOrNothing {0, 0} s t (pay_body info) (λ _ u. Saved info t u)
          (λ a u h. pay_body-Saved info t u a plain h),
      λ old known. rw (known, save_lnurl_pay_info) refl,
    )
