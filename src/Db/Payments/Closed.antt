-- ===== src/Db/Payments/Closed.antt =====
-- AddChannelClosedPayment of db/payments.go: the payments that reflect closed channels.
use breez.Common.{
  ℕ, ◌<◌, ◌≤◌, ◌^◌, ◌≡◌, ◌≢◌, ◌⊎◌, inl, inr, refl, sym, ap, subst, ◌∙◌, true, false, some, Bytes,
  Result, ok, err, ok-injective, Bool-cases, Result-cases, length, arith,
}
use breez.Bolt.{Bolt, Codec}
use breez.Db.Basics.{Bucket, payments, closed_channels, Error, itob}
use breez.Db.Basics.Keys.{btoi-itob, length-itob}
use breez.Db.Basics.Items.{>>=-eq-ok, update_cases}
use breez.Db.Payments.{
  PaymentInfo, confirmed_close, add_payment, fetch_closed_channel_payment, is_skipped,
  with_first_time, write_closed, add_channel_closed_payment_body, add_channel_closed_payment,
}
use breez.Db.Payments.Steps.{add_payment-Added, add_payment-given}

module _ (s : Bolt Bucket Error) (json : Codec Error PaymentInfo) where
  open s use {Tx, read, put, delete}
  open json use {encode, Plain}

  abbrev pub dropped : PaymentInfo → Tx → Result Error Tx
  dropped p t1 = elim (delete t1 payments p.closed_channel_point) [ ok u ↦ ok u | err _ ↦ ok t1 ]

  pub read-dropped :
      (p : PaymentInfo) (t1 t2 : Tx)
      → dropped p t1 ≡ ok t2
      → (c : Bucket) (j : Bytes) → (payments ≢ c) ⊎ (p.closed_channel_point ≢ j)
      → read t2 c j ≡ read t1 c j
  read-dropped p t1 t2 h c j away =
      elim (Result-cases (delete t1 payments p.closed_channel_point)) [
        | inl (u, e) ↦ s.read-delete_ne (e ∙ rw (e, dropped) at h) c j away
        | inr (_, e) ↦ ap (λ (u : Tx). read u c j) (sym (ok-injective (rw (e, dropped) at h)))
      ]

  pub sequence-dropped :
      (p : PaymentInfo) (t1 t2 : Tx)
      → dropped p t1 ≡ ok t2
      → (c : Bucket) → s.sequence t2 c ≡ s.sequence t1 c
  sequence-dropped p t1 t2 h c = elim (Result-cases (delete t1 payments p.closed_channel_point)) [
    | inl (u, e) ↦ s.sequence-delete (e ∙ rw (e, dropped) at h) c
    | inr (_, e) ↦ ap (λ (u : Tx). s.sequence u c) (sym (ok-injective (rw (e, dropped) at h)))
  ]

  -- The record of a closed channel and its place in the index.
  pub record Written (p : PaymentInfo) (u : Tx) : Type 0 where
    pub id : ℕ
    pub buf : Bytes
    pub encoded : encode p ≡ ok buf
    pub stored : read u payments (itob id) ≡ some buf
    pub indexed : read u closed_channels p.closed_channel_point ≡ some (itob id)

  -- A channel point is longer than an id.
  pub write_closed-Written :
      (p : PaymentInfo) (given : ℕ) (t u : Tx)
      → length p.closed_channel_point ≢ 8
      → write_closed s json p given t ≡ ok (tt, u)
      → (w : Written p u) × ((given ≢ 0) → w.id ≡ given)
  unfolding write_closed
  write_closed-Written p given t u long h =
      let ((id, t1), added, h1) = >>=-eq-ok (add_payment s json p t given) _ h in
      let (t2, gone, h2) = >>=-eq-ok (dropped p t1) _ h1 in
      let (t3, written, h3) =
        >>=-eq-ok (put t2 closed_channels p.closed_channel_point (itob id)) _ h2 in
      let a = add_payment-Added s json p t given added in
      let away : p.closed_channel_point ≢ itob id = λ e. long (ap length e ∙ length-itob id) in
      let done : t3 ≡ u = ap (λ (r : Unit {0} × Tx). r.1) (ok-injective h3) in
      subst (λ (u : Tx). (w : Written p u) × ((given ≢ 0) → w.id ≡ given)) done
        (
          record {
            id = id;
            buf = a.buf;
            encoded = a.encoded;
            stored =
                s.read-put_ne written payments (itob id) (inl (λ e. cc))
                ∙ read-dropped p t1 t2 gone payments (itob id) (inr away)
                ∙ a.stored;
            indexed = s.read-put_self written;
          },
          add_payment-given s json p t given added,
        )

  pub point-with_first_time :
      (existing p : PaymentInfo)
      → (with_first_time s json existing p).closed_channel_point ≡ p.closed_channel_point
  unfolding with_first_time
  point-with_first_time existing p = ground arith

  status-with_first_time :
      (existing p : PaymentInfo)
      → (with_first_time s json existing p).closed_channel_status ≡ p.closed_channel_status
  unfolding with_first_time
  status-with_first_time existing p = ground arith

  -- A record that was written is what the next lookup finds.
  Written-found :
      (p : PaymentInfo) (u : Tx) (w : Written p u)
      → w.id < 2 ^ 64
      → Plain p
      → fetch_closed_channel_payment s json u p.closed_channel_point ≡ ok (some (p, w.id))
  unfolding fetch_closed_channel_payment
  Written-found p u w small plain =
      rw
        (
          w.indexed,
          w.stored,
          fetch_closed_channel_payment,
          btoi-itob w.id small,
          json.decode-encode p plain w.encoded,
        )
        refl

  -- The body on a channel whose payment is known.
  known_body :
      (p existing : PaymentInfo) (given : ℕ) (t u : Tx)
      → length p.closed_channel_point ≢ 8
      → fetch_closed_channel_payment s json t p.closed_channel_point ≡ ok (some (existing, given))
      → add_channel_closed_payment_body s json p t ≡ ok (tt, u)
      → ((is_skipped s json existing p ≡ true) × (u ≡ t))
        ⊎ ((is_skipped s json existing p ≡ false)
            × (w : Written (with_first_time s json existing p) u) × ((given ≢ 0) → w.id ≡ given))
  unfolding add_channel_closed_payment_body
  known_body p existing given t u long found h = elim (Bool-cases (is_skipped s json existing p)) [
    | inl e ↦ inl (e, sym (ap (λ (r : Unit {0} × Tx). r.1) (ok-injective (rw (found, e) at h))))
    | inr e ↦
        let kept =
          write_closed-Written (with_first_time s json existing p) given t u
            (subst (λ (k : Bytes). length k ≢ 8) (sym (point-with_first_time existing p)) long)
            (rw (found, e) at h) in
        inr (e, kept.0, kept.1)
  ]

  -- What the second payment for a closed channel may do to the first.
  abbrev pub Succeeds : PaymentInfo → PaymentInfo → Type 0
  Succeeds existing new =
      (existing.closed_channel_status ≤ new.closed_channel_status)
      × ((existing.closed_channel_status ≡ confirmed_close) → new ≡ existing)
      × ((new.closed_channel_status ≢ confirmed_close)
          → new.creation_timestamp ≡ existing.creation_timestamp)

  Succeeds-refl : (p : PaymentInfo) → Succeeds p p
  Succeeds-refl p = (omega arith, λ _. refl, λ _. refl)

  Succeeds-with_first_time :
      (existing p : PaymentInfo)
      → is_skipped s json existing p ≡ false
      → Succeeds existing (with_first_time s json existing p)
  unfolding is_skipped with_first_time
  Succeeds-with_first_time existing p h =
      (ground arith, λ e. absurd (ground (arith, e)), λ e. ground (arith, e))

  -- A channel's close never goes back: when a payment for it is known and adding another succeeds,
  -- a payment under the same id is known afterwards, whose status is not lower, which is the old
  -- one if that was confirmed, and which has the old one's time unless it is confirmed itself.
  pub add_channel_closed_payment-Succeeds :
      (p existing : PaymentInfo) (given : ℕ) (t u : Tx)
      → length p.closed_channel_point ≢ 8
      → given ≢ 0
      → given < 2 ^ 64
      → Plain (with_first_time s json existing p)
      → fetch_closed_channel_payment s json t p.closed_channel_point ≡ ok (some (existing, given))
      → add_channel_closed_payment s json p t ≡ (ok tt, u)
      → (new : PaymentInfo) × (fetch_closed_channel_payment s json u p.closed_channel_point
          ≡ ok (some (new, given)))
        × Succeeds existing new
  unfolding add_channel_closed_payment
  add_channel_closed_payment-Succeeds p existing given t u long positive small plain found h =
      elim (update_cases {0} s t (add_channel_closed_payment_body s json p)) [
        | inl (e, failed) ↦ cc (ap (λ (r : Result Error (Unit {0}) × Tx). r.0) (sym h ∙ failed))
        | inr (a, v, body, done) ↦
            let same : v ≡ u = ap (λ (r : Result Error (Unit {0}) × Tx). r.1) (sym done ∙ h) in
            let body' : add_channel_closed_payment_body s json p t ≡ ok (tt, u) =
              body ∙ ap (λ (w : Tx). ok (tt, w)) same in
            elim (known_body p existing given t u long found body') [
              | inl (_, unchanged) ↦ (
                existing,
                ap (λ (w : Tx). fetch_closed_channel_payment s json w p.closed_channel_point)
                      unchanged
                    ∙ found,
                Succeeds-refl existing,
              )
              | inr (kept, w, stays) ↦
                  let new = with_first_time s json existing p in
                  let id_is : w.id ≡ given = stays positive in
                  (
                    new,
                    ap (fetch_closed_channel_payment s json u)
                          (sym (point-with_first_time existing p))
                        ∙ Written-found new u w (subst (λ (i : ℕ). i < 2 ^ 64) (sym id_is) small)
                            plain
                        ∙ ap (λ (i : ℕ). ok (some (new, i))) id_is,
                    Succeeds-with_first_time existing p kept,
                  )
            ]
      ]
