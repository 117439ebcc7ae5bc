-- ===== src/Db/Payments/Settled.antt =====
-- AddAccountPayment of db/payments.go: settled payments, each once, and how far they were read.
use breez.Common.{
  ℕ, ◌<◌, ◌^◌, ◌≡◌, ◌≢◌, ◌⊎◌, inl, inr, refl, sym, ap, subst, ◌∙◌, Bool, true, false, none, some,
  [], ◌∷◌, Bytes, bytes_eq, Result, ok, err, ok-injective, Bool-cases, Option-cases, max,
}
use mathlib.Core.Path.{ap₂}
use breez.Bolt.{Bolt, Codec}
use breez.Db.Basics.{
  Bucket, payments, payments_hash, payments_sync_info, Error, itob, must_have_payment_hash,
}
use breez.Db.Basics.Items.{>>=-eq-ok, update_cases}
use breez.Db.Payments.{
  PaymentInfo, last_sent_payment_time, last_settled_index, stored_id, add_payment,
  has_account_payment, raise_sync_info, add_account_payment_body, add_account_payment,
  fetch_payments_sync_info,
}
use breez.Db.Payments.Steps.{Added, add_payment-Added, raise_sync_info-max}

nonempty_test : (k : Bytes) → k ≢ [] → bytes_eq k [] ≡ false
nonempty_test [] h = absurd (h refl)
nonempty_test (x ∷ k) h = refl

module _ (s : Bolt Bucket Error) (json : Codec Error PaymentInfo) where
  open s use {Tx, read}
  open json use {encode}

  -- A new payment was recorded: `u` is `t` with it.
  pub record Recorded (p : PaymentInfo) (received_index sent_time : ℕ) (t u : Tx) : Type 0 where
    pub id : ℕ
    pub buf : Bytes
    pub named : p.payment_hash ≢ []
    pub unknown : read t payments_hash p.payment_hash ≡ none
    pub encoded : encode p ≡ ok buf
    pub stored : read u payments (itob id) ≡ some buf
    pub indexed : read u payments_hash p.payment_hash ≡ some (itob id)
    pub last_time : ℕ
    pub last_index : ℕ
    pub info_before : fetch_payments_sync_info s json t ≡ ok (last_time, last_index)
    pub info_after :
        fetch_payments_sync_info s json u
        ≡ ok (max last_time sent_time, max last_index received_index)

  -- The payment was known: its hash is indexed.
  abbrev pub Known : PaymentInfo → Tx → Type 0
  Known p t =
      (p.payment_hash ≢ []) × ((key : Bytes) × (read t payments_hash p.payment_hash ≡ some key))

  pub has_account_payment-cases :
      (p : PaymentInfo) (t : Tx) {exists : Bool}
      → has_account_payment s json p t ≡ ok exists
      → (Known p t × (exists ≡ true))
        ⊎ ((p.payment_hash ≢ []) × (read t payments_hash p.payment_hash ≡ none) × (exists ≡ false))
  unfolding has_account_payment
  has_account_payment-cases p t {exists} h = elim (Bool-cases (bytes_eq p.payment_hash [])) [
    | inl e ↦ cc (rw e at h)
    | inr e ↦
        let named : p.payment_hash ≢ [] = λ q. cc (ap (λ (x : Bytes). bytes_eq x []) (sym q) ∙ e) in
        elim (Option-cases (read t payments_hash p.payment_hash)) [
          | inl q ↦ inr (named, q, sym (ok-injective (rw (e, q) at h)))
          | inr (key, q) ↦ inl ((named, (key, q)), sym (ok-injective (rw (e, q) at h)))
        ]
  ]

  fetch-info :
      (t : Tx) {time index : ℕ}
      → stored_id s json (read t payments_sync_info last_sent_payment_time) ≡ ok time
      → stored_id s json (read t payments_sync_info last_settled_index) ≡ ok index
      → fetch_payments_sync_info s json t ≡ ok (time, index)
  unfolding fetch_payments_sync_info
  fetch-info t h k = rw (h, k) refl

  recorded_info :
      (t t1 t2 t3 : Tx) (received_index sent_time : ℕ)
      → received_index < 2 ^ 64
      → sent_time < 2 ^ 64
      → ((j : Bytes) → read t1 payments_sync_info j ≡ read t payments_sync_info j)
      → raise_sync_info s json t1 last_sent_payment_time sent_time ≡ ok t2
      → raise_sync_info s json t2 last_settled_index received_index ≡ ok t3
      → (last_time : ℕ) × (last_index : ℕ) × (fetch_payments_sync_info s json t
          ≡ ok (last_time, last_index))
        × (fetch_payments_sync_info s json t3
            ≡ ok (max last_time sent_time, max last_index received_index))
  recorded_info t t1 t2 t3 received_index sent_time hr hs same raised raised' =
      let (time, before, after, frame) =
        raise_sync_info-max s json t1 last_sent_payment_time sent_time hs raised in
      let (index, before', after', frame') =
        raise_sync_info-max s json t2 last_settled_index received_index hr raised' in
      let untouched = ap (stored_id s json) (same last_settled_index) in
      let untouched1 =
        ap (stored_id s json) (frame payments_sync_info last_settled_index (inr (λ e. cc))) in
      let untouched3 =
        ap (stored_id s json) (frame' payments_sync_info last_sent_payment_time (inr (λ e. cc))) in
      (
        time,
        index,
        fetch-info t (sym (ap (stored_id s json) (same last_sent_payment_time)) ∙ before)
            (sym untouched ∙ sym untouched1 ∙ before'),
        fetch-info t3 (untouched3 ∙ after) after',
      )

  -- The reads of a record or its index are not those of the sync info.
  Recorded-by :
      (p : PaymentInfo) (received_index sent_time id : ℕ) (t t1 t2 t3 : Tx)
      → received_index < 2 ^ 64
      → sent_time < 2 ^ 64
      → p.payment_hash ≢ []
      → read t payments_hash p.payment_hash ≡ none
      → Added s json p t id t1
      → raise_sync_info s json t1 last_sent_payment_time sent_time ≡ ok t2
      → raise_sync_info s json t2 last_settled_index received_index ≡ ok t3
      → Recorded p received_index sent_time t t3
  Recorded-by p received_index sent_time id t t1 t2 t3 hr hs named unknown added raised raised' =
      let (_, _, _, frame) =
        raise_sync_info-max s json t1 last_sent_payment_time sent_time hs raised in
      let (_, _, _, frame') =
        raise_sync_info-max s json t2 last_settled_index received_index hr raised' in
      let same = λ (j : Bytes). added.frame payments_sync_info j (inl (λ e. cc), inl (λ e. cc)) in
      let (time, index, before, after) =
        recorded_info t t1 t2 t3 received_index sent_time hr hs same raised raised' in
      record {
        id = id;
        buf = added.buf;
        named = named;
        unknown = unknown;
        encoded = added.encoded;
        stored =
            frame' payments (itob id) (inl (λ e. cc))
            ∙ frame payments (itob id) (inl (λ e. cc))
            ∙ added.stored;
        indexed =
            frame' payments_hash p.payment_hash (inl (λ e. cc))
            ∙ frame payments_hash p.payment_hash (inl (λ e. cc))
            ∙ added.indexed named;
        last_time = time;
        last_index = index;
        info_before = before;
        info_after = after;
      }

  body_cases :
      (p : PaymentInfo) (received_index sent_time : ℕ) (t : Tx) {exists : Bool} {u : Tx}
      → received_index < 2 ^ 64
      → sent_time < 2 ^ 64
      → add_account_payment_body s json p received_index sent_time t ≡ ok (exists, u)
      → (Known p t × (exists ≡ true) × (u ≡ t))
        ⊎ (Recorded p received_index sent_time t u × (exists ≡ false))
  unfolding add_account_payment_body
  body_cases p received_index sent_time t {exists} {u} hr hs h =
      let (known, found, h1) = >>=-eq-ok (has_account_payment s json p t) _ h in
      elim (has_account_payment-cases p t found) [
        | inl (is_known, e) ↦
            let done = ok-injective (rw e at h1) in
            inl (
              is_known,
              sym (ap (λ (r : Bool × Tx). r.0) done),
              sym (ap (λ (r : Bool × Tx). r.1) done),
            )
        | inr (named, unknown, e) ↦
            let h2 = rw e at h1 in
            let ((id, t1), added, h3) = >>=-eq-ok (add_payment s json p t 0) _ h2 in
            let (t2, raised, h4) =
              >>=-eq-ok (raise_sync_info s json t1 last_sent_payment_time sent_time) _ h3 in
            let (t3, raised', h5) =
              >>=-eq-ok (raise_sync_info s json t2 last_settled_index received_index) _ h4 in
            let done = ok-injective h5 in
            inr (
              subst (Recorded p received_index sent_time t) (ap (λ (r : Bool × Tx). r.1) done) (
                  Recorded-by p received_index sent_time id t t1 t2 t3 hr hs named unknown
                    (add_payment-Added s json p t 0 added) raised raised'),
              sym (ap (λ (r : Bool × Tx). r.0) done),
            )
      ]

  -- Adding a settled payment fails and changes nothing; or its hash was known, nothing changes and
  -- the answer is true; or it is recorded under a new hash, which is indexed, the sync info is
  -- raised to the given time and index where these are newer, and the answer is false.
  pub add_account_payment-cases :
      (p : PaymentInfo) (received_index sent_time : ℕ) (t : Tx)
      → received_index < 2 ^ 64
      → sent_time < 2 ^ 64
      → ((e : Error) × (add_account_payment s json p received_index sent_time t ≡ (err e, t)))
        ⊎ (Known p t × (add_account_payment s json p received_index sent_time t ≡ (ok true, t)))
        ⊎ ((u : Tx) × Recorded p received_index sent_time t u
            × (add_account_payment s json p received_index sent_time t ≡ (ok false, u)))
  unfolding add_account_payment
  add_account_payment-cases p received_index sent_time t hr hs =
      elim (update_cases {0} s t (add_account_payment_body s json p received_index sent_time)) [
        | inl failed ↦ inl failed
        | inr (exists, u, body, result) ↦
            elim (body_cases p received_index sent_time t hr hs body) [
              | inl (known, e, same) ↦
                  inr (inl (known, result ∙ ap₂ (λ (b : Bool) (v : Tx). (ok b, v)) e same))
              | inr (recorded, e) ↦ inr (inr (u, recorded, result ∙ ap (λ (b : Bool). (ok b, u)) e))
            ]
      ]

  -- A payment whose hash is recorded is not recorded again: once a call recorded it, another call
  -- with the same hash answers true and writes nothing, whatever else it carries, if the commit
  -- succeeds. A payment with no hash is refused.
  pub add_account_payment-again :
      (p q : PaymentInfo) (received_index sent_time received_index' sent_time' : ℕ) (t u : Tx)
      → received_index < 2 ^ 64
      → sent_time < 2 ^ 64
      → add_account_payment s json p received_index sent_time t ≡ (ok false, u)
      → q.payment_hash ≡ p.payment_hash
      → s.commit u ≡ none
      → (add_account_payment s json q received_index' sent_time' u ≡ (ok true, u))
        × ((r : PaymentInfo)
            → r.payment_hash ≡ []
            → add_account_payment s json r received_index' sent_time' u
              ≡ (err must_have_payment_hash, u))
  unfolding add_account_payment add_account_payment_body has_account_payment
  add_account_payment-again p q received_index sent_time received_index' sent_time' t u hr hs h same
        commits =
      elim (add_account_payment-cases p received_index sent_time t hr hs) [
        | inl (e, failed) ↦ cc (ap (λ (r : Result Error Bool × Tx). r.0) (sym h ∙ failed))
        | inr (inl (known, skipped)) ↦
            cc (ap (λ (r : Result Error Bool × Tx). r.0) (sym h ∙ skipped))
        | inr (inr (v, recorded, done)) ↦
            let v_is : v ≡ u = ap (λ (r : Result Error Bool × Tx). r.1) (sym done ∙ h) in
            let indexed : read u payments_hash p.payment_hash ≡ some (itob recorded.id) =
              ap (λ (w : Tx). read w payments_hash p.payment_hash) (sym v_is) ∙ recorded.indexed in
            let named : bytes_eq p.payment_hash [] ≡ false =
              nonempty_test p.payment_hash recorded.named in
            (rw (same, named, indexed, commits) refl, λ r empty. rw empty refl)
      ]
