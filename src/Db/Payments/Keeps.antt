-- ===== src/Db/Payments/Keeps.antt =====
-- AddAccountPayment of db/payments.go keeps the indexes sound and the records as they are.
use breez.Common.{
  ℕ, ◌+◌, ◌<◌, ◌≤◌, ◌^◌, ◌≡◌, ◌≢◌, inl, inr, refl, sym, ap, subst, ◌∙◌, Bool, none, some, Bytes,
  Result, ok, ok-injective, arith,
}
use breez.Bolt.{Bolt, Codec}
use breez.Db.Basics.{
  Bucket, payments, payments_hash, payments_sync_info, closed_channels, Error, itob,
}
use breez.Db.Basics.Items.{>>=-eq-ok, update_cases}
use breez.Db.Payments.{
  PaymentInfo, last_sent_payment_time, last_settled_index, add_payment, has_account_payment,
  raise_sync_info, add_account_payment_body, add_account_payment,
}
use breez.Db.Payments.Steps.{add_payment-Added, add_payment-chosen, sequence-raise_sync_info}
use breez.Db.Payments.Settled.{has_account_payment-cases}
use breez.Db.Payments.Index.{IsId, Sound, add_payment-Sound, choose_id-unused}

module _ (s : Bolt Bucket Error) (json : Codec Error PaymentInfo) where
  open s use {Tx, read, sequence, put, delete}
  open json use {decode}

  -- Only the sync info differs.
  Sound-same :
      (t u : Tx)
      → sequence u payments ≡ sequence t payments
      → ((c : Bucket) (j : Bytes) → payments_sync_info ≢ c → read u c j ≡ read t c j)
      → Sound s json t
      → Sound s json u
  Sound-same t u seq same sound =
      let carry : (key : Bytes) → IsId s json t key → IsId s json u key =
        λ key is. (is.0, is.1, is.2, (is.3.0, same payments (itob is.0) (λ e. cc) ∙ is.3.1)) in
      record {
        hashes = λ hash key e.
            carry key (sound.hashes hash key (sym (same payments_hash hash (λ e. cc)) ∙ e));
        closed = λ point key e.
            carry key (sound.closed point key (sym (same closed_channels point (λ e. cc)) ∙ e));
        unused = λ id fits above.
            same payments (itob id) (λ e. cc) ∙ sound.unused id fits (omega (arith, above, seq));
      }

  -- What a history keeps: the indexes are sound, and the sequence goes up by one at most.
  abbrev pub Keeps : Tx → Tx → Type 0
  Keeps t u = Sound s json u × (sequence u payments ≤ sequence t payments + 1)

  -- And every record stays as it is.
  abbrev pub Extends : Tx → Tx → Type 0
  Extends t u = (key rec : Bytes) → read t payments key ≡ some rec → read u payments key ≡ some rec

  raised :
      (t1 t2 t3 : Tx) (time index : ℕ)
      → raise_sync_info s json t1 last_sent_payment_time time ≡ ok t2
      → raise_sync_info s json t2 last_settled_index index ≡ ok t3
      → (sequence t3 payments ≡ sequence t1 payments)
        × ((c : Bucket) (j : Bytes) → payments_sync_info ≢ c → read t3 c j ≡ read t1 c j)
  raised t1 t2 t3 time index h k =
      let (seq, same) = sequence-raise_sync_info s json t1 last_sent_payment_time time h in
      let (seq', same') = sequence-raise_sync_info s json t2 last_settled_index index k in
      (seq' payments ∙ seq payments, λ c j ne. same' c j ne ∙ same c j ne)

  new_payment :
      (p : PaymentInfo) (t u : Tx) (id : ℕ)
      → Sound s json t
      → sequence t payments + 1 < 2 ^ 64
      → read t payments_hash p.payment_hash ≡ none
      → add_payment s json p t 0 ≡ ok (id, u)
      → Keeps t u × Extends t u
  new_payment p t u id sound room unknown h =
      let (sound', placed) = add_payment-Sound s json p t 0 sound room (inl refl) h in
      let (v, chosen, _) = add_payment-chosen s json p t 0 h in
      let free = choose_id-unused s json t p.payment_hash sound room unknown chosen in
      let added = add_payment-Added s json p t 0 h in
      (
        (sound', placed.by_one),
        λ key rec stored.
            added.frame payments key
              (inr (λ e. cc (sym free ∙ ap (read t payments) e ∙ stored)), inl (λ e. cc))
            ∙ stored,
      )

  settled_body :
      (p : PaymentInfo) (received_index sent_time : ℕ) (t u : Tx) (exists : Bool)
      → Sound s json t
      → sequence t payments + 1 < 2 ^ 64
      → add_account_payment_body s json p received_index sent_time t ≡ ok (exists, u)
      → Keeps t u × Extends t u
  unfolding add_account_payment_body
  settled_body p received_index sent_time t u exists sound room h =
      let (known, found, h1) = >>=-eq-ok (has_account_payment s json p t) _ h in
      elim (has_account_payment-cases s json p t found) [
        | inl (is_known, e) ↦
            let same = ap (λ (r : Bool × Tx). r.1) (ok-injective (rw e at h1)) in
            subst (λ (u : Tx). Keeps t u × Extends t u) same
              ((sound, omega arith), λ key rec stored. stored)
        | inr (named, unknown, e) ↦
            let ((id, t1), added, h3) = >>=-eq-ok (add_payment s json p t 0) _ (rw e at h1) in
            let (t2, time, h4) =
              >>=-eq-ok (raise_sync_info s json t1 last_sent_payment_time sent_time) _ h3 in
            let (t3, index, h5) =
              >>=-eq-ok (raise_sync_info s json t2 last_settled_index received_index) _ h4 in
            let (seq, same) = raised t1 t2 t3 sent_time received_index time index in
            let ((sound1, grows), extends) = new_payment p t t1 id sound room unknown added in
            subst (λ (u : Tx). Keeps t u × Extends t u)
              (ap (λ (r : Bool × Tx). r.1) (ok-injective h5))
              (
                (Sound-same t1 t3 seq same sound1, omega (arith, grows, seq)),
                λ key rec stored. same payments key (λ e. cc) ∙ extends key rec stored,
              )
      ]

  -- Adding a settled payment, whatever its answer, keeps both indexes leading to records, moves the
  -- sequence by one at most, and leaves every record as it is, if the indexes were sound before and
  -- the ids do not run out.
  pub add_account_payment-Keeps :
      (p : PaymentInfo) (received_index sent_time : ℕ) (t : Tx)
      → Sound s json t
      → sequence t payments + 1 < 2 ^ 64
      → let u = (add_account_payment s json p received_index sent_time t).1 in
        Keeps t u × Extends t u
  unfolding add_account_payment
  add_account_payment-Keeps p received_index sent_time t sound room =
      let at = λ (r : Result Error Bool × Tx). Keeps t r.1 × Extends t r.1 in
      elim (update_cases {0} s t (add_account_payment_body s json p received_index sent_time)) [
        | inl (e, failed) ↦ subst at (sym failed) ((sound, omega arith), λ key rec stored. stored)
        | inr (exists, u, body, done) ↦
            subst at (sym done) (settled_body p received_index sent_time t u exists sound room body)
      ]
