-- ===== src/Db/Payments/KeepsClosed.antt =====
-- AddChannelClosedPayment of db/payments.go keeps the indexes sound.
use breez.Common.{
  ℕ, ◌+◌, ◌<◌, ◌^◌, ◌≡◌, ◌≢◌, inl, inr, refl, sym, ap, subst, ◌∙◌, some, Bytes, bytes_eq,
  bytes_eq→eq, bytes_ne, length, Result, ok, ok-injective, Bool-cases, Option-cases, arith,
}
use breez.Bolt.{Bolt, Codec}
use breez.Db.Basics.{Bucket, payments, payments_hash, closed_channels, Error, itob, btoi}
use breez.Db.Basics.Keys.{btoi-itob, length-itob}
use breez.Db.Basics.Items.{>>=-eq-ok, update_cases}
use breez.Db.Payments.{
  PaymentInfo, add_payment, fetch_closed_channel_payment, is_skipped, with_first_time, write_closed,
  add_channel_closed_payment_body, add_channel_closed_payment,
}
use breez.Db.Payments.Steps.{Added, add_payment-Added}
use breez.Db.Payments.Closed.{dropped, read-dropped, sequence-dropped, point-with_first_time}
use breez.Db.Payments.Keeps.{Keeps}
use breez.Db.Payments.Index.{some-injective, IsId, Sound, Given, Placed, add_payment-Sound}

module _ (s : Bolt Bucket Error) (json : Codec Error PaymentInfo) where
  open s use {Tx, read, sequence, put, delete}
  open json use {decode}

  -- The record and its index entry are written, and a stale key is dropped.
  closed_written :
      (p : PaymentInfo) (t t1 t2 u : Tx) (id : ℕ)
      → length p.closed_channel_point ≢ 8
      → Sound s json t1
      → Placed s json t id t1
      → Added s json p t id t1
      → dropped s json p t1 ≡ ok t2
      → put t2 closed_channels p.closed_channel_point (itob id) ≡ ok u
      → Sound s json u × (sequence u payments ≡ sequence t1 payments)
  closed_written p t t1 t2 u id long sound placed added gone written =
      let point = p.closed_channel_point in
      let seq = s.sequence-put written payments ∙ sequence-dropped s json p t1 t2 gone payments in
      let away = λ (k : ℕ) (e : point ≡ itob k). long (ap length e ∙ length-itob k) in
      let kept : (k : ℕ) → read u payments (itob k) ≡ read t1 payments (itob k) = λ k.
        s.read-put_ne written payments (itob k) (inl (λ e. cc))
        ∙ read-dropped s json p t1 t2 gone payments (itob k) (inr (away k)) in
      let carry : (key : Bytes) → IsId s json t1 key → IsId s json u key =
        λ key is. (is.0, is.1, is.2, (is.3.0, kept is.0 ∙ is.3.1)) in
      (
        record {
          hashes = λ hash key e. carry key (
              sound.hashes hash key (
                sym (
                  s.read-put_ne written payments_hash hash (inl (λ e. cc))
                  ∙ read-dropped s json p t1 t2 gone payments_hash hash (inl (λ e. cc)))
                ∙ e));
          closed = λ other key e. elim (Bool-cases (bytes_eq point other)) [
            | inl same ↦
                let stored =
                  ap (read u closed_channels) (sym (bytes_eq→eq point other same))
                  ∙ s.read-put_self written in
                carry key
                  (id, placed.fits, some-injective (sym e ∙ stored), (added.buf, added.stored))
            | inr ne ↦ carry key (
                sound.closed other key (
                  sym (
                    s.read-put_ne written closed_channels other (inr (bytes_ne point other ne))
                    ∙ read-dropped s json p t1 t2 gone closed_channels other (inl (λ e. cc)))
                  ∙ e))
          ];
          unused = λ k fits above. kept k ∙ sound.unused k fits (omega (arith, above, seq));
        },
        seq,
      )

  write_closed-Keeps :
      (p : PaymentInfo) (given : ℕ) (t u : Tx)
      → length p.closed_channel_point ≢ 8
      → Sound s json t
      → sequence t payments + 1 < 2 ^ 64
      → Given s json t given
      → write_closed s json p given t ≡ ok (tt, u)
      → Keeps s json t u
  unfolding write_closed
  write_closed-Keeps p given t u long sound room is_given h =
      let ((id, t1), added, h1) = >>=-eq-ok (add_payment s json p t given) _ h in
      let (t2, gone, h2) = >>=-eq-ok (dropped s json p t1) _ h1 in
      let (t3, written, h3) =
        >>=-eq-ok (put t2 closed_channels p.closed_channel_point (itob id)) _ h2 in
      let (sound1, placed) = add_payment-Sound s json p t given sound room is_given added in
      let (sound3, seq) =
        closed_written p t t1 t2 t3 id long sound1 placed (add_payment-Added s json p t given added)
          gone written in
      subst (Keeps s json t) (ap (λ (r : Unit {0} × Tx). r.1) (ok-injective h3))
        (sound3, omega (arith, seq, placed.by_one))

  -- The id that a lookup finds is a record's.
  fetched-Given :
      (t : Tx) (point : Bytes) (existing : PaymentInfo) (id : ℕ)
      → Sound s json t
      → fetch_closed_channel_payment s json t point ≡ ok (some (existing, id))
      → Given s json t id
  unfolding fetch_closed_channel_payment
  fetched-Given t point existing id sound h = elim (Option-cases (read t closed_channels point)) [
    | inl e ↦ cc (rw (e, fetch_closed_channel_payment) at h)
    | inr (key, e) ↦
        let (m, fits, is_key, (rec, stored)) = sound.closed point key e in
        let found = ap (read t payments) is_key ∙ stored in
        let read_back = ap btoi is_key ∙ btoi-itob m fits in
        let h1 = rw (e, found, read_back, fetch_closed_channel_payment) at h in
        let (payment, decoded, h2) = >>=-eq-ok (decode rec) _ h1 in
        let same : m ≡ id = ap (λ (r : PaymentInfo × ℕ). r.1) (some-injective (ok-injective h2)) in
        inr (
          subst (λ (i : ℕ). i < 2 ^ 64) same fits,
          (rec, ap (λ (i : ℕ). read t payments (itob i)) (sym same) ∙ stored),
        )
  ]

  closed_body :
      (p : PaymentInfo) (t u : Tx)
      → length p.closed_channel_point ≢ 8
      → Sound s json t
      → sequence t payments + 1 < 2 ^ 64
      → add_channel_closed_payment_body s json p t ≡ ok (tt, u)
      → Keeps s json t u
  unfolding add_channel_closed_payment_body
  closed_body p t u long sound room h =
      let (found, fetched, h1) =
        >>=-eq-ok (fetch_closed_channel_payment s json t p.closed_channel_point) _ h in
      elim (Option-cases found) [
        | inl e ↦ write_closed-Keeps p 0 t u long sound room (inl refl) (rw e at h1)
        | inr ((existing, id), e) ↦
            let h2 = rw e at h1 in
            elim (Bool-cases (is_skipped s json existing p)) [
              | inl skipped ↦
                  subst (Keeps s json t)
                    (ap (λ (r : Unit {0} × Tx). r.1) (ok-injective (rw skipped at h2)))
                    (sound, omega arith)
              | inr kept ↦
                  write_closed-Keeps (with_first_time s json existing p) id t u
                    (subst (λ (k : Bytes). length k ≢ 8)
                      (sym (point-with_first_time s json existing p)) long)
                    sound room
                    (fetched-Given t p.closed_channel_point existing id sound (fetched ∙ ap ok e))
                    (rw kept at h2)
            ]
      ]

  pub add_channel_closed_payment-Keeps :
      (p : PaymentInfo) (t : Tx)
      → length p.closed_channel_point ≢ 8
      → Sound s json t
      → sequence t payments + 1 < 2 ^ 64
      → Keeps s json t (add_channel_closed_payment s json p t).1
  unfolding add_channel_closed_payment
  add_channel_closed_payment-Keeps p t long sound room =
      elim (update_cases {0} s t (add_channel_closed_payment_body s json p)) [
        | inl (e, failed) ↦
            subst (λ (r : Result Error (Unit {0}) × Tx). Keeps s json t r.1) (sym failed)
              (sound, omega arith)
        | inr (a, u, body, done) ↦
            subst (λ (r : Result Error (Unit {0}) × Tx). Keeps s json t r.1) (sym done)
              (closed_body p t u long sound room body)
      ]
