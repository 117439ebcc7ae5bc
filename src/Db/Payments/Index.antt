-- ===== src/Db/Payments/Index.antt =====
-- The indexes of db/payments.go point to records, and a new payment takes an id that was never used.
use breez.Common.{
  ℕ, ◌+◌, ◌<◌, ◌≤◌, ◌^◌, ◌≡◌, ◌≢◌, ◌⊎◌, inl, inr, sym, ap, subst, ◌∙◌, Option, none, some, [],
  Bytes, bytes_eq, bytes_eq→eq, bytes_ne, ltb, ltb→lt, ◌==◌, if◌then◌else◌, ok, ok-injective,
  Bool-cases, Option-cases, arith,
}
use breez.Bolt.{Bolt, Codec}
use breez.Db.Basics.{Bucket, payments, payments_hash, closed_channels, Error, itob, btoi}
use breez.Db.Basics.Keys.{btoi-itob, itob-injective}
use breez.Db.Basics.Items.{>>=-eq-ok}
use breez.Db.Payments.{PaymentInfo, stored_id, choose_id, add_payment}
use breez.Db.Payments.Steps.{Added, add_payment-Added, add_payment-chosen}

pub some-injective : {A : Type 0} {a b : A} → ◌≡◌ {A = Option A} (some a) (some b) → a ≡ b
some-injective h = cc

module _ (s : Bolt Bucket Error) (json : Codec Error PaymentInfo) where
  open s use {Tx, read, sequence, next_sequence}

  -- The key of a record.
  abbrev pub IsId : Tx → Bytes → Type 0
  IsId t key =
      (id : ℕ) × (id < 2 ^ 64)
      × (key ≡ itob id)
      × ((rec : Bytes) × (read t payments (itob id) ≡ some rec))

  -- Both indexes point to records, and no record has an id above the bucket's sequence.
  pub record Sound (t : Tx) : Type 0 where
    pub hashes : (hash key : Bytes) → read t payments_hash hash ≡ some key → IsId t key
    pub closed : (point key : Bytes) → read t closed_channels point ≡ some key → IsId t key
    pub unused :
        (id : ℕ) → id < 2 ^ 64 → sequence t payments < id → read t payments (itob id) ≡ none

  -- A record's id is not above the sequence.
  used :
      (t : Tx) (id : ℕ) {rec : Bytes}
      → Sound t
      → id < 2 ^ 64
      → read t payments (itob id) ≡ some rec
      → id ≤ sequence t payments
  used t id sound fits stored = elim (Bool-cases (ltb (sequence t payments) id)) [
    | inl e ↦ cc (sym stored ∙ sound.unused id fits (ltb→lt _ _ e))
    | inr e ↦ ground (arith, e)
  ]

  -- Where a chosen id stands: it fits, and the sequence goes up to it by one at most.
  pub record Placed (t : Tx) (id : ℕ) (u : Tx) : Type 0 where
    pub fits : id < 2 ^ 64
    pub below : id ≤ sequence u payments
    pub grows : sequence t payments ≤ sequence u payments
    pub by_one : sequence u payments ≤ sequence t payments + 1

  -- An id that is given is 0 or a record's.
  abbrev pub Given : Tx → ℕ → Type 0
  Given t id = (id ≡ 0) ⊎ ((id < 2 ^ 64) × ((rec : Bytes) × (read t payments (itob id) ≡ some rec)))

  Placed-used :
      (t : Tx) (id : ℕ) {rec : Bytes}
      → Sound t
      → id < 2 ^ 64
      → read t payments (itob id) ≡ some rec
      → Placed t id t
  Placed-used t id sound fits stored = record {
    fits = fits;
    below = used t id sound fits stored;
    grows = omega arith;
    by_one = omega arith;
  }

  -- An id that the hash index gives.
  stored-used :
      (t : Tx) (hash : Bytes) (n : ℕ)
      → Sound t
      → stored_id s json (read t payments_hash hash) ≡ ok n
      → n ≢ 0
      → Placed t n t
  stored-used t hash n sound h nz = elim (Option-cases (read t payments_hash hash)) [
    | inl e ↦ absurd (nz (sym (ok-injective (rw (e, stored_id) at h))))
    | inr (key, e) ↦
        let (id, fits, is_key, (rec, stored)) = sound.hashes hash key e in
        let same : n ≡ id =
          ok-injective (sym (rw (e, stored_id) at h) ∙ ap btoi is_key ∙ btoi-itob id fits) in
        subst (λ (n : ℕ). Placed t n t) (sym same) (Placed-used t id sound fits stored)
  ]

  choose_id-Placed :
      (t : Tx) (hash : Bytes) (existing_id : ℕ) {id : ℕ} {u : Tx}
      → Sound t
      → sequence t payments + 1 < 2 ^ 64
      → Given t existing_id
      → choose_id s json t hash existing_id ≡ ok (id, u)
      → Placed t id u
  unfolding choose_id
  choose_id-Placed t hash existing_id {id} {u} sound room given h =
      let (n, chosen, rest) =
        >>=-eq-ok
          (if existing_id == 0
            then stored_id s json (read t payments_hash hash)
            else ok existing_id)
          (λ id. if id == 0 then next_sequence t payments else ok (id, t)) h in
      elim (Bool-cases (n == 0)) [
        | inl e ↦
            let next = rw e at rest in
            let value = s.next_sequence-value next in
            let moved = s.sequence-next_self next in
            record {
              fits = omega (arith, value, room);
              below = omega (arith, moved);
              grows = omega (arith, value, moved);
              by_one = omega (arith, value, moved);
            }
        | inr e ↦
            let nz : n ≢ 0 = λ z. ground (arith, e, z) in
            let placed : Placed t n t = elim (Bool-cases (existing_id == 0)) [
              | inl unset ↦ stored-used t hash n sound (rw unset at chosen) nz
              | inr set ↦
                  let same : existing_id ≡ n = ok-injective (rw set at chosen) in
                  elim given [
                    | inl z ↦ absurd (nz (sym same ∙ z))
                    | inr (fits, (rec, stored)) ↦
                        subst (λ (n : ℕ). Placed t n t) same
                          (Placed-used t existing_id sound fits stored)
                  ]
            ] in
            subst (λ (r : ℕ × Tx). Placed t r.0 r.1) (ok-injective (rw e at rest)) placed
      ]

  -- Records stay records when a payment is added.
  IsId-Added :
      (p : PaymentInfo) (t u : Tx) (id : ℕ) (key : Bytes)
      → Added s json p t id u
      → IsId t key
      → IsId u key
  IsId-Added p t u id key added (m, fits, is_key, (rec, stored)) =
      elim (Bool-cases (bytes_eq (itob id) (itob m))) [
        | inl e ↦ (
          m,
          fits,
          is_key,
          (added.buf, ap (read u payments) (sym (bytes_eq→eq (itob id) (itob m) e)) ∙ added.stored),
        )
        | inr e ↦ (
          m,
          fits,
          is_key,
          (
            rec,
            added.frame payments (itob m) (inr (bytes_ne (itob id) (itob m) e), inl (λ e. cc))
                ∙ stored,
          ),
        )
      ]

  hashes-Added :
      (p : PaymentInfo) (t u : Tx) (id : ℕ)
      → Sound t
      → id < 2 ^ 64
      → Added s json p t id u
      → (hash key : Bytes) → read u payments_hash hash ≡ some key
      → IsId u key
  hashes-Added p t u id sound fits added hash key e =
      let before = λ (same : read u payments_hash hash ≡ read t payments_hash hash).
        IsId-Added p t u id key added (sound.hashes hash key (sym same ∙ e)) in
      elim (Bool-cases (bytes_eq p.payment_hash hash)) [
        | inr other ↦ before (
            added.frame payments_hash hash
              (inl (λ e. cc), inr (bytes_ne p.payment_hash hash other)))
        | inl same ↦ elim (Bool-cases (bytes_eq p.payment_hash [])) [
          | inl nameless ↦ before (added.unindexed (bytes_eq→eq p.payment_hash [] nameless) hash)
          | inr named ↦
              let indexed = added.indexed (bytes_ne p.payment_hash [] named) in
              let is_hash = bytes_eq→eq p.payment_hash hash same in
              (
                id,
                fits,
                some-injective (sym e ∙ ap (read u payments_hash) (sym is_hash) ∙ indexed),
                (added.buf, added.stored),
              )
        ]
      ]

  -- A payment with an unknown hash takes an id under which nothing stands.
  pub choose_id-unused :
      (t : Tx) (hash : Bytes) {id : ℕ} {u : Tx}
      → Sound t
      → sequence t payments + 1 < 2 ^ 64
      → read t payments_hash hash ≡ none
      → choose_id s json t hash 0 ≡ ok (id, u)
      → read t payments (itob id) ≡ none
  unfolding choose_id
  choose_id-unused t hash {id} sound room unknown h =
      let next = rw (unknown, choose_id) at h in
      let value = s.next_sequence-value next in
      sound.unused id (omega (arith, value, room)) (omega (arith, value))

  pub add_payment-Sound :
      (p : PaymentInfo) (t : Tx) (existing_id : ℕ) {id : ℕ} {u : Tx}
      → Sound t
      → sequence t payments + 1 < 2 ^ 64
      → Given t existing_id
      → add_payment s json p t existing_id ≡ ok (id, u)
      → Sound u × Placed t id u
  add_payment-Sound p t existing_id {id} {u} sound room given h =
      let added = add_payment-Added s json p t existing_id h in
      let (v, chosen, seq) = add_payment-chosen s json p t existing_id h in
      let at_v = choose_id-Placed t p.payment_hash existing_id sound room given chosen in
      let placed : Placed t id u = record {
        fits = at_v.fits;
        below = omega (arith, at_v.below, seq payments);
        grows = omega (arith, at_v.grows, seq payments);
        by_one = omega (arith, at_v.by_one, seq payments);
      } in
      (
        record {
          hashes = hashes-Added p t u id sound placed.fits added;
          closed = λ point key e. IsId-Added p t u id key added (
              sound.closed point key
                (sym (added.frame closed_channels point (inl (λ e. cc), inl (λ e. cc))) ∙ e));
          unused = λ k fits above.
              let ne : itob id ≢ itob k =
                λ e. omega (arith, itob-injective id k placed.fits fits e, placed.below, above) in
              added.frame payments (itob k) (inr ne, inl (λ e. cc))
              ∙ sound.unused k fits (omega (arith, above, placed.grows));
        },
        placed,
      )
