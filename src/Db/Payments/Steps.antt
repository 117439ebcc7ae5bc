-- ===== src/Db/Payments/Steps.antt =====
-- What the steps of db/payments.go change, and that they change nothing else.
use breez.Common.{
  ℕ, ◌<◌, ◌^◌, ◌≡◌, ◌≢◌, ◌⊎◌, inl, inr, refl, sym, ap, subst, ◌∙◌, false, Option, none, some, [],
  Bytes, bytes_eq, bytes_eq→eq, ltb, ◌==◌, if◌then◌else◌, ok, ok-injective, Bool-cases, arith, max,
}
use breez.Bolt.{Bolt, Codec}
use breez.Db.Basics.{Bucket, payments, payments_hash, payments_sync_info, Error, itob, btoi}
use breez.Db.Basics.Keys.{btoi-itob}
use breez.Db.Basics.Items.{>>=-eq-ok}
use breez.Db.Payments.{PaymentInfo, stored_id, choose_id, index_hash, add_payment, raise_sync_info}

-- A read outside the two places that addPayment writes.
abbrev pub Elsewhere : ℕ → Bytes → Bucket → Bytes → Type 0
Elsewhere id hash c j = ((payments ≢ c) ⊎ (itob id ≢ j)) × ((payments_hash ≢ c) ⊎ (hash ≢ j))

module _ (s : Bolt Bucket Error) (json : Codec Error PaymentInfo) where
  open s use {Tx, read, put, sequence, next_sequence}
  open json use {encode}

  -- What is true after a successful addPayment.
  pub record Added (p : PaymentInfo) (t : Tx) (id : ℕ) (u : Tx) : Type 0 where
    pub buf : Bytes
    pub encoded : encode p ≡ ok buf
    pub stored : read u payments (itob id) ≡ some buf
    pub indexed : p.payment_hash ≢ [] → read u payments_hash p.payment_hash ≡ some (itob id)
    pub positive : id ≢ 0
    pub unindexed :
        p.payment_hash ≡ [] → (j : Bytes) → read u payments_hash j ≡ read t payments_hash j
    pub frame : (c : Bucket) (j : Bytes) → Elsewhere id p.payment_hash c j → read u c j ≡ read t c j

  read-choose_id :
      (t : Tx) (hash : Bytes) (existing_id : ℕ) {id : ℕ} {u : Tx}
      → choose_id s json t hash existing_id ≡ ok (id, u)
      → (c : Bucket) (j : Bytes) → read u c j ≡ read t c j
  unfolding choose_id
  read-choose_id t hash existing_id {id} {u} h c j =
      let (n, chosen, rest) =
        >>=-eq-ok
          (if existing_id == 0
            then stored_id s json (read t payments_hash hash)
            else ok existing_id)
          (λ id. if id == 0 then next_sequence t payments else ok (id, t)) h in
      elim (Bool-cases (n == 0)) [
        | inl zero_id ↦ s.read-next (rw zero_id at rest) c j
        | inr e ↦
            let given = ok-injective (rw e at rest) in ap (λ (p : ℕ × Tx). read p.1 c j) (sym given)
      ]

  pub choose_id_ne :
      (t : Tx) (hash : Bytes) (existing_id : ℕ) {id : ℕ} {u : Tx}
      → choose_id s json t hash existing_id ≡ ok (id, u)
      → id ≢ 0
  unfolding choose_id
  choose_id_ne t hash existing_id {id} {u} h =
      let (n, chosen, rest) =
        >>=-eq-ok
          (if existing_id == 0
            then stored_id s json (read t payments_hash hash)
            else ok existing_id)
          (λ id. if id == 0 then next_sequence t payments else ok (id, t)) h in
      elim (Bool-cases (n == 0)) [
        | inl zero_id ↦ omega (arith, s.next_sequence-value (rw zero_id at rest))
        | inr e ↦
            let given = ok-injective (rw e at rest) in
            let same : n ≡ id = ap (λ (p : ℕ × Tx). p.0) given in λ z. ground (arith, e, same, z)
      ]

  index_hash-some :
      (t : Tx) (hash : Bytes) (id : ℕ) {u : Tx}
      → index_hash s json t hash id ≡ ok u
      → hash ≢ []
      → read u payments_hash hash ≡ some (itob id)
  unfolding index_hash
  index_hash-some t hash id h ne = elim (Bool-cases (bytes_eq hash [])) [
    | inl e ↦ absurd (ne (bytes_eq→eq hash [] e))
    | inr e ↦ s.read-put_self (rw e at h)
  ]

  read-index_hash :
      (t : Tx) (hash : Bytes) (id : ℕ) {u : Tx}
      → index_hash s json t hash id ≡ ok u
      → (c : Bucket) (j : Bytes) → (payments_hash ≢ c) ⊎ (hash ≢ j)
      → read u c j ≡ read t c j
  unfolding index_hash
  read-index_hash t hash id h c j away = elim (Bool-cases (bytes_eq hash [])) [
    | inl e ↦ ap (λ (u : Tx). read u c j) (sym (ok-injective (rw e at h)))
    | inr e ↦ s.read-put_ne (rw e at h) c j away
  ]

  read-index_hash_empty :
      (t : Tx) (hash : Bytes) (id : ℕ) {u : Tx}
      → index_hash s json t hash id ≡ ok u
      → hash ≡ []
      → (c : Bucket) (j : Bytes) → read u c j ≡ read t c j
  unfolding index_hash
  read-index_hash_empty t hash id h e c j =
      ap (λ (u : Tx). read u c j) (sym (ok-injective (rw (e, index_hash) at h)))

  sequence-index_hash :
      (t : Tx) (hash : Bytes) (id : ℕ) {u : Tx}
      → index_hash s json t hash id ≡ ok u
      → (c : Bucket) → sequence u c ≡ sequence t c
  unfolding index_hash
  sequence-index_hash t hash id h c = elim (Bool-cases (bytes_eq hash [])) [
    | inl e ↦ ap (λ (u : Tx). sequence u c) (sym (ok-injective (rw e at h)))
    | inr e ↦ s.sequence-put (rw e at h) c
  ]

  Added-from :
      (p : PaymentInfo) (t : Tx) (existing_id n : ℕ) (buf : Bytes) (t1 t2 t3 : Tx)
      → encode p ≡ ok buf
      → choose_id s json t p.payment_hash existing_id ≡ ok (n, t1)
      → put t1 payments (itob n) buf ≡ ok t2
      → index_hash s json t2 p.payment_hash n ≡ ok t3
      → Added p t n t3
  Added-from p t existing_id n buf t1 t2 t3 encoded chosen written hashed = record {
    buf = buf;
    encoded = encoded;
    stored =
        read-index_hash t2 p.payment_hash n hashed payments (itob n) (inl (λ e. cc))
        ∙ s.read-put_self written;
    indexed = index_hash-some t2 p.payment_hash n hashed;
    frame = λ c j away.
        read-index_hash t2 p.payment_hash n hashed c j away.1
        ∙ s.read-put_ne written c j away.0
        ∙ read-choose_id t p.payment_hash existing_id chosen c j;
    unindexed = λ e j.
        read-index_hash_empty t2 p.payment_hash n hashed e payments_hash j
        ∙ s.read-put_ne written payments_hash j (inl (λ e. cc))
        ∙ read-choose_id t p.payment_hash existing_id chosen payments_hash j;
    positive = choose_id_ne t p.payment_hash existing_id chosen;
  }

  pub add_payment-Added :
      (p : PaymentInfo) (t : Tx) (existing_id : ℕ) {id : ℕ} {u : Tx}
      → add_payment s json p t existing_id ≡ ok (id, u)
      → Added p t id u
  unfolding add_payment
  add_payment-Added p t existing_id {id} {u} h =
      let (buf, encoded, h1) = >>=-eq-ok (encode p) _ h in
      let ((n, t1), chosen, h2) = >>=-eq-ok (choose_id s json t p.payment_hash existing_id) _ h1 in
      let (t2, written, h3) = >>=-eq-ok (put t1 payments (itob n) buf) _ h2 in
      let (t3, hashed, h4) = >>=-eq-ok (index_hash s json t2 p.payment_hash n) _ h3 in
      subst (λ (r : ℕ × Tx). Added p t r.0 r.1) (ok-injective h4)
        (Added-from p t existing_id n buf t1 t2 t3 encoded chosen written hashed)

  -- The id was chosen, and only its choice moves the sequence.
  pub add_payment-chosen :
      (p : PaymentInfo) (t : Tx) (existing_id : ℕ) {id : ℕ} {u : Tx}
      → add_payment s json p t existing_id ≡ ok (id, u)
      → (v : Tx) × (choose_id s json t p.payment_hash existing_id ≡ ok (id, v))
        × ((c : Bucket) → sequence u c ≡ sequence v c)
  unfolding add_payment
  add_payment-chosen p t existing_id {id} {u} h =
      let (buf, encoded, h1) = >>=-eq-ok (encode p) _ h in
      let ((n, t1), chosen, h2) = >>=-eq-ok (choose_id s json t p.payment_hash existing_id) _ h1 in
      let (t2, written, h3) = >>=-eq-ok (put t1 payments (itob n) buf) _ h2 in
      let (t3, hashed, h4) = >>=-eq-ok (index_hash s json t2 p.payment_hash n) _ h3 in
      let done = ok-injective h4 in
      (
        t1,
        chosen ∙ ap (λ (r : ℕ × Tx). ok (r.0, t1)) done,
        λ c.
            ap (λ (r : ℕ × Tx). sequence r.1 c) (sym done)
            ∙ sequence-index_hash t2 p.payment_hash n hashed c
            ∙ s.sequence-put written c,
      )

  -- A payment written under a given id stays under it.
  pub add_payment-given :
      (p : PaymentInfo) (t : Tx) (existing_id : ℕ) {id : ℕ} {u : Tx}
      → add_payment s json p t existing_id ≡ ok (id, u)
      → existing_id ≢ 0
      → id ≡ existing_id
  unfolding add_payment choose_id
  add_payment-given p t existing_id {id} {u} h given =
      let nonzero : (existing_id == 0) ≡ false = ground (arith, given) in
      let (buf, encoded, h1) = >>=-eq-ok (encode p) _ h in
      let h2 = rw (nonzero, nonzero) at h1 in
      let (t2, written, h3) = >>=-eq-ok (put t payments (itob existing_id) buf) _ h2 in
      let (t3, hashed, h4) = >>=-eq-ok (index_hash s json t2 p.payment_hash existing_id) _ h3 in
      sym (ap (λ (r : ℕ × Tx). r.0) (ok-injective h4))

  -- The id stored under a key, as a relation.
  pub stored-cases :
      (o : Option Bytes) {n : ℕ}
      → stored_id s json o ≡ ok n
      → ((o ≡ none) × (n ≡ 0)) ⊎ ((b : Bytes) × (o ≡ some b) × (btoi b ≡ ok n))
  stored-cases none h = inl (refl, sym (ok-injective h))
  stored-cases (some b) h = inr (b, refl, h)

  raise-put :
      (t : Tx) (key : Bytes) (value last : ℕ) {u : Tx}
      → value < 2 ^ 64
      → stored_id s json (read t payments_sync_info key) ≡ ok last
      → (if ltb last value then put t payments_sync_info key (itob value) else ok t) ≡ ok u
      → stored_id s json (read u payments_sync_info key) ≡ ok (max last value)
  raise-put t key value last {u} small stored h = elim (Bool-cases (ltb last value)) [
    | inl e ↦ rw (s.read-put_self (rw e at h)) (btoi-itob value small ∙ ap ok (ground arith))
    | inr e ↦
        subst (λ (u : Tx). stored_id s json (read u payments_sync_info key) ≡ ok (max last value))
          (ok-injective (rw e at h)) (stored ∙ ap ok (ground arith))
  ]

  raise-frame :
      (t : Tx) (key : Bytes) (value last : ℕ) {u : Tx}
      → (if ltb last value then put t payments_sync_info key (itob value) else ok t) ≡ ok u
      → (c : Bucket) (j : Bytes) → (payments_sync_info ≢ c) ⊎ (key ≢ j)
      → read u c j ≡ read t c j
  raise-frame t key value last {u} h c j away = elim (Bool-cases (ltb last value)) [
    | inl e ↦ s.read-put_ne (rw e at h) c j away
    | inr e ↦ ap (λ (u : Tx). read u c j) (sym (ok-injective (rw e at h)))
  ]

  pub sequence-raise_sync_info :
      (t : Tx) (key : Bytes) (value : ℕ) {u : Tx}
      → raise_sync_info s json t key value ≡ ok u
      → ((c : Bucket) → sequence u c ≡ sequence t c)
        × ((c : Bucket) (j : Bytes) → payments_sync_info ≢ c → read u c j ≡ read t c j)
  unfolding raise_sync_info
  sequence-raise_sync_info t key value h =
      let (last, stored, rest) = >>=-eq-ok (stored_id s json (read t payments_sync_info key)) _ h in
      elim (Bool-cases (ltb last value)) [
        | inl e ↦
            let written = rw (e, raise_sync_info) at rest in
            (s.sequence-put written, λ c j ne. s.read-put_ne written c j (inl ne))
        | inr e ↦
            let same = sym (ok-injective (rw (e, raise_sync_info) at rest)) in
            (λ c. ap (λ (u : Tx). sequence u c) same, λ c j ne. ap (λ (u : Tx). read u c j) same)
      ]

  -- A successful raise keeps the larger of the two values, and touches no other entry.
  pub raise_sync_info-max :
      (t : Tx) (key : Bytes) (value : ℕ) {u : Tx}
      → value < 2 ^ 64
      → raise_sync_info s json t key value ≡ ok u
      → (last : ℕ) × (stored_id s json (read t payments_sync_info key) ≡ ok last)
        × (stored_id s json (read u payments_sync_info key) ≡ ok (max last value))
        × ((c : Bucket) (j : Bytes)
            → (payments_sync_info ≢ c) ⊎ (key ≢ j)
            → read u c j ≡ read t c j)
  unfolding raise_sync_info
  raise_sync_info-max t key value small h =
      let (last, stored, rest) = >>=-eq-ok (stored_id s json (read t payments_sync_info key)) _ h in
      (
        last,
        stored,
        raise-put t key value last small stored rest,
        raise-frame t key value last rest,
      )
