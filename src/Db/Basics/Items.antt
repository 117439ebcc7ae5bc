-- ===== src/Db/Basics/Items.antt =====
-- What a transaction does to one item: all or nothing, and nothing else.
use breez.Common.{
  ◌≡◌, ◌≢◌, ◌⊎◌, inl, inr, refl, sym, ap, ◌∙◌, Option, none, some, Bytes, Result, ok, err, ◌>>=◌,
}
use breez.Bolt.{Bolt}
pub use breez.Bolt.Transactions.{
  >>=-eq-ok, update_cases, AllOrNothing, update-AllOrNothing, AllOrNothing-map, last_write,
}
use breez.Db.Basics.{Bucket, Error, save_item, delete_item, fetch_item}

module _ (s : Bolt Bucket Error) where
  open s use {Tx, read, put, delete, commit}

  -- A view is a read.
  pub fetch_item-read : (t : Tx) (b : Bucket) (k : Bytes) → fetch_item s t b k ≡ read t b k
  unfolding fetch_item
  fetch_item-read t b k = refl

  -- What a reader sees in `u` of `t` with the item `k` of `b` set to `v`, or deleted.
  abbrev pub Holds : Tx → Bucket → Bytes → Option Bytes → Tx → Type 0
  Holds t b k v u =
      (fetch_item s u b k ≡ v)
      × ((c : Bucket) (j : Bytes) → (b ≢ c) ⊎ (k ≢ j) → fetch_item s u c j ≡ fetch_item s t c j)

  pub put-Holds :
      (t u : Tx) (b : Bucket) (k v : Bytes) → put t b k v ≡ ok u → Holds t b k (some v) u
  unfolding fetch_item
  put-Holds t u b k v h = (s.read-put_self h, s.read-put_ne h)

  pub delete-Holds : (t u : Tx) (b : Bucket) (k : Bytes) → delete t b k ≡ ok u → Holds t b k none u
  unfolding fetch_item
  delete-Holds t u b k h = (s.read-delete_self h, s.read-delete_ne h)

  -- Saving an item fails and changes nothing, or the item reads as saved and every other item as
  -- before; and deleting one fails and changes nothing, or it is gone and the others are as before.
  pub items-AllOrNothing :
      (t : Tx) (b : Bucket) (k v : Bytes)
      → AllOrNothing s t (save_item s t b k v) (λ _ u. Holds t b k (some v) u)
        × AllOrNothing s t (delete_item s t b k) (λ _ u. Holds t b k none u)
  unfolding save_item delete_item
  items-AllOrNothing t b k v = (
    update-AllOrNothing {0, 0} s t (λ t. put t b k v >>= λ u. ok (tt, u))
        (λ _ u. Holds t b k (some v) u)
        (λ a u h. put-Holds t u b k v (last_write s (put t b k v) h)),
    update-AllOrNothing {0, 0} s t (λ t. delete t b k >>= λ u. ok (tt, u))
        (λ _ u. Holds t b k none u) (λ a u h. delete-Holds t u b k (last_write s (delete t b k) h)),
  )

  -- A value is encoded, and then saved as one item.
  pub encoded-AllOrNothing :
      (t : Tx) (b : Bucket) (k : Bytes) (encoded : Result Error Bytes)
      → AllOrNothing s {A = Unit {0}} t
          (elim encoded [ err e ↦ (err e, t) | ok v ↦ save_item s t b k v ])
          (λ _ u. (v : Bytes) × (encoded ≡ ok v) × Holds t b k (some v) u)
  encoded-AllOrNothing t b k (err e) = inl (e, refl)
  encoded-AllOrNothing t b k (ok v) =
      AllOrNothing-map s (λ _ u. Holds t b k (some v) u) _ (items-AllOrNothing t b k v).0
        (λ a u h. (v, refl, h))

  -- A successful deletion, with the buckets.
  pub deleted :
      (t u : Tx) (b : Bucket) (k : Bytes)
      → delete_item s t b k ≡ (ok tt, u)
      → Holds t b k none u × ((c : Bucket) → s.has_bucket u c ≡ s.has_bucket t c)
  unfolding delete_item
  deleted t u b k h = elim (update_cases {0} s t (λ t. delete t b k >>= λ u. ok (tt, u))) [
    | inl (e, failed) ↦ cc (ap (λ (r : Result Error (Unit {0}) × Tx). r.0) (sym h ∙ failed))
    | inr (a, v, body, done) ↦
        let same : v ≡ u = ap (λ (r : Result Error (Unit {0}) × Tx). r.1) (sym done ∙ h) in
        let gone : delete t b k ≡ ok u = last_write s (delete t b k) body ∙ ap ok same in
        (delete-Holds t u b k gone, s.has-delete gone)
  ]
