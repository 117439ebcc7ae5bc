-- ===== src/SyncJob/Heights.antt =====
-- What a setter of sync/db.go does to the numbers of the store.
use breez.Common.{ℕ, ◌^◌, ◌<◌, ◌≡◌, ◌≢◌, ◌⊎◌, inl, inr, refl, ◌∙◌, true, some, Bytes, ok, err}
use breez.Bolt.{Bolt}
use breez.Bolt.Transactions.{>>=-eq-ok, AllOrNothing, update-AllOrNothing, last_write}
use breez.Db.Basics.{Error, itob}
use breez.Db.Basics.Keys.{btoi-itob}
use breez.SyncJob.Store.{Bucket, sync_info, set_number_body, set_number, fetch_number}

module _ (s : Bolt Bucket Error) where
  open s use {Tx, has_bucket, create_bucket, read, put}

  -- The number under `key` reads as `number`, and nothing is written under another key.
  pub IsWritten : Bytes → ℕ → Tx → Tx → Type 0
  IsWritten key number t u =
      (fetch_number s key u ≡ ok number)
      × ((other : Bytes) → key ≢ other → read u sync_info other ≡ read t sync_info other)

  body-IsWritten :
      (key : Bytes) (number : ℕ) (t u : Tx)
      → number < 2 ^ 64
      → set_number_body s key number t ≡ ok (tt, u)
      → IsWritten key number t u
  unfolding IsWritten set_number_body fetch_number
  body-IsWritten key number t u small h =
      let (t1, created, rest) = >>=-eq-ok (create_bucket t sync_info) _ h in
      let written = last_write s (put t1 sync_info key (itob number)) rest in
      let there : has_bucket u sync_info ≡ true =
        s.has-put written sync_info ∙ s.create-has_self created in
      let value : read u sync_info key ≡ some (itob number) = s.read-put_self written in
      (
        rw (there, value, fetch_number) (btoi-itob number small),
        λ other ne.
            s.read-put_ne written sync_info other (inr ne) ∙ s.create-read created sync_info other,
      )

  -- Setting a number fails and changes nothing, or the number reads as set and no other key changed.
  pub set_number-AllOrNothing :
      (key : Bytes) (number : ℕ) (t : Tx)
      → number < 2 ^ 64
      → AllOrNothing s t (set_number s key t number) (λ _ u. IsWritten key number t u)
  unfolding set_number
  set_number-AllOrNothing key number t small =
      update-AllOrNothing {0, 0} s t (set_number_body s key number)
        (λ _ u. IsWritten key number t u) (λ a u h. body-IsWritten key number t u small h)

  -- What a reader of the number sees afterwards.
  pub set_number-cases :
      (key : Bytes) (number : ℕ) (t : Tx)
      → number < 2 ^ 64
      → let (answer, u) = set_number s key t number in
        ((e : Error) × (answer ≡ err e) × (u ≡ t))
        ⊎ ((answer ≡ ok tt) × (fetch_number s key u ≡ ok number))
  unfolding IsWritten
  set_number-cases key number t small = elim (set_number-AllOrNothing key number t small) [
    | inl (e, failed) ↦ rw failed (inl (e, refl, refl))
    | inr (a, u, done, set) ↦ rw done (inr (refl, set.0))
  ]
