-- ===== src/Bolt/Transactions.antt =====
-- What the answer of a transaction tells.
use breez.Common.{
  ◌≡◌, ◌⊎◌, inl, inr, refl, ap, ◌∙◌, Result, ok, err, ◌>>=◌, Result-cases, Option-cases,
  ok-injective,
}
use breez.Bolt.{Bolt, update}

-- Inversion of a successful step.
pub >>=-eq-ok {ℓ κ} :
    {E : Type 0} {First : Type ℓ} {Answer : Type κ} (call : Result E First)
    (next : First → Result E Answer) {answer : Answer}
    → (call >>= next) ≡ ok answer
    → (value : First) × (call ≡ ok value) × (next value ≡ ok answer)
>>=-eq-ok (err failure) next succeeded = cc
>>=-eq-ok (ok value) next succeeded = (value, refl, succeeded)

module _ {Buckets E : Type 0} (s : Bolt Buckets E) where
  open s use {Tx, commit}

  -- A transaction either fails and changes nothing, or its closure succeeded and all of its writes
  -- are there.
  pub update_cases {ℓ} :
      {A : Type ℓ} (t : Tx) (body : Tx → Result E (A × Tx))
      → ((e : E) × (update s t body ≡ (err e, t)))
        ⊎ ((a : A) × (u : Tx) × (body t ≡ ok (a, u)) × (update s t body ≡ (ok a, u)))
  update_cases t body = elim (Result-cases (body t)) [
    | inr (e, p) ↦ inl (e, rw p refl)
    | inl ((a, u), p) ↦ elim (Option-cases (commit u)) [
      | inl q ↦ inr (a, u, p, rw (p, q) refl)
      | inr (e, q) ↦ inl (e, rw (p, q) refl)
    ]
  ]

  -- An answer `r` from the state `t`: it failed and changed nothing, or it is a value and a new
  -- state that `P` relates.
  abbrev pub AllOrNothing {ℓ κ} :
      {A : Type ℓ} → Tx → Result E A × Tx → (A → Tx → Type κ) → Type (ℓ ⊔ κ)
  AllOrNothing {A = A} t r P =
      ((e : E) × (r ≡ (err e, t))) ⊎ ((a : A) × (u : Tx) × (r ≡ (ok a, u)) × P a u)

  pub update-AllOrNothing {ℓ κ} :
      {A : Type ℓ} (t : Tx) (body : Tx → Result E (A × Tx)) (P : A → Tx → Type κ)
      → ((a : A) (u : Tx) → body t ≡ ok (a, u) → P a u)
      → AllOrNothing t (update s t body) P
  update-AllOrNothing t body P h = elim (update_cases {ℓ} t body) [
    | inl failed ↦ inl failed
    | inr (a, u, succeeds, done) ↦ inr (a, u, done, h a u succeeds)
  ]

  -- An answer that carries nothing, of a closure that ends in one write.
  pub last_write :
      (m : Result E Tx) {a : Unit {0}} {u : Tx}
      → ◌>>=◌ {B = Unit {0} × Tx} m (λ u. ok (tt, u)) ≡ ok (a, u)
      → m ≡ ok u
  last_write m h =
      let (w, written, e) = >>=-eq-ok m (λ u. ok (tt, u)) h in
      written ∙ ap ok (ap (λ (p : Unit {0} × Tx). p.1) (ok-injective e))

  pub AllOrNothing-map {ℓ κ μ} :
      {A : Type ℓ} {t : Tx} {r : Result E A × Tx} (P : A → Tx → Type κ) (Q : A → Tx → Type μ)
      → AllOrNothing t r P
      → ((a : A) (u : Tx) → P a u → Q a u)
      → AllOrNothing t r Q
  AllOrNothing-map P Q (inl failed) f = inl failed
  AllOrNothing-map P Q (inr (a, u, done, p)) f = inr (a, u, done, f a u p)
