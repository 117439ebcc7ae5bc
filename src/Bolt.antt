-- ===== src/Bolt.antt =====
-- What the code uses of go.etcd.io/bbolt, and of the encoders of its records: both are libraries, so
-- they enter as interfaces with the laws that their documentation states.
pub mod Memory
pub mod Transactions
use breez.Common.{
  ℕ, ◌+◌, ◌≡◌, ◌≢◌, ◌⊎◌, Bool, true, Option, none, some, List, [], ◌∷◌, Bytes, bytes_eq,
  if◌then◌else◌, Result, ok, err,
}

-- The value under a key in the list that ForEach walks; a nested bucket is an entry with no value.
abbrev pub entry_value : Bytes → List (Bytes × Option Bytes) → Option Bytes
entry_value k [] = none
entry_value k ((j, v) ∷ rest) = if bytes_eq j k then v else entry_value k rest

-- The buckets `B` of a database, the contents `Tx` that a transaction sees, and the errors `E`.
pub record Bolt (B E : Type 0) : Type 1 where
  pub Tx : Type 0
  pub has_bucket : Tx → B → Bool
  pub create_bucket : Tx → B → Result E Tx
  pub read : Tx → B → Bytes → Option Bytes
  pub put : Tx → B → Bytes → Bytes → Result E Tx
  pub delete : Tx → B → Bytes → Result E Tx
  pub sequence : Tx → B → ℕ
  pub next_sequence : Tx → B → Result E (ℕ × Tx)
  pub entries : Tx → B → List (Bytes × Option Bytes)
  pub commit : Tx → Option E
  -- CreateBucketIfNotExists
  pub create-has_self : {t u : Tx} {b : B} → create_bucket t b ≡ ok u → has_bucket u b ≡ true
  pub create-has :
      {t u : Tx} {b : B}
      → create_bucket t b ≡ ok u
      → (c : B) → has_bucket t c ≡ true
      → has_bucket u c ≡ true
  pub create-read :
      {t u : Tx} {b : B} → create_bucket t b ≡ ok u → (c : B) (j : Bytes) → read u c j ≡ read t c j
  -- Put
  pub read-put_self : {t u : Tx} {b : B} {k v : Bytes} → put t b k v ≡ ok u → read u b k ≡ some v
  pub read-put_ne :
      {t u : Tx} {b : B} {k v : Bytes}
      → put t b k v ≡ ok u
      → (c : B) (j : Bytes) → (b ≢ c) ⊎ (k ≢ j)
      → read u c j ≡ read t c j
  pub sequence-put :
      {t u : Tx} {b : B} {k v : Bytes} → put t b k v ≡ ok u → (c : B) → sequence u c ≡ sequence t c
  pub has-put :
      {t u : Tx} {b : B} {k v : Bytes}
      → put t b k v ≡ ok u
      → (c : B) → has_bucket u c ≡ has_bucket t c
  -- Delete
  pub read-delete_self : {t u : Tx} {b : B} {k : Bytes} → delete t b k ≡ ok u → read u b k ≡ none
  pub read-delete_ne :
      {t u : Tx} {b : B} {k : Bytes}
      → delete t b k ≡ ok u
      → (c : B) (j : Bytes) → (b ≢ c) ⊎ (k ≢ j)
      → read u c j ≡ read t c j
  pub sequence-delete :
      {t u : Tx} {b : B} {k : Bytes} → delete t b k ≡ ok u → (c : B) → sequence u c ≡ sequence t c
  pub has-delete :
      {t u : Tx} {b : B} {k : Bytes}
      → delete t b k ≡ ok u
      → (c : B) → has_bucket u c ≡ has_bucket t c
  -- NextSequence
  pub next_sequence-value :
      {t u : Tx} {b : B} {n : ℕ} → next_sequence t b ≡ ok (n, u) → n ≡ sequence t b + 1
  pub sequence-next_self :
      {t u : Tx} {b : B} {n : ℕ} → next_sequence t b ≡ ok (n, u) → sequence u b ≡ n
  pub read-next :
      {t u : Tx} {b : B} {n : ℕ}
      → next_sequence t b ≡ ok (n, u)
      → (c : B) (j : Bytes) → read u c j ≡ read t c j
  -- ForEach and the cursor
  pub entries-read : (t : Tx) (b : B) (k : Bytes) → entry_value k (entries t b) ≡ read t b k

-- encoding/json and proto on one type of records. `Plain` is what the encoding keeps whole.
pub record Codec (E A : Type 0) : Type 1 where
  pub encode : A → Result E Bytes
  pub decode : Bytes → Result E A
  pub Plain : A → Type 0
  pub decode-encode : (a : A) {b : Bytes} → Plain a → encode a ≡ ok b → decode b ≡ ok a

module _ {B E : Type 0} (s : Bolt B E) where
  open s use {Tx, commit}

  abbrev committed {ℓ} : {A : Type ℓ} → Tx → A → Tx → Option E → Result E A × Tx
  committed t a u none = (ok a, u)
  committed t a u (some e) = (err e, t)

  abbrev finished {ℓ} : {A : Type ℓ} → Tx → Result E (A × Tx) → Result E A × Tx
  finished t (err e) = (err e, t)
  finished t (ok (a, u)) = committed t a u (commit u)

  -- db.Update: all of the closure's writes, or none of them if it or the commit fails. A value
  -- that the closure leaves in a captured variable is the result's.
  abbrev pub update {ℓ} : {A : Type ℓ} → Tx → (Tx → Result E (A × Tx)) → Result E A × Tx
  update t body = finished t (body t)
