-- ===== src/SwapFunds/Unspent.antt =====
-- What updateUnspentAmount of swapfunds/addfunds.go does to the record of an address.
use breez.Common.{
  ℕ, ◌+◌, ◌%◌, ◌^◌, ◌≤◌, ◌≡◌, ◌⊎◌, inl, inr, refl, sym, subst, ◌∙◌, Bool, true, false, ◌||◌, List,
  [], ◌∷◌, ◌++◌, Bytes, bytes_eq, bytes_eq→eq, bytes_eq_refl, ltb, Bool-cases, ok, ok-injective,
  All, arith,
}
use mathlib.Core.List.{append-nil, append_assoc}
use breez.Bolt.{Bolt}
use breez.Db.Funds.{SwapAddressInfo}
use breez.SwapFunds.{Utxo, UnspentAmount, raise_lock_height, has_txid, add_txids, with_unspent}

-- The height at which an output of the address can be refunded.
abbrev pub unlocks_at : ℕ → Utxo → ℕ
unlocks_at lock u = (u.block_height + lock) % 2 ^ 32

raise_lock_height-le :
    (lock current : ℕ) (utxos : List Utxo) (h : ℕ)
    → raise_lock_height lock current utxos ≤ h
    → (current ≤ h) × All (λ u. unlocks_at lock u ≤ h) utxos
unfolding raise_lock_height
raise_lock_height-le lock current [] h le = (le, tt)
raise_lock_height-le lock current (u ∷ utxos) h le =
    elim (Bool-cases (ltb current (unlocks_at lock u))) [
      | inl higher ↦
          let (above, all) =
            raise_lock_height-le lock (unlocks_at lock u) utxos h
              (rw (higher, raise_lock_height) at le) in
          (ground (arith, higher, above), (above, all))
      | inr lower ↦
          let (above, all) =
            raise_lock_height-le lock current utxos h (rw (lower, raise_lock_height) at le) in
          (above, (ground (arith, lower, above), all))
    ]

-- The greatest: the old one or that of an output.
abbrev pub IsOneOf : ℕ → ℕ → List Utxo → ℕ → Type 0
IsOneOf lock current [] h = h ≡ current
IsOneOf lock current (u ∷ utxos) h = (h ≡ unlocks_at lock u) ⊎ IsOneOf lock current utxos h

IsOneOf-either :
    (lock a b : ℕ) (utxos : List Utxo) (h : ℕ)
    → IsOneOf lock a utxos h
    → IsOneOf lock b utxos h ⊎ (h ≡ a)
IsOneOf-either lock a b [] h e = inr e
IsOneOf-either lock a b (u ∷ utxos) h (inl e) = inl (inl e)
IsOneOf-either lock a b (u ∷ utxos) h (inr p) = elim (IsOneOf-either lock a b utxos h p) [
  | inl q ↦ inl (inr q)
  | inr e ↦ inr e
]

raise_lock_height-IsOneOf :
    (lock current : ℕ) (utxos : List Utxo)
    → IsOneOf lock current utxos (raise_lock_height lock current utxos)
unfolding raise_lock_height
raise_lock_height-IsOneOf lock current [] = refl
raise_lock_height-IsOneOf lock current (u ∷ utxos) =
    elim (Bool-cases (ltb current (unlocks_at lock u))) [
      | inl higher ↦
          rw (higher, raise_lock_height)
            (elim (IsOneOf-either lock (unlocks_at lock u) current utxos _
              (raise_lock_height-IsOneOf lock (unlocks_at lock u) utxos)) [
                | inl q ↦ inr q
                | inr e ↦ inl e
              ])
      | inr lower ↦
          rw (lower, raise_lock_height) (inr (raise_lock_height-IsOneOf lock current utxos))
    ]

-- Each id once.
abbrev pub IsDistinct : List Bytes → Type 0
IsDistinct [] = Unit {0}
IsDistinct (id ∷ ids) = (has_txid id ids ≡ false) × IsDistinct ids

has_txid-append :
    (txid : Bytes) (xs ys : List Bytes)
    → has_txid txid (xs ++ ys) ≡ (has_txid txid xs || has_txid txid ys)
unfolding has_txid
has_txid-append txid [] ys = refl
has_txid-append txid (x ∷ xs) ys = ground (arith, has_txid-append txid xs ys)

different :
    (id txid : Bytes) (ids : List Bytes)
    → has_txid txid (id ∷ ids) ≡ false
    → bytes_eq txid id ≡ false
unfolding has_txid
different id txid ids new = elim (Bool-cases (bytes_eq txid id)) [
  | inr other ↦ other
  | inl same ↦
      let e : txid ≡ id = bytes_eq→eq txid id same in
      let refuted : (bytes_eq txid txid || has_txid txid ids) ≡ false =
        subst (λ x. (bytes_eq x txid || has_txid txid ids) ≡ false) (sym e) new in
      absurd (ground (arith, refuted, bytes_eq_refl txid))
]

IsDistinct-snoc :
    (ids : List Bytes) (txid : Bytes)
    → IsDistinct ids
    → has_txid txid ids ≡ false
    → IsDistinct (ids ++ (txid ∷ []))
unfolding has_txid
IsDistinct-snoc [] txid distinct new = (refl, tt)
IsDistinct-snoc (id ∷ ids) txid distinct new = (
  has_txid-append id ids (txid ∷ []) ∙ ground (arith, distinct.0, different id txid ids new),
  IsDistinct-snoc ids txid distinct.1 (ground (arith, new)),
)

-- The ids after an update: the old ones first, each once if they were, and one is there if and only if it
-- was or an output has it.
abbrev pub has_output : Bytes → List Utxo → Bool
has_output txid [] = false
has_output txid (u ∷ utxos) = bytes_eq u.txid txid || has_output txid utxos

add_txids-Distinct :
    (ids : List Bytes) (utxos : List Utxo) → IsDistinct ids → IsDistinct (add_txids ids utxos)
unfolding add_txids
add_txids-Distinct ids [] distinct = distinct
add_txids-Distinct ids (u ∷ utxos) distinct = elim (Bool-cases (has_txid u.txid ids)) [
  | inl old ↦ rw (old, add_txids) (add_txids-Distinct ids utxos distinct)
  | inr new ↦
      rw (new, add_txids)
        (add_txids-Distinct (ids ++ (u.txid ∷ [])) utxos (IsDistinct-snoc ids u.txid distinct new))
]

has_txid-add_txids :
    (ids : List Bytes) (utxos : List Utxo) (txid : Bytes)
    → has_txid txid (add_txids ids utxos) ≡ (has_txid txid ids || has_output txid utxos)
unfolding add_txids has_txid
has_txid-add_txids ids [] txid = ground arith
has_txid-add_txids ids (u ∷ utxos) txid = elim (Bool-cases (has_txid u.txid ids)) [
  | inl old ↦
      rw (old, add_txids)
        (has_txid-add_txids ids utxos txid ∙ elim (Bool-cases (bytes_eq u.txid txid)) [
          | inr other ↦ rw other refl
          | inl same ↦
              let there : has_txid txid ids ≡ true =
                subst (λ x. has_txid x ids ≡ true) (bytes_eq→eq u.txid txid same) old in
              rw (there) refl
        ])
  | inr new ↦
      rw (new, add_txids)
        (has_txid-add_txids (ids ++ (u.txid ∷ [])) utxos txid
          ∙ rw (has_txid-append txid ids (u.txid ∷ []), has_txid) (ground arith))
]

abbrev pub IsPrefix : List Bytes → List Bytes → Type 0
IsPrefix xs zs = (ys : List Bytes) × (zs ≡ xs ++ ys)

add_txids-Prefix : (ids : List Bytes) (utxos : List Utxo) → IsPrefix ids (add_txids ids utxos)
unfolding add_txids
add_txids-Prefix ids [] = ([], sym (append-nil ids))
add_txids-Prefix ids (u ∷ utxos) = elim (Bool-cases (has_txid u.txid ids)) [
  | inl old ↦ rw (old, add_txids) (add_txids-Prefix ids utxos)
  | inr new ↦
      let (ys, e) = add_txids-Prefix (ids ++ (u.txid ∷ [])) utxos in
      rw (new, add_txids) (u.txid ∷ ys, e ∙ append_assoc ids (u.txid ∷ []) ys)
]

abbrev noted : UnspentAmount → SwapAddressInfo → SwapAddressInfo
noted r info = record info {
  confirmed_amount = r.amount;
  lock_height = raise_lock_height r.lock_height info.lock_height r.utxos;
  confirmed_transaction_ids = add_txids info.confirmed_transaction_ids r.utxos;
}

-- What an answer of the client makes of a record.
pub IsNoted : UnspentAmount → SwapAddressInfo → SwapAddressInfo → Type 0
IsNoted r info new =
    let ids = info.confirmed_transaction_ids in
    let new_ids = new.confirmed_transaction_ids in
    (new.confirmed_amount ≡ r.amount)
    × IsPrefix ids new_ids
    × (IsDistinct ids → IsDistinct new_ids)
    × ((txid : Bytes) → has_txid txid new_ids ≡ (has_txid txid ids || has_output txid r.utxos))
    × (info.lock_height ≤ new.lock_height)
    × All (λ u. unlocks_at r.lock_height u ≤ new.lock_height) r.utxos
    × IsOneOf r.lock_height info.lock_height r.utxos new.lock_height

pub with_unspent-IsNoted :
    (r : UnspentAmount) (info new : SwapAddressInfo)
    → with_unspent (ok r) info ≡ ok new
    → IsNoted r info new
unfolding IsNoted with_unspent
with_unspent-IsNoted r info new h =
    let same : noted r info ≡ new = ok-injective h in
    let h = raise_lock_height r.lock_height info.lock_height r.utxos in
    let bound = raise_lock_height-le r.lock_height info.lock_height r.utxos h (omega arith) in
    rw (← same) (
      refl,
      add_txids-Prefix info.confirmed_transaction_ids r.utxos,
      add_txids-Distinct info.confirmed_transaction_ids r.utxos,
      has_txid-add_txids info.confirmed_transaction_ids r.utxos,
      bound.0,
      bound.1,
      raise_lock_height-IsOneOf r.lock_height info.lock_height r.utxos,
    )
