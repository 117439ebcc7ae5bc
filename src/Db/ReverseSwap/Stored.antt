-- ===== src/Db/ReverseSwap/Stored.antt =====
-- db/reverseswap.go reads back what it wrote, and its three kinds of records stay apart.
use breez.Common.{
  ◌≡◌, ◌≢◌, refl, sym, ap, ◌∙◌, inl, inr, none, some, Option, Bytes, length, Result, ok, bytes_ne,
  arith, Result-cases,
}
use breez.Bolt.{Bolt, Codec}
use breez.Db.Basics.{Bucket, reverse_swap, Error, fetch_item}
use breez.Db.Basics.Items.{AllOrNothing, AllOrNothing-map, items-AllOrNothing, encoded-AllOrNothing}
use breez.Db.ReverseSwap.{
  unconfirmed_claim_transaction_key, unspend_lockup_transaction_key, Hashing, save_at, fetch_at,
  save_unconfirmed_claim_transaction, fetch_unconfirmed_claim_transaction,
  save_unspend_lockup_information, fetch_unspend_lockup_information, save_reverse_swap,
  fetch_reverse_swap,
}

module _ (s : Bolt Bucket Error) where
  open s use {Tx}

  module _ {A : Type 0} (proto : Codec Error A) where
    fetch_at-eq :
        (key : Bytes) (t u : Tx)
        → fetch_item s u reverse_swap key ≡ fetch_item s t reverse_swap key
        → fetch_at s proto key u ≡ fetch_at s proto key t
    unfolding fetch_at
    fetch_at-eq key t u h = rw (h, fetch_at) refl

    fetch_at-none :
        (key : Bytes) (u : Tx)
        → fetch_item s u reverse_swap key ≡ none
        → fetch_at s proto key u ≡ ok none
    unfolding fetch_at
    fetch_at-none key u h = rw (h, fetch_at) refl

    fetch_at-some :
        (key : Bytes) (u : Tx) (a : A) {v : Bytes}
        → proto.Plain a
        → proto.encode a ≡ ok v
        → fetch_item s u reverse_swap key ≡ some v
        → fetch_at s proto key u ≡ ok (some a)
    unfolding fetch_at
    fetch_at-some key u a plain encoded h =
        rw (h, proto.decode-encode a plain encoded, fetch_at) refl

  -- A saved record is read back, nil deletes it, and other keys do not change.
  save_at-AllOrNothing :
      {A : Type 0} (proto : Codec Error A) (key : Bytes) (t : Tx) (a : Option A)
      → ((x : A) → a ≡ some x → proto.Plain x)
      → AllOrNothing s t (save_at s proto key t a) (λ _ u.
        (fetch_at s proto key u ≡ ok a)
        × ((j : Bytes) → key ≢ j → fetch_item s u reverse_swap j ≡ fetch_item s t reverse_swap j))
  unfolding save_at
  save_at-AllOrNothing proto key t none plain =
      AllOrNothing-map s _ _ (items-AllOrNothing s t reverse_swap key key).1
        (λ a u h. (fetch_at-none proto key u h.0, λ j ne. h.1 reverse_swap j (inr ne)))
  save_at-AllOrNothing proto key t (some x) plain =
      AllOrNothing-map s _ _ (encoded-AllOrNothing s t reverse_swap key (proto.encode x)) (λ a u h.
        (
          fetch_at-some proto key u x (plain x refl) h.1 h.2.0,
          λ j ne. h.2.1 reverse_swap j (inr ne),
        ))

  module _ {A C L : Type 0} (proto : Codec Error A) (claims : Codec Error C)
      (lockups : Codec Error L) (preimage : A → Bytes) (hashing : Hashing) where
    open hashing use {sum256, encode_to_string, decode_string}

    abbrev swap_at : Tx → Bytes → Result Error (Option A)
    swap_at u p = fetch_reverse_swap s proto preimage hashing u (encode_to_string (sum256 p))

    swap_at-eq : (u : Tx) (p : Bytes) → swap_at u p ≡ fetch_at s proto (sum256 p) u
    unfolding fetch_reverse_swap
    swap_at-eq u p = rw (hashing.decode-encode_sum p, fetch_reverse_swap) refl

    -- A hash is no key of the open transactions, since it is longer.
    sum-apart : (key p : Bytes) → length key ≢ 32 → sum256 p ≢ key
    sum-apart key p ne e = ne (sym (ap length e) ∙ hashing.length-sum256 p)

    -- Saving a reverse swap whose preimage is hexadecimal fails and changes nothing, or the returned
    -- hash reads it back, and the open claim and lockup are as before.
    pub save_reverse_swap-fetch :
        (t : Tx) (rs : A) (p : Bytes)
        → decode_string (preimage rs) ≡ ok p
        → proto.Plain rs
        → let (hash, r) = save_reverse_swap s proto preimage hashing t rs in
          AllOrNothing s t r (λ _ u.
            (fetch_reverse_swap s proto preimage hashing u hash ≡ ok (some rs))
            × (fetch_unconfirmed_claim_transaction s claims u
                ≡ fetch_unconfirmed_claim_transaction s claims t)
            × (fetch_unspend_lockup_information s lockups u
                ≡ fetch_unspend_lockup_information s lockups t))
    unfolding save_reverse_swap fetch_unconfirmed_claim_transaction fetch_unspend_lockup_information
    save_reverse_swap-fetch t rs p hex plain = elim (Result-cases (proto.encode rs)) [
      | inr (e, bad) ↦ rw (hex, bad, save_reverse_swap) (inl (e, refl))
      | inl (bytes, encoded) ↦
          rw (hex, encoded, save_reverse_swap)
            (AllOrNothing-map s _ _ (items-AllOrNothing s t reverse_swap (sum256 p) bytes).0
              (λ a u h. (
                swap_at-eq u p ∙ fetch_at-some proto (sum256 p) u rs plain encoded h.0,
                fetch_at-eq claims unconfirmed_claim_transaction_key t u (
                    h.1 reverse_swap unconfirmed_claim_transaction_key
                      (inr (sum-apart _ p (omega arith)))),
                fetch_at-eq lockups unspend_lockup_transaction_key t u (
                    h.1 reverse_swap unspend_lockup_transaction_key
                      (inr (sum-apart _ p (omega arith)))),
              )))
    ]

    -- Saving the unconfirmed claim, or nil for none, fails and changes nothing, or it is read back,
    -- and the lockup information and the reverse swap of any preimage are as before; and the same
    -- with the claim and the lockup information exchanged.
    pub open_transactions-apart :
        (t : Tx) (claim : Option C) (lockup : Option L)
        → ((x : C) → claim ≡ some x → claims.Plain x)
        → ((x : L) → lockup ≡ some x → lockups.Plain x)
        → AllOrNothing s t (save_unconfirmed_claim_transaction s claims t claim) (λ _ u.
          (fetch_unconfirmed_claim_transaction s claims u ≡ ok claim)
          × (fetch_unspend_lockup_information s lockups u
              ≡ fetch_unspend_lockup_information s lockups t)
          × ((p : Bytes) → swap_at u p ≡ swap_at t p))
          × AllOrNothing s t (save_unspend_lockup_information s lockups t lockup) (λ _ u.
            (fetch_unspend_lockup_information s lockups u ≡ ok lockup)
            × (fetch_unconfirmed_claim_transaction s claims u
                ≡ fetch_unconfirmed_claim_transaction s claims t)
            × ((p : Bytes) → swap_at u p ≡ swap_at t p))
    unfolding save_unconfirmed_claim_transaction save_unspend_lockup_information
        fetch_unconfirmed_claim_transaction fetch_unspend_lockup_information
    open_transactions-apart t claim lockup plain plain' =
        let swap =
          λ (key : Bytes) (u : Tx) (p : Bytes) (ne : length key ≢ 32)
              (same : (j : Bytes)
                → key ≢ j
                → fetch_item s u reverse_swap j ≡ fetch_item s t reverse_swap j).
            swap_at-eq u p
            ∙ fetch_at-eq proto (sum256 p) t u (same (sum256 p) (λ e. sum-apart key p ne (sym e)))
            ∙ sym (swap_at-eq t p) in
        (
          AllOrNothing-map s _ _
              (save_at-AllOrNothing claims unconfirmed_claim_transaction_key t claim plain)
              (λ a u h. (
                h.0,
                fetch_at-eq lockups unspend_lockup_transaction_key t u (
                    h.1 _ (
                      bytes_ne unconfirmed_claim_transaction_key unspend_lockup_transaction_key
                        refl)),
                λ p. swap unconfirmed_claim_transaction_key u p (omega arith) h.1,
              )),
          AllOrNothing-map s _ _
              (save_at-AllOrNothing lockups unspend_lockup_transaction_key t lockup plain')
              (λ a u h. (
                h.0,
                fetch_at-eq claims unconfirmed_claim_transaction_key t u (
                    h.1 _ (
                      bytes_ne unspend_lockup_transaction_key unconfirmed_claim_transaction_key
                        refl)),
                λ p. swap unspend_lockup_transaction_key u p (omega arith) h.1,
              )),
        )
