-- ===== src/Db/Funds/Swaps.antt =====
-- A swap address of db/funds.go is found by its payment hash and updated in its place.
use breez.Common.{
  ◌≡◌, ◌≢◌, ◌⊎◌, inl, refl, sym, ap, ◌∙◌, subst, Bool, true, some, Bytes, Result, ok, err,
  ok-injective,
}
use breez.Bolt.{Bolt, Codec, update}
use breez.Db.Basics.{Bucket, addresses, swap_addresses_by_hash, Error}
use breez.Db.Basics.Items.{>>=-eq-ok, AllOrNothing, update-AllOrNothing, fetch_item-read}
use breez.Db.Funds.{
  SwapAddressInfo, save_swap_address_info_body, save_swap_address_info, update_swap_address_body,
  update_swap_address, update_swap_address_by_payment_hash,
}

module _ (s : Bolt Bucket Error) (json : Codec Error SwapAddressInfo) where
  open s use {Tx, read, put}
  open json use {encode, decode, Plain}

  -- A saved address: its record, and the index from its hash.
  pub record IsSaved (info : SwapAddressInfo) (u : Tx) : Type 0 where
    pub bytes : Bytes
    pub decoded : decode bytes ≡ ok info
    pub stored : read u addresses info.address ≡ some bytes
    pub indexed : read u swap_addresses_by_hash info.payment_hash ≡ some info.address

  save_body-IsSaved :
      (info : SwapAddressInfo) (t u : Tx) (a : Unit {0})
      → Plain info
      → save_swap_address_info_body s json info t ≡ ok (a, u)
      → IsSaved info u
  unfolding save_swap_address_info_body
  save_body-IsSaved info t u a plain h =
      let (bytes, encoded, h1) = >>=-eq-ok (encode info) _ h in
      let (t1, hashed, h2) =
        >>=-eq-ok (put t swap_addresses_by_hash info.payment_hash info.address) _ h1 in
      let (t2, written, h3) = >>=-eq-ok (put t1 addresses info.address bytes) _ h2 in
      subst (IsSaved info) (ap (λ (p : Unit {0} × Tx). p.1) (ok-injective h3)) (record {
        bytes = bytes;
        decoded = json.decode-encode info plain encoded;
        stored = s.read-put_self written;
        indexed =
            s.read-put_ne written swap_addresses_by_hash info.payment_hash (inl (λ e. cc))
            ∙ s.read-put_self hashed;
      })

  -- What an update leaves: the new record under the same address, and all else as before.
  abbrev pub Updated : SwapAddressInfo → Tx → Tx → Type 0
  Updated info t u =
      IsSaved info u
      × ((c : Bucket) (j : Bytes) → (addresses ≢ c) ⊎ (info.address ≢ j) → read u c j ≡ read t c j)

  update_body-Updated :
      (info new : SwapAddressInfo) (f : SwapAddressInfo → Result Error SwapAddressInfo) (t u : Tx)
      (a : Unit {0})
      → IsSaved info t
      → f info ≡ ok new
      → Plain new
      → new.address ≡ info.address
      → new.payment_hash ≡ info.payment_hash
      → update_swap_address_body s json info.address f t ≡ ok (a, u)
      → Updated new t u
  unfolding update_swap_address_body
  update_body-Updated info new f t u a saved changed plain same_address same_hash h =
      let (bytes, encoded, h1) =
        >>=-eq-ok (encode new) _
          (rw (saved.stored, saved.decoded, changed, update_swap_address_body) at h) in
      let (v, written, h2) = >>=-eq-ok (put t addresses new.address bytes) _ h1 in
      subst (Updated new t) (ap (λ (p : Unit {0} × Tx). p.1) (ok-injective h2)) (
        record {
          bytes = bytes;
          decoded = json.decode-encode new plain encoded;
          stored = s.read-put_self written;
          indexed =
              s.read-put_ne written swap_addresses_by_hash new.payment_hash (inl (λ e. cc))
              ∙ ap (read t swap_addresses_by_hash) same_hash
              ∙ saved.indexed
              ∙ ap some (sym same_address);
        },
        s.read-put_ne written,
      )

  -- Saving an address fails and changes nothing, or the address is saved.
  pub save_swap_address_info-AllOrNothing :
      (t : Tx) (info : SwapAddressInfo)
      → Plain info
      → AllOrNothing s t (save_swap_address_info s json t info) (λ _ u. IsSaved info u)
  unfolding save_swap_address_info
  save_swap_address_info-AllOrNothing t info plain =
      update-AllOrNothing {0, 0} s t (save_swap_address_info_body s json info)
        (λ _ u. IsSaved info u) (λ a u h. save_body-IsSaved info t u a plain h)

  update_by_hash-eq :
      (t : Tx) (info : SwapAddressInfo) (f : SwapAddressInfo → Result Error SwapAddressInfo)
      → IsSaved info t
      → update_swap_address_by_payment_hash s json t info.payment_hash f
        ≡ (true, update s t (update_swap_address_body s json info.address f))
  unfolding update_swap_address_by_payment_hash update_swap_address
  update_by_hash-eq t info f saved =
      rw
        (
          fetch_item-read s t swap_addresses_by_hash info.payment_hash,
          saved.indexed,
          update_swap_address_by_payment_hash,
          saved.stored,
        )
        refl

  -- What `f` makes of a saved record: whether it was found, the answer and the new contents.
  abbrev pub UpdatesTo :
      Tx
      → SwapAddressInfo
      → (SwapAddressInfo → Result Error SwapAddressInfo)
      → Bool × (Result Error (Unit {0}) × Tx)
      → Type 0
  UpdatesTo t info f x =
      (x.0 ≡ true)
      × ((new : SwapAddressInfo)
          → f info ≡ ok new
          → Plain new
          → new.address ≡ info.address
          → new.payment_hash ≡ info.payment_hash
          → AllOrNothing s t x.1 (λ _ u. Updated new t u))
      × ((e : Error) → f info ≡ err e → x.1 ≡ (err e, t))

  update_body-UpdatesTo :
      (t : Tx) (info : SwapAddressInfo) (f : SwapAddressInfo → Result Error SwapAddressInfo)
      → IsSaved info t
      → UpdatesTo t info f (true, update s t (update_swap_address_body s json info.address f))
  unfolding update_swap_address_body
  update_body-UpdatesTo t info f saved = (
    refl,
    λ new changed plain same_address same_hash.
        update-AllOrNothing {0, 0} s t (update_swap_address_body s json info.address f)
          (λ _ u. Updated new t u)
          (λ a u h.
            update_body-Updated info new f t u a saved changed plain same_address same_hash h),
    λ e failed. rw (saved.stored, update_swap_address_body, saved.decoded, failed) refl,
  )

  -- A saved address is found by its payment hash: if the update function changes it and keeps its
  -- address and hash, the call fails and changes nothing, or exactly this record changes; and if the
  -- function fails, its error is returned and nothing changes.
  pub update_by_payment_hash-saved :
      (t : Tx) (info : SwapAddressInfo) (f : SwapAddressInfo → Result Error SwapAddressInfo)
      → IsSaved info t
      → let (found, r) = update_swap_address_by_payment_hash s json t info.payment_hash f in
        (found ≡ true)
        × ((new : SwapAddressInfo)
            → f info ≡ ok new
            → Plain new
            → new.address ≡ info.address
            → new.payment_hash ≡ info.payment_hash
            → AllOrNothing s t r (λ _ u. Updated new t u))
        × ((e : Error) → f info ≡ err e → r ≡ (err e, t))
  update_by_payment_hash-saved t info f saved =
      subst (UpdatesTo t info f) (sym (update_by_hash-eq t info f saved))
        (update_body-UpdatesTo t info f saved)

  -- The same, for an update by address.
  pub update_swap_address-saved :
      (t : Tx) (info : SwapAddressInfo) (f : SwapAddressInfo → Result Error SwapAddressInfo)
      → IsSaved info t
      → UpdatesTo t info f (update_swap_address s json t info.address f)
  unfolding update_swap_address
  update_swap_address-saved t info f saved =
      rw (saved.stored, update_swap_address) (update_body-UpdatesTo t info f saved)
