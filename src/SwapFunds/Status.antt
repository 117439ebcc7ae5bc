-- ===== src/SwapFunds/Status.antt =====
-- The three lists of GetFundStatus in swapfunds/addfunds.go.
use breez.Common.{
  ℕ, ◌≡◌, inl, inr, refl, sym, ap, ◌∙◌, Bool, not, ◌&&◌, ◌||◌, List, [], ◌∷◌, ◌++◌, length, leb,
  ◌==◌, if◌then◌else◌, Bool-cases, Bytes, Result, ok, err, Result-cases,
}
use mathlib.Core.List.{append-nil, append_assoc}
use breez.Common.Int64.{lt64}
use breez.Bolt.{Bolt, Codec}
use breez.Db.Basics.{Bucket, Error}
use breez.Db.Funds.{SwapAddressInfo, confirmed, fetch_all_swap_addresses, fetch_swap_addresses}
use breez.SwapFunds.{
  FundStatus, place, put_at, status_from, is_young, note_statuses, reported, get_fund_status,
}

-- The addresses that pass a test, in their order.
abbrev pub passing : (SwapAddressInfo → Bool) → List SwapAddressInfo → List SwapAddressInfo
passing test [] = []
passing test (a ∷ addresses) = (if test a then a ∷ [] else []) ++ passing test addresses

abbrev pub awaits_confirmation : SwapAddressInfo → Bool
awaits_confirmation a = not (confirmed a) && a.entered_mempool

-- Funds arrived, and were not paid out in full with one transaction.
abbrev pub is_unpaid : SwapAddressInfo → Bool
is_unpaid a =
    confirmed a
    && lt64 0 a.confirmed_amount
    && not (lt64 0 a.paid_amount && leb (length a.confirmed_transaction_ids) 1)

abbrev pub has_failed : ℕ → SwapAddressInfo → Bool
has_failed block_height a = not (a.swap_error_reason == 0) || leb a.lock_height block_height

abbrev pub IsStatus : ℕ → List SwapAddressInfo → FundStatus → FundStatus → Type 0
IsStatus block_height addresses s r =
    (r.unconfirmed_addresses ≡ s.unconfirmed_addresses ++ passing awaits_confirmation addresses)
    × (r.confirmed_addresses
        ≡ s.confirmed_addresses
          ++ passing (λ a. is_unpaid a && not (has_failed block_height a)) addresses)
    × (r.refundable_addresses
        ≡ s.refundable_addresses
          ++ passing (λ a. is_unpaid a && has_failed block_height a) addresses)

put_at-IsStatus :
    (block_height : ℕ) (a : SwapAddressInfo) (s : FundStatus)
    → IsStatus block_height (a ∷ []) s (put_at (place block_height a) a s)
unfolding put_at place
put_at-IsStatus block_height a s =
    let kept_u = sym (append-nil s.unconfirmed_addresses) in
    let kept_c = sym (append-nil s.confirmed_addresses) in
    let kept_r = sym (append-nil s.refundable_addresses) in
    elim (Bool-cases (confirmed a)) [
      | inr early ↦ elim (Bool-cases a.entered_mempool) [
        | inl seen ↦ rw (early, seen, place, put_at) (refl, kept_c, kept_r)
        | inr unseen ↦ rw (early, unseen, place, put_at) (kept_u, kept_c, kept_r)
      ]
      | inl done ↦ elim (Bool-cases (lt64 0 a.confirmed_amount)) [
        | inr empty ↦ rw (done, empty, place, put_at) (kept_u, kept_c, kept_r)
        | inl funded ↦
            elim (Bool-cases (lt64 0 a.paid_amount && leb (length a.confirmed_transaction_ids) 1)) [
              | inl paid ↦ rw (done, funded, paid, place, put_at) (kept_u, kept_c, kept_r)
              | inr unpaid ↦ elim (Bool-cases (has_failed block_height a)) [
                | inl late ↦ rw (done, funded, unpaid, late, place, put_at) (kept_u, kept_c, refl)
                | inr ready ↦ rw (done, funded, unpaid, ready, place, put_at) (kept_u, refl, kept_r)
              ]
            ]
      ]
    ]

joined :
    {r m : List SwapAddressInfo} (s y p : List SwapAddressInfo)
    → m ≡ s ++ (y ++ [])
    → r ≡ m ++ p
    → r ≡ s ++ (y ++ p)
joined s y p first rest =
    rest ∙ ap (λ x. x ++ p) (first ∙ ap (λ z. s ++ z) (append-nil y)) ∙ append_assoc s y p

status_from-IsStatus :
    (block_height : ℕ) (addresses : List SwapAddressInfo) (s : FundStatus)
    → IsStatus block_height addresses s (status_from block_height s addresses)
unfolding status_from
status_from-IsStatus block_height [] s = (
  sym (append-nil s.unconfirmed_addresses),
  sym (append-nil s.confirmed_addresses),
  sym (append-nil s.refundable_addresses),
)
status_from-IsStatus block_height (a ∷ addresses) s =
    let first = put_at-IsStatus block_height a s in
    let rest = status_from-IsStatus block_height addresses (put_at (place block_height a) a s) in
    (
      joined s.unconfirmed_addresses _ (passing awaits_confirmation addresses) first.0 rest.0,
      joined s.confirmed_addresses _
          (passing (λ a. is_unpaid a && not (has_failed block_height a)) addresses) first.1 rest.1,
      joined s.refundable_addresses _
          (passing (λ a. is_unpaid a && has_failed block_height a) addresses) first.2 rest.2,
    )

module _ (s : Bolt Bucket Error) (json : Codec Error SwapAddressInfo) where
  open s use {Tx}

  abbrev pub IsReport : ℕ → FundStatus → Tx → Type 0
  IsReport block_height r u =
      let addresses = fetch_all_swap_addresses s json u in
      (r.unconfirmed_addresses ≡ passing awaits_confirmation addresses)
      × (r.confirmed_addresses
          ≡ passing (λ a. is_unpaid a && not (has_failed block_height a)) addresses)
      × (r.refundable_addresses ≡ passing (λ a. is_unpaid a && has_failed block_height a) addresses)

  reported-IsReport :
      (block_height : ℕ) (t u : Tx) {E : Type 0} (r : FundStatus)
      → ◌≡◌ {A = Result E FundStatus × Tx} (ok (reported s json block_height t).0, t) (ok r, u)
      → IsReport block_height r u
  reported-IsReport block_height t u r e =
      let same_tx : t ≡ u = cc in
      let same : (reported s json block_height t).0 ≡ r = cc in
      rw (← same_tx, ← same)
        (status_from-IsStatus block_height (fetch_all_swap_addresses s json t) _)

  -- A status that is returned lists, of the addresses in the new store and in their order, as unconfirmed
  -- those that entered the mempool, and of the confirmed ones with funds that are not paid out as refundable
  -- those with an error or at their lock height, and as confirmed the others.
  pub get_fund_status-passing :
      {E : Type 0} (info : Result E ℕ)
      (ask : List SwapAddressInfo → Result E (List (Bytes × Bytes))) (now : ℕ) (t u : Tx)
      (r : FundStatus)
      → get_fund_status s json info ask now t ≡ (ok r, u)
      → (block_height : ℕ) × (info ≡ ok block_height) × IsReport block_height r u
  unfolding get_fund_status
  get_fund_status-passing (err e) ask now t u r h = cc
  get_fund_status-passing (ok block_height) ask now t u r h =
      let young = fetch_swap_addresses s json t (is_young now) in
      elim (Bool-cases (length young == 0)) [
        | inl quiet ↦ (
          block_height,
          refl,
          reported-IsReport block_height t u r (rw (quiet, get_fund_status) at h),
        )
        | inr some_young ↦ elim (Result-cases (ask young)) [
          | inr (e, a) ↦ cc (rw (some_young, a, get_fund_status) at h)
          | inl (statuses, a) ↦ (
            block_height,
            refl,
            reported-IsReport block_height (note_statuses s json statuses t) u r
                (rw (some_young, a, get_fund_status) at h),
          )
        ]
      ]
