-- ===== src/Account/State/Receive.antt =====
-- getMaxReceiveSingleChannel and the balance of calculateAccount in account/account.go.
use breez.Common.{
  ℕ, ◌+◌, ◌-◌, ◌^◌, ◌<◌, ◌≡◌, ◌⊎◌, inl, inr, refl, sym, ap, ◌∙◌, Bool, true, false, List, [], ◌∷◌,
  All, ltb, if◌then◌else◌, Bool-cases, Result, ok, ok-injective, arith,
}
use breez.Common.Int64.{add64, sub64, lt64, add64-eq, lt64-eq}
use breez.Account.State.{
  Htlc, Channel, can_receive, max_of, not_negative, htlc_total, outgoing_total, without_sent,
  get_max_receive_single_channel, get_outgoing_pending_amount, normalized_balance,
}
use breez.Account.State.Limits.{sum_of, difference}

-- In the signed order.
abbrev pub IsAtMost : ℕ → ℕ → Type 0
IsAtMost a b = lt64 b a ≡ false

abbrev pub IsReceivable : ℕ → List Channel → Type 0
IsReceivable amount [] = ⊥
IsReceivable amount (b ∷ channels) = (can_receive b ≡ amount) ⊎ IsReceivable amount channels

IsAtMost-trans : (a b c : ℕ) → IsAtMost a b → IsAtMost b c → IsAtMost a c
unfolding lt64
IsAtMost-trans a b c h k = ground (arith, h, k)

IsAtMost-max : (m x : ℕ) → let n = if lt64 m x then x else m in IsAtMost m n × IsAtMost x n
unfolding lt64
IsAtMost-max m x = ground arith

IsAtMost-refl : (a : ℕ) → IsAtMost a a
unfolding lt64
IsAtMost-refl a = ground arith

one_of : (b : Bool) (m x : ℕ) → ((if b then x else m) ≡ m) ⊎ ((if b then x else m) ≡ x)
one_of true m x = inr refl
one_of false m x = inl refl

max_of-bounds :
    (m : ℕ) (channels : List Channel)
    → IsAtMost m (max_of m channels)
      × All (λ b. IsAtMost (can_receive b) (max_of m channels)) channels
unfolding max_of
max_of-bounds m [] = (IsAtMost-refl m, tt)
max_of-bounds m (b ∷ channels) =
    let n = if lt64 m (can_receive b) then can_receive b else m in
    let step = IsAtMost-max m (can_receive b) in
    let rest = max_of-bounds n channels in
    (
      IsAtMost-trans m n (max_of n channels) step.0 rest.0,
      (IsAtMost-trans (can_receive b) n (max_of n channels) step.1 rest.0, rest.1),
    )

max_of-attained :
    (m : ℕ) (channels : List Channel)
    → (max_of m channels ≡ m) ⊎ IsReceivable (max_of m channels) channels
unfolding max_of
max_of-attained m [] = inl refl
max_of-attained m (b ∷ channels) =
    elim (max_of-attained (if lt64 m (can_receive b) then can_receive b else m) channels) [
      | inr has ↦ inr (inr has)
      | inl e ↦ elim (one_of (lt64 m (can_receive b)) m (can_receive b)) [
        | inl old ↦ inl (e ∙ old)
        | inr new ↦ inr (inl (sym (e ∙ new)))
      ]
    ]

module _ {E : Type 0} where
  -- The amount that a single channel can receive is, in the signed order of int64, at least 0 and at
  -- least what each channel can receive, and it is 0 or what some channel can receive.
  pub max_receive-greatest :
      (channels : List Channel) {r : ℕ}
      → ◌≡◌ {A = Result E ℕ} (get_max_receive_single_channel (ok channels)) (ok r)
      → IsAtMost 0 r
        × All (λ b. IsAtMost (can_receive b) r) channels
        × ((r ≡ 0) ⊎ IsReceivable r channels)
  unfolding get_max_receive_single_channel
  max_receive-greatest channels h =
      let same = ok-injective h in
      let bounds = max_of-bounds 0 channels in
      rw (← same) (bounds.0, bounds.1, max_of-attained 0 channels)

-- The amounts of the HTLCs that go out, and of the payments that are sent.
abbrev pub outgoing : Htlc → ℕ
outgoing h = if h.incoming then 0 else h.amount

abbrev pub sent_amount : Bool × ℕ → ℕ
sent_amount (sent, amount) = if sent then amount else 0

htlc_total-eq :
    (amt : ℕ) (htlcs : List Htlc)
    → amt + sum_of outgoing htlcs < 2 ^ 63
    → htlc_total amt htlcs ≡ amt + sum_of outgoing htlcs
unfolding htlc_total
htlc_total-eq amt [] h = omega arith
htlc_total-eq amt (x ∷ htlcs) h = elim (Bool-cases x.incoming) [
  | inl e ↦ rw e (htlc_total-eq amt htlcs (omega (arith, rw e at h)) ∙ omega arith)
  | inr e ↦
      rw (e, add64-eq amt x.amount (omega (arith, rw e at h)))
        (htlc_total-eq (amt + x.amount) htlcs (omega (arith, rw e at h)) ∙ omega arith)
]

outgoing_total-eq :
    (amt : ℕ) (channels : List Channel)
    → amt + sum_of (λ c. sum_of outgoing c.pending_htlcs) channels < 2 ^ 63
    → outgoing_total amt channels ≡ amt + sum_of (λ c. sum_of outgoing c.pending_htlcs) channels
unfolding outgoing_total
outgoing_total-eq amt [] h = omega arith
outgoing_total-eq amt (c ∷ channels) h =
    rw (htlc_total-eq amt c.pending_htlcs (omega arith)) (
      outgoing_total-eq (amt + sum_of outgoing c.pending_htlcs) channels (omega arith)
      ∙ omega arith)

sub64-sub64 : (a b c : ℕ) → a < 2 ^ 62 → b + c < 2 ^ 62 → sub64 (sub64 a b) c ≡ sub64 a (b + c)
unfolding sub64
sub64-sub64 a b c h k = omega arith

sub64-zero : (a : ℕ) → a < 2 ^ 63 → sub64 a 0 ≡ a
unfolding sub64
sub64-zero a h = omega arith

not_negative-zero : (a : ℕ) → a ≡ 0 → not_negative a ≡ 0
unfolding not_negative lt64
not_negative-zero a h = ground arith

-- The balance may fall below zero on the way, but not below -(2 ^ 62).
without_sent-eq :
    (balance spent : ℕ) (pending : List (Bool × ℕ))
    → balance < 2 ^ 62
    → spent + sum_of sent_amount pending < 2 ^ 62
    → not_negative (without_sent (sub64 balance spent) pending)
      ≡ balance - spent - sum_of sent_amount pending
unfolding without_sent
without_sent-eq balance spent [] h k =
    difference balance spent (omega arith) (omega arith) ∙ omega arith
without_sent-eq balance spent ((true, amount) ∷ pending) h k =
    rw (sub64-sub64 balance spent amount (omega arith) (omega arith))
      (without_sent-eq balance (spent + amount) pending h (omega arith) ∙ omega arith)
without_sent-eq balance spent ((false, amount) ∷ pending) h k =
    without_sent-eq balance spent pending h (omega arith) ∙ omega arith

module _ {E : Type 0} where
  -- While the sums stay below 2 ^ 62, the account's balance is 0 if the channels have none; else it is their
  -- balance with all outgoing HTLCs and without the payments that are being sent, and 0 if these are more.
  pub normalized_balance-eq :
      (balance : ℕ) (channels : List Channel) (pending : List (Bool × ℕ))
      → balance + sum_of (λ c. sum_of outgoing c.pending_htlcs) channels < 2 ^ 62
      → sum_of sent_amount pending < 2 ^ 62
      → ◌≡◌ {A = Result E ℕ} (normalized_balance (ok balance) (ok channels) (ok pending)) (
          ok (
            if ltb 0 balance
            then balance
              + sum_of (λ c. sum_of outgoing c.pending_htlcs) channels
              - sum_of sent_amount pending
            else 0))
  unfolding normalized_balance get_outgoing_pending_amount
  normalized_balance-eq balance channels pending h k = elim (Bool-cases (ltb 0 balance)) [
    | inr none_left ↦
        rw (lt64-eq 0 balance (omega arith) (omega arith), none_left)
          (ap ok (not_negative-zero balance (ground (arith, none_left))))
    | inl some_left ↦
        let out = sum_of (λ (c : Channel). sum_of outgoing c.pending_htlcs) channels in
        let whole : add64 balance (outgoing_total 0 channels) ≡ sub64 (balance + out) 0 =
          ap (add64 balance) (outgoing_total-eq 0 channels (omega arith) ∙ omega arith)
          ∙ add64-eq balance out (omega arith)
          ∙ sym (sub64-zero (balance + out) (omega arith)) in
        rw (lt64-eq 0 balance (omega arith) (omega arith), some_left, whole)
          (ap ok (without_sent-eq (balance + out) 0 pending h (omega arith) ∙ omega arith))
  ]
