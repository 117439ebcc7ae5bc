-- ===== src/Account/State/Limits.antt =====
-- The limits of account/account.go: exact while the amounts are those of real channels.
use breez.Common.{
  ℕ, ◌+◌, ◌-◌, ◌*◌, ◌/◌, ◌^◌, ◌≤◌, ◌<◌, ◌≡◌, inl, inr, ap, ◌∙◌, List, [], ◌∷◌, length, All,
  if◌then◌else◌, Bool-cases, Result, ok, arith,
}
use breez.Common.Int64.{add64, sub64, lt64, add64-eq, div64-eq}
use breez.Account.State.{
  Channel, PendingOpen, PendingChannels, PayLimits, max_global_receive_limit, can_pay, not_negative,
  pay_totals, reserve_totals, get_receive_pay_limit,
}

-- Amounts of at most 2 ^ 50 satoshis: there are fewer than 2 ^ 51.
pub record IsSmall (b : Channel) : Type 0 where
  pub balance : b.local_balance < 2 ^ 50
  pub reserve : b.local_chan_reserve_sat < 2 ^ 50
  pub fee : b.commit_fee < 2 ^ 50

-- What a channel adds to what can be paid.
abbrev pub payable : Channel → ℕ
payable b =
    if b.initiator
    then b.local_balance - b.local_chan_reserve_sat - b.commit_fee / 2
    else b.local_balance - b.local_chan_reserve_sat

abbrev pub sum_of {ℓ} : {A : Type ℓ} → (A → ℕ) → List A → ℕ
sum_of amount [] = 0
sum_of amount (b ∷ list) = amount b + sum_of amount list

pub difference : (a b : ℕ) → a < 2 ^ 62 → b < 2 ^ 62 → not_negative (sub64 a b) ≡ a - b
unfolding not_negative sub64 lt64
difference a b h k = ground arith

two_differences :
    (a b c : ℕ)
    → a < 2 ^ 61
    → b < 2 ^ 61
    → c < 2 ^ 61
    → not_negative (sub64 (sub64 a b) c) ≡ a - b - c
unfolding not_negative sub64 lt64
two_differences a b c h k l = ground arith

not_negative-can_pay : (b : Channel) → IsSmall b → not_negative (can_pay b) ≡ payable b
unfolding can_pay
not_negative-can_pay b small = elim (Bool-cases b.initiator) [
  | inl ours ↦
      rw (ours, div64-eq b.commit_fee 2 (omega (arith, small.fee)))
        (two_differences b.local_balance b.local_chan_reserve_sat (b.commit_fee / 2)
          (omega (arith, small.balance)) (omega (arith, small.reserve)) (omega (arith, small.fee)))
  | inr theirs ↦ rw theirs (
      difference b.local_balance b.local_chan_reserve_sat (omega (arith, small.balance))
        (omega (arith, small.reserve)))
]

payable-lt : (b : Channel) → IsSmall b → payable b < 2 ^ 50
payable-lt b small = ground (arith, small.balance)

pay_totals-eq :
    (pay reserve : ℕ) (channels : List Channel)
    → All IsSmall channels
    → pay + length channels * 2 ^ 50 < 2 ^ 62
    → reserve + length channels * 2 ^ 50 < 2 ^ 62
    → pay_totals (pay, reserve) channels
      ≡ (pay + sum_of payable channels, reserve + sum_of (λ b. b.local_chan_reserve_sat) channels)
unfolding pay_totals
pay_totals-eq pay reserve [] small p r = ground arith
pay_totals-eq pay reserve (b ∷ channels) (small, rest) p r =
    let one = payable-lt b small in
    let here : add64 pay (not_negative (can_pay b)) ≡ pay + payable b =
      ap (add64 pay) (not_negative-can_pay b small)
      ∙ add64-eq pay (payable b) (omega (arith, one)) in
    let kept : add64 reserve b.local_chan_reserve_sat ≡ reserve + b.local_chan_reserve_sat =
      add64-eq reserve b.local_chan_reserve_sat (omega (arith, small.reserve)) in
    rw (here, kept)
      (pay_totals-eq (pay + payable b) (reserve + b.local_chan_reserve_sat) channels rest
          (omega (arith, one)) (omega (arith, small.reserve))
        ∙ ground arith)

reserve_totals-eq :
    (reserve : ℕ) (opening : List PendingOpen)
    → All (λ b. b.local_chan_reserve_sat < 2 ^ 50) opening
    → reserve + length opening * 2 ^ 50 < 2 ^ 63
    → reserve_totals reserve opening ≡ reserve + sum_of (λ b. b.local_chan_reserve_sat) opening
unfolding reserve_totals
reserve_totals-eq reserve [] small r = omega arith
reserve_totals-eq reserve (b ∷ opening) (small, rest) r =
    rw (add64-eq reserve b.local_chan_reserve_sat (omega arith)) (
      reserve_totals-eq (reserve + b.local_chan_reserve_sat) opening rest (omega arith)
      ∙ omega arith)

sum_of-lt :
    (channels : List Channel)
    → All IsSmall channels
    → sum_of (λ b. b.local_chan_reserve_sat) channels ≤ length channels * 2 ^ 50
sum_of-lt [] small = omega arith
sum_of-lt (b ∷ channels) (small, rest) = omega (arith, small.reserve, sum_of-lt channels rest)

module _ {E : Type 0} where
  -- While no amount exceeds 2 ^ 50 and there are at most 2000 channels open and opening each, what can be
  -- received is what the balance leaves of the limit, and nothing above it; what can be paid is the sum of
  -- what each open channel can, none of them less than nothing; and the reserve is the sum of all reserves.
  pub get_receive_pay_limit-sums :
      (channels : List Channel) (pending : PendingChannels) (balance : ℕ)
      → All IsSmall channels
      → All (λ b. b.local_chan_reserve_sat < 2 ^ 50) pending.opening
      → length channels ≤ 2000
      → length pending.opening ≤ 2000
      → balance < 2 ^ 50
      → ◌≡◌ {A = Result E PayLimits}
          (get_receive_pay_limit (ok channels) (ok pending) (ok balance))
          (ok (record {
            max_receive = max_global_receive_limit - balance;
            max_pay = sum_of payable channels;
            max_reserve =
                sum_of (λ b. b.local_chan_reserve_sat) channels
                + sum_of (λ b. b.local_chan_reserve_sat) pending.opening;
          }))
  unfolding get_receive_pay_limit
  get_receive_pay_limit-sums channels pending balance small opening few fewer low =
      let reserves = sum_of (λ (b : Channel). b.local_chan_reserve_sat) channels in
      rw
        (
          pay_totals-eq 0 0 channels small (omega arith) (omega arith),
          difference max_global_receive_limit balance (omega arith) (omega arith),
          reserve_totals-eq (0 + reserves) pending.opening opening
              (omega (arith, sum_of-lt channels small)),
        )
        (ground arith)
