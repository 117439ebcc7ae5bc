-- ===== src/Account/State/Tests.antt =====
-- An account with two channels, and the theorems of account/account.go on it.
use breez.Common.{
  ℕ, ◌+◌, ◌-◌, ◌≡◌, ◌⊎◌, refl, Bool, true, false, List, [], ◌∷◌, codes, All, ltb, if◌then◌else◌,
  Result, ok, arith,
}
use breez.Common.Int64.{add64, sub64, div64, lt64}
use breez.Account.State.{
  Channel, PendingChannels, PayLimits, Htlc, max_global_receive_limit, can_receive, can_pay, max_of,
  not_negative, pay_totals, reserve_totals, get_max_receive_single_channel, get_receive_pay_limit,
  normalized_balance,
}
use breez.Account.State.Limits.{payable, sum_of, get_receive_pay_limit-sums}
use breez.Account.State.Receive.{
  IsAtMost, IsReceivable, max_receive-greatest, outgoing, sent_amount, normalized_balance-eq,
}

abbrev channel : Bool → ℕ → ℕ → List Htlc → Channel
channel ours local remote htlcs = record {
  chan_id = 1;
  channel_point = codes "a:0";
  local_balance = local;
  remote_balance = remote;
  local_chan_reserve_sat = 100;
  remote_chan_reserve_sat = 100;
  commit_fee = 11;
  initiator = ours;
  pending_htlcs = htlcs;
}

abbrev channels : List Channel
channels =
    channel true 5000 50 (record { incoming = false; amount = 70 } ∷ [])
    ∷ channel false 40 9000 (record { incoming = true; amount = 9 } ∷ [])
    ∷ []

abbrev opening : PendingChannels
opening = record {
  opening = record { channel_point = codes "b:1"; local_chan_reserve_sat = 30 } ∷ [];
  closing = 0;
  force_closing = 0;
}

limits_run :
    ◌≡◌ {A = Result ℕ PayLimits}
      (get_receive_pay_limit (ok channels) (ok opening) (ok 5040))
      (ok (record { max_receive = 3994960; max_pay = 4895; max_reserve = 230 }))
unfolding get_receive_pay_limit pay_totals reserve_totals not_negative can_pay add64 sub64 div64
    lt64
limits_run = refl

get_receive_pay_limit-sums_example :
    ◌≡◌ {A = Result ℕ PayLimits} (get_receive_pay_limit (ok channels) (ok opening) (ok 5040)) (
      ok (record {
        max_receive = max_global_receive_limit - 5040;
        max_pay = sum_of payable channels;
        max_reserve =
            sum_of (λ b. b.local_chan_reserve_sat) channels
            + sum_of (λ b. b.local_chan_reserve_sat) opening.opening;
      }))
get_receive_pay_limit-sums_example =
    get_receive_pay_limit-sums channels opening 5040
      (
        record { balance = omega arith; reserve = omega arith; fee = omega arith },
        (record { balance = omega arith; reserve = omega arith; fee = omega arith }, tt),
      )
      (omega arith) (omega arith) (omega arith) (omega arith)

receive_run : ◌≡◌ {A = Result ℕ ℕ} (get_max_receive_single_channel (ok channels)) (ok 8895)
unfolding get_max_receive_single_channel max_of can_receive sub64 div64 lt64
receive_run = refl

max_receive-greatest_example :
    IsAtMost 0 8895
    × All (λ b. IsAtMost (can_receive b) 8895) channels
    × (◌≡◌ {A = ℕ} 8895 0 ⊎ IsReceivable 8895 channels)
max_receive-greatest_example = max_receive-greatest channels receive_run

normalized_balance-eq_example :
    ◌≡◌ {A = Result ℕ ℕ}
      (normalized_balance (ok 5040) (ok channels) (ok ((true, 60) ∷ (false, 9) ∷ [])))
      (ok (
        if ltb 0 5040
        then 5040
          + sum_of (λ c. sum_of outgoing c.pending_htlcs) channels
          - sum_of sent_amount ((true, 60) ∷ (false, 9) ∷ [])
        else 0))
normalized_balance-eq_example =
    normalized_balance-eq 5040 channels ((true, 60) ∷ (false, 9) ∷ []) (omega arith) (omega arith)
