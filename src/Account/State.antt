-- ===== src/Account/State.antt =====
-- account/account.go: what the account shows, from the answers of the lightning node.
pub mod Limits
pub mod Receive
mod Tests
use breez.Common.{
  ℕ, ◌-◌, ◌/◌, ◌^◌, ◌≡◌, Bool, true, false, not, ◌&&◌, ◌||◌, Option, none, some, List, [], ◌∷◌,
  ◌++◌, map, Bytes, bytes_eq, length, ltb, leb, ◌==◌, if◌then◌else◌, Result, ok, err, ◌>>=◌,
}
use breez.Common.Int64.{add64, sub64, mul64, div64, lt64}

abbrev pub max_global_receive_limit : ℕ
max_global_receive_limit = 4_000_000

abbrev pub max_payment_allowed_sat : ℕ
max_payment_allowed_sat = (2 ^ 32 - 1) / 1000

-- What the code reads of lnrpc.Channel and of its HTLCs; amounts are int64 patterns.
pub record Htlc : Type 0 where
  pub incoming : Bool
  pub amount : ℕ

pub record Channel : Type 0 where
  pub chan_id : ℕ
  pub channel_point : Bytes
  pub local_balance : ℕ
  pub remote_balance : ℕ
  pub local_chan_reserve_sat : ℕ
  pub remote_chan_reserve_sat : ℕ
  pub commit_fee : ℕ
  pub initiator : Bool
  pub pending_htlcs : List Htlc

-- PendingChannels: the points and reserves of the channels that open, and how many are closing.
pub record PendingOpen : Type 0 where
  pub channel_point : Bytes
  pub local_chan_reserve_sat : ℕ

pub record PendingChannels : Type 0 where
  pub opening : List PendingOpen
  pub closing : ℕ
  pub force_closing : ℕ

pub data AccountStatus : Type 0 where
  connected processing_connection closing_connection disconnected : AccountStatus

-- What a channel can receive, and pay, before a negative amount is dropped.
unfoldable pub can_receive : Channel → ℕ
can_receive b =
    let amount = sub64 b.remote_balance b.remote_chan_reserve_sat in
    if not b.initiator then sub64 amount (div64 b.commit_fee 2) else amount

unfoldable pub can_pay : Channel → ℕ
can_pay b =
    let amount = sub64 b.local_balance b.local_chan_reserve_sat in
    if not b.initiator then amount else sub64 amount (div64 b.commit_fee 2)

unfoldable pub max_of : ℕ → List Channel → ℕ
max_of max [] = max
max_of max (b ∷ channels) =
    max_of (if lt64 max (can_receive b) then can_receive b else max) channels

unfoldable pub not_negative : ℕ → ℕ
not_negative amount = if lt64 amount 0 then 0 else amount

-- The sums that processChannel keeps: what can be paid, and the reserves.
unfoldable pub pay_totals : ℕ × ℕ → List Channel → ℕ × ℕ
pay_totals totals [] = totals
pay_totals (pay, reserve) (b ∷ channels) =
    pay_totals (add64 pay (not_negative (can_pay b)), add64 reserve b.local_chan_reserve_sat)
      channels

unfoldable pub reserve_totals : ℕ → List PendingOpen → ℕ
reserve_totals reserve [] = reserve
reserve_totals reserve (b ∷ opening) =
    reserve_totals (add64 reserve b.local_chan_reserve_sat) opening

pub record PayLimits : Type 0 where
  pub max_receive : ℕ
  pub max_pay : ℕ
  pub max_reserve : ℕ

unfoldable pub htlc_total : ℕ → List Htlc → ℕ
htlc_total amt [] = amt
htlc_total amt (h ∷ htlcs) = htlc_total (if not h.incoming then add64 amt h.amount else amt) htlcs

unfoldable pub outgoing_total : ℕ → List Channel → ℕ
outgoing_total amt [] = amt
outgoing_total amt (c ∷ channels) = outgoing_total (htlc_total amt c.pending_htlcs) channels

-- The amounts of the pending payments that are sent.
unfoldable pub without_sent : ℕ → List (Bool × ℕ) → ℕ
without_sent balance [] = balance
without_sent balance ((sent, amount) ∷ pending) =
    without_sent (if sent then sub64 balance amount else balance) pending

-- `make` of the length of the peers leaves that many empty strings in front.
pub empties : List Bytes → List Bytes
empties [] = []
empties (p ∷ peers) = [] ∷ empties peers

module _ {E : Type 0} where
  unfoldable pub get_max_receive_single_channel : Result E (List Channel) → Result E ℕ
  get_max_receive_single_channel answer = answer >>= λ channels. ok (max_of 0 channels)

  unfoldable pub get_outgoing_pending_amount : Result E (List Channel) → Result E ℕ
  get_outgoing_pending_amount answer = answer >>= λ channels. ok (outgoing_total 0 channels)

  unfoldable pub get_receive_pay_limit :
      Result E (List Channel) → Result E PendingChannels → Result E ℕ → Result E PayLimits
  get_receive_pay_limit listed pending balance = listed >>= λ channels. pending >>= λ p.
      balance >>= λ b.
      let (pay, reserve) = pay_totals (0, 0) channels in
      ok (record {
        max_receive = not_negative (sub64 max_global_receive_limit b);
        max_pay = pay;
        max_reserve = reserve_totals reserve p.opening;
      })

  -- The status with a channel point; `listed` are the private channels.
  pub get_account_status :
      Result E (List Channel) → Result E PendingChannels → Result E (AccountStatus × Bytes)
  get_account_status listed pending = listed >>= λ channels. elim channels [
    | c ∷ _ ↦ ok (connected, c.channel_point)
    | [] ↦ pending >>= λ p. elim p.opening [
      | c ∷ _ ↦ ok (processing_connection, c.channel_point)
      | [] ↦
          if ltb 0 p.closing || ltb 0 p.force_closing
          then ok (closing_connection, [])
          else ok (disconnected, [])
    ]
  ]

  pub get_connected_peers : Result E (List Bytes) → Result E (List Bytes)
  get_connected_peers answer = answer >>= λ peers. ok (empties peers ++ peers)

  -- The balance of calculateAccount: the channels' balance with the outgoing HTLCs and without the
  -- payments that are being sent.
  unfoldable pub normalized_balance :
      Result E ℕ → Result E (List Channel) → Result E (List (Bool × ℕ)) → Result E ℕ
  normalized_balance balance listed pending = balance >>= λ b.
      if lt64 0 b
      then (get_outgoing_pending_amount listed >>= λ outgoing.
          pending >>= λ payments. ok (not_negative (without_sent (add64 b outgoing) payments)))
      else ok (not_negative b)
