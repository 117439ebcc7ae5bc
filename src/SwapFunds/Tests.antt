-- ===== src/SwapFunds/Tests.antt =====
-- One swap address with two outputs, one of a transaction that is known, and the theorems on it.
use breez.Common.{ℕ, zero, suc, ◌≡◌, refl, true, some, List, [], ◌∷◌, Bytes, codes, Result, ok}
use breez.Common.Int64.{lt64, rank64}
use breez.Bolt.{Codec}
use breez.Bolt.Memory.{memory, keyed}
use breez.Db.Basics.{addresses, swap_addresses_by_hash, Error}
use breez.Db.Samples.{store, swap}
use breez.Db.Funds.{
  SwapAddressInfo, confirmed, fetch_swap_addresses, fetch_all_swap_addresses, filter_addresses,
}
use breez.SwapFunds.{UnspentAmount, FundStatus, get_fund_status, status_from, put_at, place}
use breez.SwapFunds.Status.{IsReport, get_fund_status-passing}

abbrev known_swap : SwapAddressInfo
known_swap = record (swap (codes "bc1") (7 ∷ 8 ∷ []) 690) {
  confirmed_transaction_ids = codes "a" ∷ [];
}

abbrev answer : UnspentAmount
answer = record {
  amount = 5000;
  lock_height = 288;
  utxos =
      record { txid = codes "b"; block_height = 500 }
      ∷ record { txid = codes "a"; block_height = 400 }
      ∷ [];
}

abbrev noted_swap : SwapAddressInfo
noted_swap = record (swap (codes "bc1") (7 ∷ 8 ∷ []) 788) {
  confirmed_amount = 5000;
  confirmed_transaction_ids = codes "a" ∷ codes "b" ∷ [];
}

-- An encoding that tells the two records.
abbrev amount_bytes : SwapAddressInfo → Bytes
amount_bytes a = a.confirmed_amount ∷ []

abbrev swap_of_amount : Bytes → SwapAddressInfo
swap_of_amount [] = known_swap
swap_of_amount (zero ∷ rest) = known_swap
swap_of_amount (suc n ∷ rest) = noted_swap

abbrev json : Codec Error SwapAddressInfo
json = keyed amount_bytes swap_of_amount

-- The database with a record of that amount.
unfoldable holding : ℕ → store.Tx
unfolding memory
holding amount = record {
  buckets = λ b. true;
  cells = λ b. elim b [
    | addresses ↦ (codes "bc1", some (amount ∷ [])) ∷ []
    | swap_addresses_by_hash ↦ (7 ∷ 8 ∷ [], some (codes "bc1")) ∷ []
    | _ ↦ []
  ];
  sequences = λ b. 0;
}

answered : Bytes → Result Error UnspentAmount
answered address = ok answer

data Refusal : Type 0 where
  refused : Refusal

abbrev asked : List SwapAddressInfo → Result Refusal (List (Bytes × Bytes))
asked young = ok []

-- At its lock height the address is refundable.
abbrev reported : FundStatus
reported = record {
  unconfirmed_addresses = [];
  confirmed_addresses = [];
  refundable_addresses = noted_swap ∷ [];
}

reports :
    get_fund_status store json (ok 788) asked 100_000 (holding 5000) ≡ (ok reported, holding 5000)
unfolding get_fund_status memory holding status_from put_at place fetch_swap_addresses
    fetch_all_swap_addresses filter_addresses confirmed lt64 rank64
reports = refl

get_fund_status-passing_example :
    (height : ℕ) × (◌≡◌ {A = Result Refusal ℕ} (ok 788) (ok height))
    × IsReport store json height reported (holding 5000)
get_fund_status-passing_example =
    get_fund_status-passing store json (ok 788) asked 100_000 (holding 5000) (holding 5000) reported
      reports
