-- ===== src/Account/AddInvoice.antt =====
-- AddInvoice of account/payments.go: an invoice that is paid over the open channels, or one for which
-- the LSP opens a channel and keeps a fee.
pub mod Issue
pub mod Stored
pub mod Fees
mod Tests
use breez.Common.{
  ℕ, ◌+◌, ◌*◌, ◌^◌, ◌≡◌, Bool, true, false, not, ◌&&◌, ◌||◌, Option, none, some, List, [], ◌∷◌,
  ◌++◌, Bytes, bytes_eq, length, ◌==◌, if◌then◌else◌, Result, ok, err, ◌>>=◌,
}
use breez.Common.Int64.{add64, sub64, mul64, div64, lt64}
use breez.Bolt.{Bolt}
use breez.Db.Basics.{Bucket, Error}
use breez.Db.AccountState.{add_zero_conf_hash, fetch_zero_conf_invoice}

-- data.LSPInformation; `fee_rate_millionths` is uint32(FeeRate * 1000000) of its float.
pub record LspInformation : Type 0 where
  pub id : Bytes
  pub pubkey : Bytes
  pub lsp_pubkey : Bytes
  pub base_fee_msat : ℕ
  pub fee_rate_millionths : ℕ
  pub time_lock_delta : ℕ
  pub channel_fee_permyriad : ℕ
  pub channel_minimum_fee_msat : ℕ

pub record HopHint : Type 0 where
  pub node_id : Bytes
  pub chan_id : ℕ
  pub fee_base_msat : ℕ
  pub fee_proportional_millionths : ℕ
  pub cltv_expiry_delta : ℕ

pub record Policy : Type 0 where
  pub fee_base_msat : ℕ
  pub fee_rate_milli_msat : ℕ
  pub time_lock_delta : ℕ

pub record ChannelInfo : Type 0 where
  pub node2_pub : Bytes
  pub node1_policy : Option Policy
  pub node2_policy : Option Policy

-- A private channel: its id and the other node.
pub record PrivateChannel : Type 0 where
  pub chan_id : ℕ
  pub remote_pubkey : Bytes

pub record InvoiceRequest : Type 0 where
  pub memo : Bytes
  pub amount : ℕ
  pub expiry : ℕ
  pub preimage : Option Bytes
  pub lsp_info : Option LspInformation

-- What lnd's AddInvoice is asked for.
pub record NewInvoice : Type 0 where
  pub r_preimage : Option Bytes
  pub memo : Bytes
  pub value_msat : ℕ
  pub expiry : ℕ
  pub route_hints : List HopHint

-- The calls that leave the service.
pub data Call : Type 0 where
  track_invoice : Bytes → Call
  register_payment : Bytes → Bytes → ℕ → ℕ → Bytes → Call

pub data Failure (E : Type 0) : Type 0 where
  node_failed : E → Failure E
  store_failed : Error → Failure E
  missing_lsp no_routing bad_preimage : Failure E
  amount_too_small : ℕ → Failure E

-- The answers of the lightning node and of the LSP during one call; generateInvoiceWithNewAmount
-- decodes, signs and encodes with lnd's zpay32, and registerPayment sends to the LSP.
pub record Node (E : Type 0) : Type 0 where
  pub max_receive : Result E ℕ
  pub wait_ready_for_payment : Result E (Unit {0})
  pub private_channels : Result E (List PrivateChannel)
  pub get_chan_info : ℕ → Option ChannelInfo
  pub hash_of : Bytes → Bytes
  pub lookup_invoice : Bytes → Option Bytes
  pub new_invoice : NewInvoice → Result E (Bytes × Bytes)
  pub with_new_amount : Bytes → ℕ → Result E (Bytes × Bytes)
  pub register : Bytes → Result E (Unit {0})

abbrev pub default_invoice_expiry : ℕ
default_invoice_expiry = 3600

-- lnwire's ToUint64 of the block height 1.
abbrev pub fake_chan_id : ℕ
fake_chan_id = 2 ^ 40

pub get_fake_channel_routing_hint : LspInformation → HopHint
get_fake_channel_routing_hint lsp = record {
  node_id = lsp.pubkey;
  chan_id = fake_chan_id;
  fee_base_msat = lsp.base_fee_msat;
  fee_proportional_millionths = lsp.fee_rate_millionths;
  cltv_expiry_delta = lsp.time_lock_delta;
}

pub remote_policy : LspInformation → PrivateChannel → ChannelInfo → Option Policy
remote_policy lsp h ci =
    if bytes_eq h.remote_pubkey lsp.pubkey && bytes_eq ci.node2_pub h.remote_pubkey
    then ci.node2_policy
    else ci.node1_policy

-- The hint for a channel; a node that is not the LSP and has no policy gives none.
pub hint_of : LspInformation → PrivateChannel → Option Policy → Option HopHint
hint_of lsp h (some policy) = some (record {
  node_id = h.remote_pubkey;
  chan_id = h.chan_id;
  fee_base_msat = policy.fee_base_msat;
  fee_proportional_millionths = policy.fee_rate_milli_msat;
  cltv_expiry_delta = policy.time_lock_delta;
})
hint_of lsp h none =
    if bytes_eq h.remote_pubkey lsp.pubkey
    then some (record {
      node_id = h.remote_pubkey;
      chan_id = h.chan_id;
      fee_base_msat = lsp.base_fee_msat;
      fee_proportional_millionths = lsp.fee_rate_millionths;
      cltv_expiry_delta = lsp.time_lock_delta;
    })
    else none

abbrev pub is_used : Bytes → List Bytes → Bool
is_used peer [] = false
is_used peer (p ∷ peers) = bytes_eq p peer || is_used peer peers

module _ (lsp : LspInformation) (get_chan_info : ℕ → Option ChannelInfo) where
  pub channel_hint : PrivateChannel → Option HopHint
  channel_hint h = elim (get_chan_info h.chan_id) [
    | none ↦ none
    | some ci ↦ hint_of lsp h (remote_policy lsp h ci)
  ]

  -- The loop of getLSPRoutingHints.
  pub routing_hints : List Bytes → List PrivateChannel → List HopHint
  routing_hints used [] = []
  routing_hints used (h ∷ channels) = elim (is_used h.remote_pubkey used) [
    | true ↦ routing_hints used channels
    | false ↦ elim (channel_hint h) [
      | none ↦ routing_hints used channels
      | some hint ↦ hint ∷ routing_hints (h.remote_pubkey ∷ used) channels
    ]
  ]

-- The fee for opening a channel, a whole number of satoshis or the least fee.
unfoldable pub channel_fees_msat : LspInformation → ℕ → ℕ
channel_fees_msat lsp amount_msat =
    let fees =
      mul64 (div64 (div64 (mul64 amount_msat lsp.channel_fee_permyriad) 10_000) 1_000) 1_000 in
    if lt64 fees lsp.channel_minimum_fee_msat then lsp.channel_minimum_fee_msat else fees

-- What AddInvoice settles before it creates an invoice.
pub record Plan : Type 0 where
  pub lsp : LspInformation
  pub amount_msat : ℕ
  pub small_amount_msat : ℕ
  pub need_open_channel : Bool
  pub hints : List HopHint

module _ {E : Type 0} (node : Node E) where
  unfoldable pub from_node {ℓ} : {A : Type ℓ} → Result E A → Result (Failure E) A
  from_node (ok a) = ok a
  from_node (err e) = err (node_failed e)

  unfoldable pub open_channel_plan : LspInformation → ℕ → Result (Failure E) Plan
  open_channel_plan lsp amount_msat =
      let fees = channel_fees_msat lsp amount_msat in
      if lt64 amount_msat (add64 fees 1000)
      then err (amount_too_small lsp.channel_minimum_fee_msat)
      else ok (record {
        lsp = lsp;
        amount_msat = amount_msat;
        small_amount_msat = sub64 amount_msat fees;
        need_open_channel = true;
        hints = get_fake_channel_routing_hint lsp ∷ [];
      })

  unfoldable pub open_channels_plan : LspInformation → ℕ → Result (Failure E) Plan
  open_channels_plan lsp amount_msat = from_node node.private_channels >>= λ channels. ok (record {
    lsp = lsp;
    amount_msat = amount_msat;
    small_amount_msat = amount_msat;
    need_open_channel = false;
    hints = routing_hints lsp node.get_chan_info [] channels;
  })

  abbrev pub routed : Plan → Result (Failure E) Plan
  routed plan = elim plan.hints [ [] ↦ err no_routing | _ ∷ _ ↦ ok plan ]

  -- AddInvoice up to the check that there is a routing hint.
  unfoldable pub make_plan : InvoiceRequest → Result (Failure E) Plan
  make_plan request = from_node node.max_receive >>= λ max_receive.
      (if lt64 max_receive request.amount then ok tt else from_node node.wait_ready_for_payment)
      >>= λ _. elim request.lsp_info [
        | none ↦ err missing_lsp
        | some lsp ↦
            let amount_msat = mul64 request.amount 1000 in
            (if lt64 (mul64 max_receive 1000) amount_msat
              then open_channel_plan lsp amount_msat
              else open_channels_plan lsp amount_msat)
            >>= routed
      ]
