-- ===== src/Account/AddInvoice/Tests.antt =====
-- A request for more than a channel can receive, and the theorems of AddInvoice on it.
use breez.Common.{
  ℕ, ◌+◌, ◌*◌, ◌/◌, ◌≤◌, ◌<◌, ◌≡◌, ◌⊎◌, refl, true, none, some, [], ◌∷◌, ◌++◌, codes, ok, arith,
}
use breez.Common.Int64.{add64, sub64, mul64, div64, lt64}
use breez.Bolt.Memory.{memory, write, erase, advance, try_put, replace, set_cell, drop_cell}
use breez.Db.Basics.{Bucket-discrete, save_item, fetch_item}
use breez.Db.AccountState.{add_zero_conf_hash, fetch_zero_conf_invoice}
use breez.Db.Samples.{store, empty_store}
use breez.Account.AddInvoice.{
  LspInformation, InvoiceRequest, Node, Plan, from_node, channel_fees_msat, open_channel_plan,
  make_plan, get_fake_channel_routing_hint,
}
use breez.Account.AddInvoice.Issue.{
  create_invoice, payee_invoice, lsp_invoice, complete, issue, add_invoice,
}
use breez.Account.AddInvoice.Fees.{channel_fee}
use breez.Account.AddInvoice.Stored.{add_invoice-fee}

-- A fee of 0.4 percent, and at least two satoshis.
abbrev lsp : LspInformation
lsp = record {
  id = codes "lsp";
  pubkey = codes "key";
  lsp_pubkey = codes "lsp key";
  base_fee_msat = 1000;
  fee_rate_millionths = 1;
  time_lock_delta = 144;
  channel_fee_permyriad = 40;
  channel_minimum_fee_msat = 2000;
}

abbrev node : Node ℕ
node = record {
  max_receive = ok 500;
  wait_ready_for_payment = ok tt;
  private_channels = ok [];
  get_chan_info = λ id. none;
  hash_of = λ preimage. preimage;
  lookup_invoice = λ hash. none;
  new_invoice = λ invoice. ok (codes "lnbc", codes "hash");
  with_new_amount = λ payreq amount. ok (payreq ++ codes "1", codes "address");
  register = λ hash. ok tt;
}

abbrev request : InvoiceRequest
request = record { memo = []; amount = 1000; expiry = 0; preimage = none; lsp_info = some lsp }

abbrev plan : Plan
plan = record {
  lsp = lsp;
  amount_msat = 1_000_000;
  small_amount_msat = 996_000;
  need_open_channel = true;
  hints = get_fake_channel_routing_hint lsp ∷ [];
}

added : (add_invoice store node request empty_store).0 ≡ ok (codes "lnbc1", 4)
unfolding add_invoice make_plan from_node open_channel_plan channel_fees_msat issue payee_invoice
    create_invoice complete lsp_invoice add_zero_conf_hash fetch_zero_conf_invoice save_item
    fetch_item memory empty_store write erase advance try_put replace set_cell drop_cell
    Bucket-discrete add64 sub64 mul64 div64 lt64
added = refl

add_invoice-fee_example :
    ((request.amount ≤ 500) × ◌≡◌ {A = ℕ} 4 0)
    ⊎ ((500 < request.amount)
        × (channel_fee lsp request.amount + 1000 ≤ request.amount * 1000)
        × (4 ≡ channel_fee lsp request.amount / 1000))
add_invoice-fee_example =
    add_invoice-fee store node request lsp 500 empty_store refl refl (omega arith) (omega arith)
      (omega arith) (omega arith) added
