-- ===== src/Account/Invoice/Tests.antt =====
-- An accepted invoice with a fake channel of a stranger.
use breez.Common.{
  ℕ, ◌≡◌, refl, Bool, false, Option, none, some, [], ◌∷◌, codes, ◌==◌, if◌then◌else◌,
}
use breez.Db.Samples.{store, empty_store}
use breez.Account.Invoice.{
  Edge, Invoice, accepted, settle_invoice, cancel_invoice, hop_trusts, hints_trust, fetch_edge,
  channels_trusted, on_received,
}
use breez.Account.Invoice.Trust.{all_harmless, on_received-accepted}

abbrev invoice : Invoice
invoice = record {
  state = accepted;
  r_hash = codes "hash";
  r_preimage = codes "preimage";
  htlcs = 7 ∷ 7 ∷ 8 ∷ [];
  route_hints = (codes "lsp" ∷ []) ∷ [];
  creation_date = 0;
  expiry = 3600;
}

abbrev fake : ℕ → Bool
fake id = id == 7

abbrev lookup : ℕ → Option Edge
lookup id =
    if id == 7 then some (record { node1_pub = codes "us"; node2_pub = codes "stranger" }) else none

stranger_cancelled :
    on_received fake lookup store 10 invoice empty_store
    ≡ (cancel_invoice (codes "hash") ∷ [], empty_store, false)
unfolding on_received channels_trusted fetch_edge hints_trust hop_trusts
stranger_cancelled = refl

on_received-accepted_example : on_received fake lookup store 10 invoice empty_store ≡ (
  (if all_harmless fake lookup invoice.route_hints invoice.htlcs
        then settle_invoice invoice.r_preimage
        else cancel_invoice invoice.r_hash)
      ∷ [],
  empty_store,
  false,
)
on_received-accepted_example = on_received-accepted fake lookup store 10 invoice empty_store refl
