-- ===== src/Account/Invoice.antt =====
-- account/invoice.go: what trackInvoice does when a zero-conf invoice is accepted or has expired.
pub mod Trust
mod Tests
use breez.Common.{
  ℕ, ◌+◌, ◌≡◌, Bool, true, false, not, ◌&&◌, ◌||◌, Option, none, some, List, [], ◌∷◌, Bytes,
  bytes_eq, ◌==◌, if◌then◌else◌, Result,
}
use breez.Common.Int64.{add64, lt64}
use breez.Bolt.{Bolt}
use breez.Db.Basics.{Bucket, Error}
use breez.Db.AccountState.{remove_zero_conf_hash}

-- The two ends of a channel.
pub record Edge : Type 0 where
  pub node1_pub : Bytes
  pub node2_pub : Bytes

-- What trackInvoice reads of an invoice: the channels of its HTLCs, and the nodes of its route hints.
pub data InvoiceState : Type 0 where
  open_invoice settled canceled accepted : InvoiceState

pub record Invoice : Type 0 where
  pub state : InvoiceState
  pub r_hash : Bytes
  pub r_preimage : Bytes
  pub htlcs : List ℕ
  pub route_hints : List (List Bytes)
  pub creation_date : ℕ
  pub expiry : ℕ

-- The calls of the node.
pub data Call : Type 0 where
  settle_invoice cancel_invoice : Bytes → Call

abbrev cached : ℕ → List (ℕ × Edge) → Option Edge
cached id [] = none
cached id ((j, edge) ∷ edges) = if j == id then some edge else cached id edges

-- The `break` leaves only the loop over one hint's hops: the flag stays set.
unfoldable pub hop_trusts : Edge → List Bytes → Bool
hop_trusts edge [] = false
hop_trusts edge (node ∷ hops) =
    (bytes_eq node edge.node1_pub || bytes_eq node edge.node2_pub) || hop_trusts edge hops

unfoldable pub hints_trust : Edge → Bool → List (List Bytes) → Bool
hints_trust edge trusted [] = trusted
hints_trust edge trusted (hops ∷ hints) = hints_trust edge (trusted || hop_trusts edge hops) hints

-- `is_fake` tells lnd's fake short channel ids, and `get_chan_info` is the node's answer.
module _ (is_fake : ℕ → Bool) (get_chan_info : ℕ → Option Edge) where
  -- The edge of a channel with the new cache; `none` is the error.
  unfoldable pub fetch_edge : ℕ → List (ℕ × Edge) → Option (Edge × List (ℕ × Edge))
  fetch_edge id edges = elim (cached id edges) [
    | some edge ↦ some (edge, edges)
    | none ↦ elim (get_chan_info id) [ none ↦ none | some edge ↦ some (edge, (id, edge) ∷ edges) ]
  ]

  -- The loop over the HTLCs; `continue` skips a channel that the node does not know.
  unfoldable pub channels_trusted : List (List Bytes) → Bool → List (ℕ × Edge) → List ℕ → Bool
  channels_trusted hints all edges [] = all
  channels_trusted hints all edges (id ∷ htlcs) = elim (is_fake id) [
    | false ↦ channels_trusted hints all edges htlcs
    | true ↦ elim (fetch_edge id edges) [
      | none ↦ channels_trusted hints all edges htlcs
      | some (edge, known) ↦
          channels_trusted hints (all && hints_trust edge false hints) known htlcs
    ]
  ]

  module _ (s : Bolt Bucket Error) where
    open s use {Tx}

    -- One round of the loop on an invoice that is received at the time `now`: the calls of the node, the
    -- database, and whether the loop goes on.
    pub on_received : ℕ → Invoice → Tx → List Call × Tx × Bool
    on_received now invoice t = elim invoice.state [
      | accepted ↦
          if channels_trusted invoice.route_hints true [] invoice.htlcs
          then (settle_invoice invoice.r_preimage ∷ [], t, false)
          else (cancel_invoice invoice.r_hash ∷ [], t, false)
      | other ↦
          if lt64 (add64 invoice.creation_date invoice.expiry) now
          then ([], (remove_zero_conf_hash s t invoice.r_hash).1, true)
          else ([], t, true)
    ]
