-- ===== src/Account/Invoice/Trust.antt =====
-- Which accepted invoices of account/invoice.go are settled.
use breez.Common.{
  ℕ, ◌≡◌, inl, inr, refl, ◌∙◌, Bool, true, false, not, ◌&&◌, ◌||◌, Option, none, some, List, [],
  ◌∷◌, Bytes, ◌==◌, ==_iff, if◌then◌else◌, Bool-cases, Option-cases, arith,
}
use breez.Bolt.{Bolt}
use breez.Db.Basics.{Bucket, Error}
use breez.Account.Invoice.{
  Edge, Invoice, accepted, cached, hop_trusts, hints_trust, fetch_edge, channels_trusted,
  settle_invoice, cancel_invoice, on_received,
}

-- A hop hint names one of the two ends of the channel.
abbrev pub names : Edge → List (List Bytes) → Bool
names edge [] = false
names edge (hops ∷ hints) = hop_trusts edge hops || names edge hints

hints_trust-names :
    (edge : Edge) (trusted : Bool) (hints : List (List Bytes))
    → hints_trust edge trusted hints ≡ (trusted || names edge hints)
unfolding hints_trust
hints_trust-names edge trusted [] = ground arith
hints_trust-names edge trusted (hops ∷ hints) =
    hints_trust-names edge (trusted || hop_trusts edge hops) hints ∙ ground arith

module _ (is_fake : ℕ → Bool) (get_chan_info : ℕ → Option Edge) where
  abbrev known_named : Option Edge → List (List Bytes) → Bool
  known_named none hints = true
  known_named (some edge) hints = names edge hints

  -- The HTLC's channel is no fake one, or the node does not know it, or a hint names one of its ends.
  abbrev pub is_harmless : List (List Bytes) → ℕ → Bool
  is_harmless hints id = not (is_fake id) || known_named (get_chan_info id) hints

  abbrev pub all_harmless : List (List Bytes) → List ℕ → Bool
  all_harmless hints [] = true
  all_harmless hints (id ∷ htlcs) = is_harmless hints id && all_harmless hints htlcs

  -- The cache holds the node's answers.
  abbrev IsCache : List (ℕ × Edge) → Type 0
  IsCache [] = Unit {0}
  IsCache ((id, edge) ∷ edges) = (get_chan_info id ≡ some edge) × IsCache edges

  cached-IsCache :
      (id : ℕ) (edges : List (ℕ × Edge)) {edge : Edge}
      → IsCache edges
      → cached id edges ≡ some edge
      → get_chan_info id ≡ some edge
  cached-IsCache id [] h e = cc
  cached-IsCache id ((j, known) ∷ edges) h e = elim (Bool-cases (j == id)) [
    | inl same ↦ rw (← (==_iff j id).0 same) (h.0 ∙ rw same at e)
    | inr other ↦ cached-IsCache id edges h.1 (rw other at e)
  ]

  step :
      (all : Bool) (edge : Edge) (hints : List (List Bytes)) (rest : Bool)
      → ((all && hints_trust edge false hints) && rest) ≡ (all && (names edge hints && rest))
  step all edge hints rest = rw (hints_trust-names edge false hints) (ground arith)

  channels_trusted-eq :
      (hints : List (List Bytes)) (all : Bool) (edges : List (ℕ × Edge)) (htlcs : List ℕ)
      → IsCache edges
      → channels_trusted is_fake get_chan_info hints all edges htlcs
        ≡ (all && all_harmless hints htlcs)
  unfolding channels_trusted fetch_edge
  channels_trusted-eq hints all edges [] h = ground arith
  channels_trusted-eq hints all edges (id ∷ htlcs) h = elim (Bool-cases (is_fake id)) [
    | inr plain ↦ rw (plain, channels_trusted) (channels_trusted-eq hints all edges htlcs h)
    | inl fake ↦ elim (Option-cases (cached id edges)) [
      | inr (edge, hit) ↦
          let info = cached-IsCache id edges h hit in
          rw (fake, hit, info, channels_trusted)
            (channels_trusted-eq hints (all && hints_trust edge false hints) edges htlcs h
              ∙ step all edge hints (all_harmless hints htlcs))
      | inl miss ↦ elim (Option-cases (get_chan_info id)) [
        | inl unknown ↦
            rw (fake, miss, unknown, channels_trusted) (channels_trusted-eq hints all edges htlcs h)
        | inr (edge, info) ↦
            rw (fake, miss, info, channels_trusted)
              (channels_trusted-eq hints (all && hints_trust edge false hints) ((id, edge) ∷ edges)
                  htlcs (info, h)
                ∙ step all edge hints (all_harmless hints htlcs))
      ]
    ]
  ]

  module _ (s : Bolt Bucket Error) where
    open s use {Tx}

    -- An accepted invoice ends the loop with one call and no change of the database: it is settled if each
    -- of its HTLCs came through a channel that is no fake one, or that the node does not know, or one of
    -- whose ends a route hint names; else it is cancelled.
    pub on_received-accepted :
        (now : ℕ) (invoice : Invoice) (t : Tx)
        → invoice.state ≡ accepted
        → on_received is_fake get_chan_info s now invoice t ≡ (
          (if all_harmless invoice.route_hints invoice.htlcs
                then settle_invoice invoice.r_preimage
                else cancel_invoice invoice.r_hash)
              ∷ [],
          t,
          false,
        )
    unfolding on_received
    on_received-accepted now invoice t h =
        let same = channels_trusted-eq invoice.route_hints true [] invoice.htlcs tt in
        elim (Bool-cases (all_harmless invoice.route_hints invoice.htlcs)) [
          | inl all ↦ rw (h, same, all, on_received) refl
          | inr some_foreign ↦ rw (h, same, some_foreign, on_received) refl
        ]
