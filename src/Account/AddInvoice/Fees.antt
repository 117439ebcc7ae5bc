-- ===== src/Account/AddInvoice/Fees.antt =====
-- The fee of AddInvoice in account/payments.go.
use breez.Common.{
  ℕ, ◌+◌, ◌-◌, ◌*◌, ◌/◌, ◌^◌, ◌≤◌, ◌<◌, ◌≡◌, ◌⊎◌, inl, inr, refl, ap, ◌∙◌, true, false, List, [],
  ◌∷◌, some, max, ltb, if◌then◌else◌, Bool-cases, Result, ok, err, ◌>>=◌, Result-cases,
  ok-injective, arith,
}
use breez.Common.Int64.{add64, sub64, mul64, div64, lt64, add64-eq, sub64-eq, mul64-eq, lt64-eq}
use breez.Bolt.Transactions.{>>=-eq-ok}
use breez.Account.AddInvoice.{
  LspInformation, InvoiceRequest, Failure, Node, Plan, from_node, channel_fees_msat,
  open_channel_plan, open_channels_plan, make_plan, routed, HopHint,
}

-- The fee for a channel in thousandths of a satoshi.
abbrev pub channel_fee : LspInformation → ℕ → ℕ
channel_fee lsp amount =
    max (amount * lsp.channel_fee_permyriad / 10_000 * 1_000) lsp.channel_minimum_fee_msat

whole_satoshis :
    (y : ℕ) → y < 2 ^ 62 → mul64 (div64 (div64 y 10_000) 1_000) 1_000 ≡ y / 10_000 / 1_000 * 1_000
unfolding mul64 div64
whole_satoshis y h = ground arith

max_by_test : (a b : ℕ) → (if ltb a b then b else a) ≡ max a b
max_by_test a b = ground arith

channel_fees_msat-eq :
    (lsp : LspInformation) (amount : ℕ)
    → amount * lsp.channel_fee_permyriad * 1000 < 2 ^ 62
    → lsp.channel_minimum_fee_msat < 2 ^ 62
    → channel_fees_msat lsp (amount * 1000) ≡ channel_fee lsp amount
unfolding channel_fees_msat
channel_fees_msat-eq lsp amount h k =
    let x = amount * lsp.channel_fee_permyriad in
    let least = lsp.channel_minimum_fee_msat in
    let whole : amount * 1000 * lsp.channel_fee_permyriad ≡ x * 1000 = grind arith in
    let product : mul64 (amount * 1000) lsp.channel_fee_permyriad ≡ x * 1000 =
      mul64-eq (amount * 1000) lsp.channel_fee_permyriad (omega (arith, whole)) ∙ whole in
    let share : x * 1000 / 10_000 / 1_000 * 1_000 ≡ x / 10_000 * 1_000 = omega arith in
    rw
      (
        product,
        whole_satoshis (x * 1000) h,
        share,
        lt64-eq (x / 10_000 * 1_000) least (omega arith) (omega arith),
      )
      (max_by_test (x / 10_000 * 1_000) least)

module _ {E : Type 0} (node : Node E) where
  -- What a plan says of the amounts: the whole amount reaches the user over open channels, or it is more
  -- than a channel can receive, and the LSP's fee is taken, which leaves at least one satoshi.
  abbrev pub IsPriced : LspInformation → ℕ → ℕ → Plan → Type 0
  IsPriced lsp amount max_receive plan =
      (plan.amount_msat ≡ amount * 1000)
      × (((amount ≤ max_receive)
            × (plan.need_open_channel ≡ false)
            × (plan.small_amount_msat ≡ amount * 1000))
          ⊎ ((max_receive < amount)
              × (plan.need_open_channel ≡ true)
              × (plan.small_amount_msat + channel_fee lsp amount ≡ amount * 1000)
              × (1000 ≤ plan.small_amount_msat)))

  routed_with :
      (made plan : Plan) (hints : List HopHint)
      → made.hints ≡ hints
      → routed node made ≡ ok plan
      → made ≡ plan
  routed_with made plan [] e h = cc (rw (e, routed) at h)
  routed_with made plan (hint ∷ hints) e h = ok-injective (rw (e, routed) at h)

  routed-eq :
      (m : Result (Failure E) Plan) {plan : Plan} → (m >>= routed node) ≡ ok plan → m ≡ ok plan
  routed-eq (err e) h = cc
  routed-eq (ok made) {plan} h = ap ok (routed_with made plan made.hints refl h)

  open_channel_plan-eq :
      (lsp : LspInformation) (amount : ℕ) {plan : Plan}
      → amount * 1000 < 2 ^ 62
      → amount * lsp.channel_fee_permyriad * 1000 < 2 ^ 62
      → lsp.channel_minimum_fee_msat < 2 ^ 62
      → open_channel_plan node lsp (amount * 1000) ≡ ok plan
      → (plan.amount_msat ≡ amount * 1000)
        × (plan.need_open_channel ≡ true)
        × (plan.small_amount_msat + channel_fee lsp amount ≡ amount * 1000)
        × (1000 ≤ plan.small_amount_msat)
  unfolding open_channel_plan
  open_channel_plan-eq lsp amount {plan} small small_fee small_least h =
      let fee = channel_fee lsp amount in
      let sum : add64 fee 1000 ≡ fee + 1000 = add64-eq fee 1000 (omega arith) in
      let compared : lt64 (amount * 1000) (fee + 1000) ≡ ltb (amount * 1000) (fee + 1000) =
        lt64-eq (amount * 1000) (fee + 1000) (omega arith) (omega arith) in
      let h' = rw (channel_fees_msat-eq lsp amount small_fee small_least, sum, compared) at h in
      elim (Bool-cases (ltb (amount * 1000) (fee + 1000))) [
        | inl less ↦ cc (rw less at h')
        | inr enough ↦
            let left : sub64 (amount * 1000) fee ≡ amount * 1000 - fee =
              sub64-eq (amount * 1000) fee (ground (arith, enough)) (omega arith) in
            let same = ok-injective (rw (enough, left) at h') in
            rw (← same) (refl, refl, ground (arith, enough), ground (arith, enough))
      ]

  open_channels_plan-eq :
      (lsp : LspInformation) (amount_msat : ℕ) {plan : Plan}
      → open_channels_plan node lsp amount_msat ≡ ok plan
      → (plan.amount_msat ≡ amount_msat)
        × (plan.need_open_channel ≡ false)
        × (plan.small_amount_msat ≡ amount_msat)
  unfolding open_channels_plan from_node
  open_channels_plan-eq lsp amount_msat h = elim (Result-cases node.private_channels) [
    | inr (e, failed) ↦ cc (rw (failed, open_channels_plan) at h)
    | inl (channels, listed) ↦
        let same = ok-injective (rw (listed, open_channels_plan) at h) in
        rw (← same) (refl, refl, refl)
  ]

  -- A plan is made only for amounts that leave a satoshi after the fee, if none of the products that it
  -- takes overflows: the request has an LSP, the node tells what a channel can receive, and then the
  -- whole amount is asked for if a channel can receive it, else the amount less the LSP's fee.
  pub make_plan-IsPriced :
      (request : InvoiceRequest) (lsp : LspInformation) (max_receive : ℕ) {plan : Plan}
      → request.lsp_info ≡ some lsp
      → node.max_receive ≡ ok max_receive
      → max_receive * 1000 < 2 ^ 62
      → request.amount * 1000 < 2 ^ 62
      → request.amount * lsp.channel_fee_permyriad * 1000 < 2 ^ 62
      → lsp.channel_minimum_fee_msat < 2 ^ 62
      → make_plan node request ≡ ok plan
      → IsPriced lsp request.amount max_receive plan
  unfolding make_plan from_node
  make_plan-IsPriced request lsp max_receive {plan} has_lsp can small_max small small_fee
        small_least h =
      let (_, _, rest) =
        >>=-eq-ok
          (if lt64 max_receive request.amount
            then ok tt
            else from_node node node.wait_ready_for_payment)
          _ (rw (can, has_lsp, make_plan) at h) in
      let compared : lt64 (mul64 max_receive 1000) (mul64 request.amount 1000)
          ≡ ltb (max_receive * 1000) (request.amount * 1000) =
        rw (mul64-eq max_receive 1000 (omega arith), mul64-eq request.amount 1000 (omega arith))
          (lt64-eq (max_receive * 1000) (request.amount * 1000) (omega arith) (omega arith)) in
      let made = routed-eq _ rest in
      let made' = rw (compared, mul64-eq request.amount 1000 (omega arith)) at made in
      elim (Bool-cases (ltb (max_receive * 1000) (request.amount * 1000))) [
        | inl more ↦
            let priced =
              open_channel_plan-eq lsp request.amount small small_fee small_least
                (rw more at made') in
            (priced.0, inr (ground (arith, more), priced.1, priced.2, priced.3))
        | inr enough ↦
            let priced = open_channels_plan-eq lsp (request.amount * 1000) (rw enough at made') in
            (priced.0, inl (ground (arith, enough), priced.1, priced.2))
      ]
