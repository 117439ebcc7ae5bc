-- ===== src/Account/AddInvoice/Stored.antt =====
-- What AddInvoice of account/payments.go returns, stores and tells the LSP.
use breez.Common.{
  ℕ, ◌+◌, ◌-◌, ◌*◌, ◌/◌, ◌^◌, ◌≤◌, ◌<◌, ◌≡◌, ◌⊎◌, inl, inr, refl, sym, ap, ◌∙◌, Bool, true, false,
  List, [], ◌∷◌, ◌++◌, Option, none, some, Bytes, bytes_eq→eq, Bool-cases, ok, err, Result-cases,
  ok-injective, arith,
}
use breez.Common.Int64.{sub64, div64, sub64-eq, div64-eq}
use breez.Bolt.{Bolt}
use breez.Db.Basics.{Bucket, Error}
use breez.Db.AccountState.{fetch_zero_conf_invoice}
use breez.Db.AccountState.Enabled.{zero_conf-tracked}
use breez.Account.AddInvoice.{
  LspInformation, InvoiceRequest, Call, register_payment, Node, Plan, make_plan,
}
use breez.Account.AddInvoice.Issue.{
  Outcome, next, is_stored, payee_invoice, lsp_invoice, fee_of, complete, issue, add_invoice,
}
use breez.Account.AddInvoice.Fees.{channel_fee, make_plan-IsPriced}

module _ {E : Type 0} (s : Bolt Bucket Error) (node : Node E) where
  open s use {Tx}

  next-eq-ok :
      {A B : Type 0} (m : Outcome s node A) (f : A → Tx → List Call → Outcome s node B) {b : B}
      → (next s node m f).0 ≡ ok b
      → (a : A) × (m.0 ≡ ok a) × (next s node m f ≡ f a m.1 m.2)
  next-eq-ok (err e, t, calls) f h = cc
  next-eq-ok (ok a, t, calls) f h = (a, refl, refl)

  is_stored-eq :
      (o : Option Bytes) (whole : Bytes) → is_stored s node o whole ≡ true → o ≡ some whole
  is_stored-eq none whole h = cc
  is_stored-eq (some known) whole h = ap some (bytes_eq→eq known whole h)

  -- The LSP is told of the invoice and it is remembered, or it was remembered before.
  abbrev pub IsTold : Plan → Bytes → Bytes → Tx → List Call → Tx → List Call → Type 0
  IsTold plan whole hash t before u calls =
      (fetch_zero_conf_invoice s u hash ≡ some whole)
      × (((address : Bytes) × (calls
              ≡ before
                ++ (register_payment hash address plan.amount_msat plan.small_amount_msat
                      plan.lsp.id
                    ∷ [])))
          ⊎ ((u ≡ t) × (calls ≡ before)))

  lsp_invoice-IsTold :
      (plan : Plan) (payreq hash : Bytes) (t : Tx) (calls : List Call) {whole : Bytes}
      → let r = lsp_invoice s node plan (payreq, hash) t calls in
        r.0 ≡ ok whole → IsTold plan whole hash t calls r.1 r.2
  unfolding lsp_invoice
  lsp_invoice-IsTold plan payreq hash t calls {whole} h =
      elim (Result-cases (node.with_new_amount payreq plan.amount_msat)) [
        | inr (e, failed) ↦ cc (rw (failed, lsp_invoice) at h)
        | inl ((made, address), signed) ↦
            elim (Bool-cases (is_stored s node (fetch_zero_conf_invoice s t hash) made)) [
              | inl known ↦
                  let same = ok-injective (rw (signed, known, lsp_invoice) at h) in
                  rw (signed, known, lsp_invoice)
                    (rw (← same) (is_stored-eq _ made known), inr (refl, refl))
              | inr fresh ↦ elim (Result-cases (node.register hash)) [
                | inr (e, refused) ↦ cc (rw (signed, fresh, refused, lsp_invoice) at h)
                | inl (_, told) ↦ elim (zero_conf-tracked s t hash made).0 [
                  | inl (e, failed) ↦ cc (rw (signed, fresh, told, failed, lsp_invoice) at h)
                  | inr (_, u, saved, holds) ↦
                      let same = ok-injective (rw (signed, fresh, told, saved, lsp_invoice) at h) in
                      rw (signed, fresh, told, saved, lsp_invoice)
                        (rw (← same) holds.0, inl (address, refl))
                ]
              ]
            ]
      ]

  complete-cases :
      (need : Bool) (plan : Plan) (payreq hash : Bytes) (t : Tx) (calls : List Call) {whole : Bytes}
      {fee : ℕ}
      → let r = complete s node need plan payreq hash t calls in
        r.0 ≡ ok (whole, fee)
        → (fee ≡ fee_of s node plan)
          × (((need ≡ false) × (whole ≡ payreq) × (r.1 ≡ t) × (r.2 ≡ calls))
              ⊎ ((need ≡ true) × IsTold plan whole hash t calls r.1 r.2))
  unfolding complete
  complete-cases false plan payreq hash t calls h =
      let same = ok-injective h in
      (
        sym (ap (λ (p : Bytes × ℕ). p.1) same),
        inl (refl, sym (ap (λ (p : Bytes × ℕ). p.0) same), refl, refl),
      )
  complete-cases true plan payreq hash t calls {whole} h =
      let (made, succeeded, e) = next-eq-ok (lsp_invoice s node plan (payreq, hash) t calls) _ h in
      let same = ok-injective (rw e at h) in
      let told = lsp_invoice-IsTold plan payreq hash t calls succeeded in
      (
        sym (ap (λ (p : Bytes × ℕ). p.1) same),
        inr (refl, rw e (rw (← ap (λ (p : Bytes × ℕ). p.0) same) told)),
      )

  pub issue-IsTold :
      (request : InvoiceRequest) (plan : Plan) (t : Tx) {payreq : Bytes} {fee : ℕ}
      → let r = issue s node request plan t in
        r.0 ≡ ok (payreq, fee)
        → (own : Bytes) × (hash : Bytes) × let before = payee_invoice s node request plan t [] in
            (before.0 ≡ ok (own, hash))
            × (fee ≡ fee_of s node plan)
            × (((plan.need_open_channel ≡ false)
                  × (payreq ≡ own)
                  × (r.1 ≡ before.1)
                  × (r.2 ≡ before.2))
                ⊎ ((plan.need_open_channel ≡ true)
                    × IsTold plan payreq hash before.1 before.2 r.1 r.2))
  unfolding issue
  issue-IsTold request plan t h =
      let ((own, hash), made, e) = next-eq-ok (payee_invoice s node request plan t []) _ h in
      let (_, u, calls) = payee_invoice s node request plan t [] in
      let done = complete-cases plan.need_open_channel plan own hash u calls (rw e at h) in
      (own, hash, rw e (made, done.0, done.1))

  whole_fee : (plan : Plan) → plan.small_amount_msat ≡ plan.amount_msat → fee_of s node plan ≡ 0
  unfolding sub64 div64
  whole_fee plan h = rw h (ground arith)

  channel_fee_of :
      (plan : Plan) (fee amount : ℕ)
      → amount < 2 ^ 62
      → plan.amount_msat ≡ amount
      → plan.small_amount_msat + fee ≡ amount
      → fee_of s node plan ≡ fee / 1000
  channel_fee_of plan fee amount small e h =
      rw (sub64-eq plan.amount_msat plan.small_amount_msat (omega arith) (omega arith)) (
        div64-eq (plan.amount_msat - plan.small_amount_msat) 1000 (omega arith)
        ∙ ap (λ (d : ℕ). d / 1000) (omega arith))

  -- If none of the products overflows, a successful AddInvoice returns the fee 0 if a channel can receive the
  -- amount; else the amount, less the LSP's fee, is at least one satoshi, and the fee is returned in whole
  -- satoshis.
  pub add_invoice-fee :
      (request : InvoiceRequest) (lsp : LspInformation) (max_receive : ℕ) (t : Tx) {payreq : Bytes}
      {fee : ℕ}
      → request.lsp_info ≡ some lsp
      → node.max_receive ≡ ok max_receive
      → max_receive * 1000 < 2 ^ 62
      → request.amount * 1000 < 2 ^ 62
      → request.amount * lsp.channel_fee_permyriad * 1000 < 2 ^ 62
      → lsp.channel_minimum_fee_msat < 2 ^ 62
      → (add_invoice s node request t).0 ≡ ok (payreq, fee)
      → ((request.amount ≤ max_receive) × (fee ≡ 0))
        ⊎ ((max_receive < request.amount)
            × (channel_fee lsp request.amount + 1000 ≤ request.amount * 1000)
            × (fee ≡ channel_fee lsp request.amount / 1000))
  unfolding add_invoice
  add_invoice-fee request lsp max_receive t has_lsp can small_max small small_fee small_least h =
      elim (Result-cases (make_plan node request)) [
        | inr (e, failed) ↦ cc (rw (failed, add_invoice) at h)
        | inl (plan, made) ↦
            let priced =
              make_plan-IsPriced node request lsp max_receive has_lsp can small_max small small_fee
                small_least made in
            let (_, _, (_, fee_is, _)) =
              issue-IsTold request plan t (rw (made, add_invoice) at h) in
            elim priced.1 [
              | inl (enough, _, whole) ↦
                  inl (enough, fee_is ∙ whole_fee plan (whole ∙ sym priced.0))
              | inr (more, _, parts, left) ↦
                  let fee = channel_fee lsp request.amount in
                  inr (
                    more,
                    omega (arith, parts, left),
                    fee_is ∙ channel_fee_of plan fee (request.amount * 1000) small priced.0 parts,
                  )
            ]
      ]
