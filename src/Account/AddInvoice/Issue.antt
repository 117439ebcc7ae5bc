-- ===== src/Account/AddInvoice/Issue.antt =====
-- The second half of AddInvoice of account/payments.go: creating the invoice, registering it with the
-- LSP, and remembering it as a zero-conf invoice.
use breez.Common.{
  ℕ, Bool, true, false, Option, none, some, List, [], ◌∷◌, ◌++◌, Bytes, bytes_eq, length, ◌==◌,
  if◌then◌else◌, Result, ok, err,
}
use breez.Common.Int64.{sub64, div64, lt64}
use breez.Bolt.{Bolt}
use breez.Db.Basics.{Bucket, Error}
use breez.Db.AccountState.{add_zero_conf_hash, fetch_zero_conf_invoice}
use breez.Account.AddInvoice.{
  InvoiceRequest, Call, track_invoice, register_payment, Failure, node_failed, store_failed,
  bad_preimage, Node, Plan, default_invoice_expiry, make_plan,
}

module _ {E : Type 0} (s : Bolt Bucket Error) (node : Node E) where
  open s use {Tx}

  -- An answer with the database and the calls so far.
  abbrev pub Outcome : Type 0 → Type 0
  Outcome A = Result (Failure E) A × Tx × List Call

  abbrev pub next : {A B : Type 0} → Outcome A → (A → Tx → List Call → Outcome B) → Outcome B
  next (err e, t, calls) f = (err e, t, calls)
  next (ok a, t, calls) f = f a t calls

  abbrev pub stored : Result Error (Unit {0}) × Tx → List Call → Outcome (Unit {0})
  stored (err e, t) calls = (err (store_failed e), t, calls)
  stored (ok _, t) calls = (ok tt, t, calls)

  pub expiry_of : InvoiceRequest → ℕ
  expiry_of request = if lt64 0 request.expiry then request.expiry else default_invoice_expiry

  -- An invoice with the lower amount, which is remembered and tracked. An empty answer is none.
  unfoldable pub create_invoice : InvoiceRequest → Plan → Tx → List Call → Outcome (Bytes × Bytes)
  create_invoice request plan t calls =
      elim (node.new_invoice (record {
        r_preimage = request.preimage;
        memo = request.memo;
        value_msat = plan.small_amount_msat;
        expiry = expiry_of request;
        route_hints = plan.hints;
      })) [
        | err e ↦ (err (node_failed e), t, calls)
        | ok (payreq, hash) ↦
            next (stored (add_zero_conf_hash s t hash payreq) calls)
              (λ _ u calls. (ok (payreq, hash), u, calls ++ (track_invoice hash ∷ [])))
      ]

  -- The invoice of a given preimage is used again.
  unfoldable pub payee_invoice : InvoiceRequest → Plan → Tx → List Call → Outcome (Bytes × Bytes)
  payee_invoice request plan t calls = elim request.preimage [
    | none ↦ create_invoice request plan t calls
    | some preimage ↦
        if length preimage == 32
        then elim (node.lookup_invoice (node.hash_of preimage)) [
          | none ↦ create_invoice request plan t calls
          | some [] ↦ create_invoice request plan t calls
          | some (c ∷ payreq) ↦ (ok (c ∷ payreq, node.hash_of preimage), t, calls)
        ]
        else (err bad_preimage, t, calls)
  ]

  abbrev pub is_stored : Option Bytes → Bytes → Bool
  is_stored none payreq = false
  is_stored (some known) payreq = bytes_eq known payreq

  -- The invoice with the whole amount, of which the LSP is told unless it is stored already.
  unfoldable pub lsp_invoice : Plan → Bytes × Bytes → Tx → List Call → Outcome Bytes
  lsp_invoice plan (payreq, hash) t calls = elim (node.with_new_amount payreq plan.amount_msat) [
    | err e ↦ (err (node_failed e), t, calls)
    | ok (whole, address) ↦
        if is_stored (fetch_zero_conf_invoice s t hash) whole
        then (ok whole, t, calls)
        else elim (node.register hash) [
          | err e ↦ (err (node_failed e), t, calls)
          | ok _ ↦
              next
                (stored (add_zero_conf_hash s t hash whole) (
                  calls
                  ++ (register_payment hash address plan.amount_msat plan.small_amount_msat
                        plan.lsp.id
                      ∷ [])))
                (λ _ u calls. (ok whole, u, calls))
        ]
  ]

  -- The fee that AddInvoice returns, in satoshis.
  abbrev pub fee_of : Plan → ℕ
  fee_of plan = div64 (sub64 plan.amount_msat plan.small_amount_msat) 1000

  -- The part of AddInvoice under `if needOpenChannel`, and its return.
  unfoldable pub complete : Bool → Plan → Bytes → Bytes → Tx → List Call → Outcome (Bytes × ℕ)
  complete false plan payreq hash t calls = (ok (payreq, fee_of plan), t, calls)
  complete true plan payreq hash t calls =
      next (lsp_invoice plan (payreq, hash) t calls)
        (λ whole u calls. (ok (whole, fee_of plan), u, calls))

  unfoldable pub issue : InvoiceRequest → Plan → Tx → Outcome (Bytes × ℕ)
  issue request plan t =
      next (payee_invoice request plan t [])
        (λ (payreq, hash) u calls. complete plan.need_open_channel plan payreq hash u calls)

  unfoldable pub add_invoice : InvoiceRequest → Tx → Outcome (Bytes × ℕ)
  add_invoice request t = elim (make_plan node request) [
    | err e ↦ (err e, t, [])
    | ok plan ↦ issue request plan t
  ]
