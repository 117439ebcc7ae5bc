-- ===== src/Db/Lnurl.antt =====
-- db/lnurlpay.go and db/lnurlauth.go: what the lnurl protocols leave behind.
pub mod Once
mod Tests
use breez.Common.{ℕ, Bool, Option, none, some, List, [], ◌∷◌, Bytes, codes, Result, ok, err, ◌>>=◌}
use breez.Bolt.{Bolt, Codec, update}
use breez.Db.Basics.{Bucket, lnurl_auth, lnurl_pay, Error, success_action_exists}

abbrev pub auth_key : Bytes
auth_key = codes "key"

module _ (s : Bolt Bucket Error) where
  open s use {Tx, read, put, entries}

  -- `create_new` enters as its outcome.
  pub fetch_lnurl_auth_key : Tx → Result Error Bytes → Result Error Bytes × Tx
  fetch_lnurl_auth_key t create_new = update s t (λ t. elim (read t lnurl_auth auth_key) [
    | some key ↦ ok (key, t)
    | none ↦ do new_key ← create_new; u ← put t lnurl_auth auth_key new_key; ok (new_key, u)
  ])

  -- `Info` stands for data.LNUrlPayInfo, a generated type.
  module _ {Info : Type 0} (json : Codec Error Info) (payment_hash : Info → Bytes) where
    open json use {encode, decode}

    -- The error of Put is dropped.
    pub put_pay_info : Tx → Bytes → Bytes → Tx
    put_pay_info t hash buf = elim (put t lnurl_pay hash buf) [ ok u ↦ u | err _ ↦ t ]

    pub save_lnurl_pay_info : Tx → Info → Result Error (Unit {0}) × Tx
    save_lnurl_pay_info t info = update s t (λ t. elim (read t lnurl_pay (payment_hash info)) [
      | some _ ↦ err (success_action_exists (payment_hash info))
      | none ↦ do buf ← encode info; ok (tt, put_pay_info t (payment_hash info) buf)
    ])

    pub fetch_lnurl_pay_info : Tx → Bytes → Result Error (Option Info)
    fetch_lnurl_pay_info t hash = elim (read t lnurl_pay hash) [
      | none ↦ ok none
      | some v ↦ decode v >>= λ info. ok (some info)
    ]

    pub decode_infos : List (Bytes × Option Bytes) → Result Error (List Info)
    decode_infos [] = ok []
    decode_infos ((k, none) ∷ rest) = decode_infos rest
    decode_infos ((k, some v) ∷ rest) =
        decode v >>= λ info. decode_infos rest >>= λ infos. ok (info ∷ infos)

    pub fetch_all_lnurl_pay_infos : Tx → Result Error (List Info)
    fetch_all_lnurl_pay_infos t = decode_infos (entries t lnurl_pay)
