-- ===== src/Db/ReverseSwap.antt =====
-- db/reverseswap.go: the reverse swaps under the hash of their preimage, and two transactions that
-- are still open. The records are generated protobuf types, so they are parameters with their codecs.
pub mod Stored
use breez.Common.{ℕ, ◌≡◌, Option, none, some, Bytes, codes, length, Result, ok, err, ◌>>=◌}
use breez.Bolt.{Bolt, Codec}
use breez.Db.Basics.{Bucket, reverse_swap, Error, save_item, delete_item, fetch_item}

abbrev pub unconfirmed_claim_transaction_key : Bytes
unconfirmed_claim_transaction_key = codes "unconfirmed_claim_transaction"

abbrev pub unspend_lockup_transaction_key : Bytes
unspend_lockup_transaction_key = codes "unspend_lockup_transaction"

-- encoding/hex and crypto/sha256.
pub record Hashing : Type 0 where
  pub sum256 : Bytes → Bytes
  pub encode_to_string : Bytes → Bytes
  pub decode_string : Bytes → Result Error Bytes
  pub length-sum256 : (b : Bytes) → length (sum256 b) ≡ 32
  pub decode-encode_sum : (b : Bytes) → decode_string (encode_to_string (sum256 b)) ≡ ok (sum256 b)

module _ (s : Bolt Bucket Error) where
  open s use {Tx}

  -- Save and fetch of a record that stands under one key; nil deletes it.
  module _ {A : Type 0} (proto : Codec Error A) where
    open proto use {encode, decode}

    pub save_at : Bytes → Tx → Option A → Result Error (Unit {0}) × Tx
    save_at key t none = delete_item s t reverse_swap key
    save_at key t (some a) = elim (encode a) [
      | err e ↦ (err e, t)
      | ok bytes ↦ save_item s t reverse_swap key bytes
    ]

    pub fetch_at : Bytes → Tx → Result Error (Option A)
    fetch_at key t = elim (fetch_item s t reverse_swap key) [
      | none ↦ ok none
      | some b ↦ decode b >>= λ a. ok (some a)
    ]

    -- With `A` a chainrpc.ConfRequest.
    pub save_unconfirmed_claim_transaction : Tx → Option A → Result Error (Unit {0}) × Tx
    save_unconfirmed_claim_transaction = save_at unconfirmed_claim_transaction_key

    pub fetch_unconfirmed_claim_transaction : Tx → Result Error (Option A)
    fetch_unconfirmed_claim_transaction = fetch_at unconfirmed_claim_transaction_key

    -- With `A` a data.UnspendLockupInformation.
    pub save_unspend_lockup_information : Tx → Option A → Result Error (Unit {0}) × Tx
    save_unspend_lockup_information = save_at unspend_lockup_transaction_key

    pub fetch_unspend_lockup_information : Tx → Result Error (Option A)
    fetch_unspend_lockup_information = fetch_at unspend_lockup_transaction_key

  -- `A` is a data.ReverseSwap.
  module _ {A : Type 0} (proto : Codec Error A) (preimage : A → Bytes) (hashing : Hashing) where
    open hashing use {sum256, encode_to_string, decode_string}

    -- The hash is returned also when the update fails; "" stands for none.
    pub save_reverse_swap : Tx → A → Bytes × (Result Error (Unit {0}) × Tx)
    save_reverse_swap t rs = elim (decode_string (preimage rs)) [
      | err e ↦ (codes "", (err e, t))
      | ok p ↦ elim (proto.encode rs) [
        | err e ↦ (codes "", (err e, t))
        | ok bytes ↦ (encode_to_string (sum256 p), save_item s t reverse_swap (sum256 p) bytes)
      ]
    ]

    pub fetch_reverse_swap : Tx → Bytes → Result Error (Option A)
    fetch_reverse_swap t hash = decode_string hash >>= λ h. fetch_at proto h t
