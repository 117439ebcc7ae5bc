-- ===== src/Db/Basics.antt =====
-- db/db.go: the buckets, opening the database, single items, and integers as keys.
pub mod Keys
pub mod Items
pub mod Buckets
use breez.Common.{
  ℕ, zero, suc, ◌+◌, ◌-◌, ◌*◌, ◌/◌, ◌%◌, ◌^◌, ◌≡◌, Bool, true, false, ◌&&◌, Option, none, some,
  List, [], ◌∷◌, Bytes, codes, length, bytes_eq, ltb, ◌==◌, if◌then◌else◌, Result, ok, err, ◌>>=◌,
}
use breez.Bolt.{Bolt, update}

-- The buckets, under the names of their Go constants; payments_sync_info is nested in payments.
pub data Bucket : Type 0 where
  version incoming_pay_req keysend_tip_messag payment_group : Bucket
  addresses swap_addresses_by_hash redeemable_hashes : Bucket
  payments payments_hash payments_sync_info account closed_channels : Bucket
  encrypted_sessions network syncstatus reverse_swap zero_conf_invoices : Bucket
  lnurl_auth lnurl_pay : Bucket

unfoldable pub Bucket-discrete : Discrete Bucket
Bucket-discrete = hlevel

-- `panicked` is a Go panic: bbolt rolls the transaction back then too.
pub data Error : Type 0 where
  store_failed codec_failed : ℕ → Error
  must_have_payment_hash panicked : Error
  payment_doesnt_exist success_action_exists : Bytes → Error

-- binary.BigEndian.PutUint64 and Uint64
unfoldable pub itob : ℕ → Bytes
itob v =
    v / 2 ^ 56 % 256
    ∷ v / 2 ^ 48 % 256
    ∷ v / 2 ^ 40 % 256
    ∷ v / 2 ^ 32 % 256
    ∷ v / 2 ^ 24 % 256
    ∷ v / 2 ^ 16 % 256
    ∷ v / 2 ^ 8 % 256
    ∷ v % 256
    ∷ []

unfoldable pub btoi : Bytes → Result Error ℕ
btoi (b0 ∷ b1 ∷ b2 ∷ b3 ∷ b4 ∷ b5 ∷ b6 ∷ b7 ∷ _) =
    ok (((((((b0 * 256 + b1) * 256 + b2) * 256 + b3) * 256 + b4) * 256 + b5) * 256 + b6) * 256 + b7)
btoi _ = err panicked

-- The order in which openDB creates the buckets.
abbrev pub all_buckets : List Bucket
all_buckets =
    incoming_pay_req ∷ keysend_tip_messag ∷ payment_group ∷ payments ∷ payments_sync_info ∷ account
    ∷ addresses ∷ swap_addresses_by_hash ∷ version ∷ redeemable_hashes ∷ payments_hash
    ∷ encrypted_sessions ∷ network ∷ syncstatus ∷ reverse_swap ∷ closed_channels
    ∷ zero_conf_invoices ∷ lnurl_auth ∷ lnurl_pay ∷ []

abbrev pub peers_key : Bytes
peers_key = codes "peers"

module _ (s : Bolt Bucket Error) where
  open s use {Tx, read, put, delete, create_bucket}

  unfoldable pub save_item : Tx → Bucket → Bytes → Bytes → Result Error (Unit {0}) × Tx
  save_item t bucket key value = update s t (λ t. put t bucket key value >>= λ u. ok (tt, u))

  unfoldable pub delete_item : Tx → Bucket → Bytes → Result Error (Unit {0}) × Tx
  delete_item t bucket key = update s t (λ t. delete t bucket key >>= λ u. ok (tt, u))

  -- A view: its error is always nil.
  unfoldable pub fetch_item : Tx → Bucket → Bytes → Option Bytes
  fetch_item t bucket key = read t bucket key

  unfoldable pub create_all : List Bucket → Tx → Result Error Tx
  create_all [] t = ok t
  create_all (b ∷ bs) t = create_bucket t b >>= create_all bs
