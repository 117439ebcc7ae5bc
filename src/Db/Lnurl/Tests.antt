-- ===== src/Db/Lnurl/Tests.antt =====
-- Runs of db/lnurlauth.go, and the theorems on it and db/lnurlpay.go, for a database in memory.
use breez.Common.{◌≡◌, refl, some, Bytes, codes, ok, err}
use breez.Bolt.{Codec}
use breez.Bolt.Memory.{memory, keyed, write, erase, try_put, replace, set_cell, drop_cell}
use breez.Db.Basics.{Bucket-discrete, Error, lnurl_pay, success_action_exists, store_failed}
use breez.Db.Basics.Items.{AllOrNothing}
use breez.Db.Samples.{store, empty_store}
use breez.Db.Lnurl.{fetch_lnurl_auth_key, save_lnurl_pay_info}
use breez.Db.Lnurl.Once.{Saved, fetch_lnurl_auth_key-once, save_lnurl_pay_info-AllOrNothing}

-- An info is its payment hash.
abbrev info_codec : Codec Error Bytes
info_codec = keyed (λ b. b) (λ b. b)

abbrev with_key : store.Tx
with_key = (fetch_lnurl_auth_key store empty_store (ok (codes "master"))).1

key_is_created :
    fetch_lnurl_auth_key store empty_store (ok (codes "master")) ≡ (ok (codes "master"), with_key)
unfolding fetch_lnurl_auth_key memory write erase try_put replace set_cell drop_cell Bucket-discrete
    empty_store
key_is_created = refl

fetch_lnurl_auth_key-once_example :
    fetch_lnurl_auth_key store with_key (err (store_failed 9)) ≡ (ok (codes "master"), with_key)
unfolding memory
fetch_lnurl_auth_key-once_example =
    fetch_lnurl_auth_key-once store empty_store with_key (codes "master") (ok (codes "master"))
      (err (store_failed 9)) key_is_created refl

save_lnurl_pay_info-AllOrNothing_example :
    AllOrNothing store empty_store
      (save_lnurl_pay_info store info_codec (λ b. b) empty_store (codes "hash"))
      (λ _ u. Saved store info_codec (λ b. b) (codes "hash") empty_store u)
    × ((old : Bytes)
        → store.read empty_store lnurl_pay (codes "hash") ≡ some old
        → save_lnurl_pay_info store info_codec (λ b. b) empty_store (codes "hash")
          ≡ (err (success_action_exists (codes "hash")), empty_store))
save_lnurl_pay_info-AllOrNothing_example =
    save_lnurl_pay_info-AllOrNothing store info_codec (λ b. b) empty_store (codes "hash") refl
