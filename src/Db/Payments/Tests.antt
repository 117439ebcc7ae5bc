-- ===== src/Db/Payments/Tests.antt =====
-- Runs of db/payments.go on a database in memory, and its theorems on them.
use breez.Common.{◌≡◌, ◌⊎◌, refl, true, false, some, List, [], ◌∷◌, Bytes, codes, ok, err, arith}
use breez.Bolt.Memory.{memory, write, erase, advance, try_put, replace, set_cell, drop_cell}
use breez.Db.Basics.{Bucket-discrete, Error, must_have_payment_hash, itob, btoi}
use breez.Db.Samples.{store, empty_store, payment, payment_codec}
use breez.Db.Payments.{
  PaymentInfo, choose_id, index_hash, add_payment, has_account_payment, raise_sync_info,
  add_account_payment_body, add_account_payment, fetch_closed_channel_payment, is_skipped,
  with_first_time, write_closed, add_channel_closed_payment_body, add_channel_closed_payment,
}
use breez.Db.Payments.Settled.{
  Known, Recorded, add_account_payment-cases, add_account_payment-again,
}
use breez.Db.Payments.Index.{Sound}
use breez.Db.Payments.Keeps.{Keeps, Extends, add_account_payment-Keeps}
use breez.Db.Payments.History.{Addition, settles, closes, after_all, after_all-Sound}
use breez.Db.Payments.Closed.{Succeeds, add_channel_closed_payment-Succeeds}

abbrev settled : PaymentInfo
settled = payment 0 40 (codes "hash") [] []

abbrev point : Bytes
point = codes "0123456789:1"

abbrev waiting : PaymentInfo
waiting = payment 1 30 [] point []

abbrev closed : PaymentInfo
closed = payment 2 50 [] point []

abbrev with_settled : store.Tx
with_settled = (add_account_payment store payment_codec settled 3 40 empty_store).1

abbrev with_waiting : store.Tx
with_waiting = (add_channel_closed_payment store payment_codec waiting empty_store).1

abbrev with_closed : store.Tx
with_closed = (add_channel_closed_payment store payment_codec closed with_waiting).1

settled_is_new :
    add_account_payment store payment_codec settled 3 40 empty_store ≡ (ok false, with_settled)
unfolding add_account_payment add_account_payment_body has_account_payment add_payment choose_id
    index_hash raise_sync_info write erase advance try_put replace set_cell drop_cell memory
    Bucket-discrete empty_store itob btoi
settled_is_new = refl

waiting_is_found :
    fetch_closed_channel_payment store payment_codec with_waiting point ≡ ok (some (waiting, 1))
unfolding fetch_closed_channel_payment add_channel_closed_payment add_channel_closed_payment_body
    write_closed add_payment choose_id index_hash write erase advance try_put replace set_cell
    drop_cell memory Bucket-discrete empty_store itob btoi
waiting_is_found = refl

closed_is_added :
    add_channel_closed_payment store payment_codec closed with_waiting ≡ (ok tt, with_closed)
unfolding fetch_closed_channel_payment is_skipped with_first_time add_channel_closed_payment
    add_channel_closed_payment_body write_closed add_payment choose_id index_hash write erase
    advance try_put replace set_cell drop_cell memory Bucket-discrete empty_store itob btoi
closed_is_added = refl

add_account_payment-cases_example :
    ((e : Error) × (add_account_payment store payment_codec settled 3 40 empty_store
        ≡ (err e, empty_store)))
    ⊎ (Known store payment_codec settled empty_store
        × (add_account_payment store payment_codec settled 3 40 empty_store
            ≡ (ok true, empty_store)))
    ⊎ ((u : store.Tx) × Recorded store payment_codec settled 3 40 empty_store u
        × (add_account_payment store payment_codec settled 3 40 empty_store ≡ (ok false, u)))
add_account_payment-cases_example =
    add_account_payment-cases store payment_codec settled 3 40 empty_store (omega arith)
      (omega arith)

add_account_payment-again_example :
    (add_account_payment store payment_codec settled 9 90 with_settled ≡ (ok true, with_settled))
    × ((r : PaymentInfo)
        → r.payment_hash ≡ []
        → add_account_payment store payment_codec r 9 90 with_settled
          ≡ (err must_have_payment_hash, with_settled))
unfolding memory
add_account_payment-again_example =
    add_account_payment-again store payment_codec settled settled 3 40 9 90 empty_store with_settled
      (omega arith) (omega arith) settled_is_new refl refl

add_channel_closed_payment-Succeeds_example :
    (new : PaymentInfo) × (fetch_closed_channel_payment store payment_codec with_closed point
      ≡ ok (some (new, 1)))
    × Succeeds store payment_codec waiting new
unfolding with_first_time
add_channel_closed_payment-Succeeds_example =
    add_channel_closed_payment-Succeeds store payment_codec closed waiting 1 with_waiting
      with_closed (λ e. omega (arith, e)) (λ e. omega (arith, e)) (omega arith) refl
      waiting_is_found closed_is_added

empty_store-Sound : Sound store payment_codec empty_store
unfolding memory empty_store
empty_store-Sound = record {
  hashes = λ hash key e. cc;
  closed = λ point key e. cc;
  unused = λ id fits above. refl;
}

add_account_payment-Keeps_example :
    let u = (add_account_payment store payment_codec settled 3 40 empty_store).1 in
    Keeps store payment_codec empty_store u × Extends store payment_codec empty_store u
unfolding memory empty_store
add_account_payment-Keeps_example =
    add_account_payment-Keeps store payment_codec settled 3 40 empty_store empty_store-Sound
      (omega arith)

abbrev additions : List Addition
additions = settles settled 3 40 ∷ closes waiting ∷ closes closed ∷ settles settled 4 50 ∷ []

after_all-Sound_example :
    Sound store payment_codec (after_all store payment_codec additions empty_store)
unfolding memory empty_store
after_all-Sound_example =
    after_all-Sound store payment_codec additions empty_store
      (tt, ((λ e. omega (arith, e)), ((λ e. omega (arith, e)), (tt, tt)))) (omega arith)
      empty_store-Sound
