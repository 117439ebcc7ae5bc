-- ===== src/Db/Payments/History.antt =====
-- Histories of AddAccountPayment and AddChannelClosedPayment of db/payments.go.
use breez.Common.{ℕ, ◌+◌, ◌<◌, ◌^◌, ◌≢◌, List, [], ◌∷◌, length, All, arith}
use breez.Bolt.{Bolt, Codec}
use breez.Db.Basics.{Bucket, payments, Error}
use breez.Db.Payments.{PaymentInfo, add_account_payment, add_channel_closed_payment}
use breez.Db.Payments.Index.{Sound}
use breez.Db.Payments.Keeps.{Keeps, add_account_payment-Keeps}
use breez.Db.Payments.KeepsClosed.{add_channel_closed_payment-Keeps}

-- A call, with its arguments.
pub data Addition : Type 0 where
  settles : PaymentInfo → ℕ → ℕ → Addition
  closes : PaymentInfo → Addition

-- A channel point is not as long as an id.
abbrev pub IsLong : Addition → Type 0
IsLong (settles p received_index sent_time) = Unit {0}
IsLong (closes p) = length p.closed_channel_point ≢ 8

module _ (s : Bolt Bucket Error) (json : Codec Error PaymentInfo) where
  open s use {Tx, sequence}

  -- The contents after a call, whatever it answered.
  pub after : Addition → Tx → Tx
  after (settles p received_index sent_time) t =
      (add_account_payment s json p received_index sent_time t).1
  after (closes p) t = (add_channel_closed_payment s json p t).1

  pub after_all : List Addition → Tx → Tx
  after_all [] t = t
  after_all (a ∷ calls) t = after_all calls (after a t)

  after-Keeps :
      (a : Addition) (t : Tx)
      → IsLong a
      → Sound s json t
      → sequence t payments + 1 < 2 ^ 64
      → Keeps s json t (after a t)
  unfolding after
  after-Keeps (settles p received_index sent_time) t long sound room =
      (add_account_payment-Keeps s json p received_index sent_time t sound room).0
  after-Keeps (closes p) t long sound room =
      add_channel_closed_payment-Keeps s json p t long sound room

  -- After any history of settled payments and closed channels, failed calls among them, the indexes
  -- by hash and by channel point lead to records and no record is above the sequence, if this was so
  -- before, the ids do not run out, and no channel point is as long as an id.
  pub after_all-Sound :
      (calls : List Addition) (t : Tx)
      → All IsLong calls
      → sequence t payments + length calls < 2 ^ 64
      → Sound s json t
      → Sound s json (after_all calls t)
  unfolding after_all
  after_all-Sound [] t long room sound = sound
  after_all-Sound (a ∷ calls) t long room sound =
      let (sound', grows) = after-Keeps a t long.0 sound (omega (arith, room)) in
      after_all-Sound calls (after a t) long.1 (omega (arith, room, grows)) sound'
