-- ===== src/Db/Network.antt =====
-- db/network.go: the peers to connect to and the url that tells whether an output is spent; and the
-- opening of the database in db/db.go, which drops a peer that is gone.
pub mod Peers
mod Tests
use breez.Common.{
  ℕ, suc, ◌≡◌, ◌≢◌, ◌⊎◌, inl, inr, refl, sym, ap, ◌∙◌, Bool, true, false, ◌&&◌, Option, none, some,
  List, [], ◌∷◌, Bytes, codes, bytes_eq, length, ltb, ◌==◌, if◌then◌else◌, Result, ok, err, ◌>>=◌,
}
use breez.Bolt.{Bolt, Codec, update}
use breez.Db.Basics.{
  Bucket, network, Error, all_buckets, peers_key, save_item, delete_item, fetch_item, create_all,
}

abbrev pub tx_spent_url_key : Bytes
tx_spent_url_key = codes "txspenturl"

abbrev pub gone_peer : Bytes
gone_peer = codes "bb1.breez.technology"

-- A value that `fetch_item` returns, with nil and the empty slice alike.
abbrev pub bytes_of : Option Bytes → Bytes
bytes_of none = []
bytes_of (some b) = b

-- `proto` encodes data.Peers, a list of strings.
module _ (s : Bolt Bucket Error) (proto : Codec Error (List Bytes)) where
  open s use {Tx}
  open proto use {encode, decode}

  pub set_peers : Tx → List Bytes → Result Error (Unit {0}) × Tx
  set_peers t [] = delete_item s t network peers_key
  set_peers t (peer ∷ peers) = elim (encode (peer ∷ peers)) [
    | err e ↦ (err e, t)
    | ok b ↦ save_item s t network peers_key b
  ]

  -- The peers and whether they are the defaults.
  pub get_peers : Tx → List Bytes → Result Error (List Bytes × Bool)
  get_peers t defaults = elim (bytes_of (fetch_item s t network peers_key)) [
    | [] ↦ ok (defaults, true)
    | x ∷ b ↦ decode (x ∷ b) >>= λ peers.
        ok (if ltb 0 (length peers) then (peers, false) else (defaults, true))
  ]

  pub set_tx_spent_url : Tx → Bytes → Result Error (Unit {0}) × Tx
  set_tx_spent_url t url = save_item s t network tx_spent_url_key url

  pub get_tx_spent_url : Tx → Bytes → Bytes × Bool
  get_tx_spent_url t default = elim (bytes_of (fetch_item s t network tx_spent_url_key)) [
    | [] ↦ (default, true)
    | x ∷ b ↦ (x ∷ b, false)
  ]

  -- Whether the only peer is the one that is gone.
  pub is_invalidated : List Bytes → Bool
  is_invalidated [] = false
  is_invalidated (peer ∷ []) = bytes_eq peer gone_peer
  is_invalidated (peer ∷ other ∷ peers) = false

  pub upgrade_peers : Tx → Result Error (Unit {0}) × Tx
  upgrade_peers t = elim (get_peers t []) [
    | err e ↦ (err e, t)
    | ok (peers, _) ↦ if is_invalidated peers then set_peers t [] else (ok tt, t)
  ]

  pub then_upgrade : Result Error (Unit {0}) × Tx → Result Error (Unit {0}) × Tx
  then_upgrade (err e, u) = (err e, u)
  then_upgrade (ok _, u) = upgrade_peers u

  -- openDB once the file is open.
  pub open_db : Tx → Result Error (Unit {0}) × Tx
  open_db t = then_upgrade (update s t (λ t. create_all s all_buckets t >>= λ u. ok (tt, u)))
