-- ===== src/Db/Network/Tests.antt =====
-- A run of openDB, and the theorems on db/network.go, for a database in memory.
use breez.Common.{◌≡◌, refl, true, false, some, List, [], ◌∷◌, Bytes, ok}
use breez.Bolt.{Codec}
use breez.Bolt.Memory.{memory, keyed, write, erase, try_put, replace, set_cell, drop_cell}
use breez.Db.Basics.{
  Bucket, network, Bucket-discrete, Error, peers_key, create_all, fetch_item, delete_item,
}
use breez.Db.Samples.{store}
use breez.Db.Network.{
  gone_peer, set_peers, get_peers, is_invalidated, upgrade_peers, then_upgrade, open_db,
}
use breez.Db.Network.Peers.{Opened, open_db-Opened}

-- A list of one peer, as the bytes of the peer.
abbrev first_peer : List Bytes → Bytes
first_peer [] = []
first_peer (p ∷ ps) = p

abbrev peers_codec : Codec Error (List Bytes)
peers_codec = keyed first_peer (λ b. b ∷ [])

-- The only peer is the one that is gone.
unfoldable with_gone : store.Tx
unfolding memory
with_gone = record {
  buckets = λ b. false;
  cells = λ b. elim b [ network ↦ (peers_key, some gone_peer) ∷ [] | _ ↦ [] ];
  sequences = λ b. 0;
}

abbrev reopened : store.Tx
reopened = (open_db store peers_codec with_gone).1

with_gone-opens : open_db store peers_codec with_gone ≡ (ok tt, reopened)
unfolding open_db then_upgrade upgrade_peers set_peers get_peers is_invalidated create_all
    fetch_item delete_item memory write erase try_put replace set_cell drop_cell Bucket-discrete
    with_gone
with_gone-opens = refl

open_db-Opened_example :
    ((b : Bucket) → store.has_bucket reopened b ≡ true)
    × Opened store peers_codec with_gone reopened
open_db-Opened_example = open_db-Opened store peers_codec with_gone reopened with_gone-opens
