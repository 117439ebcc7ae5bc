-- ===== src/ClosedChannels/Import.antt =====
-- importClosedChannels of closedchannels/job.go deletes the channels that the file lists.
use breez.Common.{
  ℕ, ◌%◌, ◌≡◌, ◌≢◌, ◌⊎◌, inl, inr, refl, ◌∙◌, not, ◌&&◌, List, [], ◌∷◌, ◌++◌, Bytes, length, ◌==◌,
  ==_iff, Bool-cases, Result, ok, err, Result-cases, arith,
}
use breez.Common.Decimal.{itoa}
use breez.ClosedChannels.{
  Disk, Failure, bad_file, graph_failed, deleted_suffix, rename, read_file, has_id, channel_ids,
  known_ids, ChannelGraph, import_closed_channels, delete_channels,
}

module _ {E : Type 0} (lnd : ChannelGraph E) where
  open lnd use {Graph, has_edge, delete_edges, has-delete}

  has_id-known_ids :
      (g : Graph) (a : ℕ) (ids : List ℕ)
      → has_id a (known_ids lnd g ids) ≡ (has_edge g a && has_id a ids)
  unfolding known_ids
  has_id-known_ids g a [] = ground arith
  has_id-known_ids g a (x ∷ ids) = elim (Bool-cases (x == a)) [
    | inl same ↦
        let e = (==_iff x a).0 same in rw (e, known_ids) (ground (arith, has_id-known_ids g a ids))
    | inr other ↦ elim (Bool-cases (has_edge g x)) [
      | inl known ↦ rw (known, other, known_ids) (has_id-known_ids g a ids)
      | inr unknown ↦ rw (unknown, other, known_ids) (has_id-known_ids g a ids)
    ]
  ]

  -- The graph after a file with these numbers.
  abbrev pub IsCleared : List ℕ → Graph → Graph → Type 0
  IsCleared ids g h = (a : ℕ) → has_edge h a ≡ (has_edge g a && not (has_id a ids))

  deleted-IsCleared :
      (g h : Graph) (ids : List ℕ) → delete_edges g (known_ids lnd g ids) ≡ ok h → IsCleared ids g h
  deleted-IsCleared g h ids e a = has-delete e a ∙ rw (has_id-known_ids g a ids) (ground arith)

  delete_channels-cases :
      (g : Graph) (disk : Disk) (name content : Bytes)
      → let (answer, h, _) = delete_channels lnd g disk name content in
        ((e : E) × (answer ≡ err (graph_failed e)) × (h ≡ g)) ⊎ IsCleared (channel_ids content) g h
  unfolding delete_channels
  delete_channels-cases g disk name content =
      elim (Result-cases (delete_edges g (known_ids lnd g (channel_ids content)))) [
        | inr (e, failed) ↦ rw (failed, delete_channels) (inl (e, refl, refl))
        | inl (h, done) ↦
            let cleared = deleted-IsCleared g h (channel_ids content) done in
            elim (Result-cases (rename {E = E} disk name (name ++ deleted_suffix))) [
              | inr (e, stuck) ↦ rw (done, stuck, delete_channels) (inr cleared)
              | inl (after, moved) ↦ rw (done, moved, delete_channels) (inr cleared)
            ]
      ]

  -- Importing a file that can be read fails and leaves the graph alone, because the file has no whole
  -- number of eight-byte ids or the graph refuses; or the channels that the file lists are not in the
  -- graph any more, and every other channel is in it if it was.
  pub import_closed_channels-IsCleared :
      (g : Graph) (disk : Disk) (file : ℕ) (content : Bytes)
      → ◌≡◌ {A = Result (Failure E) Bytes} (read_file disk (itoa file)) (ok content)
      → let (answer, h, _) = import_closed_channels lnd g disk file in
        ((answer ≡ err bad_file) × (h ≡ g) × (length content % 8 ≢ 0))
        ⊎ (((e : E) × (answer ≡ err (graph_failed e)) × (h ≡ g))
            ⊎ ((length content % 8 ≡ 0) × IsCleared (channel_ids content) g h))
  unfolding import_closed_channels
  import_closed_channels-IsCleared g disk file content read =
      elim (Bool-cases (length content % 8 == 0)) [
        | inr bad ↦
            rw (read, bad, import_closed_channels) (inl (refl, refl, λ e. ground (arith, bad, e)))
        | inl whole ↦
            rw (read, whole, import_closed_channels)
              (elim (delete_channels-cases g disk (itoa file) content) [
                | inl failed ↦ inr (inl failed)
                | inr cleared ↦ inr (inr ((==_iff (length content % 8) 0).0 whole, cleared))
              ])
      ]
