-- ===== src/ClosedChannels/Tests.antt =====
-- Two files in the directory, a graph of three channels, and the theorems of the job on them.
use breez.Common.{
  ℕ, ◌≡◌, ◌≢◌, ◌⊎◌, inl, inr, ◌%◌, refl, Bool, true, false, not, ◌&&◌, none, some, List, [], ◌∷◌,
  ◌++◌, Bytes, codes, bytes_eq, length, ◌==◌, ==_iff, if◌then◌else◌, Bool-cases, ok, err, arith,
  ok-injective,
}
use breez.Common.Decimal.{parse_uint, itoa, parse_digits, print_digits}
use breez.ClosedChannels.{
  File, Disk, ChannelGraph, has_id, importable, lower, least_from, file_to_import, find, has_suffix,
  read_file, rename, channel_ids, known_ids, delete_channels, import_closed_channels, import_loop,
  prune, import_and_prune, graph_failed, bad_file, first_file_number, without_suffix,
}
use breez.ClosedChannels.Import.{IsCleared, import_closed_channels-IsCleared}
use breez.ClosedChannels.Download.{
  Response, answered, greatest_from, raise, numbered, download_closed_channels,
}
use breez.ClosedChannels.Download.Ends.{Returns, ends, download_closed_channels_total}

data Refusal : Type 0 where
  refused : Refusal

without : List ℕ → List ℕ → List ℕ
without ids [] = []
without ids (a ∷ g) = if has_id a ids then without ids g else a ∷ without ids g

has_id-without :
    (a : ℕ) (ids g : List ℕ) → has_id a (without ids g) ≡ (has_id a g && not (has_id a ids))
unfolding without
has_id-without a ids [] = refl
has_id-without a ids (x ∷ g) = elim (Bool-cases (x == a)) [
  | inl same ↦
      let e = (==_iff x a).0 same in rw (e, without) (ground (arith, has_id-without a ids g))
  | inr other ↦ elim (Bool-cases (has_id x ids)) [
    | inl gone ↦ rw (gone, other, without) (has_id-without a ids g)
    | inr there ↦ rw (there, other, without) (has_id-without a ids g)
  ]
]

-- A graph that is a list of channels.
abbrev listed : ChannelGraph Refusal
listed = record {
  Graph = List ℕ;
  has_edge = λ g a. has_id a g;
  delete_edges = λ g ids. ok (without ids g);
  prune_nodes = λ g. ok g;
  has-delete = λ {g} {h} {ids} e a.
      let same : without ids g ≡ h = ok-injective e in rw (← same) (has_id-without a ids g);
  has-prune = λ {g} {h} e a. let same : g ≡ h = ok-injective e in rw same refl;
}

abbrev file : Bytes → Bytes → File
file name content = record { name = name; is_dir = false; content = content }

abbrev id_bytes : ℕ → Bytes
id_bytes n = 0 ∷ 0 ∷ 0 ∷ 0 ∷ 0 ∷ 0 ∷ 0 ∷ n ∷ []

abbrev disk : Disk
disk = record {
  present = true;
  files =
      file (codes "5657") (id_bytes 7)
      ∷ file (codes "5656") (id_bytes 8 ++ id_bytes 9)
      ∷ file (codes "5655.deleted") []
      ∷ file (codes "readme") []
      ∷ [];
  blocked = false;
  full = false;
  unreadable = λ name. false;
  stuck = λ name. false;
}

abbrev never : ℕ → Bool
never n = false

abbrev graph : List ℕ
graph = 7 ∷ 8 ∷ 5 ∷ []

next_file : file_to_import {E = Refusal} 0 disk ≡ ok 5656
unfolding file_to_import least_from lower importable has_suffix parse_uint parse_digits
next_file = refl

whole_file : read_file {E = Refusal} disk (itoa 5656) ≡ ok (id_bytes 8 ++ id_bytes 9)
unfolding read_file find itoa print_digits
whole_file = refl

import_closed_channels-IsCleared_example :
    let (answer, after, _) = import_closed_channels listed graph disk 5656 in
    ((answer ≡ err bad_file) × (after ≡ graph) × (length (id_bytes 8 ++ id_bytes 9) % 8 ≢ 0))
    ⊎ (((e : Refusal) × (answer ≡ err (graph_failed e)) × (after ≡ graph))
        ⊎ ((length (id_bytes 8 ++ id_bytes 9) % 8 ≡ 0)
            × IsCleared listed (channel_ids (id_bytes 8 ++ id_bytes 9)) graph after))
import_closed_channels-IsCleared_example =
    import_closed_channels-IsCleared listed graph disk 5656 (id_bytes 8 ++ id_bytes 9) whole_file

-- The graph keeps the one channel that no file lists.
imports_all :
    elim (import_and_prune listed 5 never 0 graph disk) [ none ↦ [] | some (_, g, _) ↦ g ] ≡ 5 ∷ []
unfolding import_and_prune import_loop import_closed_channels delete_channels known_ids channel_ids
    rename read_file find itoa print_digits file_to_import least_from lower importable has_suffix
    parse_uint parse_digits prune without
imports_all = refl

-- A server with one more file.
abbrev server : Bytes → Response
server name =
    if bytes_eq name (codes "5657") then answered 200 (id_bytes 7) true else answered 404 [] true

lacks_next : ends (server (itoa 5658)) ≡ true
unfolding itoa print_digits
lacks_next = refl

greatest_file : greatest_from first_file_number disk.files ≡ 5657
unfolding greatest_from raise numbered without_suffix has_suffix parse_uint parse_digits
greatest_file = refl

download_closed_channels_total_example :
    Returns (download_closed_channels {E = Refusal} 10 never server disk)
download_closed_channels_total_example =
    download_closed_channels_total 5658 10 never server disk lacks_next
      (omega (arith, greatest_file)) (omega arith) (omega (arith, greatest_file))
