-- ===== src/ClosedChannels.antt =====
-- closedchannels/job.go: downloads numbered files of closed channels and deletes these channels from
-- the graph. The graph is lnd's; the directory and the web server are explicit values.
pub mod Least
pub mod Download
pub mod Import
pub mod Directory
pub mod Loop
mod Tests
use breez.Common.{
  ℕ, zero, suc, ◌+◌, ◌-◌, ◌*◌, ◌%◌, ◌^◌, ◌≡◌, Bool, true, false, not, ◌&&◌, ◌||◌, Option, none,
  some, List, [], ◌∷◌, ◌++◌, Bytes, codes, bytes_eq, length, take, drop, ltb, leb, ◌==◌,
  if◌then◌else◌, Result, ok, err, ◌>>=◌,
}
use breez.Common.Decimal.{parse_uint, itoa}

abbrev pub first_file_number : ℕ
first_file_number = 5655

abbrev pub deleted_suffix : Bytes
deleted_suffix = codes ".deleted"

pub record File : Type 0 where
  pub name : Bytes
  pub is_dir : Bool
  pub content : Bytes

-- The directory "pruned", and which calls of the operating system fail in it: making it, making a
-- temporary file, reading a file, and renaming a file from or to a name.
pub record Disk : Type 0 where
  pub present : Bool
  pub files : List File
  pub blocked : Bool
  pub full : Bool
  pub unreadable : Bytes → Bool
  pub stuck : Bytes → Bool

pub data Failure (E : Type 0) : Type 0 where
  not_listed unreadable_file bad_file stuck_file no_temp_file unreachable interrupted : Failure E
  graph_failed : E → Failure E

-- strings.HasSuffix, and the name without the suffix.
unfoldable pub has_suffix : Bytes → Bytes → Bool
has_suffix s suffix =
    leb (length suffix) (length s) && bytes_eq (drop (length s - length suffix) s) suffix

unfoldable pub without_suffix : Bytes → Bytes → Bytes
without_suffix s suffix = if has_suffix s suffix then take (length s - length suffix) s else s

-- The number of a file that is still to be imported.
unfoldable pub importable : File → Option ℕ
importable f =
    if not f.is_dir && not (has_suffix f.name deleted_suffix) then parse_uint 64 f.name else none

unfoldable pub lower : ℕ → ℕ → Option ℕ → ℕ
lower more_than to_import none = to_import
lower more_than to_import (some s) =
    if ltb more_than s && (to_import == 0 || ltb s to_import) then s else to_import

unfoldable pub least_from : ℕ → ℕ → List File → ℕ
least_from more_than to_import [] = to_import
least_from more_than to_import (f ∷ list) =
    least_from more_than (lower more_than to_import (importable f)) list

pub find : Bytes → List File → Option File
find name [] = none
find name (f ∷ list) = if bytes_eq f.name name then some f else find name list

abbrev remove : Bytes → List File → List File
remove name [] = []
remove name (f ∷ list) = if bytes_eq f.name name then remove name list else f ∷ remove name list

abbrev retitle : Bytes → Bytes → List File → List File
retitle old new [] = []
retitle old new (f ∷ list) =
    (if bytes_eq f.name old then record f { name = new } else f) ∷ retitle old new list

-- The eight-byte numbers of a file.
unfoldable pub channel_ids : Bytes → List ℕ
channel_ids (b0 ∷ b1 ∷ b2 ∷ b3 ∷ b4 ∷ b5 ∷ b6 ∷ b7 ∷ rest) =
    (((((((b0 * 256 + b1) * 256 + b2) * 256 + b3) * 256 + b4) * 256 + b5) * 256 + b6) * 256 + b7)
    ∷ channel_ids rest
channel_ids _ = []

abbrev pub has_id : ℕ → List ℕ → Bool
has_id a [] = false
has_id a (x ∷ xs) = x == a || has_id a xs

-- What the code relies on of lnd's ChannelGraph: deleting edges deletes these and no others.
pub record ChannelGraph (E : Type 0) : Type 1 where
  pub Graph : Type 0
  pub has_edge : Graph → ℕ → Bool
  pub delete_edges : Graph → List ℕ → Result E Graph
  pub prune_nodes : Graph → Result E Graph
  pub has-delete :
      {g h : Graph} {ids : List ℕ}
      → delete_edges g ids ≡ ok h
      → (a : ℕ) → has_edge h a ≡ (has_edge g a && not (has_id a ids))
  pub has-prune : {g h : Graph} → prune_nodes g ≡ ok h → (a : ℕ) → has_edge h a ≡ has_edge g a

module _ {E : Type 0} where
  -- fileToImport: 0 stands for none.
  unfoldable pub file_to_import : ℕ → Disk → Result (Failure E) ℕ
  file_to_import more_than disk =
      if disk.present then ok (least_from more_than 0 disk.files) else err not_listed

  pub read_file : Disk → Bytes → Result (Failure E) Bytes
  read_file disk name = elim (find name disk.files) [
    | none ↦ err unreadable_file
    | some f ↦ if f.is_dir || disk.unreadable name then err unreadable_file else ok f.content
  ]

  -- os.Rename replaces a file of the new name.
  pub rename : Disk → Bytes → Bytes → Result (Failure E) Disk
  rename disk old new = elim (find old disk.files) [
    | none ↦ err stuck_file
    | some f ↦
        if disk.stuck old || disk.stuck new
        then err stuck_file
        else ok (record disk { files = retitle old new (remove new disk.files) })
  ]

module _ {E : Type 0} (lnd : ChannelGraph E) where
  open lnd use {Graph, has_edge, delete_edges, prune_nodes}

  pub known_ids : Graph → List ℕ → List ℕ
  known_ids g [] = []
  known_ids g (a ∷ ids) = if has_edge g a then a ∷ known_ids g ids else known_ids g ids

  -- The graph is changed by the deletion even if the file cannot be renamed afterwards.
  pub delete_channels : Graph → Disk → Bytes → Bytes → Result (Failure E) (Unit {0}) × Graph × Disk
  delete_channels g disk filename content =
      elim (delete_edges g (known_ids g (channel_ids content))) [
        | err e ↦ (err (graph_failed e), g, disk)
        | ok h ↦ elim (rename {E = E} disk filename (filename ++ deleted_suffix)) [
          | err e ↦ (err e, h, disk)
          | ok renamed ↦ (ok tt, h, renamed)
        ]
      ]

  pub import_closed_channels : Graph → Disk → ℕ → Result (Failure E) (Unit {0}) × Graph × Disk
  import_closed_channels g disk file = elim (read_file {E = E} disk (itoa file)) [
    | err e ↦ (err e, g, disk)
    | ok content ↦
        if length content % 8 == 0
        then delete_channels g disk (itoa file) content
        else (err bad_file, g, disk)
  ]

  -- What the loop ends with: whether a file was tried, or an error; the number of the next call of
  -- terminated; the numbers that were logged as tried, the last one first; the graph and the disk.
  pub record Imported : Type 0 where
    pub answer : Result (Failure E) Bool
    pub calls : ℕ
    pub log : List ℕ
    pub graph : Graph
    pub disk : Disk

  -- The loop of importAndPruneClosedChannels; `quit n` is what the n-th call of terminated answers.
  -- `none` is no fuel.
  pub import_loop : ℕ → (ℕ → Bool) → ℕ → ℕ → Bool → List ℕ → Graph → Disk → Option Imported
  import_loop zero quit calls last pruned log g disk = none
  import_loop (suc fuel) quit calls last pruned log g disk = elim (quit calls) [
    | true ↦
        some (record { answer = ok pruned; calls = calls + 1; log = log; graph = g; disk = disk })
    | false ↦ elim (file_to_import {E = E} last disk) [
      | err e ↦
          some (record { answer = err e; calls = calls + 1; log = log; graph = g; disk = disk })
      | ok zero ↦
          some (record { answer = ok pruned; calls = calls + 1; log = log; graph = g; disk = disk })
      | ok (suc n) ↦
          let (_, h, after) = import_closed_channels g disk (suc n) in
          import_loop fuel quit (calls + 1) (suc n) true (suc n ∷ log) h after
    ]
  ]

  pub prune :
      Result (Failure E) Bool → Bool → Graph → Disk → Result (Failure E) (Unit {0}) × Graph × Disk
  prune (err e) quit g disk = (err e, g, disk)
  prune (ok pruned) quit g disk =
      if not quit && pruned
      then elim (prune_nodes g) [
        | err e ↦ (err (graph_failed e), g, disk)
        | ok h ↦ (ok tt, h, disk)
      ]
      else (ok tt, g, disk)

  -- importAndPruneClosedChannels on an open channel database.
  pub import_and_prune :
      ℕ → (ℕ → Bool) → ℕ → Graph → Disk → Option (Result (Failure E) (Unit {0}) × Graph × Disk)
  import_and_prune fuel quit calls g disk = elim (import_loop fuel quit calls 0 false [] g disk) [
    | none ↦ none
    | some r ↦ some (prune r.answer (quit r.calls) r.graph r.disk)
  ]
