-- ===== src/ClosedChannels/Download.antt =====
-- The download half of closedchannels/job.go, and Run. The loop ends at a number that the server lacks.
pub mod Ends
use breez.Common.{
  ℕ, zero, suc, ◌+◌, ◌%◌, ◌^◌, ◌≤◌, ◌<◌, ◌≡◌, ◌⊎◌, ◌-◌, inl, inr, refl, sym, ap, ◌∙◌, Bool, true,
  false, not, ◌&&◌, ◌||◌, Option, none, some, List, [], ◌∷◌, ◌++◌, Bytes, length, leb, ltb, ◌==◌,
  if◌then◌else◌, Bool-cases, Result, ok, err, ok-injective, Result-cases, arith,
}
use breez.Common.Decimal.{parse_uint, itoa}
use breez.ClosedChannels.{
  File, Disk, Failure, not_listed, stuck_file, no_temp_file, unreachable, interrupted,
  first_file_number, deleted_suffix, without_suffix, find, remove, rename, ChannelGraph,
  import_and_prune,
}

-- The answer of the web server: a status and a body, which may break off.
pub data Response : Type 0 where
  no_answer : Response
  answered : ℕ → Bytes → Bool → Response

unfoldable pub numbered : File → Option ℕ
numbered f = if f.is_dir then none else parse_uint 64 (without_suffix f.name deleted_suffix)

unfoldable pub raise : ℕ → Option ℕ → ℕ
raise n none = n
raise n (some s) = if leb n s then s else n

unfoldable pub greatest_from : ℕ → List File → ℕ
greatest_from n [] = n
greatest_from n (f ∷ list) = greatest_from (raise n (numbered f)) list

-- os.MkdirAll
pub make_dir : Disk → Disk
make_dir disk = if disk.blocked then disk else record disk { present = true }

module _ {E : Type 0} where
  pub first_file_number_to_download : Disk → Result (Failure E) ℕ
  first_file_number_to_download disk =
      if disk.present then ok (greatest_from first_file_number disk.files) else err not_listed

  -- The temporary file takes the place of the file of that name.
  pub put_in_place : Disk → Bytes → Bytes → Result (Failure E) ℕ × Disk
  put_in_place disk filename body = if disk.stuck filename then (err stuck_file, disk) else (
    ok 200,
    record disk {
      files =
          record { name = filename; is_dir = false; content = body } ∷ remove filename disk.files;
    },
  )

  pub after_rename : Disk → Result (Failure E) Disk → Disk
  after_rename disk (ok renamed) = renamed
  after_rename disk (err e) = disk

  -- The rest of downloadFile once the body was copied: a file that was imported stays so if it has
  -- the same size.
  pub keep_or_replace : Disk → Bytes → Bytes → Result (Failure E) ℕ × Disk
  keep_or_replace disk filename body = elim (find (filename ++ deleted_suffix) disk.files) [
    | none ↦ put_in_place disk filename body
    | some f ↦
        if length f.content == length body
        then (ok 200, disk)
        else put_in_place (after_rename disk (rename disk (filename ++ deleted_suffix) filename))
            filename body
  ]

  -- The status, or an error, which ends the loop whatever the status is.
  pub download_file : Disk → Bytes → Response → Result (Failure E) ℕ × Disk
  download_file disk filename no_answer = (err unreachable, disk)
  download_file disk filename (answered status body whole) =
      if not (status == 200)
      then (ok status, disk)
      else if disk.full
      then (err no_temp_file, disk)
      else if not whole
      then (err interrupted, disk)
      else keep_or_replace disk filename body

  -- The loop of downloadClosedChannels from number `f` on; `calls` counts those of terminated, and
  -- `none` is no fuel.
  pub download_from :
      ℕ
      → (ℕ → Bool)
      → ℕ
      → (Bytes → Response)
      → ℕ
      → ℕ
      → Disk
      → Option (Result (Failure E) (Unit {0}) × ℕ × Disk)
  download_from zero quit calls server f status disk = none
  download_from (suc fuel) quit calls server f status disk =
      elim (status == 200 && not (quit calls)) [
        | false ↦ some (ok tt, (if status == 200 then calls + 1 else calls), disk)
        | true ↦
            let (answer, after) = download_file disk (itoa f) (server (itoa f)) in
            elim answer [
              | err e ↦ some (err e, calls + 1, after)
              | ok next ↦ download_from fuel quit (calls + 1) server ((f + 1) % 2 ^ 64) next after
            ]
      ]

  pub download_closed_channels :
      ℕ → (ℕ → Bool) → (Bytes → Response) → Disk → Option (Result (Failure E) (Unit {0}) × ℕ × Disk)
  download_closed_channels fuel quit server disk =
      elim (first_file_number_to_download (make_dir disk)) [
        | err e ↦ some (err e, 0, make_dir disk)
        | ok f ↦ download_from fuel quit 0 server f 200 (make_dir disk)
      ]

-- The stop state of a job: how often it was told to stop, and whether its channel is closed.
pub record Job : Type 0 where
  pub shutdown : ℕ
  pub quit_closed : Bool

-- `none` is the panic of closing a closed channel.
pub terminate : Job → Option Job
terminate job =
    let n = (job.shutdown + 1) % 2 ^ 32 in
    if not (n == 1)
    then some (record job { shutdown = n })
    else if job.quit_closed
    then none
    else some (record { shutdown = n; quit_closed = true })

module _ {E : Type 0} (lnd : ChannelGraph E) where
  open lnd use {Graph}

  -- Run: the answer, the graph and the disk, and whether it comes to terminate. `none` is no fuel.
  pub run :
      ℕ
      → (ℕ → Bool)
      → (Bytes → Response)
      → Graph
      → Disk
      → Option (Result (Failure E) (Unit {0}) × Graph × Disk × Bool)
  run fuel quit server g disk = elim (download_closed_channels {E = E} fuel quit server disk) [
    | none ↦ none
    | some (err e, calls, after) ↦ some (err e, g, after, false)
    | some (ok _, calls, after) ↦
        if quit calls
        then some (ok tt, g, after, true)
        else elim (import_and_prune lnd fuel quit (calls + 1) g after) [
          | none ↦ none
          | some (err e, h, last) ↦ some (err e, h, last, false)
          | some (ok _, h, last) ↦ some (ok tt, h, last, true)
        ]
  ]
