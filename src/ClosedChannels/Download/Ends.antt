-- ===== src/ClosedChannels/Download/Ends.antt =====
-- The loop of downloadClosedChannels ends at a number that the server lacks.
use breez.Common.{
  ℕ, zero, suc, ◌+◌, ◌%◌, ◌^◌, ◌≤◌, ◌<◌, ◌≡◌, ◌⊎◌, ◌-◌, inl, inr, refl, sym, ap, ◌∙◌, Bool, true,
  false, not, ◌&&◌, ◌||◌, Option, some, Bytes, ◌==◌, Bool-cases, Result, ok, err, ok-injective,
  Result-cases, arith,
}
use breez.Common.Decimal.{itoa}
use breez.ClosedChannels.{Disk, Failure, no_temp_file, unreachable, interrupted, first_file_number}
use breez.ClosedChannels.Download.{
  Response, no_answer, answered, greatest_from, make_dir, first_file_number_to_download,
  download_file, download_from, download_closed_channels,
}

zero-or-suc : (k : ℕ) → (k ≡ 0) ⊎ ((j : ℕ) × (k ≡ suc j))
zero-or-suc zero = inl refl
zero-or-suc (suc j) = inr (j, refl)

make_dir-files : (disk : Disk) → (make_dir disk).files ≡ disk.files
unfolding make_dir
make_dir-files disk = ground arith

-- Whether the server ends a download at this file: it does not answer, answers with another status,
-- or breaks off.
abbrev pub ends : Response → Bool
ends no_answer = true
ends (answered status body whole) = not (status == 200) || not whole

module _ {E : Type 0} where
  download_file-ends :
      (disk : Disk) (name : Bytes) (response : Response)
      → ends response ≡ true
      → let answer = (download_file {E = E} disk name response).0 in
        ((e : Failure E) × (answer ≡ err e)) ⊎ ((n : ℕ) × (answer ≡ ok n) × ((n == 200) ≡ false))
  unfolding download_file
  download_file-ends disk name no_answer h = inl (unreachable, refl)
  download_file-ends disk name (answered status body whole) h = elim (Bool-cases (status == 200)) [
    | inr other ↦ rw other (inr (status, refl, other))
    | inl good ↦ elim (Bool-cases disk.full) [
      | inl full ↦ rw (good, full) (inl (no_temp_file, refl))
      | inr room ↦ elim (Bool-cases whole) [
        | inl all ↦ cc (rw (good, all) at h)
        | inr cut ↦ rw (good, room, cut) (inl (interrupted, refl))
      ]
    ]
  ]

  abbrev pub Returns : Option (Result (Failure E) (Unit {0}) × ℕ × Disk) → Type 0
  Returns o = (r : Result (Failure E) (Unit {0}) × ℕ × Disk) × (o ≡ some r)

  wrong_status :
      {answer : Result (Failure E) ℕ} {next : ℕ}
      → ((e : Failure E) × (answer ≡ err e)) ⊎ ((n : ℕ) × (answer ≡ ok n) × ((n == 200) ≡ false))
      → answer ≡ ok next
      → (next == 200) ≡ false
  wrong_status (inl (e, h)) same = cc
  wrong_status {next} (inr (n, h, other)) same =
      let e : n ≡ next = ok-injective (sym h ∙ same) in rw (← e) other

  download_from-stopped :
      (fuel : ℕ) (quit : ℕ → Bool) (calls : ℕ) (server : Bytes → Response) (f status : ℕ)
      (disk : Disk)
      → 0 < fuel
      → (status == 200) ≡ false
      → Returns (download_from fuel quit calls server f status disk)
  unfolding download_from
  download_from-stopped zero quit calls server f status disk some_fuel h = elim some_fuel [ ]
  download_from-stopped (suc fuel) quit calls server f status disk some_fuel h =
      rw (h, download_from) (_, refl)

  -- The download loop ends after as many rounds as there are numbers up to one that the server lacks,
  -- whatever fails on the way.
  download_from-Returns :
      (k fuel : ℕ) (quit : ℕ → Bool) (calls : ℕ) (server : Bytes → Response) (f status : ℕ)
      (disk : Disk)
      → f + k + 1 < 2 ^ 64
      → ends (server (itoa (f + k))) ≡ true
      → k + 1 < fuel
      → Returns (download_from fuel quit calls server f status disk)
  unfolding download_from
  download_from-Returns k zero quit calls server f status disk small last enough = elim enough [ ]
  download_from-Returns k (suc fuel) quit calls server f status disk small last enough =
      elim (Bool-cases (status == 200 && not (quit calls))) [
        | inr stop ↦ rw (stop, download_from) (_, refl)
        | inl go ↦ elim (Result-cases (download_file {E = E} disk (itoa f) (server (itoa f))).0) [
          | inr (e, h) ↦ rw (go, h, download_from) (_, refl)
          | inl (next, h) ↦
              let after = (download_file {E = E} disk (itoa f) (server (itoa f))).1 in
              rw (go, h, download_from)
                (elim (zero-or-suc k) [
                  | inl e ↦
                      let here : ends (server (itoa f)) ≡ true =
                        ap (λ m. ends (server (itoa m))) (omega arith) ∙ last in
                      download_from-stopped fuel quit (calls + 1) server ((f + 1) % 2 ^ 64) next
                        after (omega arith)
                        (wrong_status (download_file-ends disk (itoa f) (server (itoa f)) here) h)
                  | inr (j, e) ↦
                      let there : ends (server (itoa ((f + 1) % 2 ^ 64 + j))) ≡ true =
                        ap (λ m. ends (server (itoa m))) (omega arith) ∙ last in
                      download_from-Returns j fuel quit (calls + 1) server ((f + 1) % 2 ^ 64) next
                        after (omega arith) there (omega arith)
                ])
        ]
      ]

  -- If the server lacks a number from the first one to download on, the download ends, whatever fails on
  -- the way, with as many rounds and one more as there are numbers up to it.
  pub download_closed_channels_total :
      (n fuel : ℕ) (quit : ℕ → Bool) (server : Bytes → Response) (disk : Disk)
      → ends (server (itoa n)) ≡ true
      → greatest_from first_file_number disk.files ≤ n
      → n + 1 < 2 ^ 64
      → n - greatest_from first_file_number disk.files + 1 < fuel
      → Returns (download_closed_channels fuel quit server disk)
  unfolding download_closed_channels first_file_number_to_download
  download_closed_channels_total n fuel quit server disk last from small enough =
      let same : greatest_from first_file_number (make_dir disk).files
          ≡ greatest_from first_file_number disk.files =
        ap (greatest_from first_file_number) (make_dir-files disk) in
      let f = greatest_from first_file_number (make_dir disk).files in
      elim (Bool-cases (make_dir disk).present) [
        | inr gone ↦ rw (gone, download_closed_channels) (_, refl)
        | inl there ↦
            rw (there, download_closed_channels)
              (download_from-Returns (n - f) fuel quit 0 server f 200 (make_dir disk)
                (omega (arith, same))
                (ap (λ m. ends (server (itoa m))) (omega (arith, same)) ∙ last)
                (omega (arith, same)))
      ]
