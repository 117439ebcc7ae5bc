-- ===== src/ClosedChannels/Loop.antt =====
-- The loop of importAndPruneClosedChannels ends, and tries every number once, the lowest first.
use breez.Common.{
  ℕ, ◌-◌, ◌≤◌, ◌<◌, ◌≡◌, ◌≢◌, ◌⊎◌, Bool, true, false, Option, some, List, [], ◌∷◌, err,
}
use breez.ClosedChannels.{File, Disk, not_listed, has_id, ChannelGraph, Imported}
use breez.ClosedChannels.Directory.{above}
use breez.ClosedChannels.Least.{Has}

-- What an import does to the directory: nothing, or the file's new name says that it is done with.
module _ {E : Type 0} (lnd : ChannelGraph E) where
  open lnd use {Graph}

  IsTried : ℕ → Disk → Disk → Type 0
  IsTried k before after =
      (after.present ≡ before.present)
      × ((m : ℕ) → above m after.files ≤ above m before.files)
      × ((n : ℕ) → n ≢ k → Has n before.files → Has n after.files)

  -- The log is in descending order, each number once; below a bound.
  abbrev pub IsBelow : ℕ → List ℕ → Type 0
  IsBelow bound [] = Unit {0}
  IsBelow bound (n ∷ log) = (n < bound) × IsBelow n log

  abbrev pub IsDescending : List ℕ → Type 0
  IsDescending [] = Unit {0}
  IsDescending (n ∷ log) = IsBelow n log

  -- Every number is logged, or still to come above `last`.
  abbrev IsCovered : List File → List ℕ → ℕ → List File → Type 0
  IsCovered start log last files =
      (n : ℕ) → 0 < n → Has n start → (has_id n log ≡ true) ⊎ ((last < n) × Has n files)

  abbrev pub IsFinished : (ℕ → Bool) → Disk → Imported lnd → Type 0
  IsFinished quit start r =
      IsDescending r.log
      × (((r.answer ≡ err not_listed) × (start.present ≡ false))
          ⊎ ((quit (r.calls - 1) ≡ true)
              ⊎ ((n : ℕ) → 0 < n → Has n start.files → has_id n r.log ≡ true)))

  abbrev pub Finishes : (ℕ → Bool) → Disk → Option (Imported lnd) → Type 0
  Finishes quit start o = (r : Imported lnd) × (o ≡ some r) × IsFinished quit start r
