-- ===== src/SyncJob/Scanning.antt =====
-- What Scan of sync/channelswatcher.go answers, and how far it says that it has come.
use breez.Common.{
  ℕ, ◌%◌, ◌^◌, ◌<◌, ◌≡◌, ◌⊎◌, inl, inr, refl, sym, ap, subst, ◌∙◌, Bool, false, Option, none, some,
  List, [], ◌∷◌, Bytes, Bool-cases, ok, Result-cases, List-cases,
}
use breez.Bolt.{Bolt}
use breez.Db.Basics.{Error}
use breez.SyncJob.Store.{
  Bucket, Failure, chain_failed, set_channels_watcher_block_height,
  fetch_channels_watcher_block_height, channels_watcher_height_key,
}
use breez.SyncJob.Heights.{set_number-cases}
use breez.SyncJob.Watcher.{
  InputWithScript, ChannelsWatcher, Event, ScanSource, on_events, end_scan, scan_range,
  start_height, scan,
}
use breez.SyncJob.Rescan.{
  found, IsQuiet, IsShort, saved_height, Kept, Kept-map, setting-cases, on_events-found,
  on_events-Kept,
}

module _ {E : Type 0} (chain : ScanSource E) (s : Bolt Bucket Error) where
  open s use {Tx}

  -- What a rescan of the blocks from the greater one of the saved height and the channels' first does:
  -- the answer tells whether a block matched, and the saved height is one before any match, or the tip
  -- if the rescan ended well without a match.
  pub Scanned : ChannelsWatcher → ℕ → Tx → (Bool × Option (Failure E)) × Tx → Type 0
  Scanned b tip t r =
      (saved : ℕ) × (start_hash : Bytes) × (tip_hash : Bytes) × (let start = start_height b saved in
        let (events, failure) =
          chain.rescan (start % 2 ^ 32, start_hash) (tip % 2 ^ 32, tip_hash) b.watched_scripts in
        (saved_height s t ≡ ok saved)
        × (chain.get_block_hash start ≡ ok start_hash)
        × (chain.get_block_hash tip ≡ ok tip_hash)
        × (r.0 ≡ (found events, elim failure [ none ↦ none | some e ↦ some (chain_failed e) ]))
        × Kept s (λ h. IsQuiet h events ⊎ ((h ≡ tip) × (failure ≡ none) × (found events ≡ false))) t
            r.1)

  end_scan-Kept :
      (events : List Event) (failure : Option E) (tip : ℕ) (t u : Tx)
      → tip < 2 ^ 64
      → Kept s (λ h. IsQuiet h events) t u
      → let r = end_scan chain s tip failure (found events) u in
        (r.0 ≡ (found events, elim failure [ none ↦ none | some e ↦ some (chain_failed e) ]))
        × Kept s
            (λ h. IsQuiet h events ⊎ ((h ≡ tip) × (failure ≡ none) × (found events ≡ false)))
            t
            r.1
  unfolding end_scan
  end_scan-Kept events (some e) tip t u small kept = (refl, Kept-map s _ _ t u (λ h q. inl q) kept)
  end_scan-Kept events none tip t u small kept = elim (Bool-cases (found events)) [
    | inl matched ↦ rw (matched, end_scan) (refl, Kept-map s _ _ t u (λ h q. inl q) kept)
    | inr quiet ↦
        let v = (set_channels_watcher_block_height s u tip).1 in
        rw (quiet, end_scan)
          (
            refl,
            elim (setting-cases s u tip small) [
              | inl same ↦ elim kept [
                | inl e ↦ inl (same ∙ e)
                | inr (h, e, q) ↦ inr (h, same ∙ e, inl q)
              ]
              | inr set ↦ inr (tip, set, inr (refl, refl, refl))
            ],
          )
  ]

  scan_range-Scanned :
      (b : ChannelsWatcher) (saved tip : ℕ) (start_hash tip_hash : Bytes) (t : Tx)
      → tip < 2 ^ 64
      → ((from to : ℕ × Bytes) → IsShort (chain.rescan from to b.watched_scripts).0)
      → b.closed_channel_detected ≡ false
      → saved_height s t ≡ ok saved
      → chain.get_block_hash (start_height b saved) ≡ ok start_hash
      → chain.get_block_hash tip ≡ ok tip_hash
      → Scanned b tip t (scan_range chain s b (start_height b saved) tip start_hash tip_hash t)
  unfolding Scanned scan_range
  scan_range-Scanned b saved tip start_hash tip_hash t small short new at_saved at_start at_tip =
      let from : ℕ × Bytes = (start_height b saved % 2 ^ 32, start_hash) in
      let to : ℕ × Bytes = (tip % 2 ^ 32, tip_hash) in
      let (events, failure) = chain.rescan from to b.watched_scripts in
      let u = (on_events chain s events false t).1 in
      let same : on_events chain s events b.closed_channel_detected t ≡ (found events, u) =
        ap (λ closed. on_events chain s events closed t) new
        ∙ ap (λ closed. (closed, u)) (on_events-found chain s events false t) in
      let ended : scan_range chain s b (start_height b saved) tip start_hash tip_hash t
          ≡ end_scan chain s tip failure (found events) u =
        ap (λ (r : Bool × Tx). end_scan chain s tip failure r.0 r.1) same in
      let kept =
        end_scan-Kept events failure tip t u small
          (on_events-Kept chain s events t (short from to)) in
      (
        saved,
        start_hash,
        tip_hash,
        (
          at_saved,
          at_start,
          at_tip,
          ap (λ (r : (Bool × Option (Failure E)) × Tx). r.0) ended ∙ kept.0,
          subst
              (λ (r : (Bool × Option (Failure E)) × Tx).
                Kept s
                  (λ h. IsQuiet h events ⊎ ((h ≡ tip) × (failure ≡ none) × (found events ≡ false)))
                  t r.1)
              (sym ended) kept.1,
        ),
      )

  scan-reached :
      (b : ChannelsWatcher) (saved tip : ℕ) (start_hash tip_hash : Bytes) (t : Tx)
      (script : InputWithScript) (scripts : List InputWithScript)
      → b.watched_scripts ≡ script ∷ scripts
      → saved_height s t ≡ ok saved
      → chain.get_block_hash (start_height b saved) ≡ ok start_hash
      → chain.get_block_hash tip ≡ ok tip_hash
      → scan chain s b tip t ≡ scan_range chain s b (start_height b saved) tip start_hash tip_hash t
  unfolding scan
  scan-reached b saved tip start_hash tip_hash t script scripts some_scripts at_saved at_start
        at_tip =
      simp (some_scripts, at_saved, at_start, at_tip, scan)

  -- The outcomes of a scan.
  abbrev pub Outcome : ChannelsWatcher → ℕ → Tx → (Bool × Option (Failure E)) × Tx → Type 0
  Outcome b tip t r =
      ((e : Failure E) × (r ≡ ((false, some e), t)))
      ⊎ (((b.watched_scripts ≡ []) × (r.0 ≡ (false, none)) × (saved_height s r.1 ≡ ok tip))
          ⊎ Scanned b tip t r)

  -- A scan of a new watcher fails before the rescan and changes nothing; or there is nothing to watch,
  -- and the tip is saved; or the rescan runs, its answer tells whether a block matched, and the saved
  -- height never goes past a block that matched.
  pub scan-Scanned :
      (b : ChannelsWatcher) (tip : ℕ) (t : Tx)
      → tip < 2 ^ 64
      → ((from to : ℕ × Bytes) → IsShort (chain.rescan from to b.watched_scripts).0)
      → b.closed_channel_detected ≡ false
      → Outcome b tip t (scan chain s b tip t)
  unfolding scan
  scan-Scanned b tip t small short new = elim (List-cases b.watched_scripts) [
    | inl empty ↦ elim (set_number-cases s channels_watcher_height_key tip t small) [
      | inl (e, failed, same) ↦ rw (empty, failed, same, scan) (inl (_, refl))
      | inr (done, set) ↦ rw (empty, done, scan) (inr (inl (refl, refl, set)))
    ]
    | inr (script, scripts, some_scripts) ↦
        elim (Result-cases (fetch_channels_watcher_block_height s t)) [
          | inr (e, h) ↦ rw (some_scripts, h, scan) (inl (_, refl))
          | inl (saved, h) ↦ elim (Result-cases (chain.get_block_hash (start_height b saved))) [
            | inr (e, no_start) ↦ rw (some_scripts, h, no_start, scan) (inl (_, refl))
            | inl (start_hash, at_start) ↦ elim (Result-cases (chain.get_block_hash tip)) [
              | inr (e, no_tip) ↦ rw (some_scripts, h, at_start, no_tip, scan) (inl (_, refl))
              | inl (tip_hash, at_tip) ↦
                  subst (Outcome b tip t)
                    (sym (
                      scan-reached b saved tip start_hash tip_hash t script scripts some_scripts h
                        at_start at_tip))
                    (inr (
                      inr (
                        scan_range-Scanned b saved tip start_hash tip_hash t small short new h
                          at_start at_tip)))
            ]
          ]
        ]
  ]
