-- ===== src/SyncJob/Rescan.antt =====
-- What the handlers of the rescan in sync/channelswatcher.go save.
use breez.Common.{
  ℕ, ◌%◌, ◌^◌, ◌<◌, ◌≡◌, ◌⊎◌, inl, inr, refl, ap, ◌∙◌, Bool, true, false, not, ◌&&◌, ◌||◌, List, [],
  ◌∷◌, ltb, ◌==◌, Bool-cases, Result, ok, arith,
}
use breez.Bolt.{Bolt}
use breez.Db.Basics.{Error}
use breez.SyncJob.Store.{
  Bucket, set_channels_watcher_block_height, fetch_channels_watcher_block_height,
  channels_watcher_height_key,
}
use breez.SyncJob.Heights.{set_number-cases}
use breez.SyncJob.Watcher.{Event, block_connected, progress, ScanSource, on_event, on_events}

-- Whether a block of the rescan had a matching transaction.
abbrev pub found : List Event → Bool
found [] = false
found (block_connected txs ∷ events) = ltb 0 txs || found events
found (progress last_block ∷ events) = found events

-- A height that the rescan reported before any block with a matching transaction.
abbrev pub IsQuiet : ℕ → List Event → Type 0
IsQuiet h [] = ⊥
IsQuiet h (block_connected txs ∷ events) = (txs ≡ 0) × IsQuiet h events
IsQuiet h (progress last_block ∷ events) = (last_block ≡ h) ⊎ IsQuiet h events

-- Progress is a uint32.
abbrev pub IsShort : List Event → Type 0
IsShort [] = Unit {0}
IsShort (block_connected txs ∷ events) = IsShort events
IsShort (progress last_block ∷ events) = (last_block < 2 ^ 32) × IsShort events

module _ (s : Bolt Bucket Error) where
  open s use {Tx}

  -- The height that the watcher starts from the next time.
  abbrev pub saved_height : Tx → Result Error ℕ
  saved_height t = fetch_channels_watcher_block_height s t

  pub setting-cases :
      (t : Tx) (h : ℕ)
      → h < 2 ^ 64
      → let u = (set_channels_watcher_block_height s t h).1 in
        (saved_height u ≡ saved_height t) ⊎ (saved_height u ≡ ok h)
  setting-cases t h small = elim (set_number-cases s channels_watcher_height_key h t small) [
    | inl (e, failed, same) ↦ inl (ap saved_height same)
    | inr (done, set) ↦ inr set
  ]

  -- A saved height of `u` is that of `t`, or one that `P` allows.
  abbrev pub Kept {κ} : (ℕ → Type κ) → Tx → Tx → Type κ
  Kept P t u = (saved_height u ≡ saved_height t) ⊎ ((h : ℕ) × (saved_height u ≡ ok h) × P h)

  Kept-after :
      (P : ℕ → Type 0) (t u v : Tx) (h : ℕ)
      → (saved_height u ≡ saved_height t) ⊎ (saved_height u ≡ ok h)
      → P h
      → Kept P u v
      → Kept P t v
  Kept-after P t u v h (inl e) p (inl same) = inl (same ∙ e)
  Kept-after P t u v h (inr e) p (inl same) = inr (h, same ∙ e, p)
  Kept-after P t u v h first p (inr later) = inr later

  pub Kept-map : (P Q : ℕ → Type 0) (t u : Tx) → ((h : ℕ) → P h → Q h) → Kept P t u → Kept Q t u
  Kept-map P Q t u f (inl same) = inl same
  Kept-map P Q t u f (inr (h, e, p)) = inr (h, e, f h p)

module _ {E : Type 0} (chain : ScanSource E) (s : Bolt Bucket Error) where
  open s use {Tx}

  pub on_events-found :
      (events : List Event) (closed : Bool) (t : Tx)
      → (on_events chain s events closed t).0 ≡ (closed || found events)
  unfolding on_events on_event
  on_events-found [] closed t = ground arith
  on_events-found (block_connected txs ∷ events) closed t =
      on_events-found events (closed || ltb 0 txs) t ∙ ground arith
  on_events-found (progress b ∷ events) closed t =
      elim (Bool-cases (not closed && (b % 100 == 0))) [
        | inl write ↦
            rw (write, on_events)
              (on_events-found events closed (set_channels_watcher_block_height s t b).1)
        | inr skip ↦ rw (skip, on_events) (on_events-found events closed t)
      ]

  closed-on_events : (events : List Event) (t : Tx) → (on_events chain s events true t).1 ≡ t
  unfolding on_events on_event
  closed-on_events [] t = refl
  closed-on_events (block_connected txs ∷ events) t = closed-on_events events t
  closed-on_events (progress b ∷ events) t = closed-on_events events t

  pub on_events-Kept :
      (events : List Event) (t : Tx)
      → IsShort events
      → Kept s (λ h. IsQuiet h events) t (on_events chain s events false t).1
  unfolding on_events on_event
  on_events-Kept [] t short = inl refl
  on_events-Kept (block_connected txs ∷ events) t short = elim (Bool-cases (ltb 0 txs)) [
    | inl matched ↦ rw (matched, on_events) (inl (ap (saved_height s) (closed-on_events events t)))
    | inr quiet ↦
        rw (quiet, on_events)
          (Kept-map s (λ h. IsQuiet h events) _ t (on_events chain s events false t).1
            (λ h q. (ground (arith, quiet), q)) (on_events-Kept events t short))
  ]
  on_events-Kept (progress b ∷ events) t short = elim (Bool-cases (b % 100 == 0)) [
    | inl write ↦
        let u = (set_channels_watcher_block_height s t b).1 in
        let v = (on_events chain s events false u).1 in
        rw (write, on_events)
          (Kept-after s (λ h. IsQuiet h (progress b ∷ events)) t u v b
            (setting-cases s t b (omega (arith, short.0))) (inl refl)
            (Kept-map s (λ h. IsQuiet h events) _ u v (λ h q. inr q)
              (on_events-Kept events u short.1)))
    | inr skip ↦
        rw (skip, on_events)
          (Kept-map s (λ h. IsQuiet h events) _ t (on_events chain s events false t).1
            (λ h q. inr q) (on_events-Kept events t short.1))
  ]
