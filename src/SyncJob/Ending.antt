-- ===== src/SyncJob/Ending.antt =====
-- A run of the job of sync/job.go returns.
use breez.Common.{
  ℕ, zero, suc, ◌+◌, ◌-◌, ◌^◌, ◌≤◌, ◌<◌, ◌≡◌, ◌≢◌, ◌⊎◌, inl, inr, refl, sym, ap, ◌∙◌, subst, Bool,
  true, false, ◌&&◌, Option, none, some, Bool-cases, Result, ok, err, Result-cases, ltb, leb,
  leb→le, ◌==◌, if◌then◌else◌, arith,
}
use breez.Bolt.{Bolt, Codec}
use breez.Db.Basics as Basics
use breez.Db.Basics.{Error}
use breez.Db.SyncStatus.{MismatchedChannels, set_last_synced_header_timestamp}
use breez.SyncJob.Store.{
  Bucket, Failure, fetch_c_filter_sync_height, last_success_run_date, set_last_success_run_date,
}
use breez.SyncJob.Watcher.{ChannelsWatcher, ChannelSource, ScanSource, new_channels_watcher, scan}
use breez.SyncJob.Job.{Choice, timed_out, waited, asked_to_quit, Chain, sync_headers, Downloaded}
use breez.SyncJob.Run.{
  Setup, Synced, date_set, scanned, after_filters, check_channels, sync_from, sync_filters,
  is_rate_limited,
}
use breez.SyncJob.Waits.{Settles, IsBounded, wait_for_headers-Answers}
use breez.SyncJob.Filters.{Ends, filter_loop_total}

Choice-cases : (c : Choice) → (c ≡ timed_out) ⊎ ((c ≡ asked_to_quit) ⊎ (c ≡ waited))
Choice-cases timed_out = inl refl
Choice-cases asked_to_quit = inr (inl refl)
Choice-cases waited = inr (inr refl)

module _ {E : Type 0} (chain : Chain E) where
  -- From the deadline on, no select waits on: the context with its five seconds is done.
  abbrev pub TimesOut : ℕ → Type 0
  TimesOut deadline = (now : ℕ) → deadline ≤ now → chain.select now ≢ waited

  abbrev pub IsReached : ℕ → Option (Result (Failure E) (Option ℕ) × ℕ) → Type 0
  IsReached top o =
      (answer : Result (Failure E) (Option ℕ)) × (later : ℕ) × (o ≡ some (answer, later))
      × ((best : ℕ) → answer ≡ ok (some best) → best ≤ top)

  pub sync_headers-IsReached :
      (waits fuel now start best top deadline : ℕ)
      → Settles chain waits
      → IsBounded chain top
      → TimesOut deadline
      → best ≤ top
      → deadline - now < fuel
      → IsReached top (sync_headers chain waits fuel now start best)
  unfolding sync_headers
  sync_headers-IsReached waits zero now start best top deadline settles bounded out le enough =
      elim enough [ ]
  sync_headers-IsReached waits (suc fuel) now start best top deadline settles bounded out le
        enough =
      let here : (b : ℕ)
          → ◌≡◌ {A = Result (Failure E) (Option ℕ)} (ok (some best)) (ok (some b))
          → b ≤ top =
        λ b e. let same : best ≡ b = cc in subst (λ b. b ≤ top) same le in
      elim (Bool-cases (ltb 0 (chain.connected_count now) && ltb start best)) [
        | inl enough_peers ↦ rw (enough_peers, sync_headers) (_, _, refl, here)
        | inr go ↦ elim (Choice-cases (chain.select now)) [
          | inl over ↦ rw (go, over, sync_headers) (_, _, refl, here)
          | inr (inl stop) ↦ rw (go, stop, sync_headers) (_, _, refl, λ b e. cc)
          | inr (inr again) ↦
              elim (wait_for_headers-Answers chain waits (now + 1) start top settles bounded) [
                | inl (e, later, w) ↦ rw (go, again, w, sync_headers) (_, _, refl, λ b e. cc)
                | inr (next, later, w, next_le, after_now) ↦
                    let early : now < deadline = elim (Bool-cases (leb deadline now)) [
                      | inl past ↦ absurd (out now (leb→le deadline now past) again)
                      | inr before ↦ ground (arith, before)
                    ] in
                    rw (go, again, w, sync_headers)
                      (sync_headers-IsReached waits fuel later start next top deadline settles
                        bounded out next_le (omega arith))
              ]
        ]
      ]

module _ {E : Type 0} (setup : Setup E) (chain : Chain E) (blocks : ScanSource E)
    (lnd : ChannelSource E) (s : Bolt Bucket Error) (breez : Bolt Basics.Bucket Error)
    (json : Codec Error MismatchedChannels) where
  abbrev pub Sync : Type 0
  Sync = Synced setup chain blocks lnd s breez json

  -- A run reports a closed channel only after a scan, up to a height at most `top`, that found one.
  abbrev pub IsFound : ℕ → Sync → Type 0
  IsFound top r =
      r.channel_closed ≡ true
      → (w : ChannelsWatcher) × (best : ℕ) × (u : s.Tx) × ((new_channels_watcher lnd ≡ ok w)
          × (best ≤ top)
          × ((scan blocks s w best u).0 ≡ (true, none)))

  abbrev pub Returns : ℕ → Option Sync → Type 0
  Returns top o = (r : Sync) × (o ≡ some r) × IsFound top r

  date_set-closed :
      (closed : Bool) (d : Result Error (Unit {0}) × s.Tx) (b : breez.Tx)
      → (date_set setup chain blocks lnd s breez json closed d b).channel_closed ≡ closed
  date_set-closed closed (ok _, u) b = refl
  date_set-closed closed (err e, u) b = refl

  scanned-closed :
      (r : (Bool × Option (Failure E)) × s.Tx) (b : breez.Tx)
      → (scanned setup chain blocks lnd s breez json r b).channel_closed ≡ true
      → r.0 ≡ (true, none)
  unfolding scanned
  scanned-closed ((closed, some e), u) b h = cc
  scanned-closed ((closed, none), u) b h =
      let same : closed ≡ true =
        sym (
          date_set-closed closed (set_last_success_run_date s u setup.finished)
            (set_last_synced_header_timestamp breez json b setup.finished).1)
        ∙ h in
      ap (λ c. (c, none)) same

  check_channels-IsFound :
      (top best : ℕ) (t : s.Tx) (b : breez.Tx)
      → best ≤ top
      → IsFound top (check_channels setup chain blocks lnd s breez json best t b)
  unfolding check_channels
  check_channels-IsFound top best t b le = elim (Result-cases (new_channels_watcher lnd)) [
    | inr (e, n) ↦ rw (n, check_channels) (λ h. cc)
    | inl (w, n) ↦
        rw (n, check_channels)
          (λ h. (w, best, t, (refl, le, scanned-closed (scan blocks s w best t) b h)))
  ]

  after_filters-Returns :
      (top : ℕ) (b : breez.Tx) (o : Option (Downloaded chain s)) (d : Downloaded chain s)
      → o ≡ some d
      → ((best : ℕ) → d.answer ≡ ok (some best) → best ≤ top)
      → Returns top (after_filters setup chain blocks lnd s breez json b o)
  after_filters-Returns top b o d h bounded = elim (Result-cases d.answer) [
    | inr (e, a) ↦ rw (h, a) (_, refl, λ c. cc)
    | inl (none, a) ↦ rw (h, a) (_, refl, λ c. cc)
    | inl (some best, a) ↦
        rw (h, a) (_, refl, check_channels-IsFound top best d.tx b (bounded best a))
  ]

  sync_from-Returns :
      (top deadline waits headers rounds saved : ℕ) (t : s.Tx) (b : breez.Tx)
      → Settles chain waits
      → IsBounded chain top
      → TimesOut chain deadline
      → top + 1 < 2 ^ 64
      → top + 1 < rounds
      → deadline < headers
      → Returns top (sync_from setup chain blocks lnd s breez json waits headers rounds saved t b)
  unfolding sync_from Ends
  sync_from-Returns top deadline waits headers rounds saved t b settles bounded out small more
        over =
      elim (wait_for_headers-Answers chain waits 0 saved top settles bounded) [
        | inl (e, later, w) ↦ rw (w, sync_from) (_, refl, λ c. cc)
        | inr (first_best, now, w, first_le, _) ↦
            let start = if saved == 0 then first_best else saved in
            let (answer, later, h, reached) =
              sync_headers-IsReached chain waits headers now start first_best top deadline settles
                bounded out first_le (omega arith) in
            elim (Result-cases answer) [
              | inr (e, a) ↦ rw (w, h, a, sync_from) (_, refl, λ c. cc)
              | inl (none, a) ↦ rw (w, h, a, sync_from) (_, refl, λ c. cc)
              | inl (some best, a) ↦ elim (Bool-cases (chain.connected_count later == 0)) [
                | inl alone ↦ rw (w, h, a, alone, sync_from) (_, refl, λ c. cc)
                | inr joined ↦
                    let (d, loop, ends) =
                      filter_loop_total chain s top waits rounds later start best t settles bounded
                        small (reached best a) (omega arith) in
                    rw (w, h, a, joined, sync_from)
                      (after_filters-Returns top b _ d loop (λ best a. (ends.1 best a).0))
              ]
            ]
      ]

  -- If the headers settle, no best block is above `top` and the five seconds end, then a run returns,
  -- whatever fails in it; and it reports a closed channel only after a scan that found one.
  pub sync_filters_total :
      (top deadline waits headers rounds : ℕ) (t : s.Tx) (b : breez.Tx)
      → Settles chain waits
      → IsBounded chain top
      → TimesOut chain deadline
      → top + 1 < 2 ^ 64
      → top + 1 < rounds
      → deadline < headers
      → Returns top (sync_filters setup chain blocks lnd s breez json waits headers rounds t b)
  unfolding sync_filters
  sync_filters_total top deadline waits headers rounds t b settles bounded out small more over =
      elim (Result-cases setup.bootstrapped) [
        | inr (e, h0) ↦ rw (h0, sync_filters) (_, refl, λ c. cc)
        | inl (false, h0) ↦ rw (h0, sync_filters) (_, refl, λ c. cc)
        | inl (true, h0) ↦ elim (Result-cases setup.breez_db) [
          | inr (e, h1) ↦ rw (h0, h1, sync_filters) (_, refl, λ c. cc)
          | inl (_, h1) ↦ elim (Result-cases setup.job_db) [
            | inr (e, h2) ↦ rw (h0, h1, h2, sync_filters) (_, refl, λ c. cc)
            | inl (_, h2) ↦ elim (Result-cases (last_success_run_date s t)) [
              | inr (e, h3) ↦ rw (h0, h1, h2, h3, sync_filters) (_, refl, λ c. cc)
              | inl (last_run, h3) ↦ elim (Bool-cases (is_rate_limited setup.started last_run)) [
                | inl h4 ↦ rw (h0, h1, h2, h3, h4, sync_filters) (_, refl, λ c. cc)
                | inr h4 ↦ elim (Result-cases (fetch_c_filter_sync_height s t)) [
                  | inr (e, h5) ↦ rw (h0, h1, h2, h3, h4, h5, sync_filters) (_, refl, λ c. cc)
                  | inl (saved, h5) ↦ elim (Result-cases setup.chain_service) [
                    | inr (e, h6) ↦ rw (h0, h1, h2, h3, h4, h5, h6, sync_filters) (_, refl, λ c. cc)
                    | inl (_, h6) ↦
                        rw (h0, h1, h2, h3, h4, h5, h6, sync_filters)
                          (sync_from-Returns top deadline waits headers rounds saved t b settles
                            bounded out small more over)
                  ]
                ]
              ]
            ]
          ]
        ]
      ]
