-- ===== src/SyncJob/Job.antt =====
-- sync/job.go: the job's loops over the headers and the filters.
use breez.Common.{
  ℕ, zero, suc, ◌+◌, ◌%◌, ◌^◌, Bool, true, false, not, ◌&&◌, Option, none, some, List, ◌∷◌, Bytes,
  ltb, leb, ◌==◌, Result, ok, err,
}
use breez.Bolt.{Bolt}
use breez.Db.Basics.{Error}
use breez.SyncJob.Store.{
  Bucket, Failure, chain_failed, store_failed, has_quit, set_c_filter_sync_height,
}

-- A `select` between a timer, the end of the five seconds and the quit channel.
pub data Choice : Type 0 where
  timed_out waited asked_to_quit : Choice

-- neutrino's chain service and the job's quit channel; what they answer depends on the time, which each
-- call moves on by one.
pub record Chain (E : Type 0) : Type 0 where
  pub best_block : ℕ → Result E ℕ
  pub is_current : ℕ → Bool
  pub connected_count : ℕ → ℕ
  pub get_block_hash : ℕ → ℕ → Result E Bytes
  pub get_c_filter : ℕ → Bytes → Result E (Unit {0})
  pub terminated : ℕ → Bool
  pub select : ℕ → Choice

module _ {E : Type 0} (chain : Chain E) where
  open chain use {best_block, is_current, terminated}

  -- The loop of waitForHeaders, with the time at which it ends.
  unfoldable pub wait_loop : ℕ → ℕ → ℕ → ℕ → Option (Result (Failure E) ℕ × ℕ)
  wait_loop zero now current best = none
  wait_loop (suc fuel) now current best = elim (current == best && not (is_current now)) [
    | false ↦ some (ok best, now)
    | true ↦ elim (terminated now) [
      | true ↦ some (err has_quit, now + 1)
      | false ↦ elim (best_block now) [
        | err e ↦ some (err (chain_failed e), now + 1)
        | ok next ↦ wait_loop fuel (now + 1) current next
      ]
    ]
  ]

  unfoldable pub wait_for_headers : ℕ → ℕ → ℕ → Option (Result (Failure E) ℕ × ℕ)
  wait_for_headers fuel now current = elim (best_block now) [
    | err e ↦ some (err (chain_failed e), now + 1)
    | ok best ↦ wait_loop fuel (now + 1) current best
  ]

  -- The loop syncHeaders: the best height, or `none` if the job is to end.
  unfoldable pub sync_headers : ℕ → ℕ → ℕ → ℕ → ℕ → Option (Result (Failure E) (Option ℕ) × ℕ)
  sync_headers waits zero now start best = none
  sync_headers waits (suc fuel) now start best =
      elim (ltb 0 (chain.connected_count now) && ltb start best) [
        | true ↦ some (ok (some best), now)
        | false ↦ elim (chain.select now) [
          | timed_out ↦ some (ok (some best), now + 1)
          | asked_to_quit ↦ some (ok none, now + 1)
          | waited ↦ elim (wait_for_headers waits (now + 1) start) [
            | none ↦ none
            | some (err e, later) ↦ some (err e, later)
            | some (ok next, later) ↦ sync_headers waits fuel later start next
          ]
        ]
      ]

  module _ (s : Bolt Bucket Error) where
    open s use {Tx}

    -- How the download of the filters ends: with an error, with `none` if it is terminated, or with
    -- the best height. `fetched` are the heights of the filters that were downloaded, the last one
    -- first.
    pub record Downloaded : Type 0 where
      pub answer : Result (Failure E) (Option ℕ)
      pub fetched : List ℕ
      pub tx : Tx
      pub now : ℕ

    abbrev ended : Result (Failure E) (Option ℕ) → List ℕ → Tx → ℕ → Option Downloaded
    ended answer fetched t now =
        some (record { answer = answer; fetched = fetched; tx = t; now = now })

    pub data Round : Type 0 where
      stops : Result (Failure E) (Option ℕ) → List ℕ → Tx → Round
      goes_on : Tx → Round

    abbrev pub stored : ℕ → ℕ → List ℕ → Result Error (Unit {0}) × Tx → Round
    stored now current fetched (err e, u) = stops (err (store_failed e)) (current ∷ fetched) u
    stored now current fetched (ok _, u) = elim (terminated (now + 2)) [
      | true ↦ stops (ok none) (current ∷ fetched) u
      | false ↦ goes_on u
    ]

    -- The download of one filter, up to the check that follows it.
    unfoldable pub filter_round : ℕ → ℕ → List ℕ → Tx → Round
    filter_round now current fetched t = elim (terminated now) [
      | true ↦ stops (ok none) fetched t
      | false ↦ elim (chain.get_block_hash now current) [
        | err e ↦ stops (err (chain_failed e)) fetched t
        | ok h ↦ elim (terminated (now + 1)) [
          | true ↦ stops (ok none) fetched t
          | false ↦ elim (chain.get_c_filter (now + 1) h) [
            | err e ↦ stops (err (chain_failed e)) fetched t
            | ok _ ↦ stored now current fetched (set_c_filter_sync_height s t current)
          ]
        ]
      ]
    ]

    -- The loop over the heights; `waits` is the fuel of waitForHeaders.
    unfoldable pub filter_loop : ℕ → ℕ → ℕ → ℕ → ℕ → List ℕ → Tx → Option Downloaded
    filter_loop waits zero now current best fetched t = none
    filter_loop waits (suc fuel) now current best fetched t = elim (leb current best) [
      | false ↦ ended (ok (some best)) fetched t now
      | true ↦ elim (filter_round now current fetched t) [
        | stops answer all u ↦ ended answer all u (now + 3)
        | goes_on u ↦ elim (wait_for_headers waits (now + 3) current) [
          | none ↦ none
          | some (err e, later) ↦ ended (err e) (current ∷ fetched) u later
          | some (ok next, later) ↦
              filter_loop waits fuel later ((current + 1) % 2 ^ 64) next (current ∷ fetched) u
        ]
      ]
    ]
