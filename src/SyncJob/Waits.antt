-- ===== src/SyncJob/Waits.antt =====
-- waitForHeaders of sync/job.go returns when the headers settle.
use breez.Common.{
  ℕ, zero, suc, ◌+◌, ◌≤◌, ◌<◌, ◌≡◌, ◌⊎◌, inl, inr, refl, subst, true, false, not, ◌&&◌, Option,
  some, ◌==◌, Bool-cases, Result, ok, err, Result-cases, arith,
}
use breez.SyncJob.Store.{Failure, chain_failed, has_quit}
use breez.SyncJob.Job.{Chain, wait_loop, wait_for_headers}

module _ {E : Type 0} (chain : Chain E) where
  open chain use {best_block, is_current, terminated}

  -- From any time on the headers are current, or the job is ended, within `waits` rounds of waiting.
  abbrev pub Settles : ℕ → Type 0
  Settles waits =
      (now : ℕ)
      → (k : ℕ) × (k < waits) × ((is_current (now + k) ≡ true) ⊎ (terminated (now + k) ≡ true))

  -- No best block is higher than `top`.
  abbrev pub IsBounded : ℕ → Type 0
  IsBounded top = (now best : ℕ) → best_block now ≡ ok best → best ≤ top

  -- An answer of a wait from `now` on, whose height is at most `top`.
  abbrev pub Answers : ℕ → ℕ → Option (Result (Failure E) ℕ × ℕ) → Type 0
  Answers now top o =
      ((e : Failure E) × (later : ℕ) × (o ≡ some (err e, later)))
      ⊎ ((best : ℕ) × (later : ℕ) × (o ≡ some (ok best, later)) × (best ≤ top) × (now ≤ later))

  Answers-earlier :
      (now top : ℕ) (o : Option (Result (Failure E) ℕ × ℕ))
      → Answers (now + 1) top o
      → Answers now top o
  Answers-earlier now top o (inl failed) = inl failed
  Answers-earlier now top o (inr (best, later, e, le, after)) =
      inr (best, later, e, le, omega arith)

  Settled : ℕ → Type 0
  Settled now = (is_current now ≡ true) ⊎ (terminated now ≡ true)

  Settled-later :
      (k now : ℕ)
      → Settled (now + k)
      → is_current now ≡ false
      → terminated now ≡ false
      → (j : ℕ) × (k ≡ suc j) × Settled (now + 1 + j)
  unfolding Settled
  Settled-later zero now settled behind run =
      let at_now : Settled now = subst Settled (omega arith) settled in
      elim at_now [ inl current ↦ cc | inr stop ↦ cc ]
  Settled-later (suc j) now settled behind run = (j, refl, subst Settled (omega arith) settled)

  wait_loop-Answers :
      (k fuel now current best top : ℕ)
      → k < fuel
      → Settled (now + k)
      → IsBounded top
      → best ≤ top
      → Answers now top (wait_loop chain fuel now current best)
  unfolding wait_loop
  wait_loop-Answers k zero now current best top enough settled bounded le = elim enough [ ]
  wait_loop-Answers k (suc fuel) now current best top enough settled bounded le =
      elim (Bool-cases (current == best && not (is_current now))) [
        | inr go ↦ rw (go, wait_loop) (inr (best, now, refl, le, omega arith))
        | inl wait ↦ elim (Bool-cases (terminated now)) [
          | inl stop ↦ rw (wait, stop, wait_loop) (inl (has_quit, now + 1, refl))
          | inr run ↦ elim (Result-cases (best_block now)) [
            | inr (e, h) ↦ rw (wait, run, h, wait_loop) (inl (chain_failed e, now + 1, refl))
            | inl (next, h) ↦
                let (j, e, settled_later) =
                  Settled-later k now settled (ground (arith, wait)) run in
                rw (wait, run, h, wait_loop)
                  (Answers-earlier now top _ (
                    wait_loop-Answers j fuel (now + 1) current next top (omega arith) settled_later
                      bounded (bounded now next h)))
          ]
        ]
      ]

  pub wait_for_headers-Answers :
      (waits now current top : ℕ)
      → Settles waits
      → IsBounded top
      → Answers now top (wait_for_headers chain waits now current)
  unfolding wait_for_headers Settled
  wait_for_headers-Answers waits now current top settles bounded =
      elim (Result-cases (best_block now)) [
        | inr (e, h) ↦ rw (h, wait_for_headers) (inl (chain_failed e, now + 1, refl))
        | inl (best, h) ↦
            let (k, small, settled) = settles (now + 1) in
            rw (h, wait_for_headers)
              (Answers-earlier now top _ (
                wait_loop-Answers k waits (now + 1) current best top small settled bounded
                  (bounded now best h)))
      ]
