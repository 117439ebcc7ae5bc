-- ===== src/SyncJob/Filters.antt =====
-- The loop of syncFilters in sync/job.go ends, and saves no height whose filters it did not download.
use breez.Common.{
  ℕ, zero, suc, ◌+◌, ◌-◌, ◌%◌, ◌^◌, ◌≤◌, ◌<◌, ◌≡◌, ◌⊎◌, inl, inr, refl, sym, subst, true, false,
  Option, none, some, List, [], ◌∷◌, leb, ◌==◌, Bool-cases, Result, ok, err, Result-cases, arith,
}
use breez.Bolt.{Bolt}
use breez.Db.Basics.{Error}
use breez.SyncJob.Store.{
  Bucket, Failure, set_c_filter_sync_height, fetch_c_filter_sync_height, last_c_filter_height_key,
}
use breez.SyncJob.Heights.{set_number-cases}
use breez.SyncJob.Job.{Chain, Downloaded, Round, stops, goes_on, stored, filter_round, filter_loop}
use breez.SyncJob.Waits.{Settles, IsBounded, wait_for_headers-Answers}

abbrev pub Has : ℕ → List ℕ → Type 0
Has n [] = ⊥
Has n (m ∷ list) = (m ≡ n) ⊎ Has n list

module _ {E : Type 0} (chain : Chain E) (s : Bolt Bucket Error) where
  open chain use {terminated}
  open s use {Tx}

  -- The heights from `start` below `end` are all in the list.
  abbrev pub IsDownloaded : ℕ → ℕ → List ℕ → Type 0
  IsDownloaded start end fetched = (n : ℕ) → start ≤ n → n < end → Has n fetched

  -- The saved height of `u` is that of `t`, or one up to which every filter was downloaded.
  abbrev pub IsSaved : ℕ → Tx → List ℕ → Tx → Type 0
  IsSaved start t fetched u =
      (fetch_c_filter_sync_height s u ≡ fetch_c_filter_sync_height s t)
      ⊎ ((h : ℕ) × (fetch_c_filter_sync_height s u ≡ ok h)
          × (start ≤ h)
          × IsDownloaded start (h + 1) fetched)

  IsDownloaded-next :
      (start current : ℕ) (fetched : List ℕ)
      → IsDownloaded start current fetched
      → IsDownloaded start (current + 1) (current ∷ fetched)
  IsDownloaded-next start current fetched all n from below = elim (Bool-cases (current == n)) [
    | inl same ↦ inl (ground (arith, same))
    | inr other ↦ inr (all n from (ground (arith, other)))
  ]

  IsSaved-more :
      (start : ℕ) (t : Tx) (current : ℕ) (fetched : List ℕ) (u : Tx)
      → IsSaved start t fetched u
      → IsSaved start t (current ∷ fetched) u
  IsSaved-more start t current fetched u (inl same) = inl same
  IsSaved-more start t current fetched u (inr (h, e, le, all)) =
      inr (h, e, le, λ n from below. inr (all n from below))

  -- A round that stops has no best height to answer; one that goes on saved its height.
  abbrev RoundKeeps : ℕ → ℕ → Tx → List ℕ → Round chain s → Type 0
  RoundKeeps start current t fetched (stops answer all u) =
      ((best : ℕ) → answer ≡ ok (some best) → ⊥) × IsSaved start t all u
  RoundKeeps start current t fetched (goes_on u) = IsSaved start t (current ∷ fetched) u

  stored-Keeps :
      (start now current : ℕ) (fetched : List ℕ) (t u : Tx) (r : Result Error (Unit {0}) × Tx)
      → start ≤ current
      → IsDownloaded start current fetched
      → IsSaved start t fetched u
      → ((e : Error) × (r.0 ≡ err e) × (r.1 ≡ u))
        ⊎ ((r.0 ≡ ok tt) × (fetch_c_filter_sync_height s r.1 ≡ ok current))
      → RoundKeeps start current t fetched (stored chain s now current fetched r)
  stored-Keeps start now current fetched t u (err e, v) from all saved (inl (_, _, same)) = (
    (λ best e. cc),
    IsSaved-more start t current fetched v (subst (IsSaved start t fetched) (sym same) saved),
  )
  stored-Keeps start now current fetched t u (err e, v) from all saved (inr (good, _)) = cc
  stored-Keeps start now current fetched t u (ok _, v) from all saved (inl (e, bad, _)) = cc
  stored-Keeps start now current fetched t u (ok _, v) from all saved (inr (_, set)) =
      let new : IsSaved start t (current ∷ fetched) v =
        inr (current, set, from, IsDownloaded-next start current fetched all) in
      elim (terminated (now + 2))
        as (λ b.
          RoundKeeps start current t fetched
            (elim b [ true ↦ stops (ok none) (current ∷ fetched) v | false ↦ goes_on v ])) [
              | true ↦ ((λ best e. cc), new)
              | false ↦ new
            ]

  filter_round-Keeps :
      (start now current : ℕ) (fetched : List ℕ) (t u : Tx)
      → current < 2 ^ 64
      → start ≤ current
      → IsDownloaded start current fetched
      → IsSaved start t fetched u
      → RoundKeeps start current t fetched (filter_round chain s now current fetched u)
  unfolding filter_round
  filter_round-Keeps start now current fetched t u small from all saved =
      elim (Bool-cases (terminated now)) [
        | inl stop ↦ rw (stop, filter_round) ((λ best e. cc), saved)
        | inr run ↦ elim (Result-cases (chain.get_block_hash now current)) [
          | inr (e, h) ↦ rw (run, h, filter_round) ((λ best e. cc), saved)
          | inl (hash, h) ↦ elim (Bool-cases (terminated (now + 1))) [
            | inl stop ↦ rw (run, h, stop, filter_round) ((λ best e. cc), saved)
            | inr run1 ↦ elim (Result-cases (chain.get_c_filter (now + 1) hash)) [
              | inr (e, f) ↦ rw (run, h, run1, f, filter_round) ((λ best e. cc), saved)
              | inl (_, f) ↦
                  rw (run, h, run1, f, filter_round)
                    (stored-Keeps start now current fetched t u
                      (set_c_filter_sync_height s u current) from all saved
                      (set_number-cases s last_c_filter_height_key current u small))
            ]
          ]
        ]
      ]

  Round-cases :
      (r : Round chain s)
      → ((answer : Result (Failure E) (Option ℕ)) × (all : List ℕ) × (v : Tx) × (r
            ≡ stops answer all v))
        ⊎ ((v : Tx) × (r ≡ goes_on v))
  Round-cases (stops answer all v) = inl (answer, all, v, refl)
  Round-cases (goes_on v) = inr (v, refl)

  -- A download that ended, from a start in `t`, with no best height above `top`.
  unfoldable pub Ends : ℕ → ℕ → Tx → Downloaded chain s → Type 0
  Ends top start t d =
      IsSaved start t d.fetched d.tx
      × ((best : ℕ)
          → d.answer ≡ ok (some best)
          → (best ≤ top) × IsDownloaded start (best + 1) d.fetched)

  filter_loop-Ends :
      (top waits fuel now start current best : ℕ) (fetched : List ℕ) (t u : Tx)
      → Settles chain waits
      → IsBounded chain top
      → top + 1 < 2 ^ 64
      → best ≤ top
      → top + 1 - current < fuel
      → start ≤ current
      → IsDownloaded start current fetched
      → IsSaved start t fetched u
      → (d : Downloaded chain s) × (filter_loop chain s waits fuel now current best fetched u
          ≡ some d)
        × Ends top start t d
  unfolding filter_loop Ends
  filter_loop-Ends top waits zero now start current best fetched t u settles bounded small le enough
        from all saved =
      elim enough [ ]
  filter_loop-Ends top waits (suc fuel) now start current best fetched t u settles bounded small le
        enough from all saved =
      elim (Bool-cases (leb current best)) [
        | inr past ↦
            rw (past, filter_loop)
              (
                _,
                refl,
                (
                  saved,
                  λ b e.
                      let same : best ≡ b = cc in
                      (
                        subst (λ b. b ≤ top) same le,
                        λ n low below. all n low (ground (arith, past, same)),
                      ),
                ),
              )
        | inl more ↦ elim (Round-cases (filter_round chain s now current fetched u)) [
          | inl (answer, all_fetched, v, r) ↦
              let kept = subst (RoundKeeps start current t fetched) r (
                filter_round-Keeps start now current fetched t u (ground (arith, more)) from all
                  saved) in
              rw (more, r, filter_loop) (_, refl, (kept.1, λ b e. absurd (kept.0 b e)))
          | inr (v, r) ↦
              let kept = subst (RoundKeeps start current t fetched) r (
                filter_round-Keeps start now current fetched t u (ground (arith, more)) from all
                  saved) in
              elim (wait_for_headers-Answers chain waits (now + 3) current top settles bounded) [
                | inl (e, later, w) ↦ rw (more, r, w, filter_loop) (_, refl, (kept, λ b e. cc))
                | inr (next, later, w, next_le, _) ↦
                    let step : (current + 1) % 2 ^ 64 ≡ current + 1 = ground (arith, more) in
                    rw (more, r, w, step, filter_loop)
                      (filter_loop-Ends top waits fuel later start (current + 1) next
                        (current ∷ fetched) t v settles bounded small next_le (ground (arith, more))
                        (omega arith) (IsDownloaded-next start current fetched all) kept)
              ]
        ]
      ]

  pub filter_loop_total :
      (top waits fuel now start best : ℕ) (t : Tx)
      → Settles chain waits
      → IsBounded chain top
      → top + 1 < 2 ^ 64
      → best ≤ top
      → top + 1 - start < fuel
      → (d : Downloaded chain s) × (filter_loop chain s waits fuel now start best [] t ≡ some d)
        × Ends top start t d
  filter_loop_total top waits fuel now start best t settles bounded small le enough =
      filter_loop-Ends top waits fuel now start start best [] t t settles bounded small le enough
        (omega arith) (λ n from below. absurd (omega (arith, from, below))) (inl refl)
