-- ===== src/RefCount/Lifetime.antt =====
-- Who holds the shared instance, and when it is created and released.
use breez.Common.{
  ℕ, ◌+◌, ◌-◌, ◌^◌, ◌<◌, ◌≡◌, refl, Option, none, some, List, [], ◌∷◌, ◌++◌, ◌==◌, if◌then◌else◌,
  length, arith,
}
use breez.RefCount.{
  Call, create_succeeded, create_failed, called_release, ReferenceCountable, clean_up, get, release,
  Op, gets, releases, step, run,
}

-- The specification: the instance in use and how many hold it.
abbrev pub Holders : Type 0 → Type 0
Holders I = Option (Option I × ℕ)

abbrev pub view : {I R : Type 0} → ReferenceCountable I R → Holders I
view r = if r.ref_count == 0 then none else some (r.held, r.ref_count)

module _ {I R E : Type 0} where
  abbrev pub spec_step : Holders I → Op I R E → Holders I
  spec_step none (gets c) = elim c.failure [ some e ↦ none | none ↦ some (c.made, 1) ]
  spec_step (some (i, n)) (gets c) = some (i, n + 1)
  spec_step none releases = none
  spec_step (some (i, n)) releases = if n == 1 then none else some (i, n - 1)

  pub spec_run : Holders I → List (Op I R E) → Holders I
  spec_run h [] = h
  spec_run h (op ∷ ops) = spec_run (spec_step h op) ops

  module _ (run_release : R → Option E) where
    step-count :
        (r : ReferenceCountable I R) (op : Op I R E)
        → r.ref_count + 1 < 2 ^ 32
        → (step run_release r op).ref_count < r.ref_count + 2
    unfolding step get release
    step-count r (gets c) h = ground arith
    step-count r releases h = ground arith

    view-step :
        (r : ReferenceCountable I R) (op : Op I R E)
        → r.ref_count + 1 < 2 ^ 32
        → view (step run_release r op) ≡ spec_step (view r) op
    unfolding step get release
    view-step r (gets c) h = ground arith
    view-step r releases h = ground arith

    -- While the count fits 32 bits, any history of Get and Release shows the same instance and number
    -- of holders as the specification does.
    pub view-run :
        (ops : List (Op I R E)) (r : ReferenceCountable I R)
        → r.ref_count + length ops < 2 ^ 32
        → view (run run_release r ops) ≡ spec_run (view r) ops
    unfolding run spec_run
    view-run [] r h = refl
    view-run (op ∷ ops) r h =
        ground (arith, view-step r op, step-count r op, view-run ops (step run_release r op))

-- The traces that the outside may see: failed factory calls, cleaned up at once, and lifetimes of
-- instances, one at a time. The second index is the release function of the open lifetime, if any.
pub data Lifetime {R : Type 0} : List (Call R) → Option (Option R) → Type 0 where
  start : {t : List (Call R)} → t ≡ [] → Lifetime t none
  failed :
      (c : Option R) {t u : List (Call R)}
      → Lifetime t none
      → u ≡ t ++ (create_failed ∷ clean_up c)
      → Lifetime u none
  opened :
      (c : Option R) {t u : List (Call R)}
      → Lifetime t none
      → u ≡ t ++ (create_succeeded ∷ [])
      → Lifetime u (some c)
  closed :
      (f : R) {t u : List (Call R)}
      → Lifetime t (some (some f))
      → u ≡ t ++ (called_release f ∷ [])
      → Lifetime u none
  crashed : {t : List (Call R)} → Lifetime t (some none) → Lifetime t none

abbrev pub holding : {I R : Type 0} → ReferenceCountable I R → Option (Option R)
holding r = if r.ref_count == 0 then none else some r.release_fn
