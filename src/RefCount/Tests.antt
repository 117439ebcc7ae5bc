-- ===== src/RefCount/Tests.antt =====
-- Histories of refcount/referencecountable.go, and its theorems on them.
use breez.Common.{ℕ, ◌≡◌, refl, Option, none, some, List, [], ◌∷◌, arith, ◌==◌, if◌then◌else◌}
use breez.RefCount.{
  Created, create_succeeded, create_failed, called_release, unused, Op, gets, releases, step, run,
  get, release,
}
use breez.RefCount.Lifetime.{view, spec_run, view-run, Lifetime}

-- Instances, release functions and errors are numbers; the release function 9 fails.
abbrev run_release : ℕ → Option ℕ
run_release n = if n == 9 then some 1 else none

abbrev made : Created ℕ ℕ ℕ
made = record { made = some 7; cleanup = some 3; failure = none }

abbrev broken : Created ℕ ℕ ℕ
broken = record { made = none; cleanup = some 4; failure = some 5 }

abbrev history : List (Op ℕ ℕ ℕ)
history = gets broken ∷ gets made ∷ gets made ∷ releases ∷ releases ∷ releases ∷ []

calls_of_history :
    (run run_release (unused ℕ ℕ) history).calls
    ≡ create_failed ∷ called_release 4 ∷ create_succeeded ∷ called_release 3 ∷ []
unfolding run step get release
calls_of_history = refl

view-run_example :
    view (run run_release (unused ℕ ℕ) history) ≡ spec_run (view (unused ℕ ℕ)) history
view-run_example = view-run run_release history (unused ℕ ℕ) (omega arith)
