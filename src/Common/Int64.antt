-- ===== src/Common/Int64.antt =====
-- Go's int64 as a bit pattern: wrap-around arithmetic, the division that truncates towards zero, and
-- the signed order. Below 2 ^ 63 they are those of the natural numbers.
use Prim.Native.Nat.{ℕ, ◌+◌, ◌-◌, ◌*◌, ◌/◌, ◌%◌, ◌^◌, ◌≤◌, ◌<◌}
use mathlib.Core.Path.{◌≡◌}
use mathlib.Core.Bool.{Bool, true}
use native.Mathlib.Omega.{arith}
use breez.Common.Tests.{ltb, if◌then◌else◌}

-- No argument is below 2 ^ 63 by itself: the definitions take patterns below 2 ^ 64.
unfoldable pub add64 : ℕ → ℕ → ℕ
add64 a b = (a + b) % 2 ^ 64

unfoldable pub sub64 : ℕ → ℕ → ℕ
sub64 a b = (a + 2 ^ 64 - b) % 2 ^ 64

unfoldable pub mul64 : ℕ → ℕ → ℕ
mul64 a b = a * b % 2 ^ 64

-- The divisor is positive.
unfoldable pub div64 : ℕ → ℕ → ℕ
div64 a b = if ltb a (2 ^ 63) then a / b else (2 ^ 64 - (2 ^ 64 - a) / b) % 2 ^ 64

-- How a pattern stands in the signed order.
unfoldable pub rank64 : ℕ → ℕ
rank64 a = (a + 2 ^ 63) % 2 ^ 64

unfoldable pub lt64 : ℕ → ℕ → Bool
unfolding rank64
lt64 a b = ltb (rank64 a) (rank64 b)

pub add64-eq : (a b : ℕ) → a + b < 2 ^ 63 → add64 a b ≡ a + b
unfolding add64
add64-eq a b h = omega arith

pub sub64-eq : (a b : ℕ) → b ≤ a → a < 2 ^ 63 → sub64 a b ≡ a - b
unfolding sub64
sub64-eq a b h k = omega arith

-- A difference below zero is above every positive pattern.
pub sub64-negative : (a b : ℕ) → a < b → b < 2 ^ 63 → sub64 a b ≡ 2 ^ 64 - (b - a)
unfolding sub64
sub64-negative a b h k = omega arith

pub mul64-eq : (a b : ℕ) → a * b < 2 ^ 63 → mul64 a b ≡ a * b
unfolding mul64
mul64-eq a b h = omega arith

pub div64-eq : (a b : ℕ) → a < 2 ^ 63 → div64 a b ≡ a / b
unfolding div64
div64-eq a b h = ground arith

pub lt64-eq : (a b : ℕ) → a < 2 ^ 63 → b < 2 ^ 63 → lt64 a b ≡ ltb a b
unfolding lt64
lt64-eq a b h k = ground arith

pub lt64-negative : (a b : ℕ) → 2 ^ 63 ≤ a → a < 2 ^ 64 → b < 2 ^ 63 → lt64 a b ≡ true
unfolding lt64
lt64-negative a b h k l = ground arith
