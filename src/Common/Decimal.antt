-- ===== src/Common/Decimal.antt =====
-- strconv's ParseUint to base 10 and Itoa, and that the first reads what the second writes.
use Prim.Native.Nat.{ℕ, zero, suc, ◌+◌, ◌-◌, ◌*◌, ◌/◌, ◌%◌, ◌^◌, ◌<◌, ◌≤◌}
use mathlib.Core.Path.{◌≡◌, refl, sym, ap, ◌∙◌}
use mathlib.Core.Logic.{inl, inr}
use mathlib.Core.Bool.{true, ◌&&◌}
use mathlib.Core.List.{[], ◌∷◌}
use mathlib.Core.Option.{Option, none, some}
use native.Mathlib.Omega.{arith}
use native.Mathlib.Nat.{pow-suc}
use breez.Common.Tests.{ltb, leb, ltb→lt, lt→ltb, if◌then◌else◌, Bool-cases}
use breez.Common.Lists.{Bytes, length}

-- The number that a text of digits adds to the ones read before it.
unfoldable pub parse_digits : ℕ → Bytes → Option ℕ
parse_digits n [] = some n
parse_digits n (c ∷ s) =
    if leb b'0' c && leb c b'9' then parse_digits (n * 10 + (c - b'0')) s else none

abbrev below : ℕ → Option ℕ → Option ℕ
below limit none = none
below limit (some n) = if ltb n limit then some n else none

-- strconv.ParseUint(s, 10, bits)
unfoldable pub parse_uint : ℕ → Bytes → Option ℕ
parse_uint bits [] = none
parse_uint bits (c ∷ s) = below (2 ^ bits) (parse_digits 0 (c ∷ s))

-- The digits of a number before a text: at most twenty for a uint64.
unfoldable pub print_digits : ℕ → ℕ → Bytes → Bytes
print_digits zero n rest = rest
print_digits (suc fuel) n rest =
    let more = print_digits fuel (n / 10) ((b'0' + n % 10) ∷ rest) in
    if ltb n 10 then (b'0' + n) ∷ rest else more

-- strconv.Itoa of int(n), for a uint64 n: the int is negative from 2 ^ 63 on.
unfoldable pub itoa : ℕ → Bytes
itoa n = if ltb n (2 ^ 63) then print_digits 20 n [] else b'-' ∷ print_digits 20 (2 ^ 64 - n) []

one_digit :
    (n m : ℕ) (rest : Bytes)
    → n < 10
    → parse_digits m ((b'0' + n) ∷ rest) ≡ parse_digits (m * 10 + n) rest
unfolding parse_digits
one_digit n m rest h =
    let low : leb 48 (48 + n) ≡ true = ground arith in
    let high : leb (48 + n) 57 ≡ true = ground arith in
    let value : 48 + n - 48 ≡ n = omega arith in rw (low, high, value) refl

first_digit :
    (n : ℕ) (rest : Bytes) → n < 10 → parse_digits 0 ((b'0' + n) ∷ rest) ≡ parse_digits n rest
first_digit n rest h = one_digit n 0 rest h ∙ ap (λ k. parse_digits k rest) (omega arith)

tenth : (fuel n : ℕ) → n < 10 ^ suc fuel → n / 10 < 10 ^ fuel
tenth fuel n h =
    let e : 10 ^ suc fuel ≡ 10 * 10 ^ fuel = rw (pow-suc 10 fuel) (omega arith) in omega (arith, e)

-- As many rounds as digits are enough.
parse_digits-print_digits :
    (fuel n : ℕ) (rest : Bytes)
    → n < 10 ^ fuel
    → 0 < fuel
    → parse_digits 0 (print_digits fuel n rest) ≡ parse_digits n rest
unfolding print_digits
parse_digits-print_digits zero n rest small some_fuel = elim some_fuel [ ]
parse_digits-print_digits (suc zero) n rest small some_fuel =
    let short : ltb n 10 ≡ true = ground arith in rw short (first_digit n rest (omega arith))
parse_digits-print_digits (suc (suc fuel)) n rest small some_fuel = elim (Bool-cases (ltb n 10)) [
  | inl short ↦ rw short (first_digit n rest (ltb→lt n 10 short))
  | inr long ↦ rw long (
      parse_digits-print_digits (suc fuel) (n / 10) ((b'0' + n % 10) ∷ rest)
        (tenth (suc fuel) n small) (omega arith)
      ∙ one_digit (n % 10) (n / 10) rest (omega arith)
      ∙ ap (λ k. parse_digits k rest) (omega arith))
]

length-print_digits : (fuel n : ℕ) (rest : Bytes) → length rest ≤ length (print_digits fuel n rest)
unfolding print_digits
length-print_digits zero n rest = omega arith
length-print_digits (suc fuel) n rest =
    ground (arith, length-print_digits fuel (n / 10) ((b'0' + n % 10) ∷ rest))

print_digits-nonempty : (fuel n : ℕ) → 0 < length (print_digits (suc fuel) n [])
unfolding print_digits
print_digits-nonempty fuel n =
    ground (arith, length-print_digits fuel (n / 10) ((b'0' + n % 10) ∷ []))

parse_uint-digits :
    (bits n : ℕ) (s : Bytes)
    → 0 < length s
    → n < 2 ^ bits
    → parse_digits 0 s ≡ some n
    → parse_uint bits s ≡ some n
unfolding parse_uint
parse_uint-digits bits n [] long small h = elim long [ ]
parse_uint-digits bits n (c ∷ s) long small h = rw (h, lt→ltb n (2 ^ bits) small) refl

-- Every number below 2 ^ 63 is read back from its name.
pub parse_uint-itoa : (n : ℕ) → n < 2 ^ 63 → parse_uint 64 (itoa n) ≡ some n
unfolding itoa parse_digits
parse_uint-itoa n h = rw (lt→ltb n (2 ^ 63) h) (
    parse_uint-digits 64 n (print_digits 20 n []) (print_digits-nonempty 19 n) (omega arith)
      (parse_digits-print_digits 20 n [] (omega arith) (omega arith)))

-- What is read from the name of any uint64 is that number; from 2 ^ 63 on nothing is.
pub parse_uint-itoa_eq : (n m : ℕ) → parse_uint 64 (itoa n) ≡ some m → m ≡ n
unfolding itoa parse_uint parse_digits
parse_uint-itoa_eq n m h = elim (Bool-cases (ltb n (2 ^ 63))) [
  | inl small ↦
      let e : some n ≡ some m = sym (parse_uint-itoa n (ltb→lt n (2 ^ 63) small)) ∙ h in cc
  | inr big ↦ cc (rw big at h)
]
