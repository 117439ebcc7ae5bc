-- ===== src/Common/Bits.antt =====
-- Laws of `^`, `|` and `&` on numbers of any width, from the digit recursion.
use Prim.Native.Nat.{
  ℕ, zero, suc, ◌+◌, ◌-◌, ◌*◌, ◌/◌, ◌%◌, ◌^◌, ◌≤◌, ◌<◌, max, min, bit_and, bit_or, bit_xor, digits,
  differ, bit_and-bitwise, bit_or-bitwise, bit_xor-bitwise,
}
use mathlib.Core.Path.{◌≡◌, refl, sym, ap, ap₂, ◌∙◌}
use native.Mathlib.Omega.{arith}
use native.Mathlib.Nat.{
  pow-suc, pow-succ', div-div-eq-div-mul, one-le-pow, div-add-mod', div-eq_of_lt, div-lt_iff_lt-mul,
  add-zero, add-suc, mod-lt, mod-eq_of_lt, mul-add-mod_self_right,
}

-- The digit recursion does not depend on its fuel, once that is enough.
module _ (rest : ℕ → ℕ) (op : ℕ → ℕ → ℕ) where
  enough_fuel : (x y k l : ℕ) → x ≤ k → x ≤ l → digits rest op k x y ≡ digits rest op l x y
  enough_fuel (suc x) y (suc k) (suc l) hk hl =
      omega (arith, enough_fuel (suc x / 2) (y / 2) k l (omega arith) (omega arith))
  enough_fuel (suc x) y zero l hk hl = absurd (omega arith)
  enough_fuel (suc x) y (suc k) zero hk hl = absurd (omega arith)
  enough_fuel zero y (suc k) (suc l) hk hl = refl
  enough_fuel zero y (suc k) zero hk hl = refl
  enough_fuel zero y zero (suc l) hk hl = refl
  enough_fuel zero y zero zero hk hl = refl

pub zero-bit_xor : (b : ℕ) → bit_xor 0 b ≡ b
zero-bit_xor b = bit_xor-bitwise 0 b

differ_lem : (a b : ℕ) → a < 2 → b < 2 → differ a b ≡ (a + b) % 2
differ_lem zero b p q = omega arith
differ_lem (suc a) zero p q = omega arith
differ_lem (suc a) (suc b) p q = ground arith

pub bit_xor_step : (a b : ℕ) → bit_xor a b ≡ bit_xor (a / 2) (b / 2) * 2 + (a % 2 + b % 2) % 2
bit_xor_step zero b = omega (arith, zero-bit_xor b, zero-bit_xor (b / 2))
bit_xor_step (suc a) b = omega (
  arith,
  bit_xor-bitwise (suc a) b,
  bit_xor-bitwise (suc a / 2) (b / 2),
  enough_fuel (λ b. b) differ (suc a / 2) (b / 2) a (suc a / 2) (omega arith) (omega arith),
  differ_lem (suc a % 2) (b % 2) (omega arith) (omega arith),
)

or_halves : (x y : ℕ) → bit_or x y ≡ max (x % 2) (y % 2) + bit_or (x / 2) (y / 2) * 2
or_halves (suc x) y = omega (
  arith,
  enough_fuel (λ y. y) max (suc x / 2) (y / 2) x (suc x / 2) (omega arith) (omega arith),
  bit_or-bitwise (suc x / 2) (y / 2),
  bit_or-bitwise (suc x) y,
)
or_halves zero y = omega (arith, bit_or-bitwise 0 (y / 2), bit_or-bitwise 0 y)

and_halves : (x y : ℕ) → bit_and x y ≡ min (x % 2) (y % 2) + bit_and (x / 2) (y / 2) * 2
and_halves (suc x) y = omega (
  arith,
  enough_fuel (λ y. zero) min (suc x / 2) (y / 2) x (suc x / 2) (omega arith) (omega arith),
  bit_and-bitwise (suc x / 2) (y / 2),
  bit_and-bitwise (suc x) y,
)
and_halves zero y = omega (arith, bit_and-bitwise 0 (y / 2), bit_and-bitwise 0 y)

half-bit_xor : (a b : ℕ) → bit_xor a b / 2 ≡ bit_xor (a / 2) (b / 2)
half-bit_xor a b = omega (arith, bit_xor_step a b)

odd-bit_xor : (a b : ℕ) → bit_xor a b % 2 ≡ (a % 2 + b % 2) % 2
odd-bit_xor a b = omega (arith, bit_xor_step a b)

comm_below : (n a b : ℕ) → a ≤ n → b ≤ n → bit_xor a b ≡ bit_xor b a
comm_below zero a b p q = let e : a ≡ b = omega arith in rw e
comm_below (suc n) a b p q = omega (
  arith,
  bit_xor_step a b,
  bit_xor_step b a,
  comm_below n (a / 2) (b / 2) (omega arith) (omega arith),
)

pub bit_xor_comm : (a b : ℕ) → bit_xor a b ≡ bit_xor b a
bit_xor_comm a b = comm_below (a + b) a b (omega arith) (omega arith)

pub bit_xor-zero : (a : ℕ) → bit_xor a 0 ≡ a
bit_xor-zero a = bit_xor_comm a 0 ∙ zero-bit_xor a

assoc_below :
    (n a b c : ℕ) → a ≤ n → b ≤ n → c ≤ n → bit_xor (bit_xor a b) c ≡ bit_xor a (bit_xor b c)
assoc_below zero a b c p q r =
    let e : a ≡ 0 = omega arith in rw (e, zero-bit_xor b) (sym (zero-bit_xor (bit_xor b c)))
assoc_below (suc n) a b c p q r = omega (
  arith,
  bit_xor_step (bit_xor a b) c,
  bit_xor_step a (bit_xor b c),
  ap (λ (t : ℕ). bit_xor t (c / 2)) (half-bit_xor a b),
  ap (λ (t : ℕ). bit_xor (a / 2) t) (half-bit_xor b c),
  odd-bit_xor a b,
  odd-bit_xor b c,
  assoc_below n (a / 2) (b / 2) (c / 2) (omega arith) (omega arith) (omega arith),
)

pub bit_xor_assoc : (a b c : ℕ) → bit_xor (bit_xor a b) c ≡ bit_xor a (bit_xor b c)
bit_xor_assoc a b c = assoc_below (a + b + c) a b c (omega arith) (omega arith) (omega arith)

self_below : (n a : ℕ) → a ≤ n → bit_xor a a ≡ 0
self_below zero a p = let e : a ≡ 0 = omega arith in rw (e, zero-bit_xor 0)
self_below (suc n) a p = omega (arith, bit_xor_step a a, self_below n (a / 2) (omega arith))

pub bit_xor_self : (a : ℕ) → bit_xor a a ≡ 0
bit_xor_self a = self_below a a (omega arith)

pub bit_xor_cancel : (a b : ℕ) → bit_xor a (bit_xor a b) ≡ b
bit_xor_cancel a b = sym (bit_xor_assoc a a b) ∙ rw (bit_xor_self a) (zero-bit_xor b)

half-pow : (a k : ℕ) → a / 2 ^ suc k ≡ a / 2 / 2 ^ k
half-pow a k = rw (pow-succ' 2 k) (sym (div-div-eq-div-mul a 2 (2 ^ k)))

-- Shifting right goes through `^`.
pub shr-bit_xor : (k a b : ℕ) → bit_xor a b / 2 ^ k ≡ bit_xor (a / 2 ^ k) (b / 2 ^ k)
shr-bit_xor zero a b = omega (
  arith,
  ap (λ (t : ℕ). bit_xor t (b / 1)) (let e : a / 1 ≡ a = omega arith in e),
  ap (λ (t : ℕ). bit_xor a t) (let e : b / 1 ≡ b = omega arith in e),
)
shr-bit_xor (suc k) a b =
    rw (half-pow (bit_xor a b) k, half-pow a k, half-pow b k, half-bit_xor a b)
      (shr-bit_xor k (a / 2) (b / 2))

double-pow : (q k : ℕ) → q * 2 ^ suc k ≡ 2 * (q * 2 ^ k)
double-pow q k = omega (arith, ap (λ (t : ℕ). q * t) (pow-suc 2 k))

-- `^` of two numbers, each of a high part and `k` low bits, is taken part by part.
pub bit_xor_fields :
    (k p q r s : ℕ)
    → r < 2 ^ k
    → s < 2 ^ k
    → bit_xor (p * 2 ^ k + r) (q * 2 ^ k + s) ≡ bit_xor p q * 2 ^ k + bit_xor r s
bit_xor_fields zero p q r s hr hs =
    let e : r ≡ 0 = omega arith in
    let f : s ≡ 0 = omega arith in
    rw (e, f, zero-bit_xor 0)
      (omega (
        arith,
        ap (λ (t : ℕ). bit_xor t (q * 1 + 0)) (let e : p * 1 + 0 ≡ p = omega arith in e),
        ap (λ (t : ℕ). bit_xor p t) (let e : q * 1 + 0 ≡ q = omega arith in e),
      ))
bit_xor_fields (suc k) p q r s hr hs = ground (
  arith,
  bit_xor_step (p * 2 ^ suc k + r) (q * 2 ^ suc k + s),
  bit_xor_step r s,
  double-pow p k,
  double-pow q k,
  double-pow (bit_xor p q) k,
  pow-suc 2 k,
  bit_xor_fields k p q (r / 2) (s / 2),
)

-- So `^` of two numbers of k bits has k bits.
pub bit_xor-lt : (k a b : ℕ) → a < 2 ^ k → b < 2 ^ k → bit_xor a b < 2 ^ k
bit_xor-lt k a b p q =
    let high : bit_xor a b / 2 ^ k ≡ 0 =
      shr-bit_xor k a b ∙ rw (div-eq_of_lt p, div-eq_of_lt q) (zero-bit_xor 0) in
    let fits : 0 < 2 ^ k = one-le-pow k 2 (omega arith) in
    omega (arith, (div-lt_iff_lt-mul {k = 2 ^ k} {x = bit_xor a b} {y = 1} fits).0 (omega arith))

-- Shifting left, and the low bits.
pub shl-bit_xor : (k a b : ℕ) → bit_xor (a * 2 ^ k) (b * 2 ^ k) ≡ bit_xor a b * 2 ^ k
shl-bit_xor k a b =
    let fits : 0 < 2 ^ k = one-le-pow k 2 (omega arith) in
    omega (
      arith,
      bit_xor_fields k a b 0 0 fits fits,
      zero-bit_xor 0,
      ap (λ (t : ℕ). bit_xor t (b * 2 ^ k)) (add-zero (a * 2 ^ k)),
      ap (λ (t : ℕ). bit_xor (a * 2 ^ k + 0) t) (add-zero (b * 2 ^ k)),
    )

pub low-bit_xor : (k a b : ℕ) → bit_xor a b % 2 ^ k ≡ bit_xor (a % 2 ^ k) (b % 2 ^ k)
low-bit_xor k a b =
    let fits : 0 < 2 ^ k = one-le-pow k 2 (omega arith) in
    let low = λ (x : ℕ). mod-lt x fits in
    let whole : bit_xor a b
        ≡ bit_xor (a / 2 ^ k) (b / 2 ^ k) * 2 ^ k + bit_xor (a % 2 ^ k) (b % 2 ^ k) =
      ap₂ bit_xor (sym (div-add-mod' a (2 ^ k))) (sym (div-add-mod' b (2 ^ k)))
      ∙ bit_xor_fields k (a / 2 ^ k) (b / 2 ^ k) (a % 2 ^ k) (b % 2 ^ k) (low a) (low b) in
    ap (λ (t : ℕ). t % 2 ^ k) whole
    ∙ mul-add-mod_self_right _ (2 ^ k) _
    ∙ mod-eq_of_lt (bit_xor-lt k _ _ (low a) (low b))

bit_or-zero_below : (n a : ℕ) → a ≤ n → bit_or a 0 ≡ a
bit_or-zero_below zero a p = let e : a ≡ 0 = omega arith in rw e (bit_or-bitwise 0 0)
bit_or-zero_below (suc n) a p =
    omega (arith, or_halves a 0, bit_or-zero_below n (a / 2) (omega arith))

-- `|` of a high part and `k` low bits puts them side by side.
pub bit_or_fields : (k q r : ℕ) → r < 2 ^ k → bit_or (q * 2 ^ k) r ≡ q * 2 ^ k + r
bit_or_fields zero q r p =
    let e : r ≡ 0 = omega arith in
    rw e (omega (arith, bit_or-zero_below (q * 1) (q * 1) (omega arith)))
bit_or_fields (suc k) q r p =
    ground
      (arith, or_halves (q * 2 ^ suc k) r, double-pow q k, pow-suc 2 k, bit_or_fields k q (r / 2))

bit_and-zero_below : (n a : ℕ) → a ≤ n → bit_and a 0 ≡ 0
bit_and-zero_below zero a p = let e : a ≡ 0 = omega arith in rw e (bit_and-bitwise 0 0)
bit_and-zero_below (suc n) a p =
    omega (arith, and_halves a 0, bit_and-zero_below n (a / 2) (omega arith))

mod-pow-suc : (k a : ℕ) → a % 2 ^ suc k ≡ a / 2 % 2 ^ k * 2 + a % 2
mod-pow-suc k a =
    let r = a / 2 % 2 ^ k in
    let fits : r < 2 ^ k = mod-lt (a / 2) (one-le-pow k 2 (omega arith)) in
    let whole : a ≡ a / 2 / 2 ^ k * 2 ^ suc k + (r * 2 + a % 2) =
      omega (arith, div-add-mod' (a / 2) (2 ^ k), double-pow (a / 2 / 2 ^ k) k) in
    ap (λ (t : ℕ). t % 2 ^ suc k) whole
    ∙ mul-add-mod_self_right _ (2 ^ suc k) _
    ∙ mod-eq_of_lt (omega (arith, pow-suc 2 k))

-- `&` with a mask of `k` ones is the remainder by `2 ^ k`.
pub bit_and_mask : (k a : ℕ) → bit_and a (2 ^ k - 1) ≡ a % 2 ^ k
bit_and_mask zero a = omega (arith, bit_and-zero_below a a (omega arith))
bit_and_mask (suc k) a =
    let fits : 0 < 2 ^ k = one-le-pow k 2 (omega arith) in
    let high : (2 ^ suc k - 1) / 2 ≡ 2 ^ k - 1 = omega (arith, pow-suc 2 k) in
    omega (
      arith,
      and_halves a (2 ^ suc k - 1),
      ap (bit_and (a / 2)) high,
      bit_and_mask k (a / 2),
      pow-suc 2 k,
      mod-pow-suc k a,
    )

-- `^` of a shifted number and a number that fits below it is their sum.
pub bit_xor_join : (k q r : ℕ) → r < 2 ^ k → bit_xor (q * 2 ^ k) r ≡ q * 2 ^ k + r
bit_xor_join k q r p =
    let fits : 0 < 2 ^ k = one-le-pow k 2 (omega arith) in
    let e : q * 2 ^ k ≡ q * 2 ^ k + 0 = omega arith in
    let f : r ≡ 0 * 2 ^ k + r = omega arith in
    ap₂ bit_xor e f
    ∙ bit_xor_fields k q 0 0 r fits p
    ∙ ap₂ (λ (s t : ℕ). s * 2 ^ k + t) (bit_xor-zero q) (zero-bit_xor r)

pub pow-add : (j k : ℕ) → 2 ^ (j + k) ≡ 2 ^ j * 2 ^ k
pow-add j zero = ap (λ (t : ℕ). 2 ^ t) (add-zero j) ∙ omega arith
pow-add j (suc k) =
    ap (λ (t : ℕ). 2 ^ t) (add-suc j k)
    ∙ omega (
      arith,
      pow-suc 2 (j + k),
      ap (λ (t : ℕ). 2 ^ j * t) (pow-suc 2 k),
      ap (λ (t : ℕ). t * 2) (pow-add j k),
    )
