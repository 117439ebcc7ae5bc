-- ===== src/Account/Bech32/Checksum.antt =====
-- The checksum of account/bech32.go: appending it is what bech32VerifyChecksum accepts.
use mathlib.Core.List.{append_assoc}
use native.Mathlib.Nat.{div-eq_of_lt, mod-eq_of_lt}
use breez.Common.{
  ℕ, ◌+◌, ◌*◌, ◌/◌, ◌%◌, ◌^◌, ◌<◌, ◌≡◌, refl, sym, ap, ◌∙◌, ◌↔◌, true, List, [], ◌∷◌, ◌++◌, map,
  Bytes, All, All-append, ◌==◌, ==_iff, bit_and, bit_xor, arith, inl, inr, Bool-cases,
}
use breez.Common.Bits.{
  bit_xor_comm, bit_xor_assoc, bit_xor_cancel, bit_xor-zero, shr-bit_xor, low-bit_xor, shl-bit_xor,
  bit_xor-lt, bit_xor_join, bit_and_mask,
}
use breez.Account.Bech32.{
  gen, mix, polymod_step, polymod_from, bech32_polymod, bech32_hrp_expand, checksum_digits,
  six_zeros, bech32_checksum, bech32_verify_checksum,
}

-- A byte, and a value that the checksum register holds.
abbrev pub IsByte : ℕ → Type 0
IsByte b = b < 256

abbrev Is30 : ℕ → Type 0
Is30 v = v < 2 ^ 30

swap_last : (x y z : ℕ) → bit_xor (bit_xor x y) z ≡ bit_xor (bit_xor x z) y
swap_last x y z =
    bit_xor_assoc x y z ∙ ap (bit_xor x) (bit_xor_comm y z) ∙ sym (bit_xor_assoc x z y)

mix-bit_xor :
    (b i : ℕ) (gs : List ℕ) (x y : ℕ) → mix b i gs (bit_xor x y) ≡ bit_xor (mix b i gs x) y
unfolding mix
mix-bit_xor b i [] x y = refl
mix-bit_xor b i (g ∷ gs) x y = elim (Bool-cases (bit_and (b / 2 ^ i) 1 == 1)) [
  | inl e ↦ rw (e, swap_last x y g) (mix-bit_xor b (i + 1) gs (bit_xor x g) y)
  | inr e ↦ rw e (mix-bit_xor b (i + 1) gs x y)
]

low_bits : (chk : ℕ) → bit_and chk 0x1ffffff ≡ chk % 2 ^ 25
low_bits chk = bit_and_mask 25 chk

-- Changing the register by a small `d` and the value by a digit changes the result by both.
digit_step :
    (x d c : ℕ)
    → d < 2 ^ 25
    → c < 32
    → polymod_step (bit_xor x d) c ≡ bit_xor (polymod_step x 0) (d * 32 + c)
unfolding polymod_step
digit_step x d c hd hc =
    rw (high, low_bits (bit_xor x d), low_bits x, inner)
      (mix-bit_xor (x / 2 ^ 25) 0 gen (bit_xor (x % 2 ^ 25 * 2 ^ 5) 0) (d * 32 + c))
  where
    high : bit_xor x d / 2 ^ 25 ≡ x / 2 ^ 25
    high = shr-bit_xor 25 x d ∙ rw (div-eq_of_lt hd) (bit_xor-zero (x / 2 ^ 25))

    low : bit_xor x d % 2 ^ 25 * 2 ^ 5 ≡ bit_xor (x % 2 ^ 25 * 2 ^ 5) (d * 2 ^ 5)
    low = rw (low-bit_xor 25 x d, mod-eq_of_lt hd) (sym (shl-bit_xor 5 (x % 2 ^ 25) d))

    inner :
        bit_xor (bit_xor x d % 2 ^ 25 * 2 ^ 5) c
        ≡ bit_xor (bit_xor (x % 2 ^ 25 * 2 ^ 5) 0) (d * 32 + c)
    inner =
        ap (λ (t : ℕ). bit_xor t c) low
        ∙ bit_xor_assoc (x % 2 ^ 25 * 2 ^ 5) (d * 2 ^ 5) c
        ∙ rw (bit_xor_join 5 d c hc, bit_xor-zero)

-- The number that digits in base 32 stand for, behind `d`.
abbrev number : ℕ → List ℕ → ℕ
number d [] = d
number d (c ∷ cs) = number (d * 32 + c) cs

abbrev Fits : ℕ → List ℕ → Type 0
Fits d [] = Unit
Fits d (c ∷ cs) = (d < 2 ^ 25) × (c < 32) × Fits (d * 32 + c) cs

abbrev zeros : List ℕ → List ℕ
zeros = map (λ c. 0)

polymod-digits :
    (cs : List ℕ) (x d : ℕ)
    → Fits d cs
    → polymod_from (bit_xor x d) cs ≡ bit_xor (polymod_from x (zeros cs)) (number d cs)
unfolding polymod_from
polymod-digits [] x d h = refl
polymod-digits (c ∷ cs) x d h =
    rw (digit_step x d c h.0 h.1) (polymod-digits cs (polymod_step x 0) (d * 32 + c) h.2)

polymod_from-append :
    (chk : ℕ) (xs ys : List ℕ) → polymod_from chk (xs ++ ys) ≡ polymod_from (polymod_from chk xs) ys
unfolding polymod_from
polymod_from-append chk [] ys = refl
polymod_from-append chk (x ∷ xs) ys = polymod_from-append (polymod_step chk x) xs ys

mix-Is30 : (b i : ℕ) (gs : List ℕ) (chk : ℕ) → All Is30 gs → Is30 chk → Is30 (mix b i gs chk)
unfolding mix
mix-Is30 b i [] chk hg h = h
mix-Is30 b i (g ∷ gs) chk hg h = elim (Bool-cases (bit_and (b / 2 ^ i) 1 == 1)) [
  | inl e ↦ rw e (mix-Is30 b (i + 1) gs (bit_xor chk g) hg.1 (bit_xor-lt 30 chk g h hg.0))
  | inr e ↦ rw e (mix-Is30 b (i + 1) gs chk hg.1 h)
]

polymod_step-Is30 : (chk v : ℕ) → Is30 v → Is30 (polymod_step chk v)
unfolding polymod_step
polymod_step-Is30 chk v h =
    mix-Is30 (chk / 2 ^ 25) 0 gen (bit_xor (bit_and chk 0x1ffffff * 2 ^ 5) v) (omega arith)
      (bit_xor-lt 30 _ v (omega (arith, low_bits chk)) h)

polymod_from-Is30 :
    (values : List ℕ) (chk : ℕ) → All Is30 values → Is30 chk → Is30 (polymod_from chk values)
unfolding polymod_from
polymod_from-Is30 [] chk hv h = h
polymod_from-Is30 (v ∷ values) chk hv h =
    polymod_from-Is30 values (polymod_step chk v) hv.1 (polymod_step-Is30 chk v hv.0)

-- For values below 2 ^ 30 the checksum register is below 2 ^ 30, so no Go `int` overflows.
pub bech32_polymod-lt : (values : List ℕ) → All Is30 values → bech32_polymod values < 2 ^ 30
unfolding bech32_polymod
bech32_polymod-lt values h = polymod_from-Is30 values 1 h (omega arith)

All-map-Is30 :
    (f : ℕ → ℕ) (xs : Bytes)
    → ((x : ℕ) → x < 256 → Is30 (f x))
    → All IsByte xs
    → All Is30 (map f xs)
All-map-Is30 f [] hf h = tt
All-map-Is30 f (x ∷ xs) hf h = (hf x h.0, All-map-Is30 f xs hf h.1)

byte-Is30 : (xs : Bytes) → All IsByte xs → All Is30 xs
byte-Is30 [] h = tt
byte-Is30 (x ∷ xs) h = (omega arith, byte-Is30 xs h.1)

bech32_hrp_expand-Is30 : (hrp : Bytes) → All IsByte hrp → All Is30 (bech32_hrp_expand hrp)
unfolding bech32_hrp_expand
bech32_hrp_expand-Is30 hrp h =
    All-append Is30 (map (λ c. c / 2 ^ 5) hrp) _ (All-map-Is30 _ hrp (λ x p. omega arith) h)
      (omega arith, All-map-Is30 _ hrp (λ x p. omega (arith, bit_and_mask 5 x)) h)

digit_lem : (x : ℕ) → bit_and x 31 % 256 ≡ x % 32
digit_lem x = omega (arith, bit_and_mask 5 x)

digits-number :
    (c0 c1 c2 c3 c4 c5 : ℕ)
    → let cs : List ℕ = c0 ∷ c1 ∷ c2 ∷ c3 ∷ c4 ∷ c5 ∷ [] in
      All (λ c. c < 32) cs → checksum_digits (number 0 cs) ≡ cs
unfolding checksum_digits
digits-number c0 c1 c2 c3 c4 c5 h =
    let n = number 0 (c0 ∷ c1 ∷ c2 ∷ c3 ∷ c4 ∷ c5 ∷ []) in
    let e0 : n / 2 ^ 25 % 32 ≡ c0 = omega arith in
    let e1 : n / 2 ^ 20 % 32 ≡ c1 = omega arith in
    let e2 : n / 2 ^ 15 % 32 ≡ c2 = omega arith in
    let e3 : n / 2 ^ 10 % 32 ≡ c3 = omega arith in
    let e4 : n / 2 ^ 5 % 32 ≡ c4 = omega arith in
    let e5 : n / 1 % 32 ≡ c5 = omega arith in simp digit_lem (cc (e0, e1, e2, e3, e4, e5))

number-digits : (p : ℕ) → p < 2 ^ 30 → number 0 (checksum_digits p) ≡ p
unfolding checksum_digits
number-digits p h = simp digit_lem (omega arith)

pub checksum_digits-lt : (p : ℕ) → All (λ c. c < 32) (checksum_digits p)
unfolding checksum_digits
checksum_digits-lt p = simp digit_lem (omega arith)

module _ (hrp bytes : Bytes) (hrp_bytes : All IsByte hrp) (bytes_bytes : All IsByte bytes) where
  -- The register after the values and six zeros.
  abbrev padded : ℕ
  padded = bech32_polymod ((bech32_hrp_expand hrp ++ bytes) ++ six_zeros)

  wanted-Is30 : Is30 (bit_xor padded 1)
  wanted-Is30 =
      bit_xor-lt 30 padded 1
        (bech32_polymod-lt _ (
          All-append Is30 (bech32_hrp_expand hrp ++ bytes) six_zeros
            (All-append Is30 (bech32_hrp_expand hrp) bytes (bech32_hrp_expand-Is30 hrp hrp_bytes)
              (byte-Is30 bytes bytes_bytes))
            (omega arith)))
        (omega arith)

  polymod-six :
      (c0 c1 c2 c3 c4 c5 : ℕ)
      → let cs : List ℕ = c0 ∷ c1 ∷ c2 ∷ c3 ∷ c4 ∷ c5 ∷ [] in
        All (λ c. c < 32) cs
        → bech32_polymod (bech32_hrp_expand hrp ++ (bytes ++ cs)) ≡ bit_xor padded (number 0 cs)
  unfolding bech32_polymod
  polymod-six c0 c1 c2 c3 c4 c5 h =
      let cs : List ℕ = c0 ∷ c1 ∷ c2 ∷ c3 ∷ c4 ∷ c5 ∷ [] in
      let values = bech32_hrp_expand hrp ++ bytes in
      let before = polymod_from 1 values in
      let fits : Fits 0 cs = omega arith in
      ap (polymod_from 1) (sym (append_assoc (bech32_hrp_expand hrp) bytes cs))
      ∙ polymod_from-append 1 values cs
      ∙ ap (λ (x : ℕ). polymod_from x cs) (sym (bit_xor-zero before))
      ∙ polymod-digits cs before 0 fits
      ∙ ap (λ (x : ℕ). bit_xor x (number 0 cs)) (sym (polymod_from-append 1 values six_zeros))

  -- For a prefix and data of bytes, six digits below 32 after the data are accepted if and only if
  -- they are the ones that bech32Checksum writes.
  pub verify_iff :
      (c0 c1 c2 c3 c4 c5 : ℕ)
      → let cs : List ℕ = c0 ∷ c1 ∷ c2 ∷ c3 ∷ c4 ∷ c5 ∷ [] in
        All (λ c. c < 32) cs
        → (bech32_verify_checksum hrp (bytes ++ cs) ≡ true) ↔ (cs ≡ bech32_checksum hrp bytes)
  unfolding bech32_verify_checksum bech32_checksum
  verify_iff c0 c1 c2 c3 c4 c5 h = (
    λ accepted.
        let register = sym (polymod-six c0 c1 c2 c3 c4 c5 h) ∙ (==_iff _ 1).0 accepted in
        let same = sym (bit_xor_cancel padded n) ∙ ap (bit_xor padded) register in
        sym (digits-number c0 c1 c2 c3 c4 c5 h) ∙ ap checksum_digits same,
    λ written.
        let same = ap (number 0) written ∙ number-digits (bit_xor padded 1) wanted-Is30 in
        let register =
          polymod-six c0 c1 c2 c3 c4 c5 h ∙ ap (bit_xor padded) same ∙ bit_xor_cancel padded 1 in
        (==_iff _ 1).1 register,
  )
    where
      n : ℕ
      n = number 0 (c0 ∷ c1 ∷ c2 ∷ c3 ∷ c4 ∷ c5 ∷ [])

  -- What bech32Checksum appends is accepted.
  pub verify-checksum : bech32_verify_checksum hrp (bytes ++ bech32_checksum hrp bytes) ≡ true
  unfolding bech32_checksum checksum_digits
  verify-checksum = (verify_iff _ _ _ _ _ _ (checksum_digits-lt (bit_xor padded 1))).1 refl
