-- ===== src/Account/Bech32/Regroup/RoundTrip.antt =====
-- convertBits on the bit streams: what padding adds, and the way back without it.
use mathlib.Core.List.{append_assoc, append-nil}
use native.Mathlib.Nat.{
  div-eq_of_lt-le, mul-lt-mul_of_pos_right, pow-le-pow_right, one-le-pow, mod-eq_of_lt,
}
use breez.Common.{
  ℕ, ◌+◌, ◌-◌, ◌*◌, ◌/◌, ◌%◌, ◌^◌, ◌<◌, ◌≤◌, ◌≡◌, sym, ap, ◌∙◌, [], ◌∷◌, ◌++◌, Bytes, Bool, length,
  length-append, All, All-append, arith, ltb, Bool-cases, inl, inr, true, false, subst, ok, ◌>>=◌,
}
use breez.Common.Bits.{pow-add}
use breez.Account.Bech32.Regroup.{Regroup, regroup, finish, fresh, convert_bits}
use breez.Account.Bech32.Regroup.Stream.{
  bits, stream_of, zeros, stream_of-append, bits-append, bits-zero, append-injective,
  bits-injective, stream_of-injective, length-bits, length-stream_of, length-zeros,
}
use breez.Account.Bech32.Regroup.Steps.{Inv, stream, regroup-eq}

-- What convertBits with padding promises: the same bits, and fewer than a group of zeros behind them.
pub record Pads (from_bits to_bits : ℕ) (xs ys : Bytes) : Type 0 where
  pub zero_bits : ℕ
  pub same_bits : stream_of to_bits ys ≡ stream_of from_bits xs ++ zeros zero_bits
  pub few : zero_bits < to_bits
  pub groups : All (λ y. y < 2 ^ to_bits) ys

fresh-Inv : (to_bits : ℕ) → 0 < to_bits → Inv to_bits fresh
fresh-Inv to_bits h = record { open_group = h; fits = omega arith; groups = tt }

module _ (to_bits : ℕ) (small : to_bits ≤ 8) (from_bits : ℕ) (xs : Bytes) (s : Regroup)
    (inv : Inv to_bits s) where
  open s use {filled_bits, next_byte, regrouped}

  abbrev gap : ℕ
  gap = to_bits - filled_bits

  padded : ℕ
  padded = next_byte * 2 ^ gap % 256

  padded-lt : next_byte * 2 ^ gap < 2 ^ to_bits
  padded-lt =
      let width : to_bits ≡ filled_bits + gap = omega (arith, inv.open_group) in
      let bounded : next_byte * 2 ^ gap < 2 ^ filled_bits * 2 ^ gap =
        mul-lt-mul_of_pos_right inv.fits (one-le-pow gap 2 (omega arith)) in
      subst (λ (t : ℕ). next_byte * 2 ^ gap < t)
        (sym (ap (λ (k : ℕ). 2 ^ k) width ∙ pow-add filled_bits gap)) bounded

  padded-eq : padded ≡ next_byte * 2 ^ gap + 0
  unfolding padded
  padded-eq =
      let byte : 2 ^ to_bits ≤ 2 ^ 8 = pow-le-pow_right (omega arith) small in
      mod-eq_of_lt (omega (arith, padded-lt)) ∙ omega arith

  padded-bits : bits to_bits padded ≡ bits filled_bits next_byte ++ zeros gap
  padded-bits =
      let width : to_bits ≡ filled_bits + gap = omega (arith, inv.open_group) in
      ap (bits to_bits) padded-eq
      ∙ ap (λ (w : ℕ). bits w (next_byte * 2 ^ gap + 0)) width
      ∙ bits-append gap filled_bits next_byte 0 (one-le-pow gap 2 (omega arith))
      ∙ ap (◌++◌ (bits filled_bits next_byte)) (bits-zero gap)

  finish-Pads :
      stream to_bits s ≡ stream_of from_bits xs
      → (ys : Bytes) × (finish to_bits true s ≡ ok ys) × Pads from_bits to_bits xs ys
  unfolding finish padded
  finish-Pads e = elim (Bool-cases (ltb 0 filled_bits)) [
    | inl some_left ↦ (
      regrouped ++ (padded ∷ []),
      rw (some_left, finish),
      record {
        zero_bits = gap;
        same_bits =
            stream_of-append to_bits regrouped (padded ∷ [])
            ∙ ap (◌++◌ (stream_of to_bits regrouped))
                (append-nil (bits to_bits padded) ∙ padded-bits)
            ∙ sym (
                append_assoc (stream_of to_bits regrouped) (bits filled_bits next_byte) (zeros gap))
            ∙ ap (λ l. l ++ zeros gap) e;
        few = ground arith;
        groups =
            All-append (λ y. y < 2 ^ to_bits) regrouped (padded ∷ []) inv.groups
              (omega (arith, padded-eq, padded-lt), tt);
      },
    )
    | inr none_left ↦
        let empty : filled_bits ≡ 0 = ground arith in
        (
          regrouped,
          rw (none_left, finish),
          record {
            zero_bits = 0;
            same_bits =
                sym (append-nil (stream_of to_bits regrouped))
                ∙ ap (λ (w : ℕ). stream_of to_bits regrouped ++ bits w next_byte) (sym empty)
                ∙ e
                ∙ sym (append-nil (stream_of from_bits xs));
            few = omega (arith, inv.open_group);
            groups = inv.groups;
          },
        )
  ]

quotient_unique : (a b f r k : ℕ) → r < f → k < f → a * f + r ≡ b * f + k → a ≡ b
quotient_unique a b f r k hr hk e =
    sym (div-eq_of_lt-le {k = a} f {m = a * f + r} (omega arith) (omega arith))
    ∙ ap (λ (m : ℕ). m / f) e
    ∙ div-eq_of_lt-le {k = b} f {m = b * f + k} (omega arith) (omega arith)

-- Groups that hold the bits of `xs` and a few zeros are `xs`, and nothing is left over.
finish-unpad :
    (w k : ℕ) (xs : Bytes) (s : Regroup)
    → Inv w s
    → All (λ x. x < 2 ^ w) xs
    → k < w
    → k ≤ 4
    → stream w s ≡ stream_of w xs ++ zeros k
    → finish w false s ≡ ok xs
unfolding finish
finish-unpad w k xs s inv hx hk h4 e = ground (arith, last_zero, groups, filled)
  where
    open s use {filled_bits, next_byte, regrouped}

    lengths : length regrouped * w + filled_bits ≡ length xs * w + k
    lengths = omega (
      arith,
      ap length e,
      length-append (stream_of w regrouped) (bits filled_bits next_byte),
      length-append (stream_of w xs) (zeros k),
      length-stream_of w regrouped,
      length-stream_of w xs,
      length-bits filled_bits next_byte,
      length-zeros k,
    )

    as_many : length regrouped ≡ length xs
    as_many =
        quotient_unique (length regrouped) (length xs) w filled_bits k inv.open_group hk lengths

    filled : filled_bits ≡ k
    filled = omega (arith, lengths, ap (λ (n : ℕ). n * w) as_many)

    halves : (stream_of w regrouped ≡ stream_of w xs) × (bits filled_bits next_byte ≡ zeros k)
    halves =
        append-injective _ _ _ _
          (omega (
            arith,
            length-stream_of w regrouped,
            length-stream_of w xs,
            ap (λ (n : ℕ). n * w) as_many,
          ))
          e

    last_zero : next_byte ≡ 0
    last_zero =
        bits-injective filled_bits next_byte 0 inv.fits (one-le-pow filled_bits 2 (omega arith))
          (halves.1 ∙ ap zeros (sym filled) ∙ sym (bits-zero filled_bits))

    groups : regrouped ≡ xs
    groups = stream_of-injective w regrouped xs inv.groups hx as_many halves.0

convert_bits-valid :
    (from_bits to_bits : ℕ)
    → 1 ≤ from_bits
    → from_bits ≤ 8
    → 1 ≤ to_bits
    → to_bits ≤ 8
    → (xs : Bytes) (pad : Bool)
    → convert_bits xs from_bits to_bits pad
      ≡ finish to_bits pad (regroup from_bits to_bits xs fresh)
unfolding convert_bits
convert_bits-valid from_bits to_bits f1 f8 t1 t8 xs pad = ground arith

module _ (from_bits to_bits : ℕ) (from_pos : 1 ≤ from_bits) (from_le : from_bits ≤ 8)
    (to_pos : 1 ≤ to_bits) (to_le : to_bits ≤ 8) (xs : Bytes)
    (hx : All (λ x. x < 2 ^ from_bits) xs) where
  -- For group sizes from 1 to 8 and groups that fit, converting with padding succeeds: its result has
  -- the same bits, followed by fewer zeros than a new group has bits.
  pub convert_bits-Pads :
      (ys : Bytes) × (convert_bits xs from_bits to_bits true ≡ ok ys) × Pads from_bits to_bits xs ys
  convert_bits-Pads =
      let (inv, e) =
        regroup-eq to_bits to_le from_bits xs fresh from_le hx (fresh-Inv to_bits to_pos) in
      let (ys, p, q) = finish-Pads to_bits to_le from_bits xs _ inv e in
      (ys, convert_bits-valid from_bits to_bits from_pos from_le to_pos to_le xs true ∙ p, q)

  -- For group sizes from 1 to 8, the second at most five and at most the first, and groups that fit,
  -- converting with padding and back without returns the groups.
  pub convert_bits-convert_bits :
      to_bits ≤ 5
      → to_bits ≤ from_bits
      → (convert_bits xs from_bits to_bits true >>= λ ys. convert_bits ys to_bits from_bits false)
        ≡ ok xs
  convert_bits-convert_bits h5 hle =
      let (ys, p, q) = convert_bits-Pads in
      let (inv, e) =
        regroup-eq from_bits from_le to_bits ys fresh to_le q.groups
          (fresh-Inv from_bits from_pos) in
      rw p (
        convert_bits-valid to_bits from_bits to_pos to_le from_pos from_le ys false
        ∙ finish-unpad from_bits q.zero_bits xs _ inv hx (omega (arith, q.few))
            (omega (arith, q.few)) (e ∙ q.same_bits))
