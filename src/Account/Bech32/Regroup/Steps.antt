-- ===== src/Account/Bech32/Regroup/Steps.antt =====
-- Each loop of convertBits moves bits from its input to the end of what is already regrouped.
use mathlib.Core.List.{append_assoc, append-nil}
use mathlib.Core.Path.{ap₂}
use native.Mathlib.Nat.{
  mul-lt-mul_of_pos_right, pow-le-pow_right, one-le-pow, mod-eq_of_lt, mul-div-mul_right,
  div-add-mod', mod-lt, mul_assoc, div-lt_iff_lt-mul, mul-add-mod_self_right,
}
use breez.Common.{
  ℕ, zero, suc, ◌+◌, ◌-◌, ◌*◌, ◌/◌, ◌%◌, ◌^◌, ◌<◌, ◌≤◌, ◌≡◌, ◌≢◌, sym, ap, ◌∙◌, List, [], ◌∷◌, ◌++◌,
  Bytes, All, All-append, arith, ◌==◌, ==_iff, Bool-cases, inl, inr, bit_or, subst,
}
use breez.Common.Bits.{bit_or_fields, pow-add}
use breez.Account.Bech32.Regroup.{Regroup, extract, extract_all, chunk, regroup}
use breez.Account.Bech32.Regroup.Stream.{bits, stream_of, stream_of-append, bits-append}

-- The bits in hand: the finished groups, and the filled part of the next one.
abbrev pub stream : ℕ → Regroup → List ℕ
stream to_bits s = stream_of to_bits s.regrouped ++ bits s.filled_bits s.next_byte

pub record Inv (to_bits : ℕ) (s : Regroup) : Type 0 where
  pub open_group : s.filled_bits < to_bits
  pub fits : s.next_byte < 2 ^ s.filled_bits
  pub groups : All (λ x. x < 2 ^ to_bits) s.regrouped

mul_le : (m n k : ℕ) → m ≤ n → m * k ≤ n * k
mul_le m n k h = grind arith

module _ (f e n h : ℕ) (hn : n < 2 ^ f) (hh : h < 2 ^ e) where
  joined-lt : n * 2 ^ e + h < 2 ^ (f + e)
  joined-lt = rw (pow-add f e) (omega (arith, mul_le (suc n) (2 ^ f) (2 ^ e) hn))

  next_byte-eq : f + e ≤ 8 → bit_or (n * 2 ^ e % 256) h ≡ n * 2 ^ e + h
  next_byte-eq small =
      let le : 2 ^ (f + e) ≤ 2 ^ 8 = pow-le-pow_right (omega arith) small in
      let whole : n * 2 ^ e % 256 ≡ n * 2 ^ e = mod-eq_of_lt (omega (arith, joined-lt)) in
      ap (λ (t : ℕ). bit_or t h) whole ∙ bit_or_fields e n h hh

module _ (to_bits : ℕ) (small : to_bits ≤ 8) (b e h : ℕ) (s : Regroup) where
  extract-eq :
      Inv to_bits s
      → s.filled_bits + e ≤ to_bits
      → h < 2 ^ e
      → b / 2 ^ (8 - e) ≡ h
      → (0 < e)
      → Inv to_bits (extract to_bits b e s)
        × (stream to_bits (extract to_bits b e s) ≡ stream to_bits s ++ bits e h)
  unfolding extract
  extract-eq inv room hh eh he = elim (Bool-cases (f + e == to_bits)) [
    | inl full ↦
        let last : to_bits ≡ f + e = sym ((==_iff (f + e) to_bits).0 full) in
        let small_group : x < 2 ^ to_bits = subst (λ t. x < 2 ^ t) (sym last) fits in
        rw (full, next)
          (
            record {
              open_group = omega arith;
              fits = omega arith;
              groups =
                  All-append (λ y. y < 2 ^ to_bits) s.regrouped (x ∷ []) inv.groups
                    (small_group, tt);
            },
            append-nil _
                ∙ stream_of-append to_bits s.regrouped (x ∷ [])
                ∙ ap (◌++◌ done)
                    (append-nil (bits to_bits x) ∙ ap (λ (w : ℕ). bits w x) last ∙ moved)
                ∙ sym (append_assoc done (bits f n) (bits e h)),
          )
    | inr more ↦
        let unfilled : f + e ≢ to_bits = λ p. cc (more, (==_iff (f + e) to_bits).1 p) in
        rw (more, next)
          (
            record { open_group = omega arith; fits = fits; groups = inv.groups },
            ap (◌++◌ done) moved ∙ sym (append_assoc done (bits f n) (bits e h)),
          )
  ]
    where
      open s use {filled_bits as f, next_byte as n}

      done : List ℕ
      done = stream_of to_bits s.regrouped

      x : ℕ
      x = n * 2 ^ e + h

      next : bit_or (n * 2 ^ e % 256) (b / 2 ^ (8 - e)) ≡ x
      next = rw eh (next_byte-eq f e n h inv.fits hh (omega arith))

      fits : x < 2 ^ (f + e)
      fits = joined-lt f e n h inv.fits hh

      moved : bits (f + e) x ≡ bits f n ++ bits e h
      moved = bits-append e f n h hh

mod-mul : (v d m : ℕ) → 0 < d → 0 < m → v * m % (d * m) ≡ v % d * m
mod-mul v d m hd hm =
    let q = v / d in
    let r = v % d in
    let low : r * m < d * m = mul-lt-mul_of_pos_right (mod-lt v hd) hm in
    let whole : v * m ≡ q * (d * m) + r * m =
      omega (arith, ap (λ (t : ℕ). t * m) (div-add-mod' v d)) in
    ap (λ (t : ℕ). t % (d * m)) whole ∙ mul-add-mod_self_right q (d * m) (r * m) ∙ mod-eq_of_lt low

-- The top `e` of the `e + d` bits `v` that `b` holds above `c` zeros.
module _ (c e d v b : ℕ) (eight : c + (e + d) ≡ 8) (hv : v < 2 ^ (e + d)) (hb : b ≡ v * 2 ^ c) where
  pow_pos : (k : ℕ) → 0 < 2 ^ k
  pow_pos k = one-le-pow k 2 (omega arith)

  top-eq : b / 2 ^ (8 - e) ≡ v / 2 ^ d
  top-eq =
      let width : 8 - e ≡ d + c = omega arith in
      ap₂ (λ (x w : ℕ). x / 2 ^ w) hb width
      ∙ ap (λ (t : ℕ). v * 2 ^ c / t) (pow-add d c)
      ∙ mul-div-mul_right v (2 ^ d) (pow_pos c)

  top-lt : v / 2 ^ d < 2 ^ e
  top-lt = (div-lt_iff_lt-mul {k = 2 ^ d} {x = v} {y = 2 ^ e} (pow_pos d)).1 (rw (← pow-add e d) hv)

  rest-eq : b * 2 ^ e % 256 ≡ v % 2 ^ d * 2 ^ (8 - d)
  rest-eq =
      let width : 8 - d ≡ c + e = omega arith in
      let all_bits : 256 ≡ 2 ^ d * 2 ^ (c + e) =
        ap (λ (k : ℕ). 2 ^ k) (let p : 8 ≡ d + (c + e) = omega arith in p) ∙ pow-add d (c + e) in
      let moved : b * 2 ^ e ≡ v * 2 ^ (c + e) =
        ap (λ (x : ℕ). x * 2 ^ e) hb
        ∙ mul_assoc v (2 ^ c) (2 ^ e)
        ∙ ap (λ (x : ℕ). v * x) (sym (pow-add c e)) in
      ap₂ (λ (x y : ℕ). x % y) moved all_bits
      ∙ mod-mul v (2 ^ d) (2 ^ (c + e)) (pow_pos d) (pow_pos (c + e))
      ∙ ap (λ (w : ℕ). v % 2 ^ d * 2 ^ w) (sym width)

  bits-split : bits (e + d) v ≡ bits e (v / 2 ^ d) ++ bits d (v % 2 ^ d)
  bits-split =
      ap (bits (e + d)) (sym (div-add-mod' v (2 ^ d)))
      ∙ bits-append d e (v / 2 ^ d) (v % 2 ^ d) (mod-lt v (pow_pos d))

chunk_lem :
    (to_bits rem : ℕ) (s : Regroup)
    → s.filled_bits < to_bits
    → rem ≢ 0
    → (0 < chunk to_bits rem s)
      × (chunk to_bits rem s ≤ rem)
      × (s.filled_bits + chunk to_bits rem s ≤ to_bits)
chunk_lem to_bits rem s h r = ground arith

module _ (to_bits : ℕ) (small : to_bits ≤ 8) where
  extract_all-eq :
      (fuel b rem v : ℕ) (s : Regroup)
      → rem ≤ fuel
      → rem ≤ 8
      → v < 2 ^ rem
      → b ≡ v * 2 ^ (8 - rem)
      → Inv to_bits s
      → Inv to_bits (extract_all to_bits fuel b rem s)
        × (stream to_bits (extract_all to_bits fuel b rem s) ≡ stream to_bits s ++ bits rem v)
  unfolding extract_all
  extract_all-eq zero b rem v s hf h8 hv hb inv =
      let none_left : rem ≡ 0 = omega arith in
      rw none_left (inv, sym (append-nil (stream to_bits s)))
  extract_all-eq (suc fuel) b rem v s hf h8 hv hb inv = elim (Bool-cases (rem == 0)) [
    | inl done ↦
        let none_left : rem ≡ 0 = (==_iff rem 0).0 done in
        rw none_left (inv, sym (append-nil (stream to_bits s)))
    | inr more ↦
        let left : rem ≢ 0 = λ p. cc (more, (==_iff rem 0).1 p) in
        let (pos, within, room) = chunk_lem to_bits rem s inv.open_group left in
        let width : rem ≡ e + d = omega arith in
        let eight : c + (e + d) ≡ 8 = omega arith in
        let hv' : v < 2 ^ (e + d) = subst (λ w. v < 2 ^ w) width hv in
        let step =
          extract-eq to_bits small b e (v / 2 ^ d) s inv room (top-lt c e d v b eight hv' hb)
            (top-eq c e d v b eight hv' hb) pos in
        let rest =
          extract_all-eq fuel (b * 2 ^ e % 256) d (v % 2 ^ d) (extract to_bits b e s) (omega arith)
            (omega arith) (mod-lt v (one-le-pow d 2 (omega arith))) (rest-eq c e d v b eight hv' hb)
            step.0 in
        rw more (
          rest.0,
          rest.1
              ∙ ap (λ (l : List ℕ). l ++ bits d (v % 2 ^ d)) step.1
              ∙ append_assoc (stream to_bits s) (bits e (v / 2 ^ d)) (bits d (v % 2 ^ d))
              ∙ ap (◌++◌ (stream to_bits s))
                  (sym (ap (λ (w : ℕ). bits w v) width ∙ bits-split c e d v b eight hv' hb)),
        )
  ]
    where
      e : ℕ
      e = chunk to_bits rem s

      d : ℕ
      d = rem - e

      c : ℕ
      c = 8 - rem

  -- The outer loop appends the bits of all its input.
  pub regroup-eq :
      (from_bits : ℕ) (xs : Bytes) (s : Regroup)
      → from_bits ≤ 8
      → All (λ x. x < 2 ^ from_bits) xs
      → Inv to_bits s
      → Inv to_bits (regroup from_bits to_bits xs s)
        × (stream to_bits (regroup from_bits to_bits xs s)
            ≡ stream to_bits s ++ stream_of from_bits xs)
  unfolding regroup
  regroup-eq w [] s h8 hx inv = (inv, sym (append-nil (stream to_bits s)))
  regroup-eq w (x ∷ xs) s h8 hx inv =
      let bounded : x * 2 ^ (8 - w) < 2 ^ w * 2 ^ (8 - w) =
        mul-lt-mul_of_pos_right hx.0 (one-le-pow (8 - w) 2 (omega arith)) in
      let eight : w + (8 - w) ≡ 8 = omega arith in
      let byte : 2 ^ w * 2 ^ (8 - w) ≡ 256 =
        sym (pow-add w (8 - w)) ∙ ap (λ (k : ℕ). 2 ^ k) eight in
      let whole : x * 2 ^ (8 - w) % 256 ≡ x * 2 ^ (8 - w) = mod-eq_of_lt (omega arith) in
      let step = extract_all-eq w (x * 2 ^ (8 - w) % 256) w x s (omega arith) h8 hx.0 whole inv in
      let rest = regroup-eq w xs _ h8 hx.1 step.0 in
      (
        rest.0,
        rest.1
            ∙ ap (λ (l : List ℕ). l ++ stream_of w xs) step.1
            ∙ append_assoc (stream to_bits s) (bits w x) (stream_of w xs),
      )
