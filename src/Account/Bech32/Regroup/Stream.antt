-- ===== src/Account/Bech32/Regroup/Stream.antt =====
-- A byte string as the stream of bits that it stands for, most significant first.
use mathlib.Core.List.{append_assoc, append-nil}
use native.Mathlib.Nat.{pow-suc, add-suc, add-zero}
use mathlib.Core.Path.{ap₂}
use breez.Common.{
  ℕ, zero, suc, ◌+◌, ◌*◌, ◌/◌, ◌%◌, ◌^◌, ◌<◌, ◌≡◌, refl, sym, ap, ◌∙◌, List, [], ◌∷◌, ◌++◌, Bytes,
  length, length-append, All, arith,
}

-- The low `w` bits of `x`.
abbrev pub bits : ℕ → ℕ → List ℕ
bits zero x = []
bits (suc w) x = bits w (x / 2) ++ (x % 2 ∷ [])

-- The bits of groups of `w` bits each.
abbrev pub stream_of : ℕ → Bytes → List ℕ
stream_of w [] = []
stream_of w (x ∷ xs) = bits w x ++ stream_of w xs

abbrev pub zeros : ℕ → List ℕ
zeros zero = []
zeros (suc k) = 0 ∷ zeros k

double-pow : (q k : ℕ) → q * 2 ^ suc k ≡ 2 * (q * 2 ^ k)
double-pow q k = omega (arith, ap (λ (t : ℕ). q * t) (pow-suc 2 k))

pub bits-append : (e j q r : ℕ) → r < 2 ^ e → bits (j + e) (q * 2 ^ e + r) ≡ bits j q ++ bits e r
bits-append zero j q r h =
    let low : q * 1 + r ≡ q = omega arith in ap₂ bits (add-zero j) low ∙ sym (append-nil (bits j q))
bits-append (suc e) j q r h =
    let x = q * 2 ^ suc e + r in
    let half : x / 2 ≡ q * 2 ^ e + r / 2 = omega (arith, double-pow q e) in
    let odd : x % 2 ≡ r % 2 = omega (arith, double-pow q e) in
    let fits : r / 2 < 2 ^ e = omega (arith, pow-suc 2 e) in
    ap (λ (w : ℕ). bits w x) (add-suc j e)
    ∙ ap₂ (λ (h o : ℕ). bits (j + e) h ++ (o ∷ [])) half odd
    ∙ ap (λ (l : List ℕ). l ++ (r % 2 ∷ [])) (bits-append e j q (r / 2) fits)
    ∙ append_assoc (bits j q) (bits e (r / 2)) (r % 2 ∷ [])

pub length-bits : (w x : ℕ) → length (bits w x) ≡ w
length-bits zero x = refl
length-bits (suc w) x =
    omega (arith, length-append (bits w (x / 2)) (x % 2 ∷ []), length-bits w (x / 2))

pub length-stream_of : (w : ℕ) (xs : Bytes) → length (stream_of w xs) ≡ length xs * w
length-stream_of w [] = omega arith
length-stream_of w (x ∷ xs) =
    omega (arith, length-append (bits w x) (stream_of w xs), length-bits w x, length-stream_of w xs)

pub stream_of-append :
    (w : ℕ) (xs ys : Bytes) → stream_of w (xs ++ ys) ≡ stream_of w xs ++ stream_of w ys
stream_of-append w [] ys = refl
stream_of-append w (x ∷ xs) ys = rw (stream_of-append w xs ys) (sym (append_assoc (bits w x) _ _))

-- Two lists in two parts each, the first parts of one length.
pub append-injective :
    (xs ys us vs : List ℕ) → length xs ≡ length ys → xs ++ us ≡ ys ++ vs → (xs ≡ ys) × (us ≡ vs)
append-injective [] [] us vs h e = (refl, e)
append-injective [] (y ∷ ys) us vs h e = absurd (omega arith)
append-injective (x ∷ xs) [] us vs h e = absurd (omega arith)
append-injective (x ∷ xs) (y ∷ ys) us vs h e =
    let tails : xs ++ us ≡ ys ++ vs = cc in
    let heads : x ≡ y = cc in
    let (p, q) = append-injective xs ys us vs (omega arith) tails in (cc (p, heads), q)

pub bits-injective : (w x y : ℕ) → x < 2 ^ w → y < 2 ^ w → bits w x ≡ bits w y → x ≡ y
bits-injective zero x y hx hy e = omega arith
bits-injective (suc w) x y hx hy e =
    let lengths : length (bits w (x / 2)) ≡ length (bits w (y / 2)) =
      length-bits w (x / 2) ∙ sym (length-bits w (y / 2)) in
    let (p, q) = append-injective _ _ (x % 2 ∷ []) (y % 2 ∷ []) lengths e in
    let odd : x % 2 ≡ y % 2 = cc q in
    omega (
      arith,
      odd,
      pow-suc 2 w,
      bits-injective w (x / 2) (y / 2) (omega (arith, pow-suc 2 w)) (omega (arith, pow-suc 2 w)) p,
    )

pub stream_of-injective :
    (w : ℕ) (xs ys : Bytes)
    → All (λ x. x < 2 ^ w) xs
    → All (λ x. x < 2 ^ w) ys
    → length xs ≡ length ys
    → stream_of w xs ≡ stream_of w ys
    → xs ≡ ys
stream_of-injective w [] [] hx hy h e = refl
stream_of-injective w [] (y ∷ ys) hx hy h e = absurd (omega arith)
stream_of-injective w (x ∷ xs) [] hx hy h e = absurd (omega arith)
stream_of-injective w (x ∷ xs) (y ∷ ys) hx hy h e =
    let lengths : length (bits w x) ≡ length (bits w y) = length-bits w x ∙ sym (length-bits w y) in
    let (p, q) = append-injective _ _ (stream_of w xs) (stream_of w ys) lengths e in
    cc (bits-injective w x y hx.0 hy.0 p, stream_of-injective w xs ys hx.1 hy.1 (omega arith) q)

zeros-append_one : (w : ℕ) → zeros w ++ (0 ∷ []) ≡ zeros (suc w)
zeros-append_one zero = refl
zeros-append_one (suc w) = ap (◌∷◌ 0) (zeros-append_one w)

pub bits-zero : (w : ℕ) → bits w 0 ≡ zeros w
bits-zero zero = refl
bits-zero (suc w) = ap (λ (l : List ℕ). l ++ (0 ∷ [])) (bits-zero w) ∙ zeros-append_one w

pub length-zeros : (k : ℕ) → length (zeros k) ≡ k
length-zeros zero = refl
length-zeros (suc k) = ap suc (length-zeros k)
