-- ===== src/Account/Bech32.antt =====
-- account/bech32.go: the bech32 text format that the lnurl calls read and write.
-- A Go string or byte slice is a list of bytes, and an `int` is a number: every intermediate value
-- stays below 2 ^ 30, where neither 32 nor 64 bits wrap.
pub mod Regroup
pub mod Checksum
pub mod RoundTrip
mod Tests
use mathlib.Core.Option
use breez.Common.{
  ℕ, zero, suc, ◌+◌, ◌-◌, ◌*◌, ◌/◌, ◌%◌, ◌^◌, Bool, true, false, not, ◌&&◌, ◌||◌, Option, none,
  some, List, [], ◌∷◌, ◌++◌, map, Bytes, codes, length, get_elem?, take, drop, bytes_eq, ltb, leb,
  ◌==◌, if◌then◌else◌, bit_and, bit_or, bit_xor, Result, ok, err, ◌>>=◌,
}

pub data Error : Type 0 where
  invalid_length : ℕ → Error
  invalid_character : ℕ → Error
  mixed_case invalid_index_of_1 only_bit_groups invalid_incomplete_group : Error
  -- toBytes and toChars
  not_in_charset : ℕ → Error
  invalid_data_byte : ℕ → Error
  -- wrapped by decode and encode
  failed_converting_data : Error → Error
  unable_to_convert_data : Error → Error
  -- with the expected and the actual checksum, if the first can be written
  checksum_failed : Option (Bytes × Bytes) → Error

abbrev pub charset : Bytes
charset = codes "qpzry9x8gf2tvdw0s3jn54khce6mua7l"

-- strings.IndexByte
pub index_byte : Bytes → ℕ → Option ℕ
index_byte [] c = none
index_byte (x ∷ xs) c = if x == c then some 0 else Option.map suc (index_byte xs c)

pub to_bytes : Bytes → Result Error Bytes
to_bytes [] = ok []
to_bytes (c ∷ chars) = elim (index_byte charset c) [
  | none ↦ err (not_in_charset c)
  | some index ↦ to_bytes chars >>= λ rest. ok (index ∷ rest)
]

-- `int(b) >= len(charset)` is the read out of range.
pub to_chars : Bytes → Result Error Bytes
to_chars [] = ok []
to_chars (b ∷ bs) = elim (get_elem? charset b) [
  | none ↦ err (invalid_data_byte b)
  | some c ↦ to_chars bs >>= λ rest. ok (c ∷ rest)
]

abbrev pub gen : List ℕ
gen = 0x3b6a57b2 ∷ 0x26508e6d ∷ 0x1ea119fa ∷ 0x3d4233dd ∷ 0x2a1462b3 ∷ []

-- The inner loop of bech32Polymod, from index `i` on.
pub mix : ℕ → ℕ → List ℕ → ℕ → ℕ
mix b i [] chk = chk
mix b i (g ∷ gs) chk = mix b (i + 1) gs (if bit_and (b / 2 ^ i) 1 == 1 then bit_xor chk g else chk)

-- One round of its outer loop.
pub polymod_step : ℕ → ℕ → ℕ
polymod_step chk v = mix (chk / 2 ^ 25) 0 gen (bit_xor (bit_and chk 0x1ffffff * 2 ^ 5) v)

pub polymod_from : ℕ → List ℕ → ℕ
polymod_from chk [] = chk
polymod_from chk (v ∷ values) = polymod_from (polymod_step chk v) values

pub bech32_polymod : List ℕ → ℕ
bech32_polymod values = polymod_from 1 values

pub bech32_hrp_expand : Bytes → List ℕ
bech32_hrp_expand hrp = map (λ c. c / 2 ^ 5) hrp ++ (0 ∷ map (λ c. bit_and c 31) hrp)

-- The digits of a checksum, `byte((polymod>>uint(5*(5-i)))&31)` for i = 0 .. 5.
pub checksum_digits : ℕ → Bytes
checksum_digits polymod =
    map (λ i. bit_and (polymod / 2 ^ (5 * (5 - i))) 31 % 256) (0 ∷ 1 ∷ 2 ∷ 3 ∷ 4 ∷ 5 ∷ [])

abbrev pub six_zeros : List ℕ
six_zeros = 0 ∷ 0 ∷ 0 ∷ 0 ∷ 0 ∷ 0 ∷ []

pub bech32_checksum : Bytes → Bytes → Bytes
bech32_checksum hrp bytes =
    checksum_digits (bit_xor (bech32_polymod ((bech32_hrp_expand hrp ++ bytes) ++ six_zeros)) 1)

pub bech32_verify_checksum : Bytes → Bytes → Bool
bech32_verify_checksum hrp bytes = bech32_polymod (bech32_hrp_expand hrp ++ bytes) == 1

pub encode : Bytes → Bytes → Result Error Bytes
encode hrp bytes = elim (to_chars (bytes ++ bech32_checksum hrp bytes)) [
  | err e ↦ err (unable_to_convert_data e)
  | ok chars ↦ ok (hrp ++ (codes "1" ++ chars))
]

-- The first character outside 33 .. 126.
pub first_invalid : Bytes → Option ℕ
first_invalid [] = none
first_invalid (c ∷ cs) = if ltb c 33 || ltb 126 c then some c else first_invalid cs

-- strings.ToLower and strings.ToUpper, which decode calls on ASCII text only.
pub lower_char : ℕ → ℕ
lower_char c = if leb b'A' c && leb c b'Z' then c + 32 else c

pub upper_char : ℕ → ℕ
upper_char c = if leb b'a' c && leb c b'z' then c - 32 else c

-- strings.LastIndexByte; `none` is its -1.
pub last_index_byte : Bytes → ℕ → Option ℕ
last_index_byte [] c = none
last_index_byte (x ∷ xs) c = elim (last_index_byte xs c) [
  | some i ↦ some (suc i)
  | none ↦ if x == c then some 0 else none
]

abbrev option_of {ℓ} : {A : Type ℓ} → Result Error A → Option A
option_of (ok a) = some a
option_of (err e) = none

-- decode after the separator was found at `one`.
pub decode_parts : Bytes → ℕ → Result Error (Bytes × Bytes)
decode_parts bech one =
    let hrp = take one bech in
    elim (to_bytes (drop (one + 1) bech)) [
      | err e ↦ err (failed_converting_data e)
      | ok decoded ↦
          let payload = take (length decoded - 6) decoded in
          if not (bech32_verify_checksum hrp decoded)
          then err (
              checksum_failed (
                Option.map (λ expected. (expected, drop (length bech - 6) bech))
                  (option_of (to_chars (bech32_checksum hrp payload)))))
          else ok (hrp, payload)
    ]

pub decode : Bytes → Result Error (Bytes × Bytes)
decode bech =
    let lower = map lower_char bech in
    if ltb (length bech) 8 then err (invalid_length (length bech)) else elim (first_invalid bech) [
      | some c ↦ err (invalid_character c)
      | none ↦
          if not (bytes_eq bech lower) && not (bytes_eq bech (map upper_char bech))
          then err mixed_case
          else elim (last_index_byte lower b'1') [
            | none ↦ err invalid_index_of_1
            | some one ↦
                if ltb one 1 || ltb (length lower) (one + 7)
                then err invalid_index_of_1
                else decode_parts lower one
          ]
    ]
