-- ===== src/Account/Bech32/Tests.antt =====
-- Runs of account/bech32.go, and its theorems at concrete inputs.
use breez.Common.{
  ◌^◌, ◌<◌, ◌≡◌, ◌↔◌, inr, true, false, [], ◌∷◌, ◌++◌, Bytes, codes, All, ok, ◌>>=◌, arith,
}
use breez.Account.Bech32.{bech32_checksum, bech32_verify_checksum, encode, decode}
use breez.Account.Bech32.Checksum.{verify_iff}
use breez.Account.Bech32.RoundTrip.{decode-encode, IsLowerHrp}
use breez.Account.Bech32.Regroup.{convert_bits}
use breez.Account.Bech32.Regroup.RoundTrip.{Pads, convert_bits-Pads, convert_bits-convert_bits}

abbrev hrp : Bytes
hrp = codes "ln"

hrp_lower : All IsLowerHrp hrp
hrp_lower = (
  (omega arith, omega arith, inr (omega arith)),
  ((omega arith, omega arith, inr (omega arith)), tt),
)

abbrev digits : Bytes
digits = 1 ∷ 31 ∷ 0 ∷ []

digits-lt : All (λ b. b < 32) digits
digits-lt = (omega arith, (omega arith, (omega arith, tt)))

decode-encode_example :
    (text : Bytes) × (encode hrp digits ≡ ok text) × (decode text ≡ ok (hrp, digits))
decode-encode_example = decode-encode hrp digits hrp_lower digits-lt (omega arith)

verify_iff_example :
    (bech32_verify_checksum hrp (digits ++ (9 ∷ 8 ∷ 7 ∷ 6 ∷ 5 ∷ 4 ∷ [])) ≡ true)
    ↔ ((9 ∷ 8 ∷ 7 ∷ 6 ∷ 5 ∷ 4 ∷ []) ≡ bech32_checksum hrp digits)
verify_iff_example =
    verify_iff hrp digits (omega arith, (omega arith, tt))
      (omega arith, (omega arith, (omega arith, tt))) 9 8 7 6 5 4
      (omega arith, (omega arith, (omega arith, (omega arith, (omega arith, (omega arith, tt))))))

abbrev bytes : Bytes
bytes = 255 ∷ 1 ∷ 128 ∷ []

bytes-lt : All (λ x. x < 2 ^ 8) bytes
bytes-lt = (omega arith, (omega arith, (omega arith, tt)))

convert_bits-Pads_example : (ys : Bytes) × (convert_bits bytes 8 5 true ≡ ok ys) × Pads 8 5 bytes ys
convert_bits-Pads_example =
    convert_bits-Pads 8 5 (omega arith) (omega arith) (omega arith) (omega arith) bytes bytes-lt

convert_bits-convert_bits_example :
    (convert_bits bytes 8 5 true >>= λ ys. convert_bits ys 5 8 false) ≡ ok bytes
convert_bits-convert_bits_example =
    convert_bits-convert_bits 8 5 (omega arith) (omega arith) (omega arith) (omega arith) bytes
      bytes-lt (omega arith) (omega arith)
