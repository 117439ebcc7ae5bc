-- ===== src/Account/Bech32/Regroup.antt =====
-- convertBits of account/bech32.go: regroups a stream of bits, most significant first.
pub mod Stream
pub mod RoundTrip
pub mod Steps
use breez.Common.{
  ℕ, zero, suc, ◌+◌, ◌-◌, ◌*◌, ◌/◌, ◌%◌, ◌^◌, Bool, true, false, not, ◌&&◌, ◌||◌, [], ◌∷◌, ◌++◌,
  Bytes, ltb, ◌==◌, if◌then◌else◌, bit_or, Result, ok, err, ◌>>=◌,
}
use breez.Account.Bech32.{Error, only_bit_groups, invalid_incomplete_group}

pub record Regroup : Type 0 where
  pub regrouped : Bytes
  pub next_byte : ℕ
  pub filled_bits : ℕ

-- One round of the inner loop: `to_extract` bits go over from `b` to `next_byte`.
pub extract : ℕ → ℕ → ℕ → Regroup → Regroup
extract to_bits b to_extract s =
    let next_byte = bit_or (s.next_byte * 2 ^ to_extract % 256) (b / 2 ^ (8 - to_extract)) in
    let filled_bits = s.filled_bits + to_extract in
    if filled_bits == to_bits
    then record { regrouped = s.regrouped ++ (next_byte ∷ []); next_byte = 0; filled_bits = 0 }
    else record s { next_byte = next_byte; filled_bits = filled_bits }

abbrev pub chunk : ℕ → ℕ → Regroup → ℕ
chunk to_bits rem_from_bits s =
    let rem_to_bits = to_bits - s.filled_bits in
    if ltb rem_to_bits rem_from_bits then rem_to_bits else rem_from_bits

-- The inner loop; each round takes a bit at least, so `rem_from_bits` rounds are enough.
pub extract_all : ℕ → ℕ → ℕ → ℕ → Regroup → Regroup
extract_all to_bits zero b rem_from_bits s = s
extract_all to_bits (suc fuel) b rem_from_bits s =
    let to_extract = chunk to_bits rem_from_bits s in
    let rest =
      extract_all to_bits fuel (b * 2 ^ to_extract % 256) (rem_from_bits - to_extract)
        (extract to_bits b to_extract s) in
    if rem_from_bits == 0 then s else rest

-- The outer loop.
pub regroup : ℕ → ℕ → Bytes → Regroup → Regroup
regroup from_bits to_bits [] s = s
regroup from_bits to_bits (b ∷ bytes) s =
    regroup from_bits to_bits bytes
      (extract_all to_bits from_bits (b * 2 ^ (8 - from_bits) % 256) from_bits s)

pub finish : ℕ → Bool → Regroup → Result Error Bytes
finish to_bits pad s =
    let padded = s.next_byte * 2 ^ (to_bits - s.filled_bits) % 256 in
    if pad && ltb 0 s.filled_bits
    then ok (s.regrouped ++ (padded ∷ []))
    else if ltb 0 s.filled_bits && (ltb 4 s.filled_bits || not (s.next_byte == 0))
    then err invalid_incomplete_group
    else ok s.regrouped

abbrev pub fresh : Regroup
fresh = record { regrouped = []; next_byte = 0; filled_bits = 0 }

pub convert_bits : Bytes → ℕ → ℕ → Bool → Result Error Bytes
convert_bits bytes from_bits to_bits pad =
    if ltb from_bits 1 || ltb 8 from_bits || ltb to_bits 1 || ltb 8 to_bits
    then err only_bit_groups
    else finish to_bits pad (regroup from_bits to_bits bytes fresh)
