-- ===== src/Account/Bech32/RoundTrip.antt =====
-- decode of account/bech32.go reads back what encode wrote.
use breez.Common.{
  ℕ, zero, suc, ◌+◌, ◌-◌, ◌<◌, ◌≤◌, ◌≡◌, refl, ap, ◌∙◌, ◌⊎◌, Bool, true, false, ◌&&◌, Option, none,
  some, length, length-append, length-map, get_elem?, take, drop, take-append, bytes_eq_refl, leb,
  [], ◌∷◌, ◌++◌, map, Bytes, All, All-append, ◌==◌, ==_iff, not, arith, ok,
}
use breez.Account.Bech32.{
  charset, index_byte, to_bytes, to_chars, bech32_checksum, checksum_digits, encode, decode,
  decode_parts, first_invalid, lower_char, last_index_byte, bech32_verify_checksum,
}
use breez.Account.Bech32.Checksum.{IsByte, verify-checksum, checksum_digits-lt}

-- A test of the digits below a bound.
holds_below : (ℕ → Bool) → ℕ → Bool
holds_below test (suc bound) = holds_below test bound && test bound
holds_below test zero = true

holds_below-at :
    (test : ℕ → Bool) (bound digit : ℕ)
    → digit < bound
    → holds_below test bound ≡ true
    → test digit ≡ true
unfolding holds_below
holds_below-at test (suc bound) digit small passed = ground (arith, holds_below-at test bound digit)
holds_below-at test zero digit small passed = absurd (omega arith)

and_parts : (a b : Bool) → (a && b) ≡ true → (a ≡ true) × (b ≡ true)
and_parts a b h = ground arith

is_some_of : Option ℕ → ℕ → Bool
is_some_of none n = false
is_some_of (some m) n = m == n

is_some_of→eq : (o : Option ℕ) (n : ℕ) → is_some_of o n ≡ true → o ≡ some n
unfolding is_some_of
is_some_of→eq none n h = cc
is_some_of→eq (some m) n h = ap some ((==_iff m n).0 h)

-- The character for the digit `b`, with 0 out of range.
char_at : ℕ → ℕ
char_at b = elim (get_elem? charset b) [ none ↦ 0 | some c ↦ c ]

is_plain : ℕ → Bool
unfolding lower_char
is_plain c = (leb 33 c && leb c 126) && ((lower_char c == c) && not (c == b'1'))

-- What the charset has for each digit: read back by its index, printable, lower case, not '1'.
charset_test : ℕ → Bool
unfolding index_byte is_plain is_some_of char_at
charset_test b =
    is_some_of (get_elem? charset b) (char_at b)
    && (is_some_of (index_byte charset (char_at b)) b && is_plain (char_at b))

charset_table : holds_below charset_test 32 ≡ true
unfolding holds_below charset_test
charset_table = refl

module _ (b : ℕ) (digit : b < 32) where
  charset-char_at : get_elem? charset b ≡ some (char_at b)
  unfolding charset_test
  charset-char_at =
      is_some_of→eq _ _ (and_parts _ _ (holds_below-at charset_test 32 b digit charset_table)).0

  index-char_at : index_byte charset (char_at b) ≡ some b
  unfolding charset_test
  index-char_at =
      is_some_of→eq _ _
        (and_parts _ _ (and_parts _ _ (holds_below-at charset_test 32 b digit charset_table)).1).0

  plain-char_at : is_plain (char_at b) ≡ true
  unfolding charset_test
  plain-char_at =
      (and_parts _ _ (and_parts _ _ (holds_below-at charset_test 32 b digit charset_table)).1).1

chars_of : Bytes → Bytes
chars_of = map char_at

to_chars-eq : (bs : Bytes) → All (λ b. b < 32) bs → to_chars bs ≡ ok (chars_of bs)
unfolding to_chars chars_of
to_chars-eq [] h = refl
to_chars-eq (b ∷ bs) h = rw (charset-char_at b h.0, to_chars) (rw (to_chars-eq bs h.1))

to_bytes-chars_of : (bs : Bytes) → All (λ b. b < 32) bs → to_bytes (chars_of bs) ≡ ok bs
unfolding to_bytes chars_of
to_bytes-chars_of [] h = refl
to_bytes-chars_of (b ∷ bs) h = rw (index-char_at b h.0, to_bytes) (rw (to_bytes-chars_of bs h.1))

-- A human-readable character that decode leaves as it is: printable, and no upper case letter.
abbrev pub IsLowerHrp : ℕ → Type 0
IsLowerHrp c = (33 ≤ c) × (c ≤ 126) × ((c < b'A') ⊎ (b'Z' < c))

-- The same of any character, with '1' excluded or not.
abbrev IsKept : ℕ → Type 0
IsKept c = (33 ≤ c) × (c ≤ 126) × (lower_char c ≡ c)

hrp-IsKept : (hrp : Bytes) → All IsLowerHrp hrp → All IsKept hrp
unfolding lower_char
hrp-IsKept [] h = tt
hrp-IsKept (c ∷ hrp) h = (ground arith, hrp-IsKept hrp h.1)

plain-IsKept : (c : ℕ) → is_plain c ≡ true → IsKept c × ((c == b'1') ≡ false)
unfolding is_plain
plain-IsKept c h = ground arith

chars_of-IsKept : (bs : Bytes) → All (λ b. b < 32) bs → All IsKept (chars_of bs)
unfolding chars_of
chars_of-IsKept [] h = tt
chars_of-IsKept (b ∷ bs) h =
    ((plain-IsKept (char_at b) (plain-char_at b h.0)).0, chars_of-IsKept bs h.1)

first_invalid-IsKept : (cs : Bytes) → All IsKept cs → first_invalid cs ≡ none
unfolding first_invalid
first_invalid-IsKept [] h = refl
first_invalid-IsKept (c ∷ cs) h = ground (arith, first_invalid-IsKept cs h.1)

lower-IsKept : (cs : Bytes) → All IsKept cs → map lower_char cs ≡ cs
lower-IsKept [] h = refl
lower-IsKept (c ∷ cs) h = cc (h.0.2, lower-IsKept cs h.1)

no_separator : (bs : Bytes) → All (λ b. b < 32) bs → last_index_byte (chars_of bs) b'1' ≡ none
unfolding last_index_byte chars_of
no_separator [] h = refl
no_separator (b ∷ bs) h =
    rw (no_separator bs h.1) (rw (plain-IsKept (char_at b) (plain-char_at b h.0)).1)

last_index-separator :
    (hrp cs : Bytes)
    → last_index_byte cs b'1' ≡ none
    → last_index_byte (hrp ++ (b'1' ∷ cs)) b'1' ≡ some (length hrp)
unfolding last_index_byte
last_index-separator [] cs h = rw h refl
last_index-separator (c ∷ hrp) cs h = rw (last_index-separator hrp cs h) refl

drop-separator : (hrp cs : Bytes) → drop (length hrp + 1) (hrp ++ (b'1' ∷ cs)) ≡ cs
drop-separator [] cs = refl
drop-separator (c ∷ hrp) cs = ground (arith, drop-separator hrp cs)

length-checksum : (hrp bytes : Bytes) → length (bech32_checksum hrp bytes) ≡ 6
unfolding bech32_checksum checksum_digits
length-checksum hrp bytes = refl

checksum-lt : (hrp bytes : Bytes) → All (λ b. b < 32) (bech32_checksum hrp bytes)
unfolding bech32_checksum
checksum-lt hrp bytes = checksum_digits-lt _

take-payload :
    (bytes sum : Bytes) → length sum ≡ 6 → take (length (bytes ++ sum) - 6) (bytes ++ sum) ≡ bytes
take-payload bytes sum h =
    let e : length (bytes ++ sum) - 6 ≡ length bytes = omega (arith, length-append bytes sum) in
    rw e (take-append bytes sum)

hrp-IsByte : (hrp : Bytes) → All IsLowerHrp hrp → All IsByte hrp
hrp-IsByte [] h = tt
hrp-IsByte (c ∷ hrp) h = (omega arith, hrp-IsByte hrp h.1)

digits-IsByte : (bs : Bytes) → All (λ b. b < 32) bs → All IsByte bs
digits-IsByte [] h = tt
digits-IsByte (b ∷ bs) h = (omega arith, digits-IsByte bs h.1)

decode_parts-ok :
    (bech : Bytes) (one : ℕ) (hrp decoded : Bytes)
    → take one bech ≡ hrp
    → to_bytes (drop (one + 1) bech) ≡ ok decoded
    → bech32_verify_checksum hrp decoded ≡ true
    → decode_parts bech one ≡ ok (hrp, take (length decoded - 6) decoded)
unfolding decode_parts
decode_parts-ok bech one hrp decoded h e v = ground arith

decode-kept :
    (text : Bytes) (one : ℕ)
    → 8 ≤ length text
    → first_invalid text ≡ none
    → map lower_char text ≡ text
    → last_index_byte text b'1' ≡ some one
    → 1 ≤ one
    → one + 7 ≤ length text
    → decode text ≡ decode_parts text one
unfolding decode
decode-kept text one h8 hi hl hs h1 h7 = ground (arith, bytes_eq_refl text)

module _ (hrp bytes : Bytes) (hrp_lower : All IsLowerHrp hrp)
    (digits : All (λ b. b < 32) bytes) where
  abbrev combined : Bytes
  combined = bytes ++ bech32_checksum hrp bytes

  combined-lt : All (λ b. b < 32) combined
  combined-lt = All-append (λ b. b < 32) bytes _ digits (checksum-lt hrp bytes)

  written : Bytes
  written = hrp ++ (b'1' ∷ chars_of combined)

  verified : bech32_verify_checksum hrp combined ≡ true
  verified = verify-checksum hrp bytes (hrp-IsByte hrp hrp_lower) (digits-IsByte bytes digits)

  decode_parts-eq : decode_parts written (length hrp) ≡ ok (hrp, bytes)
  unfolding written
  decode_parts-eq =
      decode_parts-ok written (length hrp) hrp combined (take-append hrp (b'1' ∷ chars_of combined))
        (ap to_bytes (drop-separator hrp (chars_of combined))
          ∙ to_bytes-chars_of combined combined-lt)
        verified
      ∙ ap (λ p. ok (hrp, p)) (take-payload bytes _ (length-checksum hrp bytes))

  written-IsKept : All IsKept written
  unfolding written
  written-IsKept =
      All-append IsKept hrp _ (hrp-IsKept hrp hrp_lower) (
        unfold lower_char in (omega arith, omega arith, refl),
        chars_of-IsKept combined combined-lt,
      )

  length-written : length written ≡ length hrp + 1 + length bytes + 6
  unfolding written chars_of
  length-written = omega (
    arith,
    length-append hrp (b'1' ∷ chars_of combined),
    length-map combined char_at,
    length-append bytes (bech32_checksum hrp bytes),
    length-checksum hrp bytes,
  )

  -- For a prefix of at least one printable character, none of them an upper case letter, and groups
  -- of five bits, encode succeeds, and decode reads both back from its text.
  pub decode-encode :
      1 ≤ length hrp
      → (text : Bytes) × (encode hrp bytes ≡ ok text) × (decode text ≡ ok (hrp, bytes))
  unfolding encode written
  decode-encode h1 = (
    written,
    rw (to_chars-eq combined combined-lt, encode) refl,
    decode-kept written (length hrp) (omega (arith, length-written))
          (first_invalid-IsKept written written-IsKept) (lower-IsKept written written-IsKept)
          (last_index-separator hrp (chars_of combined) (no_separator combined combined-lt)) h1
          (omega (arith, length-written))
        ∙ decode_parts-eq,
  )
