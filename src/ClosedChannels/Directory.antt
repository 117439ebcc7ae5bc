-- ===== src/ClosedChannels/Directory.antt =====
-- The numbers of the files of a directory when a file is renamed to one that is done with.
use breez.Common.{
  ℕ, ◌+◌, ◌-◌, ◌≤◌, ◌<◌, ◌≡◌, ◌≢◌, inl, inr, refl, sym, ◌∙◌, true, Option, none, some, List, [],
  ◌∷◌, ◌++◌, Bytes, bytes_eq, bytes_eq→eq, bytes_eq_refl, length, length-append, drop-append, ltb,
  leb, if◌then◌else◌, Bool-cases, arith,
}
use breez.Common.Decimal.{parse_uint, itoa, parse_uint-itoa_eq}
use breez.ClosedChannels.{File, has_suffix, deleted_suffix, importable, remove, retitle}
use breez.ClosedChannels.Least.{Has}

-- How many files have a number above `m`.
is_above : ℕ → Option ℕ → ℕ
is_above m none = 0
is_above m (some s) = if ltb m s then 1 else 0

pub above : ℕ → List File → ℕ
above m [] = 0
above m (f ∷ list) = is_above m (importable f) + above m list

is_above-le : (m n : ℕ) (o : Option ℕ) → m ≤ n → is_above n o ≤ is_above m o
unfolding is_above
is_above-le m n none h = omega arith
is_above-le m n (some s) h = ground arith

pub above-le : (m n : ℕ) (list : List File) → m ≤ n → above n list ≤ above m list
unfolding above
above-le m n [] h = omega arith
above-le m n (f ∷ list) h = omega (arith, is_above-le m n (importable f) h, above-le m n list h)

is_above-lt : (m n : ℕ) → m < n → is_above n (some n) < is_above m (some n)
unfolding is_above
is_above-lt m n h = ground arith

pub above-lt : (m n : ℕ) (list : List File) → m < n → Has n list → above n list < above m list
unfolding above
above-lt m n [] h has = absurd has
above-lt m n (f ∷ list) h (inl e) =
    rw e (omega (arith, is_above-lt m n h, above-le m n list (omega arith)))
above-lt m n (f ∷ list) h (inr has) =
    omega (arith, is_above-le m n (importable f) (omega arith), above-lt m n list h has)

pub above-le-length : (m : ℕ) (list : List File) → above m list ≤ length list
unfolding above is_above
above-le-length m [] = omega arith
above-le-length m (f ∷ list) = ground (arith, above-le-length m list)

pub has_suffix-append : (s suffix : Bytes) → has_suffix (s ++ suffix) suffix ≡ true
unfolding has_suffix
has_suffix-append s suffix =
    let long : leb (length suffix) (length (s ++ suffix)) ≡ true =
      ground (arith, length-append s suffix) in
    let front : length (s ++ suffix) - length suffix ≡ length s =
      omega (arith, length-append s suffix) in
    rw (long, front, drop-append s suffix) (bytes_eq_refl suffix)

-- A deleted file has no number.
pub importable-deleted : (f : File) → has_suffix f.name deleted_suffix ≡ true → importable f ≡ none
unfolding importable
importable-deleted f h = elim (Bool-cases f.is_dir) [ inl e ↦ rw e refl | inr e ↦ rw (e, h) refl ]

pub above-remove :
    (m : ℕ) (name : Bytes) (list : List File) → above m (remove name list) ≤ above m list
unfolding above
above-remove m name [] = omega arith
above-remove m name (f ∷ list) = elim (Bool-cases (bytes_eq f.name name)) [
  | inl e ↦ rw e (omega (arith, above-remove m name list))
  | inr e ↦ rw e (omega (arith, above-remove m name list))
]

pub above-retitle :
    (m : ℕ) (old : Bytes) (list : List File)
    → above m (retitle old (old ++ deleted_suffix) list) ≤ above m list
unfolding above is_above
above-retitle m old [] = omega arith
above-retitle m old (f ∷ list) = elim (Bool-cases (bytes_eq f.name old)) [
  | inr e ↦ rw e (omega (arith, above-retitle m old list))
  | inl e ↦
      let f' : File = record f { name = old ++ deleted_suffix } in
      let gone : importable f' ≡ none =
        importable-deleted f' (has_suffix-append old deleted_suffix) in
      rw (e, gone) (omega (arith, above-retitle m old list))
]

-- Another file's number is not lost.
pub Has-remove :
    (n : ℕ) (name : Bytes) (list : List File)
    → has_suffix name deleted_suffix ≡ true
    → Has n list
    → Has n (remove name list)
Has-remove n name [] h has = has
Has-remove n name (f ∷ list) h has = elim (Bool-cases (bytes_eq f.name name)) [
  | inr e ↦ rw e (elim has [ inl this ↦ inl this | inr rest ↦ inr (Has-remove n name list h rest) ])
  | inl e ↦ rw e (elim has [
    | inl this ↦
        let gone = importable-deleted f (rw (bytes_eq→eq f.name name e) h) in
        let clash : none ≡ some n = sym gone ∙ this in cc
    | inr rest ↦ Has-remove n name list h rest
  ])
]

importable-name : (f : File) (n : ℕ) → importable f ≡ some n → parse_uint 64 f.name ≡ some n
unfolding importable
importable-name f n h = ground arith

pub Has-retitle :
    (n k : ℕ) (list : List File)
    → n ≢ k
    → Has n list
    → Has n (retitle (itoa k) (itoa k ++ deleted_suffix) list)
Has-retitle n k [] ne has = has
Has-retitle n k (f ∷ list) ne has = elim (Bool-cases (bytes_eq f.name (itoa k))) [
  | inr e ↦ rw e (elim has [ inl this ↦ inl this | inr rest ↦ inr (Has-retitle n k list ne rest) ])
  | inl e ↦ elim has [
    | inr rest ↦ inr (Has-retitle n k list ne rest)
    | inl this ↦
        let number = importable-name f n this in
        absurd (ne (parse_uint-itoa_eq k n (rw (bytes_eq→eq f.name (itoa k) e) at number)))
  ]
]
