-- ===== src/ClosedChannels/Least.antt =====
-- fileToImport of closedchannels/job.go chooses the least number above the last one.
use breez.Common.{
  ℕ, ◌≤◌, ◌<◌, ◌≡◌, ◌⊎◌, inl, inr, refl, ◌∙◌, ◌&&◌, ◌||◌, Option, none, some, List, [], ◌∷◌, All,
  ltb, ◌==◌, Bool-cases, Result, ok, ok-injective, arith,
}
use breez.ClosedChannels.{File, Disk, Failure, importable, lower, least_from, file_to_import}

-- Some file of the list has the number.
abbrev pub Has : ℕ → List File → Type 0
Has n [] = ⊥
Has n (f ∷ list) = (importable f ≡ some n) ⊎ Has n list

-- The file's number is not between `more_than` and `n`; if `n` is 0 it is not above `more_than`.
abbrev pub IsBeyond : ℕ → ℕ → File → Type 0
IsBeyond more_than n f = (s : ℕ) → importable f ≡ some s → more_than < s → (0 < n) × (n ≤ s)

lower-le : (m acc : ℕ) (o : Option ℕ) → 0 < acc → (0 < lower m acc o) × (lower m acc o ≤ acc)
unfolding lower
lower-le m acc none h = ground arith
lower-le m acc (some s) h = ground arith

least_from-le :
    (m acc : ℕ) (list : List File)
    → 0 < acc
    → (0 < least_from m acc list) × (least_from m acc list ≤ acc)
unfolding least_from
least_from-le m acc [] h = ground arith
least_from-le m acc (f ∷ list) h =
    let step = lower-le m acc (importable f) h in
    let rest = least_from-le m (lower m acc (importable f)) list step.0 in (rest.0, omega arith)

lower-some : (m acc s : ℕ) → m < s → (0 < lower m acc (some s)) × (lower m acc (some s) ≤ s)
unfolding lower
lower-some m acc s h = ground arith

least_from-IsBeyond : (m acc : ℕ) (list : List File) → All (IsBeyond m (least_from m acc list)) list
unfolding least_from
least_from-IsBeyond m acc [] = tt
least_from-IsBeyond m acc (f ∷ list) = (
  λ s e h.
      let first : (0 < lower m acc (importable f)) × (lower m acc (importable f) ≤ s) =
        rw e (lower-some m acc s h) in
      let rest = least_from-le m (lower m acc (importable f)) list first.0 in (rest.0, omega arith),
  least_from-IsBeyond m (lower m acc (importable f)) list,
)

lower-cases :
    (m acc : ℕ) (o : Option ℕ)
    → (lower m acc o ≡ acc) ⊎ ((o ≡ some (lower m acc o)) × (m < lower m acc o))
unfolding lower
lower-cases m acc none = inl refl
lower-cases m acc (some s) = elim (Bool-cases (ltb m s && (acc == 0 || ltb s acc))) [
  | inl e ↦ inr (rw e (refl, ground (arith, e)))
  | inr e ↦ inl (rw e refl)
]

least_from-Has :
    (m acc : ℕ) (list : List File)
    → (least_from m acc list ≡ acc)
      ⊎ (Has (least_from m acc list) list × (m < least_from m acc list))
unfolding least_from
least_from-Has m acc [] = inl refl
least_from-Has m acc (f ∷ list) = elim (least_from-Has m (lower m acc (importable f)) list) [
  | inr (has, above) ↦ inr (inr has, above)
  | inl same ↦ elim (lower-cases m acc (importable f)) [
    | inl old ↦ inl (same ∙ old)
    | inr (e, above) ↦ inr (rw same (inl e, above))
  ]
]

-- The file to import after a number is 0 if no file has a greater one; else some file has it, it is
-- greater, and no file has one between.
pub file_to_import_least :
    {E : Type 0} (more_than : ℕ) (disk : Disk) {n : ℕ}
    → ◌≡◌ {A = Result (Failure E) ℕ} (file_to_import more_than disk) (ok n)
    → ((n ≡ 0) ⊎ (Has n disk.files × (more_than < n))) × All (IsBeyond more_than n) disk.files
unfolding file_to_import
file_to_import_least {E} more_than disk {n} h = elim (Bool-cases disk.present) [
  | inr gone ↦ cc (rw gone at h)
  | inl there ↦
      let found : least_from more_than 0 disk.files ≡ n = ok-injective (rw there at h) in
      rw (← found)
        (least_from-Has more_than 0 disk.files, least_from-IsBeyond more_than 0 disk.files)
]
