-- ===== src/DoubleRatchet/Expiry.antt =====
-- deleteExpiredSessions of doubleratchet/db.go deletes the expired sessions and no others.
use breez.Common.{
  ℕ, ◌≤◌, ◌≡◌, ◌⊎◌, Option, none, some, List, [], ◌∷◌, Bytes, take, leb, if◌then◌else◌, Result, ok,
}
use breez.Bolt.{Bolt}
use breez.Db.Basics.{Error, btoi}
use breez.DoubleRatchet.{
  Bucket, session_context, session_user_info, encrypted_sessions, delete_session,
}

-- Some entry of the key is expired.
abbrev pub IsExpired : ℕ → Bytes → List (Bytes × Option Bytes) → Type 0
IsExpired now key [] = ⊥
IsExpired now key ((j, none) ∷ rest) = IsExpired now key rest
IsExpired now key ((j, some val) ∷ rest) =
    ((j ≡ key) × ((expiry : ℕ) × (btoi (take 8 val) ≡ ok expiry) × (expiry ≤ now)))
    ⊎ IsExpired now key rest

module _ (s : Bolt Bucket Error) where
  open s use {Tx, read, delete, entries}

  -- The session is gone from all three buckets.
  abbrev pub IsGone : Bytes → Tx → Type 0
  IsGone key u =
      (read u session_context key ≡ none)
      × (read u session_user_info key ≡ none)
      × (read u encrypted_sessions key ≡ none)

  abbrev expire_one : ℕ → Bytes → ℕ → Tx → Result Error Tx
  expire_one now key expiry t = if leb expiry now then delete_session s key t else ok t
