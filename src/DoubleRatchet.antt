-- ===== src/DoubleRatchet.antt =====
-- doubleratchet/db.go: the sessions of the encrypted chat, in a database of their own. Its copies of
-- itob and btoi are those of db/db.go. The keys of one peer are a bucket nested in sessionKeys.
pub mod Stored
pub mod Expiry
mod Tests
use breez.Common.{
  ℕ, ◌≡◌, Bool, true, false, Option, none, some, List, [], ◌∷◌, ◌++◌, Bytes, length, take, drop,
  leb, ◌==◌, if◌then◌else◌, Result, ok, err, ◌>>=◌,
}
use breez.Bolt.{Bolt, update}
use breez.Db.Basics.{Error, panicked, itob, btoi}

pub data Bucket : Type 0 where
  encrypted_sessions session_keys session_context session_user_info : Bucket
  keys_of : Bytes → Bucket

abbrev pub all_buckets : List Bucket
all_buckets = session_keys ∷ session_context ∷ session_user_info ∷ encrypted_sessions ∷ []

module _ (s : Bolt Bucket Error) where
  open s use {Tx, has_bucket, create_bucket, read, put, delete, entries}

  pub create_all : List Bucket → Tx → Result Error Tx
  create_all [] t = ok t
  create_all (b ∷ bs) t = create_bucket t b >>= create_all bs

  pub open_db : Tx → Result Error (Unit {0}) × Tx
  open_db t = update s t (λ t. create_all all_buckets t >>= λ u. ok (tt, u))

  pub save_item : Tx → Bucket → Bytes → Bytes → Result Error (Unit {0}) × Tx
  save_item t bucket key value = update s t (λ t. put t bucket key value >>= λ u. ok (tt, u))

  pub fetch_item : Tx → Bucket → Bytes → Option Bytes
  fetch_item t bucket key = read t bucket key

  pub save_encrypted_session : Tx → Bytes → Bytes → Result Error (Unit {0}) × Tx
  save_encrypted_session t session_id session_data =
      save_item t encrypted_sessions session_id session_data

  pub fetch_encrypted_session : Tx → Bytes → Option Bytes
  fetch_encrypted_session t session_id = fetch_item t encrypted_sessions session_id

  pub save_key_body : Bytes → ℕ → Bytes → Tx → Result Error (Unit {0} × Tx)
  save_key_body pub_key msg_num msg_key t = do
    t1 ← create_bucket t (keys_of pub_key)
    t2 ← put t1 (keys_of pub_key) (itob msg_num) msg_key
    ok (tt, t2)

  pub save_encrypted_message_key : Tx → Bytes → ℕ → Bytes → Result Error (Unit {0}) × Tx
  save_encrypted_message_key t pub_key msg_num msg_key =
      update s t (save_key_body pub_key msg_num msg_key)

  pub fetch_encrypted_message_key : Tx → Bytes → ℕ → Result Error (Option Bytes) × Tx
  fetch_encrypted_message_key t pub_key msg_num = update s t (λ t.
      if has_bucket t (keys_of pub_key)
      then ok (read t (keys_of pub_key) (itob msg_num), t)
      else ok (none, t))

  -- Stats().KeyN is the number of the bucket's entries.
  pub count_message_keys : Tx → Bytes → Result Error ℕ × Tx
  count_message_keys t pub_key = update s t (λ t.
      if has_bucket t (keys_of pub_key)
      then ok (length (entries t (keys_of pub_key)), t)
      else ok (0, t))

  pub has_nested : List (Bytes × Option Bytes) → Bool
  has_nested [] = false
  has_nested ((k, none) ∷ rest) = true
  has_nested ((k, some v) ∷ rest) = has_nested rest

  -- `all` is a nil map, so the first nested bucket panics; without one the answer is that map.
  pub all_message_keys : Tx → Result Error (List (Bytes × List (ℕ × Bytes))) × Tx
  all_message_keys t =
      update s t (λ t. if has_nested (entries t session_keys) then err panicked else ok ([], t))

  pub create_session_context : Tx → Bytes → Bool → ℕ → Result Error (Unit {0}) × Tx
  create_session_context t session_id initiated expiry =
      save_item t session_context session_id (itob expiry ++ ((if initiated then 1 else 0) ∷ []))

  -- Whether the session was initiated, and its expiry; a short value is a read out of range.
  pub fetch_session_context : Tx → Bytes → Result Error (Bool × ℕ)
  fetch_session_context t session_id = elim (fetch_item t session_context session_id) [
    | none ↦ ok (false, 0)
    | some context ↦ btoi (take 8 context) >>= λ expiry. elim (drop 8 context) [
      | [] ↦ err panicked
      | b ∷ _ ↦ ok (b == 1, expiry)
    ]
  ]

  -- A session goes with its context and its info.
  pub delete_session : Bytes → Tx → Result Error Tx
  delete_session key t = do
    t1 ← delete t session_context key
    t2 ← delete t1 session_user_info key
    delete t2 encrypted_sessions key

  -- The walk of deleteExpiredSessions over the contexts as they were at its start. A context that
  -- is a nested bucket has no value, so `val[:8]` panics.
  pub delete_expired : ℕ → List (Bytes × Option Bytes) → Tx → Result Error Tx
  delete_expired current_time [] t = ok t
  delete_expired current_time ((key, none) ∷ rest) t = err panicked
  delete_expired current_time ((key, some val) ∷ rest) t = btoi (take 8 val) >>= λ expiry.
      (if leb expiry current_time then delete_session key t else ok t)
      >>= delete_expired current_time rest

  pub delete_expired_sessions : Tx → ℕ → Result Error (Unit {0}) × Tx
  delete_expired_sessions t current_time =
      update s t
        (λ t. delete_expired current_time (entries t session_context) t >>= λ u. ok (tt, u))

  pub set_session_info : Tx → Bytes → Bytes → Result Error (Unit {0}) × Tx
  set_session_info t session_id info = save_item t session_user_info session_id info

  pub fetch_session_info : Tx → Bytes → Option Bytes
  fetch_session_info t session_id = fetch_item t session_user_info session_id
