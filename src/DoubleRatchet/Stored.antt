-- ===== src/DoubleRatchet/Stored.antt =====
-- The message keys and session contexts of doubleratchet/db.go read back.
use breez.Common.{
  ℕ, ◌<◌, ◌^◌, ◌≡◌, ◌≢◌, ◌⊎◌, inl, inr, refl, ap, ◌∙◌, Bool, true, false, Option, none, some, [],
  ◌∷◌, ◌++◌, Bytes, take, drop, ◌==◌, if◌then◌else◌, ok, ◌>>=◌,
}
use breez.Bolt.{Bolt}
use breez.Bolt.Transactions.{>>=-eq-ok, AllOrNothing, update-AllOrNothing, last_write}
use breez.Db.Basics.{Error, itob}
use breez.Db.Basics.Keys.{btoi-itob, itob-injective}
use breez.DoubleRatchet.{
  Bucket, session_context, keys_of, save_item, fetch_item, save_key_body,
  save_encrypted_message_key, fetch_encrypted_message_key, create_session_context,
  fetch_session_context,
}

keys_of-injective : {a b : Bytes} → keys_of a ≡ keys_of b → a ≡ b
keys_of-injective h = cc

take-itob : (v : ℕ) (rest : Bytes) → take 8 (itob v ++ rest) ≡ itob v
unfolding itob
take-itob v rest = refl

drop-itob : (v : ℕ) (rest : Bytes) → drop 8 (itob v ++ rest) ≡ rest
unfolding itob
drop-itob v rest = refl

module _ (s : Bolt Bucket Error) where
  open s use {Tx, read, has_bucket, create_bucket, put}

  -- The key of a message as it stands in the database.
  abbrev pub key_at : Tx → Bytes → ℕ → Option Bytes
  key_at t pub_key msg_num = read t (keys_of pub_key) (itob msg_num)

  saved_key :
      (pub_key msg_key : Bytes) (msg_num : ℕ) (t u : Tx) (a : Unit {0})
      → save_key_body s pub_key msg_num msg_key t ≡ ok (a, u)
      → (has_bucket u (keys_of pub_key) ≡ true)
        × (key_at u pub_key msg_num ≡ some msg_key)
        × ((c : Bucket) (j : Bytes)
            → (keys_of pub_key ≢ c) ⊎ (itob msg_num ≢ j)
            → read u c j ≡ read t c j)
  unfolding save_key_body
  saved_key pub_key msg_key msg_num t u a h =
      let (t1, made, h1) = >>=-eq-ok (create_bucket t (keys_of pub_key)) _ h in
      let written = last_write s (put t1 (keys_of pub_key) (itob msg_num) msg_key) h1 in
      (
        s.has-put written (keys_of pub_key) ∙ s.create-has_self made,
        s.read-put_self written,
        λ c j away. s.read-put_ne written c j away ∙ s.create-read made c j,
      )

  -- Saving the key of a message fails and changes nothing, or it is what a fetch returns, if that
  -- commits, and the keys of other peers and, below 2 ^ 64, of other messages are as before.
  pub save_encrypted_message_key-fetch :
      (t : Tx) (pub_key : Bytes) (msg_num : ℕ) (msg_key : Bytes)
      → msg_num < 2 ^ 64
      → AllOrNothing s t (save_encrypted_message_key s t pub_key msg_num msg_key) (λ _ u.
        (s.commit u ≡ none
          → fetch_encrypted_message_key s u pub_key msg_num ≡ (ok (some msg_key), u))
        × ((other : Bytes) (n : ℕ)
            → n < 2 ^ 64
            → (pub_key ≢ other) ⊎ (msg_num ≢ n)
            → key_at u other n ≡ key_at t other n))
  unfolding save_encrypted_message_key fetch_encrypted_message_key
  save_encrypted_message_key-fetch t pub_key msg_num msg_key small =
      update-AllOrNothing {0, 0} s t (save_key_body s pub_key msg_num msg_key) _ (λ a u h.
        let (has, stored, frame) = saved_key pub_key msg_key msg_num t u a h in
        (
          λ commits. rw (has, fetch_encrypted_message_key, stored, commits) refl,
          λ other n fits away. frame (keys_of other) (itob n) (elim away [
            | inl ne ↦ inl (λ e. ne (keys_of-injective e))
            | inr ne ↦ inr (λ e. ne (itob-injective msg_num n small fits e))
          ]),
        ))

  context_bytes : (initiated : Bool) → ((if initiated then 1 else 0) == 1) ≡ initiated
  context_bytes true = refl
  context_bytes false = refl

  -- Creating the context of a session with a 64-bit expiry fails and changes nothing, or it is read
  -- back.
  pub create_session_context-fetch :
      (t : Tx) (session_id : Bytes) (initiated : Bool) (expiry : ℕ)
      → expiry < 2 ^ 64
      → AllOrNothing s t
          (create_session_context s t session_id initiated expiry)
          (λ _ u. fetch_session_context s u session_id ≡ ok (initiated, expiry))
  unfolding create_session_context save_item fetch_session_context fetch_item
  create_session_context-fetch t session_id initiated expiry small =
      let last = (if initiated then 1 else 0) ∷ [] in
      update-AllOrNothing {0, 0} s t
        (λ t. put t session_context session_id (itob expiry ++ last) >>= λ u. ok (tt, u))
        (λ _ u. fetch_session_context s u session_id ≡ ok (initiated, expiry))
        (λ a u h.
          rw
            (
              s.read-put_self
                  (last_write s (put t session_context session_id (itob expiry ++ last)) h),
              fetch_session_context,
            )
            (rw (take-itob expiry last, drop-itob expiry last, btoi-itob expiry small)
              (ap (λ b. ok (b, expiry)) (context_bytes initiated))))
