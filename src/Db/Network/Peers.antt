-- ===== src/Db/Network/Peers.antt =====
-- The peers of db/network.go read back, and what openDB in db/db.go leaves behind.
use breez.Common.{
  ◌≡◌, ◌≢◌, ◌⊎◌, inl, inr, refl, sym, ap, ◌∙◌, subst, Bool, true, false, none, some, List, [], ◌∷◌,
  Bytes, Result, ok, ◌>>=◌, ok-injective, bytes_ne, Result-cases, Bool-cases, length, lt→ltb, suc,
  arith,
}
use breez.Bolt.{Bolt, Codec}
use breez.Db.Basics.{Bucket, network, Error, all_buckets, peers_key, fetch_item, create_all}
use breez.Db.Basics.Items.{
  AllOrNothing, AllOrNothing-map, items-AllOrNothing, encoded-AllOrNothing, last_write, deleted,
  update_cases,
}
use breez.Db.Basics.Buckets.{every_bucket, create_all-read, create_all-has}
use breez.Db.Network.{
  tx_spent_url_key, set_peers, get_peers, get_tx_spent_url, is_invalidated, upgrade_peers,
  then_upgrade, open_db,
}

nonempty : (b : Bytes) → b ≢ [] → (x : _) × (xs : Bytes) × (b ≡ x ∷ xs)
nonempty [] h = absurd (h refl)
nonempty (x ∷ xs) h = (x, xs, refl)

module _ (s : Bolt Bucket Error) (proto : Codec Error (List Bytes)) where
  open s use {Tx, has_bucket}
  open proto use {encode, decode, Plain}

  get_peers-none :
      (u : Tx) (defaults : List Bytes)
      → fetch_item s u network peers_key ≡ none
      → get_peers s proto u defaults ≡ ok (defaults, true)
  unfolding get_peers
  get_peers-none u defaults h = rw (h, get_peers) refl

  get_peers-some :
      (u : Tx) (defaults : List Bytes) (peer : Bytes) (peers : List Bytes) (b : Bytes)
      → fetch_item s u network peers_key ≡ some b
      → b ≢ []
      → decode b ≡ ok (peer ∷ peers)
      → get_peers s proto u defaults ≡ ok (peer ∷ peers, false)
  unfolding get_peers
  get_peers-some u defaults peer peers b h ne decoded =
      let (x, xs, e) = nonempty b ne in
      rw (h, e, get_peers)
        (rw (rw e at decoded, get_peers, lt→ltb 0 (suc (length peers)) (omega arith)) refl)

  get_peers-frame :
      (t u : Tx) (defaults : List Bytes)
      → fetch_item s u network peers_key ≡ fetch_item s t network peers_key
      → get_peers s proto u defaults ≡ get_peers s proto t defaults
  unfolding get_peers
  get_peers-frame t u defaults h = rw (h, get_peers) refl

  get_tx_spent_url-frame :
      (t u : Tx) (default : Bytes)
      → fetch_item s u network tx_spent_url_key ≡ fetch_item s t network tx_spent_url_key
      → get_tx_spent_url s proto u default ≡ get_tx_spent_url s proto t default
  unfolding get_tx_spent_url
  get_tx_spent_url-frame t u default h = rw (h, get_tx_spent_url) refl

  -- Setting some peers, which encode as more than nothing, fails and changes nothing, or they are
  -- the peers that are read, and no defaults; setting none fails and changes nothing, or the defaults
  -- are read; and the spent url stays in both cases.
  pub set_peers-get :
      (t : Tx) (peer : Bytes) (peers : List Bytes) (default : Bytes) (defaults : List Bytes)
      → Plain (peer ∷ peers)
      → ((b : Bytes) → encode (peer ∷ peers) ≡ ok b → b ≢ [])
      → AllOrNothing s t (set_peers s proto t (peer ∷ peers)) (λ _ u.
        (get_peers s proto u defaults ≡ ok (peer ∷ peers, false))
        × (get_tx_spent_url s proto u default ≡ get_tx_spent_url s proto t default))
        × AllOrNothing s t (set_peers s proto t []) (λ _ u.
          (get_peers s proto u defaults ≡ ok (defaults, true))
          × (get_tx_spent_url s proto u default ≡ get_tx_spent_url s proto t default))
  unfolding set_peers
  set_peers-get t peer peers default defaults plain longer =
      let apart = inr (bytes_ne peers_key tx_spent_url_key refl) in
      (
        AllOrNothing-map s _ _ (encoded-AllOrNothing s t network peers_key (encode (peer ∷ peers)))
            (λ a u h. (
              get_peers-some u defaults peer peers h.0 h.2.0 (longer h.0 h.1)
                  (proto.decode-encode (peer ∷ peers) plain h.1),
              get_tx_spent_url-frame t u default (h.2.1 network tx_spent_url_key apart),
            )),
        AllOrNothing-map s _ _ (items-AllOrNothing s t network peers_key peers_key).1 (λ a u h. (
          get_peers-none u defaults h.0,
          get_tx_spent_url-frame t u default (h.1 network tx_spent_url_key apart),
        )),
      )

  -- What opening leaves of the items: all of them, but for the peers when the only one is gone.
  pub Opened : Tx → Tx → Type 0
  Opened t u =
      ((c : Bucket) (j : Bytes)
        → (network ≢ c) ⊎ (peers_key ≢ j)
        → fetch_item s u c j ≡ fetch_item s t c j)
      × ((peers : List Bytes) (is_default : Bool)
          → get_peers s proto t [] ≡ ok (peers, is_default)
          → (is_invalidated s proto peers ≡ false
              → fetch_item s u network peers_key ≡ fetch_item s t network peers_key)
            × (is_invalidated s proto peers ≡ true → fetch_item s u network peers_key ≡ none))

  same_test :
      (t : Tx) {found peers : List Bytes} {d d' : Bool}
      → get_peers s proto t [] ≡ ok (found, d)
      → get_peers s proto t [] ≡ ok (peers, d')
      → is_invalidated s proto found ≡ is_invalidated s proto peers
  same_test t h k =
      ap (λ (p : List Bytes × Bool). is_invalidated s proto p.0) (ok-injective (sym h ∙ k))

  upgraded :
      (t u : Tx)
      → upgrade_peers s proto t ≡ (ok tt, u)
      → ((c : Bucket) → has_bucket u c ≡ has_bucket t c) × Opened t u
  unfolding upgrade_peers set_peers Opened
  upgraded t u h = elim (Result-cases (get_peers s proto t [])) [
    | inr (e, bad) ↦
        cc (ap (λ (r : Result Error (Unit {0}) × Tx). r.0) (rw (bad, upgrade_peers) at h))
    | inl ((found, d), read) ↦ elim (Bool-cases (is_invalidated s proto found)) [
      | inr e ↦
          let same : t ≡ u =
            ap (λ (r : Result Error (Unit {0}) × Tx). r.1) (rw (read, e, upgrade_peers) at h) in
          subst (λ (u : Tx). ((c : Bucket) → has_bucket u c ≡ has_bucket t c) × Opened t u) same
            (
              λ c. refl,
              (
                λ c j away. refl,
                λ peers is_default is. (λ _. refl, λ bad. cc (sym e ∙ same_test t read is ∙ bad)),
              ),
            )
      | inl e ↦
          let (holds, has) = deleted s t u network peers_key (rw (read, e, upgrade_peers) at h) in
          (
            has,
            (
              holds.1,
              λ peers is_default is. (λ bad. cc (sym e ∙ same_test t read is ∙ bad), λ _. holds.0),
            ),
          )
    ]
  ]

  Opened-from :
      (t t1 u : Tx)
      → ((c : Bucket) (j : Bytes) → fetch_item s t1 c j ≡ fetch_item s t c j)
      → Opened t1 u
      → Opened t u
  unfolding Opened
  Opened-from t t1 u same h = (
    λ c j away. h.0 c j away ∙ same c j,
    λ peers is_default is.
        let (stays, goes) =
          h.1 peers is_default (get_peers-frame t t1 [] (same network peers_key) ∙ is) in
        (λ e. stays e ∙ same network peers_key, goes),
  )

  -- When openDB succeeds on an open file, every bucket is there, every item is as before but for
  -- the peers, and these are as before too unless the only one is the peer that is gone: then none
  -- are stored.
  pub open_db-Opened :
      (t u : Tx)
      → open_db s proto t ≡ (ok tt, u)
      → ((b : Bucket) → has_bucket u b ≡ true) × Opened t u
  unfolding open_db then_upgrade
  open_db-Opened t u h =
      let create : Tx → Result Error (Unit {0} × Tx) =
        λ t. create_all s all_buckets t >>= λ u. ok (tt, u) in
      elim (update_cases {0} s t create) [
        | inl (e, failed) ↦ cc (
            ap (λ (r : Result Error (Unit {0}) × Tx). r.0)
              (sym h ∙ ap (then_upgrade s proto) failed))
        | inr (a, t1, body, done) ↦
            let made = last_write s (create_all s all_buckets t) body in
            let (has, opened) = upgraded t1 u (sym (ap (then_upgrade s proto) done) ∙ h) in
            (
              λ b. has b ∙ create_all-has s all_buckets t t1 made b (every_bucket b),
              Opened-from t t1 u (create_all-read s all_buckets t t1 made) opened,
            )
      ]
