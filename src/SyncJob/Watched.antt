-- ===== src/SyncJob/Watched.antt =====
-- What NewChannelsWatcher of sync/channelswatcher.go watches, and from which height.
use breez.Common.{
  ℕ, ◌≤◌, ◌<◌, ◌≡◌, ◌⊎◌, inl, inr, refl, sym, ap, ◌∙◌, false, Option, none, some, List, [], ◌∷◌,
  ◌++◌, ◌==◌, Bool-cases, ok, ok-injective, arith, All, map, subst, if◌then◌else◌,
}
use mathlib.Core.List.{append-nil}
use breez.Bolt.Transactions.{>>=-eq-ok}
use breez.SyncJob.Watcher.{
  Channel, ChannelSource, InputWithScript, ChannelsWatcher, raised, first_of, watch_channel,
  watch_channels, new_channels_watcher,
}

-- The channels with a balance.
abbrev pub with_balance : List Channel → List Channel
with_balance [] = []
with_balance (c ∷ channels) =
    let rest = with_balance channels in if c.local_balance == 0 then rest else c ∷ rest

first_of-le : (first height : ℕ) → first_of first height ≤ height
unfolding first_of
first_of-le first height = ground arith

first_of-positive : (first height : ℕ) → 0 < height → 0 < first_of first height
unfolding first_of
first_of-positive first height h = ground arith

first_of-old : (first height : ℕ) → (first ≡ 0) ⊎ (first_of first height ≤ first)
unfolding first_of
first_of-old first height = ground arith

raised-le : (height : ℕ) (hint : Option ℕ) → height ≤ raised height hint
unfolding raised
raised-le height none = omega arith
raised-le height (some start_block) = ground arith

map-snoc :
    {A B : Type 0} (f : A → B) (xs : List A) (x : A) (ys : List B)
    → map f (xs ++ (x ∷ [])) ++ ys ≡ map f xs ++ (f x ∷ ys)
map-snoc f [] x ys = refl
map-snoc f (y ∷ xs) x ys = ap (λ zs. f y ∷ zs) (map-snoc f xs x ys)

module _ {E : Type 0} (lnd : ChannelSource E) where
  -- The scan starts no later than the height of the channel, or its hint if that is greater.
  abbrev pub IsCovered : ℕ → Channel → Type 0
  IsCovered first c =
      (script : InputWithScript) (height : ℕ)
      → watch_channel lnd c ≡ ok (script, height)
      → first ≤ height

  watch_channel-cases :
      (c : Channel) (script : InputWithScript) (height : ℕ)
      → watch_channel lnd c ≡ ok (script, height)
      → (script.out_point ≡ c.funding_outpoint) × (c.block_height ≤ height)
  unfolding watch_channel
  watch_channel-cases c script height h =
      let (pk_script, _, rest) = >>=-eq-ok (lnd.witness_script c.local_key c.remote_key) _ h in
      let (hint, _, last) = >>=-eq-ok (lnd.query_spend_hint c.funding_outpoint pk_script) _ rest in
      let same : ◌≡◌ {A = InputWithScript × ℕ}
          (
            record { out_point = c.funding_outpoint; pk_script = pk_script },
            raised c.block_height hint,
          )
          (script, height) =
        ok-injective last in
      (
        ap (λ (p : InputWithScript × ℕ). p.0.out_point) (sym same),
        subst (λ (p : InputWithScript × ℕ). c.block_height ≤ p.1) same
            (raised-le c.block_height hint),
      )

  first-le :
      (start height first : ℕ)
      → 0 < height
      → (first_of start height ≡ 0) ⊎ (first ≤ first_of start height)
      → ((start ≡ 0) ⊎ (first ≤ start)) × (first ≤ height)
  first-le start height first positive (inl none_yet) =
      absurd (omega (arith, first_of-positive start height positive, none_yet))
  first-le start height first positive (inr le) = (
    elim (first_of-old start height) [
      | inl empty ↦ inl empty
      | inr lower ↦ inr (omega (arith, lower, le))
    ],
    omega (arith, le, first_of-le start height),
  )

  watch_channels-Watched :
      (channels : List Channel) (scripts all : List InputWithScript) (start first : ℕ)
      → watch_channels lnd scripts start channels ≡ ok (all, first)
      → All (λ c. 0 < c.block_height) channels
      → (map (λ (x : InputWithScript). x.out_point) all
          ≡ map (λ (x : InputWithScript). x.out_point) scripts
            ++ map (λ (c : Channel). c.funding_outpoint) (with_balance channels))
        × ((start ≡ 0) ⊎ (first ≤ start))
        × All (IsCovered first) (with_balance channels)
  unfolding watch_channels
  watch_channels-Watched [] scripts all start first h positive =
      let same : ◌≡◌ {A = List InputWithScript × ℕ} (scripts, start) (all, first) =
        ok-injective h in
      (
        ap (map (λ (x : InputWithScript). x.out_point))
              (sym (ap (λ (p : List InputWithScript × ℕ). p.0) same))
            ∙ sym (append-nil (map (λ (x : InputWithScript). x.out_point) scripts)),
        inr (subst (λ (p : List InputWithScript × ℕ). p.1 ≤ start) same (omega arith)),
        tt,
      )
  watch_channels-Watched (c ∷ channels) scripts all start first h positive =
      elim (Bool-cases (c.local_balance == 0)) [
        | inl empty ↦ rw (empty) (
            watch_channels-Watched channels scripts all start first
              (rw (empty, watch_channels) at h) positive.1)
        | inr watched ↦
            let ((script, height), at_c, rest) =
              >>=-eq-ok (watch_channel lnd c) _ (rw (watched, watch_channels) at h) in
            let (outs, lower, covered) =
              watch_channels-Watched channels (scripts ++ (script ∷ [])) all (first_of start height)
                first rest positive.1 in
            let (out, le) = watch_channel-cases c script height at_c in
            let firsts = first-le start height first (omega (arith, le, positive.0)) lower in
            let this : IsCovered first c = λ other h2 e.
              let same : height ≡ h2 =
                ap (λ (p : InputWithScript × ℕ). p.1) (ok-injective (sym at_c ∙ e)) in
              subst (λ h. first ≤ h) same firsts.1 in
            rw (watched) (
              outs
                  ∙ map-snoc (λ (x : InputWithScript). x.out_point) scripts script
                      (map (λ (c : Channel). c.funding_outpoint) (with_balance channels))
                  ∙ ap
                      (λ point.
                        map (λ (x : InputWithScript). x.out_point) scripts
                        ++ (point
                            ∷ map (λ (c : Channel). c.funding_outpoint) (with_balance channels)))
                      out,
              firsts.0,
              (this, covered),
            )
      ]

  -- A new watcher watches the outpoints of the channels with a balance, in their order, and if no open
  -- channel has the block height 0, the height it starts from is not above that of any of them.
  pub new_channels_watcher-Watched :
      (channels : List Channel) (w : ChannelsWatcher)
      → lnd.fetch_all_open_channels ≡ ok channels
      → new_channels_watcher lnd ≡ ok w
      → All (λ c. 0 < c.block_height) channels
      → (map (λ (x : InputWithScript). x.out_point) w.watched_scripts
          ≡ map (λ (c : Channel). c.funding_outpoint) (with_balance channels))
        × (w.closed_channel_detected ≡ false)
        × All (IsCovered w.first_channel_block_height) (with_balance channels)
  unfolding new_channels_watcher
  new_channels_watcher-Watched channels w fetched h positive =
      let (opened, read, rest) = >>=-eq-ok lnd.fetch_all_open_channels _ h in
      let ((all, first), looped, made) = >>=-eq-ok (watch_channels lnd [] 0 opened) _ rest in
      let same_channels : opened ≡ channels = ok-injective (sym read ∙ fetched) in
      let (outs, _, covered) =
        watch_channels-Watched channels [] all 0 first
          (subst (λ cs. watch_channels lnd [] 0 cs ≡ ok (all, first)) same_channels looped)
          positive in
      let same : record {
        watched_scripts = all;
        first_channel_block_height = first;
        closed_channel_detected = false;
      }
          ≡ w =
        ok-injective made in
      rw (← same) (outs, refl, covered)
