-- ===== src/Proxy/Lifecycle/Runs/Channels.antt =====
-- Channels of which only that of a notifier may be open, as they are written to and dropped.
use neemata_proxy.Common.{
  ℕ, ◌≡◌, ◌≢◌, refl, ap, sym, subst, ◌∙◌, inl, inr, true, false, Option, none, some, List, [], ◌∷◌,
  ◌++◌, arith, length, get_elem?, set, eqb, eqb_iff, Bool-cases, Option-cases, get_elem?-set_self,
  get_elem?-set_ne, length-set, set_absent, get_elem?-snoc, some-inj,
}
use neemata_proxy.Proxy.Lifecycle.{Channel, send_last, drop_found, drop_sender}

module _ {A : Type 0} where
  abbrev pub OnlyOpen : Option ℕ → List (Channel A) → Type 0
  OnlyOpen notifier channels =
      (c : ℕ) (channel : Channel A)
      → get_elem? channels c ≡ some channel
      → channel.alive ≡ true
      → notifier ≡ some c

  -- A write that leaves a dead channel closes the only one that was open.
  set_dead-OnlyOpen :
      (k : ℕ) (dead : Channel A) (channels : List (Channel A))
      → dead.alive ≡ false
      → OnlyOpen (some k) channels
      → OnlyOpen none (set channels k dead)
  set_dead-OnlyOpen k dead channels gone v c channel at alive = elim (Bool-cases (eqb k c)) [
    | inl same ↦
        let at_k =
          subst (λ i. get_elem? (set channels k dead) i ≡ some channel) (sym ((eqb_iff k c).0 same))
            at in
        elim (Option-cases (get_elem? channels k)) [
          | inl lost ↦ absurd (ground (arith, lost, set_absent channels k dead lost))
          | inr (old, there) ↦
              let is = some-inj (sym (get_elem?-set_self channels k dead old there) ∙ at_k) in
              absurd (ground (arith, is))
        ]
    | inr apart ↦
        let ne : k ≢ c = ground (arith, apart, eqb_iff k c) in
        absurd
          (ne (some-inj (v c channel (sym (get_elem?-set_ne channels k c dead ne) ∙ at) alive)))
  ]

  pub send_last-OnlyOpen :
      (value : A) (notifier : Option ℕ) (channels : List (Channel A))
      → OnlyOpen notifier channels
      → OnlyOpen none (send_last value notifier channels)
  unfolding send_last
  send_last-OnlyOpen value none channels v = v
  send_last-OnlyOpen value (some k) channels v = set_dead-OnlyOpen k _ channels refl v

  pub snoc-OnlyOpen :
      (channels : List (Channel A)) (new : Channel A)
      → OnlyOpen none channels
      → OnlyOpen (some (length channels)) (channels ++ (new ∷ []))
  snoc-OnlyOpen channels new v c channel at alive =
      elim (get_elem?-snoc channels new c channel at) [
        | inl old ↦ (let no_sender : none ≡ some c = v c channel old alive in absurd (cc))
        | inr last ↦ ap some (sym last)
      ]

  drop_found-OnlyOpen :
      (k : ℕ) (o : Option (Channel A)) (channels : List (Channel A))
      → get_elem? channels k ≡ o
      → OnlyOpen (some k) channels
      → OnlyOpen none (drop_found k o channels)
  unfolding drop_found
  drop_found-OnlyOpen k none channels lost v = λ c channel at alive.
      let same : k ≡ c = some-inj (v c channel at alive) in
      let there : get_elem? channels k ≡ some channel = ap (get_elem? channels) same ∙ at in
      let no_channel : none ≡ some channel = sym lost ∙ there in absurd (cc)
  drop_found-OnlyOpen k (some old) channels there v =
      set_dead-OnlyOpen k (record old { alive = false }) channels refl v

  pub drop_sender-OnlyOpen :
      (notifier : Option ℕ) (channels : List (Channel A))
      → OnlyOpen notifier channels
      → OnlyOpen none (drop_sender notifier channels)
  unfolding drop_sender
  drop_sender-OnlyOpen none channels v = v
  drop_sender-OnlyOpen (some k) channels v =
      drop_found-OnlyOpen k (get_elem? channels k) channels refl v

  length-drop_found :
      (k : ℕ) (o : Option (Channel A)) (channels : List (Channel A))
      → length (drop_found k o channels) ≡ length channels
  unfolding drop_found
  length-drop_found k none channels = refl
  length-drop_found k (some old) channels = length-set channels k (record old { alive = false })

  -- What a new start makes of the channels.
  pub renew-OnlyOpen :
      (notifier : Option ℕ) (channels : List (Channel A)) (new : Channel A)
      → OnlyOpen notifier channels
      → OnlyOpen (some (length channels)) (drop_sender notifier channels ++ (new ∷ []))
  unfolding drop_sender
  renew-OnlyOpen none channels new v = snoc-OnlyOpen channels new v
  renew-OnlyOpen (some k) channels new v =
      let dropped = drop_found k (get_elem? channels k) channels in
      subst (λ n. OnlyOpen (some n) (dropped ++ (new ∷ [])))
        (length-drop_found k (get_elem? channels k) channels)
        (snoc-OnlyOpen dropped new (drop_sender-OnlyOpen (some k) channels v))
