-- ===== src/Router/Upstream/Stickiness.antt =====
-- Requests with one affinity key, one after the other: the second is sent where the first was.
use neemata_proxy.Common.{
  ℕ, ◌+◌, ◌<◌, ◌≤◌, ◌≡◌, refl, ap, sym, subst, ◌∙◌, ◌⊎◌, inl, inr, Option, none, some, List, true,
  list_eq, nat_eq, arith, Option-cases, some-inj,
}
use neemata_proxy.Text.{Text, Run, returned}
use neemata_proxy.Map.{contains}
use neemata_proxy.Router.Config.{ResolvedPool}
use neemata_proxy.Router.Affinity.{StickySessionConfig}
use neemata_proxy.Router.Sticky.Evict.{AffinityMapKey, AffinityEntry}
use neemata_proxy.Router.Sticky.Clean.{retain_all, total}
use neemata_proxy.Router.Sticky.Cleanup.{IsSound, stored}
use neemata_proxy.Router.Sticky.Binding.{IsKept, usable}
use neemata_proxy.Router.Sticky.Sessions.{lookup_sticky-stored}
use neemata_proxy.Router.Sticky.Bindings.{bound_entry, bind-IsBound}
use neemata_proxy.Router.Sticky.{StickySessionState, guards}
use neemata_proxy.Router.Upstream.Peers.{renewed-usable}
use neemata_proxy.Router.Filters.{Outcome, ok, Exchange}
use neemata_proxy.Router.Upstream.{Select, with_sticky, unhealthy, select_and_bind, sticky_addr}

abbrev Answered : Type 0
Answered = Exchange × Outcome Text

answer-inj :
    (x y : Exchange) (a b : Text)
    → Path (Run Answered) (returned (x, ok a)) (returned (y, ok b))
    → (x ≡ y) × (a ≡ b)
answer-inj x y a b h = (cc, cc)

-- The table holds as many entries as it may, or more.
abbrev pub IsFull : StickySessionState → Type 0
IsFull st = st.config.max_entries ≤ total (guards st.shards)

-- The entry that is stored names the backend, until this time at least, or nothing is stored since
-- the table was full.
abbrev pub IsHeld : StickySessionState → Option AffinityEntry → Text → ℕ → Type 0
IsHeld st o backend time =
    (IsFull st × (o ≡ none))
    ⊎ ((e : AffinityEntry) × (o ≡ some e) × (e.backend ≡ backend) × (time ≤ e.expires_at))

module _ (hash : AffinityMapKey → ℕ) (select : Select) (now later : ℕ) (key : AffinityMapKey)
    (resolved : ResolvedPool) (sticky : StickySessionState) (x : Exchange)
    (term : 0 < sticky.config.ttl) (since : now ≤ later) (end : Exchange) (backend : Text)
    (after : StickySessionState) (left : end.router.sticky ≡ some after) where
  abbrev Left : Type 0
  Left =
      IsSound after
      × (after.config ≡ sticky.config)
      × IsHeld sticky (stored hash after key) backend (now + sticky.config.ttl)

  -- The table that an exchange is left with.
  left-is : (table : StickySessionState) (y : Exchange) → with_sticky table y ≡ end → table ≡ after
  left-is table y h = some-inj (ap (λ (x : Exchange). x.router.sticky) h ∙ left)

  select_and_bind-Left :
      (middle : StickySessionState)
      → IsKept sticky middle
      → total (guards middle.shards) ≤ total (guards sticky.shards)
      → select_and_bind hash select later key resolved middle x ≡ returned (end, ok backend)
      → Left
  unfolding select_and_bind unhealthy
  select_and_bind-Left middle kept few h =
      let ttl_same : middle.config.ttl ≡ sticky.config.ttl =
        ap (λ (c : StickySessionConfig). c.ttl) kept.config in
      elim (Option-cases (select resolved.lb key.affinity_key 8)) [
        | inl e ↦ absurd (ground (arith, e))
        | inr (selected, e) ↦
            let (bound, done, b) =
              bind-IsBound hash later key selected middle kept.sound
                (omega (arith, term, ttl_same)) in
            let runs : select_and_bind hash select later key resolved middle x
                ≡ returned (with_sticky bound x, ok selected) =
              rw (e, select_and_bind, done) refl in
            let (same, is) = answer-inj (with_sticky bound x) end selected backend (sym runs ∙ h) in
            let at = left-is bound x same in
            subst
              (λ (s : StickySessionState).
                IsSound s
                × (s.config ≡ sticky.config)
                × IsHeld sticky (stored hash s key) backend (now + sticky.config.ttl))
              at
              (
                b.kept.sound,
                b.kept.config ∙ kept.config,
                elim b.here [
                  | inl there ↦
                      inr (
                        bound_entry later selected middle,
                        there,
                        is,
                        omega (arith, since, ttl_same),
                      )
                  | inr (full, lost) ↦ inl (
                    omega (
                      arith,
                      full,
                      few,
                      ap (λ (c : StickySessionConfig). c.max_entries) kept.config,
                    ),
                    lost,
                  )
                ],
              )
      ]

  -- A request that was answered has left its backend in the table, for a full term at least, unless
  -- the table was full.
  sticky_addr-Left :
      IsSound sticky
      → sticky_addr hash select now later key resolved sticky x ≡ returned (end, ok backend)
      → Left
  unfolding sticky_addr
  sticky_addr-Left v h =
      let (middle, answer, looked, kept, few, found) =
        lookup_sticky-stored hash now key resolved.backends sticky v in
      elim (Option-cases answer) [
        | inl e ↦
            let runs : sticky_addr hash select now later key resolved sticky x
                ≡ select_and_bind hash select later key resolved middle x =
              rw (looked, sticky_addr, e) refl in
            select_and_bind-Left middle kept few (sym runs ∙ h)
        | inr (mapped, e) ↦
            let runs : sticky_addr hash select now later key resolved sticky x
                ≡ returned (with_sticky middle x, ok mapped) =
              rw (looked, sticky_addr, e) refl in
            let (same, is) = answer-inj (with_sticky middle x) end mapped backend (sym runs ∙ h) in
            subst
              (λ (s : StickySessionState).
                IsSound s
                × (s.config ≡ sticky.config)
                × IsHeld sticky (stored hash s key) backend (now + sticky.config.ttl))
              (left-is middle x same)
              (
                kept.sound,
                kept.config,
                elim found [
                  | inr (_, none_found, _) ↦ absurd (cc (none_found, e))
                  | inl (used, there) ↦ inr (
                    record { backend = mapped; expires_at = now + sticky.config.ttl },
                    there
                        ∙ renewed-usable now sticky.config.ttl resolved.backends
                            (stored hash sticky key) mapped (sym used ∙ e),
                    is,
                    omega arith,
                  )
                ],
              )
      ]

usable-held :
    (now time : ℕ) (allowed : List Text) (backend : Text) (e : AffinityEntry)
    → e.backend ≡ backend
    → time ≤ e.expires_at
    → now < time
    → contains allowed backend ≡ true
    → usable now allowed (some e) ≡ some backend
usable-held now time allowed backend e is le before ok_backend =
    let there : contains allowed e.backend ≡ true = ap (contains allowed) is ∙ ok_backend in
    ground (arith, there, is)

-- Two requests with one affinity key, the second within the term of the first: if the first was
-- sent to a backend, then the table was full before the first and has no entry for the key, or the second is sent to the same
-- backend, whatever the balancer would select, provided that the backend is still one of the pool
-- and that no more entries are live than the table may hold.
pub sticky_addr-repeats :
    (hash : AffinityMapKey → ℕ) (select other_select : Select) (now later again again_later : ℕ)
    (key : AffinityMapKey) (resolved other : ResolvedPool) (sticky after : StickySessionState)
    (x y end : Exchange) (backend : Text)
    → IsSound sticky
    → 0 < sticky.config.ttl
    → now ≤ later
    → sticky_addr hash select now later key resolved sticky x ≡ returned (end, ok backend)
    → end.router.sticky ≡ some after
    → again < now + sticky.config.ttl
    → contains other.backends backend ≡ true
    → total (retain_all again (guards after.shards)) ≤ sticky.config.max_entries
    → (IsFull sticky × (stored hash after key ≡ none))
      ⊎ ((last : Exchange) × (sticky_addr hash other_select again again_later key other after y
            ≡ returned (last, ok backend)))
unfolding sticky_addr
sticky_addr-repeats hash select other_select now later again again_later key resolved other sticky
      after x y end backend v term since first left soon there room =
    let (sound, config, held) =
      sticky_addr-Left hash select now later key resolved sticky x term since end backend after left
        v first in
    let (middle, answer, looked, _, _, found) =
      lookup_sticky-stored hash again key other.backends after sound in
    let same_max : after.config.max_entries ≡ sticky.config.max_entries =
      ap (λ (c : StickySessionConfig). c.max_entries) config in
    elim held [
      | inl lost ↦ inl lost
      | inr (e, at, is, le) ↦
          let right : answer ≡ some backend = elim found [
            | inr (over, _, _) ↦ absurd (omega (arith, over, same_max, room))
            | inl (used, _) ↦
                used
                ∙ ap (usable again other.backends) at
                ∙ usable-held again (now + sticky.config.ttl) other.backends backend e is le soon
                    there
          ] in
          inr (with_sticky middle y, rw (looked, sticky_addr, right) refl)
    ]
