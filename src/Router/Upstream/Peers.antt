-- ===== src/Router/Upstream/Peers.antt =====
-- Which backend a sticky request is sent to.
use neemata_proxy.Common.{
  Option, List, ℕ, ◌+◌, ◌≤◌, ◌<◌, ◌≡◌, refl, ap, sym, ◌∙◌, ◌⊎◌, inl, inr, none, some, list_eq,
  nat_eq, arith, Option-cases,
}
use neemata_proxy.Text.{Text, returned}
use neemata_proxy.Router.Config.{ResolvedPool}
use neemata_proxy.Router.Affinity.{StickySessionConfig}
use neemata_proxy.Router.Sticky.Evict.{AffinityMapKey, AffinityEntry}
use neemata_proxy.Router.Sticky.Cleanup.{IsSound, stored}
use neemata_proxy.Router.Sticky.Binding.{IsKept, usable, renewed}
use neemata_proxy.Router.Sticky.Sessions.{IsOver, IsKept-trans, lookup_sticky-stored}
use neemata_proxy.Router.Sticky.Bindings.{bound_entry, bind-IsBound}
use neemata_proxy.Router.Sticky.Clean.{total}
use neemata_proxy.Router.Sticky.{StickySessionState, guards}
use neemata_proxy.Router.Filters.{unhealthy_upstream, http_status, Outcome, ok, err, Exchange}
use neemata_proxy.Router.Upstream.{Select, with_sticky, unhealthy, select_and_bind, sticky_addr}

abbrev entry_until : ℕ → Text → AffinityEntry
entry_until t backend = record { backend = backend; expires_at = t }

pub renewed-usable :
    (now ttl : ℕ) (allowed : List Text) (o : Option AffinityEntry) (backend : Text)
    → usable now allowed o ≡ some backend
    → renewed now ttl allowed o ≡ some (record { backend = backend; expires_at = now + ttl })
renewed-usable now ttl allowed none backend h = absurd (cc)
renewed-usable now ttl allowed (some e) backend h = ground arith

-- How a sticky request gets its backend: the stored one if it can be used, whose term starts
-- anew, else the one that the
-- balancer selects for the affinity key, which is written into the table with the full term, unless
-- the table was full already.
pub data IsChosen (hash : AffinityMapKey → ℕ) (select : Select) (now later : ℕ)
    (key : AffinityMapKey) (resolved : ResolvedPool) (sticky after : StickySessionState)
    (end : Exchange) : Outcome Text → Type 0 where
  stuck :
      (backend : Text)
      → usable now resolved.backends (stored hash sticky key) ≡ some backend
      → stored hash after key ≡ some (bound_entry now backend sticky)
      → IsChosen hash select now later key resolved sticky after end (ok backend)
  fresh :
      (backend : Text)
      → (usable now resolved.backends (stored hash sticky key) ≡ none) ⊎ IsOver now sticky
      → select resolved.lb key.affinity_key 8 ≡ some backend
      → (stored hash after key ≡ some (bound_entry later backend sticky))
        ⊎ ((sticky.config.max_entries ≤ total (guards sticky.shards))
            × (stored hash after key ≡ none))
      → IsChosen hash select now later key resolved sticky after end (ok backend)
  unavailable :
      (usable now resolved.backends (stored hash sticky key) ≡ none) ⊎ IsOver now sticky
      → select resolved.lb key.affinity_key 8 ≡ none
      → end.ctx.failure_hint ≡ some unhealthy_upstream
      → IsChosen hash select now later key resolved sticky after end (err (http_status 503))

-- The answer of a step that chooses a backend for the sticky table at its start.
abbrev pub IsAnswered :
    (AffinityMapKey → ℕ)
    → Select
    → ℕ
    → ℕ
    → AffinityMapKey
    → ResolvedPool
    → StickySessionState
    → Exchange
    → Outcome Text
    → Type 0
IsAnswered hash select now later key resolved sticky end addr =
    (after : StickySessionState) × (end.router.sticky ≡ some after)
    × IsKept sticky after
    × IsChosen hash select now later key resolved sticky after end addr

module _ (hash : AffinityMapKey → ℕ) (select : Select) (now later : ℕ) (key : AffinityMapKey)
    (resolved : ResolvedPool) (sticky : StickySessionState) (x : Exchange)
    (term : 0 < sticky.config.ttl) where
  -- After a lookup that found nothing.
  select_and_bind-IsAnswered :
      (middle : StickySessionState)
      → IsKept sticky middle
      → total (guards middle.shards) ≤ total (guards sticky.shards)
      → (usable now resolved.backends (stored hash sticky key) ≡ none) ⊎ IsOver now sticky
      → (end : Exchange) × (addr : Outcome Text) × (select_and_bind hash select later key resolved
            middle x
          ≡ returned (end, addr))
        × IsAnswered hash select now later key resolved sticky end addr
  unfolding select_and_bind unhealthy
  select_and_bind-IsAnswered middle kept few why =
      let ttl_same : middle.config.ttl ≡ sticky.config.ttl =
        ap (λ (c : StickySessionConfig). c.ttl) kept.config in
      elim (Option-cases (select resolved.lb key.affinity_key 8)) [
        | inl e ↦
            let end = unhealthy {A = Text} (with_sticky middle x) in
            (
              end.0,
              end.1,
              rw (e, select_and_bind) refl,
              (middle, refl, kept, unavailable why e refl),
            )
        | inr (backend, e) ↦
            let (bound, done, b) =
              bind-IsBound hash later key backend middle kept.sound
                (omega (arith, term, ttl_same)) in
            let same : bound_entry later backend middle ≡ bound_entry later backend sticky =
              ap (λ (t : ℕ). entry_until (later + t) backend) ttl_same in
            (
              with_sticky bound x,
              ok backend,
              rw (e, select_and_bind, done) refl,
              (
                bound,
                refl,
                IsKept-trans sticky middle bound kept b.kept,
                fresh backend why e (elim b.here [
                  | inl there ↦ inl (there ∙ ap some same)
                  | inr (full, lost) ↦ inr (
                    omega (
                      arith,
                      full,
                      few,
                      ap (λ (c : StickySessionConfig). c.max_entries) kept.config,
                    ),
                    lost,
                  )
                ]),
              ),
            )
      ]

  -- With a term greater than 0, the choice of a backend for a sticky request on a sound table does
  -- not panic, keeps the table sound, and answers as `IsChosen` describes: with the stored backend,
  -- a newly selected one, or the error 503 if the balancer has none. A newly selected backend is
  -- stored under the key, for the full term from the binding on, unless the table held as many
  -- entries as it may hold before the request.
  pub sticky_addr-IsChosen :
      IsSound sticky
      → (end : Exchange) × (addr : Outcome Text) × (sticky_addr hash select now later key resolved
            sticky x
          ≡ returned (end, addr))
        × IsAnswered hash select now later key resolved sticky end addr
  unfolding sticky_addr
  sticky_addr-IsChosen v =
      let (middle, answer, looked, kept, few, found) =
        lookup_sticky-stored hash now key resolved.backends sticky v in
      let why : answer ≡ none
          → (usable now resolved.backends (stored hash sticky key) ≡ none) ⊎ IsOver now sticky =
        λ lost. elim found [
          | inl (same, _) ↦ inl (sym same ∙ lost)
          | inr (over, _, _) ↦ inr over
        ] in
      elim (Option-cases answer) [
        | inr (backend, e) ↦ (
          with_sticky middle x,
          ok backend,
          rw (looked, sticky_addr, e) refl,
          (
            middle,
            refl,
            kept,
            elim found [
              | inl (same, there) ↦
                  let used = sym same ∙ e in
                  stuck backend used (
                    there
                    ∙ renewed-usable now sticky.config.ttl resolved.backends
                        (stored hash sticky key) backend used)
              | inr (_, lost, _) ↦ absurd (cc (lost, e))
            ],
          ),
        )
        | inl e ↦
            let (end, addr, done, is) = select_and_bind-IsAnswered middle kept few (why e) in
            (end, addr, rw (looked, sticky_addr, e) done, is)
      ]
