-- ===== src/Proxy/Upstreams/Pools.antt =====
-- The pools that `rebuild_app_pools` builds, for each transport.
use neemata_proxy.Common.{
  ℕ, ◌≡◌, ◌≢◌, ◌&&◌, refl, ap, sym, subst, ◌∙◌, ◌⊎◌, inl, inr, true, false, none, some, List, [],
  ◌∷◌, if◌then◌else◌, arith, ◌==◌, Option-cases, Bool-cases,
}
use neemata_proxy.Map.{lookup, Distinct, lookup-insert, insert-Distinct, contains}
use neemata_proxy.Lb.{
  TransportKind, http1, http2, ws, transport_eq, transport_beq, transport_beq_iff,
}
use neemata_proxy.Options.{ApplicationOptionsParsed}
use neemata_proxy.Router.Config.{PoolConfig}
use neemata_proxy.Proxy.Upstreams.{
  PortUpstream, Groups, Resolve, Builds, done, build_pool, build_pools, group_upstreams,
  removed_transports, rebuild_app_pools, is_missing,
}
use neemata_proxy.Proxy.Upstreams.Composed.{
  and_then-eq-done, done-inj, IsPoolOf, build_pool-IsPoolOf,
}
use neemata_proxy.Proxy.Upstreams.Grouping.{
  of_transport, grown, lookup-group_upstreams, group_upstreams-Distinct,
}

abbrev IsPoolOfAll :
    Resolve → ApplicationOptionsParsed → ℕ → List PortUpstream → PoolConfig → Type 0
IsPoolOfAll resolve app interval [] pool = Unit {0}
IsPoolOfAll resolve app interval (u ∷ us) pool = IsPoolOf resolve app interval u us pool

module _ (resolve : Resolve) (builds : Builds) (app : ApplicationOptionsParsed) (interval : ℕ) where
  build_pools-IsPoolOf :
      (groups : Groups) (pools : List (TransportKind × PoolConfig))
      → Distinct groups
      → build_pools resolve builds app interval groups ≡ done pools
      → (t : TransportKind)
      → ((lookup t groups ≡ none) → lookup t pools ≡ none)
        × ((us : List PortUpstream)
            → lookup t groups ≡ some us
            → us ≢ []
            → (pool : PoolConfig) × (lookup t pools ≡ some pool)
              × IsPoolOfAll resolve app interval us pool)
  unfolding build_pools lookup
  build_pools-IsPoolOf [] pools d h t =
      (λ _. subst (λ ps. lookup t ps ≡ none) (done-inj h) refl, λ us e ne. absurd (cc))
  build_pools-IsPoolOf ((s, []) ∷ groups) pools d h t =
      let (to, from) = build_pools-IsPoolOf groups pools d.1 h t in
      elim (Bool-cases (s == t)) [
        | inl same ↦ (λ e. absurd (ground (arith, same)), λ us e ne. absurd (ground (arith, same)))
        | inr apart ↦
            (λ e. to (ground (arith, apart)), λ us e ne. from us (ground (arith, apart)) ne)
      ]
  build_pools-IsPoolOf ((s, v ∷ vs) ∷ groups) pools d h t =
      let (p, built, h1) = and_then-eq-done (build_pool resolve builds app interval v vs) _ h in
      let (ps, more, last) =
        and_then-eq-done (build_pools resolve builds app interval groups) _ h1 in
      let (to, from) = build_pools-IsPoolOf groups ps d.1 more t in
      let at : lookup t pools ≡ (if s == t then some p else lookup t ps) =
        ap (lookup t) (sym (done-inj last)) ∙ lookup-insert s t p ps in
      elim (Bool-cases (s == t)) [
        | inl same ↦ (
          λ e. absurd (ground (arith, same)),
          λ us e ne.
              let eq : (v ∷ vs) ≡ us = ground (arith, same) in
              (
                p,
                at ∙ rw same refl,
                subst (λ l. IsPoolOfAll resolve app interval l p) eq
                    (build_pool-IsPoolOf resolve builds app interval v vs p built),
              ),
        )
        | inr apart ↦ (
          λ e. at ∙ rw apart (to (ground (arith, apart))),
          λ us e ne.
              let (q, there, good) = from us (ground (arith, apart)) ne in
              (q, at ∙ rw apart there, good),
        )
      ]

contains-removed_transports :
    (pools : List (TransportKind × PoolConfig)) (ts : List TransportKind) (t : TransportKind)
    → contains (removed_transports pools ts) t ≡ (contains ts t && is_missing (lookup t pools))
unfolding removed_transports contains
contains-removed_transports pools [] t = refl
contains-removed_transports pools (s ∷ ts) t = elim (Bool-cases (s == t)) [
  | inl same ↦
      let at : s ≡ t = (transport_beq_iff s t).0 same in
      elim (Option-cases (lookup s pools)) [
        | inl lost ↦ ground (arith, same, lost, ap (λ k. lookup k pools) (sym at) ∙ lost)
        | inr (p, here) ↦ ground (
          arith,
          same,
          here,
          ap (λ k. lookup k pools) (sym at) ∙ here,
          contains-removed_transports pools ts t,
        )
      ]
  | inr apart ↦ elim (Option-cases (lookup s pools)) [
    | inl lost ↦ ground (arith, apart, lost, contains-removed_transports pools ts t)
    | inr (p, here) ↦ ground (arith, apart, here, contains-removed_transports pools ts t)
  ]
]

all_transports : (t : TransportKind) → contains (http1 ∷ http2 ∷ ws ∷ []) t ≡ true
unfolding contains transport_beq
all_transports http1 = refl
all_transports http2 = refl
all_transports ws = refl

list-cases :
    (l : List PortUpstream)
    → (l ≡ []) ⊎ ((u : PortUpstream) × (us : List PortUpstream) × (l ≡ u ∷ us))
list-cases [] = inl refl
list-cases (u ∷ us) = inr (u, us, refl)

-- A transport without upstreams has no pool and is removed; one with upstreams has the pool of all of
-- them and is not removed.
abbrev pub IsRebuilt :
    Resolve
    → ApplicationOptionsParsed
    → ℕ
    → List PortUpstream
    → List (TransportKind × PoolConfig)
    → List TransportKind
    → TransportKind
    → Type 0
IsRebuilt resolve app interval upstreams pools removed t =
    ((of_transport t upstreams ≡ []) × (lookup t pools ≡ none) × (contains removed t ≡ true))
    ⊎ ((u : PortUpstream) × (us : List PortUpstream) × (pool : PoolConfig) × (of_transport t
            upstreams
          ≡ u ∷ us)
        × (lookup t pools ≡ some pool)
        × IsPoolOf resolve app interval u us pool
        × (contains removed t ≡ false))

-- When `rebuild_app_pools` succeeds, each transport of the application is as `IsRebuilt` says: the
-- upstreams that share a transport, and no others, make its pool.
pub rebuild_app_pools-IsRebuilt :
    (resolve : Resolve) (builds : Builds) (app : ApplicationOptionsParsed)
    (upstreams : List PortUpstream) (interval : ℕ) (pools : List (TransportKind × PoolConfig))
    (removed : List TransportKind) (t : TransportKind)
    → rebuild_app_pools resolve builds app upstreams interval ≡ done (pools, removed)
    → IsRebuilt resolve app interval upstreams pools removed t
unfolding rebuild_app_pools lookup
rebuild_app_pools-IsRebuilt resolve builds app upstreams interval pools removed t h =
    let groups = group_upstreams upstreams [] in
    let (ps, built, last) = and_then-eq-done (build_pools resolve builds app interval groups) _ h in
    let both = done-inj last in
    let (to, from) =
      build_pools-IsPoolOf resolve builds app interval groups ps
        (group_upstreams-Distinct upstreams [] tt) built t in
    let group : lookup t groups ≡ grown none (of_transport t upstreams) =
      lookup-group_upstreams t upstreams [] in
    let listed : contains (removed_transports ps (http1 ∷ http2 ∷ ws ∷ [])) t
        ≡ is_missing (lookup t ps) =
      contains-removed_transports ps (http1 ∷ http2 ∷ ws ∷ []) t
      ∙ ap (λ b. b && is_missing (lookup t ps)) (all_transports t) in
    subst (λ r. IsRebuilt resolve app interval upstreams r.0 r.1 t) both
      (elim (list-cases (of_transport t upstreams)) [
        | inl e ↦
            let lost = to (group ∙ ap (grown none) e) in inl (e, lost, listed ∙ ap is_missing lost)
        | inr (u, us, e) ↦
            let (pool, here, good) =
              from (u ∷ us) (group ∙ ap (grown none) e) (λ bad. absurd (cc)) in
            inr (u, us, pool, e, here, good, listed ∙ ap is_missing here)
      ])

build_pools-Distinct :
    (resolve : Resolve) (builds : Builds) (app : ApplicationOptionsParsed) (interval : ℕ)
    (groups : Groups) (pools : List (TransportKind × PoolConfig))
    → build_pools resolve builds app interval groups ≡ done pools
    → Distinct pools
unfolding build_pools
build_pools-Distinct resolve builds app interval [] pools h = subst Distinct (done-inj h) tt
build_pools-Distinct resolve builds app interval ((s, []) ∷ groups) pools h =
    build_pools-Distinct resolve builds app interval groups pools h
build_pools-Distinct resolve builds app interval ((s, v ∷ vs) ∷ groups) pools h =
    let (p, built, h1) = and_then-eq-done (build_pool resolve builds app interval v vs) _ h in
    let (ps, more, last) = and_then-eq-done (build_pools resolve builds app interval groups) _ h1 in
    subst Distinct (done-inj last)
      (insert-Distinct s p ps (build_pools-Distinct resolve builds app interval groups ps more))

-- The pools are a map: no transport has two.
pub rebuild_app_pools-Distinct :
    (resolve : Resolve) (builds : Builds) (app : ApplicationOptionsParsed)
    (upstreams : List PortUpstream) (interval : ℕ) (pools : List (TransportKind × PoolConfig))
    (removed : List TransportKind)
    → rebuild_app_pools resolve builds app upstreams interval ≡ done (pools, removed)
    → Distinct pools
unfolding rebuild_app_pools
rebuild_app_pools-Distinct resolve builds app upstreams interval pools removed h =
    let (ps, built, last) =
      and_then-eq-done (build_pools resolve builds app interval (group_upstreams upstreams [])) _
        h in
    subst (λ r. Distinct r.0) (done-inj last)
      (build_pools-Distinct resolve builds app interval (group_upstreams upstreams []) ps built)
