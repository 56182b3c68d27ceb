-- ===== src/Proxy/Inner/Bounds.antt =====
-- An upstream call leaves at most six changes to the services: there are three transports, each with
-- a pool or without.
use neemata_proxy.Common.{
  ℕ, suc, ◌+◌, ◌≤◌, ◌≡◌, refl, ap, subst, inl, inr, Bool-cases, Option, none, some, List, ◌∷◌, [],
  arith, length, if◌then◌else◌, Option-cases,
}
use neemata_proxy.Text.{Text}
use neemata_proxy.Map.{
  lookup, remove, Distinct, remove-Distinct, length-remove, lookup-remove, remove_absent,
}
use neemata_proxy.Lb.{TransportKind, http1, http2, ws, transport_eq, transport_beq}
use neemata_proxy.Options.{ApplicationOptionsParsed}
use neemata_proxy.Router.Config.{PoolConfig}
use neemata_proxy.Proxy.Config.{pool_key_eq, Pools}
use neemata_proxy.Proxy.Services.{Tending, lb_service_name, upserts, push_removed, removals}
use neemata_proxy.Proxy.Upstreams.{
  PortUpstream, done, Resolve, Builds, rebuild_app_pools, removed_transports, group_upstreams,
  build_pools,
}
use neemata_proxy.Proxy.Upstreams.Composed.{and_then-eq-done, done-inj}
use neemata_proxy.Proxy.Upstreams.Pools.{rebuild_app_pools-Distinct}
use neemata_proxy.Proxy.Inner.{ProxyInner, upstream_eq, commit, insert_pools, is_running}
use neemata_proxy.Proxy.Inner.Rebuilds.{IsRebuild}

module _ {V : Type 0} where
  length-remove-le :
      (t : TransportKind) (table : List (TransportKind × V))
      → Distinct table
      → length table ≤ length (remove t table) + 1
  length-remove-le t table d = elim (Option-cases (lookup t table)) [
    | inl lost ↦ omega (arith, ap length (remove_absent t table lost))
    | inr (value, there) ↦ omega (arith, length-remove t table value d there)
  ]

  empty_of_lookup :
      (table : List (TransportKind × V))
      → ((t : TransportKind) → lookup t table ≡ none)
      → length table ≡ 0
  unfolding lookup transport_beq
  empty_of_lookup [] h = refl
  empty_of_lookup ((http1, v) ∷ table) h = let bad = h http1 in absurd (cc)
  empty_of_lookup ((http2, v) ∷ table) h = let bad = h http2 in absurd (cc)
  empty_of_lookup ((ws, v) ∷ table) h = let bad = h ws in absurd (cc)

  without_all :
      (table : List (TransportKind × V)) (t : TransportKind)
      → lookup t (remove ws (remove http2 (remove http1 table))) ≡ none
  unfolding transport_beq
  without_all table t =
      rw
        (
          lookup-remove ws t (remove http2 (remove http1 table)),
          lookup-remove http2 t (remove http1 table),
          lookup-remove http1 t table,
        )
        (by_kind t)
    where
      by_kind :
          (t : TransportKind)
          → (if transport_beq ws t
              then none
              else if transport_beq http2 t
              then none
              else if transport_beq http1 t
              then none
              else lookup t table)
            ≡ none
      by_kind http1 = refl
      by_kind http2 = refl
      by_kind ws = refl

  -- A map by transport has at most three entries.
  length-transports : (table : List (TransportKind × V)) → Distinct table → length table ≤ 3
  length-transports table d =
      let d1 = remove-Distinct http1 table d in
      let d2 = remove-Distinct http2 (remove http1 table) d1 in
      omega (
        arith,
        length-remove-le http1 table d,
        length-remove-le http2 (remove http1 table) d1,
        length-remove-le ws (remove http2 (remove http1 table)) d2,
        empty_of_lookup (remove ws (remove http2 (remove http1 table))) (without_all table),
      )

length-removed_transports :
    (pools : List (TransportKind × PoolConfig)) (ts : List TransportKind)
    → length (removed_transports pools ts) ≤ length ts
unfolding removed_transports
length-removed_transports pools [] = omega arith
length-removed_transports pools (t ∷ ts) = ground (arith, length-removed_transports pools ts)

length-upserts :
    (app : Text) (new : List (TransportKind × PoolConfig)) → length (upserts app new) ≡ length new
unfolding upserts
length-upserts app [] = refl
length-upserts app ((t, pool) ∷ new) = ap suc (length-upserts app new)

length-push_removed :
    (o : Option PoolConfig) (name : Text) (names : List Text)
    → length (push_removed o name names) ≤ suc (length names)
unfolding push_removed
length-push_removed none name names = omega arith
length-push_removed (some pool) name names = omega arith

length-removals :
    (app : Text) (ts : List TransportKind) (pools : Pools)
    → length (removals app ts pools) ≤ length ts
unfolding removals
length-removals app [] pools = omega arith
length-removals app (t ∷ ts) pools = omega (
  arith,
  length-removals app ts (remove (app, t) pools),
  length-push_removed (lookup (app, t) pools) (lb_service_name app t)
      (removals app ts (remove (app, t) pools)),
)

abbrev pub changes : Tending → ℕ
changes left = length left.to_upsert + length left.to_remove

commit-changes :
    (name : Text) (next : List PortUpstream) (new : List (TransportKind × PoolConfig))
    (removed : List TransportKind) (inner : ProxyInner)
    → length new ≤ 3
    → length removed ≤ 3
    → changes (commit name next new removed inner).1 ≤ 6
unfolding commit
commit-changes name next new removed inner h k = elim (Bool-cases (is_running inner.state)) [
  | inl runs ↦ ground (
    arith,
    runs,
    length-upserts name new,
    length-removals name removed (insert_pools name new inner.pools),
  )
  | inr still ↦ ground (arith, still)
]

rebuilt-removed :
    (resolve : Resolve) (builds : Builds) (app : ApplicationOptionsParsed)
    (upstreams : List PortUpstream) (interval : ℕ)
    (rebuilt : List (TransportKind × PoolConfig) × List TransportKind)
    → rebuild_app_pools resolve builds app upstreams interval ≡ done rebuilt
    → length rebuilt.1 ≤ 3
unfolding rebuild_app_pools
rebuilt-removed resolve builds app upstreams interval rebuilt h =
    let (ps, built, last) =
      and_then-eq-done (build_pools resolve builds app interval (group_upstreams upstreams [])) _
        h in
    subst (λ (r : List (TransportKind × PoolConfig) × List TransportKind). length r.1 ≤ 3)
      (done-inj last) (length-removed_transports ps (http1 ∷ http2 ∷ ws ∷ []))

module _ (resolve : Resolve) (builds : Builds) (name : Text) (upstream : PortUpstream)
    (inner : ProxyInner) (end : ProxyInner × Tending) where
  pub IsRebuild-changes : IsRebuild resolve builds name upstream inner end → changes end.1 ≤ 6
  IsRebuild-changes (app, next, new, removed, found, built, is) =
      let interval = inner.options.health_check_interval_ms in
      subst (λ (x : ProxyInner × Tending). changes x.1 ≤ 6) is
        (commit-changes name next new removed inner
          (length-transports new
            (rebuild_app_pools-Distinct resolve builds app next interval new removed built))
          (rebuilt-removed resolve builds app next interval (new, removed) built))
