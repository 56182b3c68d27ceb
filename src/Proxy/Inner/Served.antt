-- ===== src/Proxy/Inner/Served.antt =====
-- When pools and router are those of the registered upstreams, and how a call changes the pools of
-- one application only.
use neemata_proxy.Common.{
  ℕ, ◌≡◌, ◌≢◌, refl, ap, sym, ◌∙◌, ◌⊎◌, inl, inr, false, none, some, List, [], ◌∷◌, if◌then◌else◌,
  arith, ◌==◌, list_eq, nat_eq, Bool-cases,
}
use neemata_proxy.Text.{Text, text_iff}
use neemata_proxy.Map.{lookup, insert, remove, contains, lookup-insert, lookup-remove, Distinct}
use neemata_proxy.Lb.{TransportKind, transport_eq, transport_beq_iff}
use neemata_proxy.Options.{ApplicationOptionsParsed}
use neemata_proxy.Router.Config.{PoolConfig}
use neemata_proxy.Router.Filters.{update}
use neemata_proxy.Proxy.Config.{pool_key_eq, pool_key_beq, Pools, build_router_config}
use neemata_proxy.Proxy.Upstreams.{PortUpstream, Resolve}
use neemata_proxy.Proxy.Upstreams.Grouping.{of_transport}
use neemata_proxy.Proxy.Upstreams.Composed.{IsPoolOf}
use neemata_proxy.Proxy.Inner.{
  ProxyInner, proxy_router, upstream_eq, find_application, insert_pools, remove_pools,
}

-- What the resolver answered at the last call that changed an application's upstreams, by the name
-- of the application.
abbrev pub Answers : Type 0
Answers = List (Text × Resolve)

-- A transport of an application has the pool of all its upstreams, with the addresses that the
-- resolver answered for them at the last call, or no upstreams and no pool.
abbrev pub IsServed :
    Answers
    → ApplicationOptionsParsed
    → ℕ
    → Text
    → List PortUpstream
    → Pools
    → TransportKind
    → Type 0
IsServed answers app interval name upstreams pools t =
    ((of_transport t upstreams ≡ []) × (lookup (name, t) pools ≡ none))
    ⊎ ((resolve : Resolve) × (u : PortUpstream) × (us : List PortUpstream) × (pool : PoolConfig)
        × (lookup name answers ≡ some resolve)
        × (of_transport t upstreams ≡ u ∷ us)
        × (lookup (name, t) pools ≡ some pool)
        × IsPoolOf resolve app interval u us pool)

pub record IsConsistent (answers : Answers) (inner : ProxyInner) : Type 0 where
  pub routed :
      inner.router
      ≡ update (build_router_config inner.options inner.pools) (proxy_router inner.options)
  pub served :
      (name : Text) (app : ApplicationOptionsParsed) (upstreams : List PortUpstream)
      (t : TransportKind)
      → find_application name inner.options.applications ≡ some app
      → lookup name inner.upstreams_by_app ≡ some upstreams
      → IsServed answers app inner.options.health_check_interval_ms name upstreams inner.pools t

-- A key of another application is none of these.
pub other_key :
    (name other : Text) (t s : TransportKind)
    → name ≢ other
    → pool_key_beq (name, s) (other, t) ≡ false
unfolding pool_key_beq
other_key name other t s ne = ground (arith, ne, text_iff name other)

pub same_key : (name : Text) (t s : TransportKind) → pool_key_beq (name, s) (name, t) ≡ (s == t)
unfolding pool_key_beq
same_key name t s = ground (arith, text_iff name name)

pub lookup-insert_pools-other :
    (name other : Text) (t : TransportKind) (new : List (TransportKind × PoolConfig))
    (pools : Pools)
    → name ≢ other
    → lookup (other, t) (insert_pools name new pools) ≡ lookup (other, t) pools
unfolding insert_pools
lookup-insert_pools-other name other t [] pools ne = refl
lookup-insert_pools-other name other t ((s, pool) ∷ new) pools ne =
    lookup-insert_pools-other name other t new (insert (name, s) pool pools) ne
    ∙ lookup-insert (name, s) (other, t) pool pools
    ∙ rw (other_key name other t s ne) refl

pub lookup-remove_pools-other :
    (name other : Text) (t : TransportKind) (ts : List TransportKind) (pools : Pools)
    → name ≢ other
    → lookup (other, t) (remove_pools name ts pools) ≡ lookup (other, t) pools
unfolding remove_pools
lookup-remove_pools-other name other t [] pools ne = refl
lookup-remove_pools-other name other t (s ∷ ts) pools ne =
    lookup-remove_pools-other name other t ts (remove (name, s) pools) ne
    ∙ lookup-remove (name, s) (other, t) pools
    ∙ rw (other_key name other t s ne) refl

pub lookup-remove_pools :
    (name : Text) (t : TransportKind) (ts : List TransportKind) (pools : Pools)
    → lookup (name, t) (remove_pools name ts pools)
      ≡ (if contains ts t then none else lookup (name, t) pools)
unfolding remove_pools contains
lookup-remove_pools name t [] pools = refl
lookup-remove_pools name t (s ∷ ts) pools = ground (
  arith,
  lookup-remove_pools name t ts (remove (name, s) pools),
  lookup-remove (name, s) (name, t) pools,
  same_key name t s,
)

pub lookup-insert_pools-absent :
    (name : Text) (t : TransportKind) (new : List (TransportKind × PoolConfig)) (pools : Pools)
    → lookup t new ≡ none
    → lookup (name, t) (insert_pools name new pools) ≡ lookup (name, t) pools
unfolding insert_pools lookup
lookup-insert_pools-absent name t [] pools h = refl
lookup-insert_pools-absent name t ((s, p) ∷ new) pools h = elim (Bool-cases (s == t)) [
  | inl same ↦ absurd (ground (arith, same))
  | inr apart ↦
      lookup-insert_pools-absent name t new (insert (name, s) p pools) (ground (arith, apart))
      ∙ lookup-insert (name, s) (name, t) p pools
      ∙ rw (same_key name t s, apart) refl
]

-- Maps have no key twice, so the last insertion under a key is the only one.
pub lookup-insert_pools :
    (name : Text) (t : TransportKind) (new : List (TransportKind × PoolConfig)) (pools : Pools)
    → Distinct new
    → (pool : PoolConfig) → lookup t new ≡ some pool
    → lookup (name, t) (insert_pools name new pools) ≡ some pool
unfolding insert_pools lookup
lookup-insert_pools name t [] pools d pool h = absurd (cc)
lookup-insert_pools name t ((s, p) ∷ new) pools d pool h = elim (Bool-cases (s == t)) [
  | inr apart ↦
      lookup-insert_pools name t new (insert (name, s) p pools) d.1 pool (ground (arith, apart))
  | inl same ↦
      let at : s ≡ t = (transport_beq_iff s t).0 same in
      let is : p ≡ pool = ground (arith, same) in
      lookup-insert_pools-absent name t new (insert (name, s) p pools)
        (ap (λ k. lookup k new) (sym at) ∙ d.0)
      ∙ lookup-insert (name, s) (name, t) p pools
      ∙ rw (same_key name t s, same) (ap some is)
]
