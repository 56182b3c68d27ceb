-- ===== src/Proxy/Upstreams/Composed.antt =====
-- The pool that `build_pool` makes of the upstreams of one transport.
use neemata_proxy.Common.{
  ℕ, ◌≡◌, ◌≢◌, refl, ap, sym, subst, ◌∙◌, inl, inr, true, false, not, any, some, List, [], ◌∷◌,
  ◌++◌, if◌then◌else◌, arith, Option-cases, Bool-cases,
}
use neemata_proxy.Text.{Text}
use neemata_proxy.Lb.{tls, tcp, transport_eq}
use neemata_proxy.Options.{ApplicationOptionsParsed}
use neemata_proxy.Router.Config.{PoolConfig}
use neemata_proxy.Proxy.Upstreams.{
  PortUpstream, Resolve, Builds, DeferredResult, done, fail, and_then, bool_beq, Resolved,
  addresses, unresolved, is_empty_list, verify_hostname_for_secure_upstream, resolve_all, pool_of,
  finish_pool, build_pool,
}

pub and_then-eq-done :
    {A B : Type 0} (r : DeferredResult A) (next : A → DeferredResult B) {b : B}
    → and_then r next ≡ done b
    → (a : A) × (r ≡ done a) × (next a ≡ done b)
and_then-eq-done (done a) next h = (a, refl, h)
and_then-eq-done (fail e) next h = absurd (cc)

-- The addresses that the resolver gives for each of the upstreams, one list after the other.
pub data IsGathered (resolve : Resolve) : List PortUpstream → List Text → Type 0 where
  none_left : IsGathered resolve [] []
  one_more :
      (u : PortUpstream) (us : List PortUpstream) (found more : List Text)
      → resolve u.hostname u.port ≡ addresses found
      → IsGathered resolve us more
      → IsGathered resolve (u ∷ us) (found ++ more)

-- The pool has the addresses for its balancer and as its backends, and the rest as given; each
-- backend is checked at the interval, over TLS if the pool is secure.
pub record IsComposed (u : PortUpstream) (host : Text) (interval : ℕ) (addrs : List Text)
    (pool : PoolConfig) : Type 0 where
  pub allowed : pool.backends ≡ addrs
  pub balanced : (pool.lb).addrs ≡ addrs
  pub checked : (pool.lb).health_check ≡ some (if u.secure then tls host else tcp)
  pub checked_every : (pool.lb).health_check_frequency ≡ some interval
  pub secured : pool.secure ≡ u.secure
  pub verifies : pool.verify_hostname ≡ host

pool_of-IsComposed :
    (u : PortUpstream) (host : Text) (interval : ℕ) (addrs : List Text) (pool : PoolConfig)
    → pool ≡ pool_of u.secure host interval addrs
    → IsComposed u host interval addrs pool
unfolding pool_of
pool_of-IsComposed u host interval addrs pool made = record {
  allowed = ap (λ (p : PoolConfig). p.backends) made;
  balanced = ap (λ (p : PoolConfig). (p.lb).addrs) made;
  checked = ap (λ (p : PoolConfig). (p.lb).health_check) made;
  checked_every = ap (λ (p : PoolConfig). (p.lb).health_check_frequency) made;
  secured = ap (λ (p : PoolConfig). p.secure) made;
  verifies = ap (λ (p : PoolConfig). p.verify_hostname) made;
}

-- A pool of the upstreams u ∷ us: all are secure or none is, a secure pool verifies the host name of
-- the application, and the pool has the addresses of all of them, at least one.
pub record IsPoolOf (resolve : Resolve) (app : ApplicationOptionsParsed) (interval : ℕ)
    (u : PortUpstream) (us : List PortUpstream) (pool : PoolConfig) : Type 0 where
  pub host : Text
  pub addrs : List Text
  pub alike : any (λ other. not (bool_beq other.secure u.secure)) (u ∷ us) ≡ false
  pub verified : (if u.secure then verify_hostname_for_secure_upstream app else done []) ≡ done host
  pub found : resolve_all resolve (u ∷ us) ≡ done addrs
  pub reachable : is_empty_list addrs ≡ false
  pub made : pool ≡ pool_of u.secure host interval addrs
  pub gathered : IsGathered resolve (u ∷ us) addrs
  pub composed : IsComposed u host interval addrs pool

pub done-inj : {A : Type 0} {a b : A} → Path (DeferredResult A) (done a) (done b) → a ≡ b
done-inj h = cc

-- An upstream that is resolved, in front of those that are gathered.
resolved_one :
    (resolve : Resolve) (u : PortUpstream) (us : List PortUpstream) (addrs : List Text)
    → ((more : List Text) → resolve_all resolve us ≡ done more → IsGathered resolve us more)
    → (r : Resolved) → resolve u.hostname u.port ≡ r
    → resolve_all resolve (u ∷ us) ≡ done addrs
    → IsGathered resolve (u ∷ us) addrs
unfolding resolve_all
resolved_one resolve u us addrs rest (unresolved e) is h = absurd (ground (arith, is))
resolved_one resolve u us addrs rest (addresses found) is h =
    let chain : and_then (resolve_all resolve us) (λ more. done (found ++ more)) ≡ done addrs =
      ground (arith, is, h) in
    let (more, there, same) = and_then-eq-done (resolve_all resolve us) _ chain in
    subst (IsGathered resolve (u ∷ us)) (done-inj same)
      (one_more u us found more is (rest more there))

resolve_all-IsGathered :
    (resolve : Resolve) (us : List PortUpstream) (addrs : List Text)
    → resolve_all resolve us ≡ done addrs
    → IsGathered resolve us addrs
unfolding resolve_all
resolve_all-IsGathered resolve [] addrs h = subst (IsGathered resolve []) (done-inj h) none_left
resolve_all-IsGathered resolve (u ∷ us) addrs h =
    resolved_one resolve u us addrs (resolve_all-IsGathered resolve us) (resolve u.hostname u.port)
      refl h

finish_pool-eq-done :
    (builds : Builds) (u : PortUpstream) (host : Text) (interval : ℕ) (addrs : List Text)
    (pool : PoolConfig)
    → finish_pool builds u host interval addrs ≡ done pool
    → (is_empty_list addrs ≡ false) × (pool ≡ pool_of u.secure host interval addrs)
unfolding finish_pool
finish_pool-eq-done builds u host interval [] pool h = absurd (cc)
finish_pool-eq-done builds u host interval (a ∷ addrs) pool h =
    elim (Option-cases (builds (a ∷ addrs))) [
      | inr (e, failed) ↦ absurd (ground (arith, failed))
      | inl fine ↦
          let made : Path (DeferredResult PoolConfig)
              (done (pool_of u.secure host interval (a ∷ addrs))) (done pool) =
            ground (arith, fine) in
          (refl, sym (done-inj made))
    ]

module _ (resolve : Resolve) (builds : Builds) (app : ApplicationOptionsParsed) (interval : ℕ) where
  build_pool-chain :
      (u : PortUpstream) (us : List PortUpstream)
      → any (λ other. not (bool_beq other.secure u.secure)) (u ∷ us) ≡ false
      → build_pool resolve builds app interval u us
        ≡ and_then (if u.secure then verify_hostname_for_secure_upstream app else done []) (λ host.
          and_then
            (resolve_all resolve (u ∷ us))
            (λ addrs. finish_pool builds u host interval addrs))
  unfolding build_pool
  build_pool-chain u us alike = rw (alike, build_pool) refl

  build_pool-mixed :
      (u : PortUpstream) (us : List PortUpstream) (pool : PoolConfig)
      → any (λ other. not (bool_beq other.secure u.secure)) (u ∷ us) ≡ true
      → build_pool resolve builds app interval u us ≢ done pool
  unfolding build_pool
  build_pool-mixed u us pool mixed h = ground (arith, mixed)

  pub build_pool-IsPoolOf :
      (u : PortUpstream) (us : List PortUpstream) (pool : PoolConfig)
      → build_pool resolve builds app interval u us ≡ done pool
      → IsPoolOf resolve app interval u us pool
  build_pool-IsPoolOf u us pool h =
      elim (Bool-cases
        (any (λ (other : PortUpstream). not (bool_beq other.secure u.secure)) (u ∷ us))) [
          | inl mixed ↦ absurd (build_pool-mixed u us pool mixed h)
          | inr alike ↦
              let (host, verified, h1) =
                and_then-eq-done
                  (if u.secure then verify_hostname_for_secure_upstream app else done []) _
                  (sym (build_pool-chain u us alike) ∙ h) in
              let (addrs, found, last) = and_then-eq-done (resolve_all resolve (u ∷ us)) _ h1 in
              let (reachable, made) = finish_pool-eq-done builds u host interval addrs pool last in
              record {
                host = host;
                addrs = addrs;
                alike = alike;
                verified = verified;
                found = found;
                reachable = reachable;
                made = made;
                gathered = resolve_all-IsGathered resolve (u ∷ us) addrs found;
                composed = pool_of-IsComposed u host interval addrs pool made;
              }
        ]
  -- What the loop makes of each group.
