-- ===== src/Router/Filters/Pools.antt =====
-- The possible answers of `request_filter`, and the pool that it resolves.
use neemata_proxy.Common.{
  ℕ, ◌≡◌, refl, ap, ◌⊎◌, inl, inr, Bool, true, false, Option, none, some, if◌then◌else◌, list_eq,
  nat_eq, Option-cases,
}
use neemata_proxy.Text.{Text}
use neemata_proxy.Map.{lookup}
use neemata_proxy.Lb.{TransportKind, http1, http2, ws}
use neemata_proxy.Router.Session.{Session}
use neemata_proxy.Router.Path.{extract_first_path_segment}
use neemata_proxy.Router.Config.{
  PoolConfig, AppPools, RouterConfig, ResolvedPool, ResolvedRoute, resolve_route,
}
use neemata_proxy.Router.Limits.{request_limit_rejection_status}
use neemata_proxy.Router.Sticky.{StickySessionState}
use neemata_proxy.Router.Filters.{
  Router, missing_application, missing_ws_pool, missing_upstream_pool, RouterCtx, http_status,
  other_error, Outcome, ok, err, Exchange, RespondError, pick_pool, of_pool, resolved_of,
  transport_of, resolve_pool, choose_affinity_key, assign_affinity, lacks_ws_pool, settle_pool,
  require_pool, fail_with,
}

-- Which pool serves a request, and by which transport: an upgrade goes to the WebSocket pool only,
-- all else to the HTTP/2 pool, or to the HTTP/1 pool where there is no other.
pub data IsServed (pools : AppPools) : Bool → PoolConfig → TransportKind → Type 0 where
  upgrade : (pool : PoolConfig) → pools.ws ≡ some pool → IsServed pools true pool ws
  multiplexed : (pool : PoolConfig) → pools.http2 ≡ some pool → IsServed pools false pool http2
  plain :
      (pool : PoolConfig)
      → pools.http2 ≡ none
      → pools.http1 ≡ some pool
      → IsServed pools false pool http1

-- A resolved pool is one of a pool.
pub record IsResolved (pool : PoolConfig) (t : TransportKind) (r : ResolvedPool) : Type 0 where
  pub lb : r.lb ≡ pool.lb
  pub secure : r.secure ≡ pool.secure
  pub verify_hostname : r.verify_hostname ≡ pool.verify_hostname
  pub backends : r.backends ≡ pool.backends
  pub transport : r.transport ≡ t

-- No pool of the application serves the request.
abbrev pub IsUnserved : AppPools → Bool → Type 0
IsUnserved pools true = pools.ws ≡ none
IsUnserved pools false = (pools.http2 ≡ none) × (pools.http1 ≡ none)

-- The sticky part of a request that goes on: a key is chosen if and only if sessions are sticky.
abbrev pub IsAssigned :
    Session → ℕ → Option StickySessionState → Option StickySessionState → RouterCtx → Type 0
IsAssigned session now_nanos before after ctx =
    ((before ≡ none) × (after ≡ none) × (ctx.affinity_key ≡ none))
    ⊎ ((sticky : StickySessionState) × (before ≡ some sticky)
        × (after ≡ some (choose_affinity_key session now_nanos sticky).0)
        × (ctx.affinity_key ≡ some (choose_affinity_key session now_nanos sticky).1)
        × (ctx.should_set_cookie ≡ true))

-- What a request that goes on carries, for its route and the pools of its application.
pub record IsReady (session : Session) (now_nanos : ℕ) (route : ResolvedRoute) (pools : AppPools)
    (before after : Option StickySessionState) (ctx : RouterCtx) : Type 0 where
  pub pool : PoolConfig
  pub t : TransportKind
  pub r : ResolvedPool
  pub served : IsServed pools session.is_upgrade_req pool t
  pub is_resolved : IsResolved pool t r
  pub resolved : ctx.resolved_pool ≡ some r
  pub selected : ctx.selected_transport ≡ some t
  pub app : ctx.app_name ≡ some route.app_name
  pub segment : ctx.path_rewrite_segment ≡ route.path_rewrite_segment
  pub upgrades : ctx.is_upgrade ≡ session.is_upgrade_req
  pub assigned : IsAssigned session now_nanos before after ctx

-- What `request_filter` answers for a request with a given host, and when.
pub data IsFiltered (session : Session) (now_nanos : ℕ) (respond_error : RespondError)
    (host : Option Text) (router : Router) (end : Exchange) : Outcome Bool → Type 0 where
  rejected :
      (status : ℕ)
      → request_limit_rejection_status session router.limits ≡ some status
      → end.downstream.responded ≡ some status
      → IsFiltered session now_nanos respond_error host router end
          (if respond_error status then ok true else err other_error)
  unrouted :
      request_limit_rejection_status session router.limits ≡ none
      → resolve_route router.config host (extract_first_path_segment session.uri_path) ≡ none
      → end.ctx.failure_hint ≡ some missing_application
      → IsFiltered session now_nanos respond_error host router end (err (http_status 404))
  unserved :
      (route : ResolvedRoute)
      → request_limit_rejection_status session router.limits ≡ none
      → resolve_route router.config host (extract_first_path_segment session.uri_path) ≡ some route
      → (pools : AppPools) → lookup route.app_name router.config.apps ≡ some pools
      → IsUnserved pools session.is_upgrade_req
      → end.ctx.failure_hint
        ≡ some (if session.is_upgrade_req then missing_ws_pool else missing_upstream_pool)
      → IsFiltered session now_nanos respond_error host router end (err (http_status 503))
  unknown :
      (route : ResolvedRoute)
      → request_limit_rejection_status session router.limits ≡ none
      → resolve_route router.config host (extract_first_path_segment session.uri_path) ≡ some route
      → lookup route.app_name router.config.apps ≡ none
      → end.ctx.failure_hint ≡ some missing_upstream_pool
      → IsFiltered session now_nanos respond_error host router end (err (http_status 503))
  ready :
      (route : ResolvedRoute)
      → request_limit_rejection_status session router.limits ≡ none
      → resolve_route router.config host (extract_first_path_segment session.uri_path) ≡ some route
      → (pools : AppPools) → lookup route.app_name router.config.apps ≡ some pools
      → IsReady session now_nanos route pools router.sticky end.router.sticky end.ctx
      → IsFiltered session now_nanos respond_error host router end (ok false)

pub assign_affinity-IsAssigned :
    (session : Session) (now_nanos : ℕ) (sticky : Option StickySessionState) (ctx : RouterCtx)
    (r : ResolvedPool)
    → ctx.resolved_pool ≡ some r
    → ctx.affinity_key ≡ none
    → let end = assign_affinity session now_nanos sticky ctx in
      IsAssigned session now_nanos sticky end.0 end.1
      × (end.1.resolved_pool ≡ ctx.resolved_pool)
      × (end.1.app_name ≡ ctx.app_name)
      × (end.1.path_rewrite_segment ≡ ctx.path_rewrite_segment)
      × (end.1.is_upgrade ≡ ctx.is_upgrade)
unfolding assign_affinity
assign_affinity-IsAssigned session now_nanos none ctx r e free =
    (inl (refl, refl, free), refl, refl, refl, refl)
assign_affinity-IsAssigned session now_nanos (some sticky) ctx r e free =
    rw e (inr (sticky, refl, refl, refl, refl), refl, refl, refl, refl)

pub assign_affinity_unresolved :
    (session : Session) (now_nanos : ℕ) (sticky : Option StickySessionState) (ctx : RouterCtx)
    → ctx.resolved_pool ≡ none
    → (assign_affinity session now_nanos sticky ctx).1 ≡ ctx
unfolding assign_affinity
assign_affinity_unresolved session now_nanos none ctx e = refl
assign_affinity_unresolved session now_nanos (some sticky) ctx e = rw e refl

pool-IsResolved :
    (up h2 : Bool) (p : PoolConfig) → IsResolved p (transport_of up h2) (of_pool up h2 p)
pool-IsResolved up h2 p = record {
  lb = refl;
  secure = refl;
  verify_hostname = refl;
  backends = refl;
  transport = refl;
}

pub resolved_of-cases :
    (pools : AppPools) (up : Bool)
    → ((pool : PoolConfig) × (t : TransportKind) × (r : ResolvedPool) × (resolved_of up
            (pick_pool up pools)
          ≡ some r)
        × IsServed pools up pool t
        × IsResolved pool t r)
      ⊎ ((resolved_of up (pick_pool up pools) ≡ none) × IsUnserved pools up)
unfolding resolved_of pick_pool transport_of
resolved_of-cases pools true = elim (Option-cases pools.ws) [
  | inl e ↦ inr (rw e refl, e)
  | inr (p, e) ↦
      inl (p, ws, of_pool true false p, rw e refl, upgrade p e, pool-IsResolved true false p)
]
resolved_of-cases pools false = elim (Option-cases pools.http2) [
  | inr (p, e) ↦ inl (
    p,
    http2,
    of_pool false true p,
    rw (e, pick_pool) refl,
    multiplexed p e,
    pool-IsResolved false true p,
  )
  | inl e ↦ elim (Option-cases pools.http1) [
    | inl e' ↦ inr (rw (e, pick_pool, e') refl, (e, e'))
    | inr (p, e') ↦ inl (
      p,
      http1,
      of_pool false false p,
      rw (e, pick_pool, e') refl,
      plain p e e',
      pool-IsResolved false false p,
    )
  ]
]

-- A request that starts has no pool and no key.
abbrev pub IsStart : RouterCtx → Type 0
IsStart ctx = (ctx.resolved_pool ≡ none) × (ctx.affinity_key ≡ none)

pub require_pool-ready :
    (config : RouterConfig) (app : Text) (x : Exchange) (r : ResolvedPool)
    → lacks_ws_pool config app x.ctx.is_upgrade ≡ false
    → x.ctx.resolved_pool ≡ some r
    → require_pool config app x
      ≡ (record x { ctx = record (x.ctx) { selected_transport = some r.transport } }, ok false)
unfolding require_pool settle_pool
require_pool-ready config app x r has e =
    rw has (ap (λ (o : Option ResolvedPool). settle_pool o x) e)

pub require_pool-missing :
    (config : RouterConfig) (app : Text) (x : Exchange)
    → lacks_ws_pool config app x.ctx.is_upgrade ≡ false
    → x.ctx.resolved_pool ≡ none
    → require_pool config app x ≡ fail_with missing_upstream_pool 503 x
unfolding require_pool settle_pool
require_pool-missing config app x has e =
    rw has (ap (λ (o : Option ResolvedPool). settle_pool o x) e)

pub require_pool-lacking :
    (config : RouterConfig) (app : Text) (x : Exchange)
    → lacks_ws_pool config app x.ctx.is_upgrade ≡ true
    → require_pool config app x ≡ fail_with missing_ws_pool 503 x
unfolding require_pool
require_pool-lacking config app x lacks = rw lacks refl

pub lacks_unknown :
    (config : RouterConfig) (app : Text) (up : Bool)
    → lookup app config.apps ≡ none
    → lacks_ws_pool config app up ≡ false
unfolding lacks_ws_pool
lacks_unknown config app true e = rw (e, lacks_ws_pool) refl
lacks_unknown config app false e = refl

pub lacks_unserved :
    (config : RouterConfig) (app : Text) (up : Bool) (pools : AppPools)
    → lookup app config.apps ≡ some pools
    → IsUnserved pools up
    → lacks_ws_pool config app up ≡ up
unfolding lacks_ws_pool
lacks_unserved config app true pools e u = rw (e, lacks_ws_pool, u) refl
lacks_unserved config app false pools e u = refl

pub lacks_served :
    (config : RouterConfig) (app : Text) (up : Bool) (pools : AppPools) (pool : PoolConfig)
    (t : TransportKind)
    → lookup app config.apps ≡ some pools
    → IsServed pools up pool t
    → lacks_ws_pool config app up ≡ false
unfolding lacks_ws_pool
lacks_served config app _ pools _ _ e (upgrade pool has) = rw (e, lacks_ws_pool, has) refl
lacks_served config app _ pools _ _ e (multiplexed pool has) = refl
lacks_served config app _ pools _ _ e (plain pool no2 has) = refl

pub resolve_pool_of :
    (config : RouterConfig) (app : Text) (up : Bool) (pools : AppPools)
    → lookup app config.apps ≡ some pools
    → resolve_pool config app up ≡ resolved_of up (pick_pool up pools)
unfolding resolve_pool
resolve_pool_of config app up pools e = rw (e, resolve_pool) refl

pub resolve_pool_unknown :
    (config : RouterConfig) (app : Text) (up : Bool)
    → lookup app config.apps ≡ none
    → resolve_pool config app up ≡ none
unfolding resolve_pool
resolve_pool_unknown config app up e = rw (e, resolve_pool) refl
