-- ===== src/Router/Filters.antt =====
-- src/router.rs: `request_filter`, which admits a request and chooses its application, pool and
-- affinity key before it is sent on.
pub mod Pools
pub mod Outcomes
use neemata_proxy.Common.{
  ℕ, ◌*◌, Bool, true, false, Option, none, some, List, if◌then◌else◌, list_eq, nat_eq,
}
use neemata_proxy.Text.{Text, Run, panicked, returned}
use neemata_proxy.Map.{lookup}
use neemata_proxy.Lb.{TransportKind, http1, http2, ws}
use neemata_proxy.Options.{ProxyLimitsOptionsParsed, ProxyTimeoutOptionsParsed}
use neemata_proxy.Router.Session.{Session}
use neemata_proxy.Router.Path.{extract_first_path_segment}
use neemata_proxy.Router.Host.{extract_host}
use neemata_proxy.Router.Config.{
  PoolConfig, AppPools, RouterConfig, ResolvedPool, ResolvedRoute, resolve_route, or_else,
}
use neemata_proxy.Router.Limits.{request_limit_rejection_status}
use neemata_proxy.Router.Affinity.{StickySessionConfig, extract_cookie_value, extract_header_value}
use neemata_proxy.Router.Sticky.{StickySessionState, generate_affinity_key, new_sticky}

pub record Router : Type 0 where
  pub config : RouterConfig
  pub sticky : Option StickySessionState
  pub limits : ProxyLimitsOptionsParsed
  pub timeouts : ProxyTimeoutOptionsParsed

-- Router::new
unfoldable pub new_router :
    RouterConfig
    → StickySessionConfig
    → ProxyLimitsOptionsParsed
    → ProxyTimeoutOptionsParsed
    → Router
unfolding new_sticky
new_router config sticky_config limits timeouts = record {
  config = config;
  sticky = new_sticky sticky_config;
  limits = limits;
  timeouts = timeouts;
}

-- Router::update
unfoldable pub update : RouterConfig → Router → Router
update config router = record router { config = config }

pub data FailureHint : Type 0 where
  missing_application missing_ws_pool missing_upstream_pool unhealthy_upstream : FailureHint

pub record RouterCtx : Type 0 where
  pub app_name : Option Text
  pub path_rewrite_segment : Option Text
  pub is_upgrade : Bool
  pub resolved_pool : Option ResolvedPool
  pub selected_transport : Option TransportKind
  pub affinity_key : Option Text
  pub should_set_cookie : Bool
  pub sticky_retry_attempted : Bool
  pub failure_hint : Option FailureHint

-- RouterCtx::default
unfoldable pub new_ctx : RouterCtx
new_ctx = record {
  app_name = none;
  path_rewrite_segment = none;
  is_upgrade = false;
  resolved_pool = none;
  selected_transport = none;
  affinity_key = none;
  should_set_cookie = false;
  sticky_retry_attempted = false;
  failure_hint = none;
}

-- pingora::ErrorType, as far as the source tells its cases apart.
pub data ErrorType : Type 0 where
  http_status : ℕ → ErrorType
  internal_error other_error : ErrorType

-- pingora::Result
pub data Outcome (A : Type 0) : Type 0 where
  ok : A → Outcome A
  err : ErrorType → Outcome A

-- What the filters set on the connection to the client: the read timeout in milliseconds, the
-- keep-alive timeout in seconds, and the status of the error response.
pub record Downstream : Type 0 where
  pub read_timeout : Option ℕ
  pub keepalive : Option ℕ
  pub responded : Option ℕ

-- A request in the proxy.
pub record Exchange : Type 0 where
  pub router : Router
  pub downstream : Downstream
  pub ctx : RouterCtx

-- `session.respond_error`, whose success is pingora's answer.
abbrev pub RespondError : Type 0
RespondError = ℕ → Bool

unfoldable pub reject_request : RespondError → ℕ → Exchange → Exchange × Outcome Bool
reject_request respond_error status x =
    let down = record (x.downstream) { keepalive = none; responded = some status } in
    (record x { downstream = down }, if respond_error status then ok true else err other_error)

unfoldable pub apply_downstream_timeouts : ProxyTimeoutOptionsParsed → Downstream → Downstream
apply_downstream_timeouts timeouts down = record down {
  read_timeout = some timeouts.downstream_body_idle_timeout_ms;
  keepalive = some timeouts.downstream_keep_alive_timeout_seconds;
}

-- The pool, and whether it is the HTTP/2 pool.
unfoldable pub pick_pool : Bool → AppPools → Option PoolConfig × Bool
pick_pool true pools = (pools.ws, false)
pick_pool false pools = elim pools.http2 [ some p ↦ (some p, true) | none ↦ (pools.http1, false) ]

unfoldable pub transport_of : Bool → Bool → TransportKind
transport_of is_upgrade is_http2 = if is_upgrade then ws else if is_http2 then http2 else http1

abbrev pub of_pool : Bool → Bool → PoolConfig → ResolvedPool
of_pool is_upgrade is_http2 pool = record {
  lb = pool.lb;
  secure = pool.secure;
  verify_hostname = pool.verify_hostname;
  is_http2 = is_http2;
  transport = transport_of is_upgrade is_http2;
  backends = pool.backends;
}

unfoldable pub resolved_of : Bool → Option PoolConfig × Bool → Option ResolvedPool
unfolding transport_of
resolved_of is_upgrade (none, is_http2) = none
resolved_of is_upgrade (some pool, is_http2) = some (of_pool is_upgrade is_http2 pool)

-- The pool of an application, resolved for the request.
unfoldable pub resolve_pool : RouterConfig → Text → Bool → Option ResolvedPool
unfolding resolved_of pick_pool
resolve_pool config app_name is_upgrade = elim (lookup app_name config.apps) [
  | none ↦ none
  | some pools ↦ resolved_of is_upgrade (pick_pool is_upgrade pools)
]

-- The key of the cookie, or else of the header, or else a new one.
unfoldable pub choose_affinity_key : Session → ℕ → StickySessionState → StickySessionState × Text
unfolding generate_affinity_key
choose_affinity_key session now_nanos sticky =
    let cookie_key = extract_cookie_value session sticky.config.cookie_name in
    let header_key = extract_header_value session sticky.config.header_name in
    elim (or_else cookie_key header_key) [
      | some key ↦ (sticky, key)
      | none ↦ generate_affinity_key now_nanos sticky
    ]

-- The sticky step, if there are sticky sessions and a pool is resolved.
unfoldable pub assign_affinity :
    Session → ℕ → Option StickySessionState → RouterCtx → Option StickySessionState × RouterCtx
unfolding choose_affinity_key
assign_affinity session now_nanos none ctx = (none, ctx)
assign_affinity session now_nanos (some sticky) ctx = elim ctx.resolved_pool [
  | none ↦ (some sticky, ctx)
  | some _ ↦
      let (sticky', key) = choose_affinity_key session now_nanos sticky in
      (some sticky', record ctx { affinity_key = some key; should_set_cookie = true })
]

-- An upgrade request to an application that has pools but no pool for upgrades.
unfoldable pub lacks_ws_pool : RouterConfig → Text → Bool → Bool
lacks_ws_pool config app_name false = false
lacks_ws_pool config app_name true = elim (lookup app_name config.apps) [
  | none ↦ false
  | some pools ↦ elim pools.ws [ none ↦ true | some _ ↦ false ]
]

unfoldable pub fail_with : FailureHint → ℕ → Exchange → Exchange × Outcome Bool
fail_with hint status x =
    (record x { ctx = record (x.ctx) { failure_hint = some hint } }, err (http_status status))

unfoldable pub settle_pool : Option ResolvedPool → Exchange → Exchange × Outcome Bool
unfolding fail_with
settle_pool none x = fail_with missing_upstream_pool 503 x
settle_pool (some resolved) x =
    (record x { ctx = record (x.ctx) { selected_transport = some resolved.transport } }, ok false)

-- The end of `request_filter`: the pool must be there.
unfoldable pub require_pool : RouterConfig → Text → Exchange → Exchange × Outcome Bool
unfolding lacks_ws_pool fail_with settle_pool
require_pool config app_name x =
    if lacks_ws_pool config app_name x.ctx.is_upgrade
    then fail_with missing_ws_pool 503 x
    else settle_pool x.ctx.resolved_pool x

-- From the route of the request on.
unfoldable pub follow_route : Session → ℕ → ResolvedRoute → Exchange → Exchange × Outcome Bool
unfolding resolve_pool assign_affinity require_pool
follow_route session now_nanos route x =
    let config = x.router.config in
    let ctx = record (x.ctx) {
      app_name = some route.app_name;
      path_rewrite_segment = route.path_rewrite_segment;
      is_upgrade = session.is_upgrade_req;
      resolved_pool =
          or_else (resolve_pool config route.app_name session.is_upgrade_req) x.ctx.resolved_pool;
    } in
    let (sticky, ctx') = assign_affinity session now_nanos x.router.sticky ctx in
    require_pool config route.app_name
      (record x { router = record (x.router) { sticky = sticky }; ctx = ctx' })

-- ProxyHttp::request_filter: `ok true` if the client has its response, and `ok false` to go on.
unfoldable pub request_filter :
    Session → ℕ → RespondError → Exchange → Run (Exchange × Outcome Bool)
unfolding reject_request follow_route apply_downstream_timeouts
request_filter session now_nanos respond_error x =
    elim (request_limit_rejection_status session x.router.limits) [
      | some status ↦ returned (reject_request respond_error status x)
      | none ↦ elim (extract_host session) [
        | panicked ↦ panicked
        | returned host ↦
            let down = apply_downstream_timeouts x.router.timeouts x.downstream in
            let x' = record x { downstream = down } in
            elim (resolve_route x.router.config host
              (extract_first_path_segment session.uri_path)) [
                | none ↦ returned (fail_with missing_application 404 x')
                | some route ↦ returned (follow_route session now_nanos route x')
              ]
      ]
    ]
