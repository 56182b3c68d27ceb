-- ===== src/Proxy/Inner.antt =====
-- src/proxy.rs: the state behind the proxy object, and its calls `add_upstream` and
-- `remove_upstream`, up to what they leave to do to the services. Each call holds `update_lock`.
pub mod Served
pub mod Consistent
pub mod Rebuilds
pub mod Untouched
pub mod Bounds
pub mod Tended
pub mod Initial
use neemata_proxy.Common.{
  ℕ, ◌≡◌, ◌↔◌, Bool, true, false, ◌&&◌, not, Option, none, some, List, [], ◌∷◌, ◌++◌, if◌then◌else◌,
  eqb, eqb_iff, arith, ◌==◌, Eq, list_eq, nat_eq,
}
use neemata_proxy.Text.{Text, lit, text_iff}
use neemata_proxy.Map.{lookup, insert, remove, contains}
use neemata_proxy.Errors.{Code, unknown_application, upstream_already_exists, upstream_not_found}
use neemata_proxy.Lb.{TransportKind, transport_eq, transport_beq_iff}
use neemata_proxy.Options.{ApplicationOptionsParsed, ProxyOptionsParsed}
use neemata_proxy.Router.Config.{PoolConfig}
use neemata_proxy.Router.Filters.{Router, new_router, update}
use neemata_proxy.Proxy.Config.{PoolKey, pool_key_eq, Pools, empty_config, build_router_config}
use neemata_proxy.Proxy.Listening.{BoundListenAddress}
use neemata_proxy.Proxy.Services.{Tending, upserts, removals}
use neemata_proxy.Proxy.Upstreams.{
  PortUpstream, upstream_beq, bool_beq, DeferredResult, done, fail, and_then, fail_with_code,
  verify_hostname_for_secure_upstream, Resolve, Builds, rebuild_app_pools,
}

pub data ProxyState : Type 0 where
  stopped starting running stopping : ProxyState

abbrev is_some : {A : Type 0} → Option A → Bool
is_some none = false
is_some (some _) = true

unfoldable pub is_running : ProxyState → Bool
is_running running = true
is_running _ = false

bool_beq_iff : (a b : Bool) → (bool_beq a b ≡ true) ↔ (a ≡ b)
bool_beq_iff a b = ground arith

pub upstream_beq_iff : (a b : PortUpstream) → (upstream_beq a b ≡ true) ↔ (a ≡ b)
unfolding upstream_beq
upstream_beq_iff a b = ground (
  arith,
  transport_beq_iff a.transport b.transport,
  bool_beq_iff a.secure b.secure,
  text_iff a.hostname b.hostname,
  eqb_iff a.port b.port,
)

instance abbrev pub upstream_eq : Eq PortUpstream
upstream_eq = record { beq = upstream_beq; beq_iff = upstream_beq_iff }

-- The notifiers are the channels that the tasks of `start` and `stop` answer on, by number. The
-- registry of services is shared with the tasks, so it is not a field here.
pub record ProxyInner : Type 0 where
  pub options : ProxyOptionsParsed
  pub state : ProxyState
  pub listen_address : Option BoundListenAddress
  pub start_notifier : Option ℕ
  pub stop_notifier : Option ℕ
  pub upstreams_by_app : List (Text × List PortUpstream)
  pub pools : Pools
  pub router : Router

-- `applications.iter().find(|a| a.name == app_name)`
unfoldable pub find_application :
    Text → List ApplicationOptionsParsed → Option ApplicationOptionsParsed
find_application name [] = none
find_application name (a ∷ apps) =
    let rest = find_application name apps in if a.name == name then some a else rest

-- The loop over `new_pools`.
unfoldable pub insert_pools : Text → List (TransportKind × PoolConfig) → Pools → Pools
insert_pools app [] pools = pools
insert_pools app ((t, pool) ∷ new_pools) pools =
    insert_pools app new_pools (insert (app, t) pool pools)

-- The loop over `removed_transports`.
unfoldable pub remove_pools : Text → List TransportKind → Pools → Pools
remove_pools app [] pools = pools
remove_pools app (t ∷ ts) pools = remove_pools app ts (remove (app, t) pools)

-- Under the second lock: the state after the call, and what is left to do to the services, which is
-- nothing unless the proxy runs.
unfoldable pub commit :
    Text
    → List PortUpstream
    → List (TransportKind × PoolConfig)
    → List TransportKind
    → ProxyInner
    → ProxyInner × Tending
unfolding insert_pools remove_pools upserts removals is_running update
commit app next_upstreams new_pools removed inner =
    let inserted = insert_pools app new_pools inner.pools in
    let pools = remove_pools app removed inserted in
    (
      record inner {
        upstreams_by_app = insert app next_upstreams inner.upstreams_by_app;
        pools = pools;
        router = update (build_router_config inner.options pools) inner.router;
      },
      if is_running inner.state
          then record {
            to_upsert = upserts app new_pools;
            to_remove = removals app removed inserted;
          }
          else record { to_upsert = []; to_remove = [] },
    )

abbrev pub unknown_app : {A : Type 0} → Text → DeferredResult A
unknown_app name =
    fail_with_code unknown_application (lit "Unknown application '" ++ name ++ lit "'")

-- The application and its upstreams, from under the first lock.
unfoldable pub read_application :
    Text → ProxyInner → DeferredResult (ApplicationOptionsParsed × List PortUpstream)
unfolding find_application
read_application name inner = elim (find_application name inner.options.applications) [
  | none ↦ unknown_app name
  | some app ↦ elim (lookup name inner.upstreams_by_app) [
    | none ↦ unknown_app name
    | some upstreams ↦ done (app, upstreams)
  ]
]

-- `HashSet::remove`
unfoldable pub without : PortUpstream → List PortUpstream → List PortUpstream
without upstream [] = []
without upstream (u ∷ us) =
    let rest = without upstream us in if u == upstream then rest else u ∷ rest

module _ (resolve : Resolve) (builds : Builds) where
  unfoldable pub rebuild_and_commit :
      Text
      → ApplicationOptionsParsed
      → List PortUpstream
      → ProxyInner
      → DeferredResult (ProxyInner × Tending)
  unfolding commit
  rebuild_and_commit name app next_upstreams inner =
      and_then
        (rebuild_app_pools resolve builds app next_upstreams inner.options.health_check_interval_ms)
        (λ rebuilt. done (commit name next_upstreams rebuilt.0 rebuilt.1 inner))

  -- Proxy::add_upstream, after the upstream is parsed.
  unfoldable pub add_upstream :
      Text → PortUpstream → ProxyInner → DeferredResult (ProxyInner × Tending)
  unfolding read_application rebuild_and_commit verify_hostname_for_secure_upstream
  add_upstream name upstream inner = and_then (read_application name inner) (λ found.
      if contains found.1 upstream
      then fail_with_code upstream_already_exists (lit "Upstream already exists")
      else and_then
          (if upstream.secure then verify_hostname_for_secure_upstream found.0 else done [])
          (λ _. rebuild_and_commit name found.0 (upstream ∷ found.1) inner))

  -- Proxy::remove_upstream, after the upstream is parsed.
  unfoldable pub remove_upstream :
      Text → PortUpstream → ProxyInner → DeferredResult (ProxyInner × Tending)
  unfolding read_application rebuild_and_commit without
  remove_upstream name upstream inner = and_then (read_application name inner) (λ found.
      if not (contains found.1 upstream)
      then fail_with_code upstream_not_found (lit "Upstream not found")
      else rebuild_and_commit name found.0 (without upstream found.1) inner)

-- The loop of `Proxy::new` over the applications.
unfoldable pub no_upstreams : List ApplicationOptionsParsed → List (Text × List PortUpstream)
no_upstreams [] = []
no_upstreams (app ∷ apps) = insert app.name [] (no_upstreams apps)

-- The router that a proxy object is made with: sticky as the options say, its cookie secure if the
-- proxy has TLS.
unfoldable pub proxy_router : ProxyOptionsParsed → Router
unfolding new_router
proxy_router options =
    new_router empty_config
      (record {
        enabled = options.sticky_sessions.enabled;
        cookie_name = options.sticky_sessions.cookie_name;
        header_name = options.sticky_sessions.header_name;
        ttl = options.sticky_sessions.ttl_ms;
        max_entries = options.sticky_sessions.max_entries;
        cookie_secure = is_some options.tls;
      })
      options.limits options.timeouts

-- Proxy::new, after the options are parsed.
unfoldable pub new_inner : ProxyOptionsParsed → ProxyInner
unfolding no_upstreams update proxy_router
new_inner options = record {
  options = options;
  state = stopped;
  listen_address = none;
  start_notifier = none;
  stop_notifier = none;
  upstreams_by_app = no_upstreams options.applications;
  pools = [];
  router = update (build_router_config options []) (proxy_router options);
}
