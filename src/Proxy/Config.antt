-- ===== src/Proxy/Config.antt =====
-- src/proxy.rs: the router's table, made from the applications and the pools.
pub mod Routes
pub mod Reachable
use neemata_proxy.Common.{
  Bool, true, false, ◌&&◌, Option, none, some, List, [], ◌∷◌, arith, Eq, ◌==◌, list_eq, nat_eq, ◌≡◌,
  ◌↔◌,
}
use neemata_proxy.Text.{Text, to_ascii_lowercase, text_iff}
use neemata_proxy.Map.{lookup, insert}
use neemata_proxy.Lb.{TransportKind, http1, http2, ws, transport_eq, transport_beq_iff}
use neemata_proxy.Options.{
  ApplicationOptionsParsed, ApplicationRoutingParsed, subdomain, path, default, ProxyOptionsParsed,
}
use neemata_proxy.Router.Config.{PoolConfig, AppPools, RouterConfig}

-- The key of `pools`: an application and a transport.
abbrev pub PoolKey : Type 0
PoolKey = Text × TransportKind

unfoldable pub pool_key_beq : PoolKey → PoolKey → Bool
pool_key_beq (a, s) (b, t) = a == b && s == t

pub pool_key_beq_iff : (a b : PoolKey) → (pool_key_beq a b ≡ true) ↔ (a ≡ b)
unfolding pool_key_beq
pool_key_beq_iff (a, s) (b, t) = ground (arith, text_iff a b, transport_beq_iff s t)

instance abbrev pub pool_key_eq : Eq PoolKey
pool_key_eq = record { beq = pool_key_beq; beq_iff = pool_key_beq_iff }

abbrev pub Pools : Type 0
Pools = List (PoolKey × PoolConfig)

-- RouterConfig::default()
abbrev pub empty_config : RouterConfig
empty_config = record { subdomain_routes = []; path_routes = []; default_app = none; apps = [] }

-- The match on the routing of one application.
unfoldable pub add_route : RouterConfig → Text → ApplicationRoutingParsed → RouterConfig
add_route cfg app (subdomain name) = record cfg {
  subdomain_routes = insert (to_ascii_lowercase name) app cfg.subdomain_routes;
}
add_route cfg app (path name) = record cfg { path_routes = insert name app cfg.path_routes }
add_route cfg app default = record cfg { default_app = some app }

unfoldable pub app_pools : Pools → Text → AppPools
app_pools pools app = record {
  http1 = lookup (app, http1) pools;
  ws = lookup (app, ws) pools;
  http2 = lookup (app, http2) pools;
}

-- One round of the loop.
unfoldable pub add_application : Pools → RouterConfig → ApplicationOptionsParsed → RouterConfig
unfolding app_pools
add_application pools cfg app =
    let routed = add_route cfg app.name app.routing in
    record routed { apps = insert app.name (app_pools pools app.name) routed.apps }

unfoldable pub add_applications :
    Pools → RouterConfig → List ApplicationOptionsParsed → RouterConfig
add_applications pools cfg [] = cfg
add_applications pools cfg (app ∷ apps) =
    add_applications pools (add_application pools cfg app) apps

unfoldable pub build_router_config : ProxyOptionsParsed → Pools → RouterConfig
build_router_config options pools = add_applications pools empty_config options.applications
