-- ===== src/Proxy/Services.antt =====
-- src/proxy.rs and src/lb.rs: the services that run for the proxy, their names, and the changes
-- that a call makes to them.
pub mod Names
use neemata_proxy.Common.{Option, none, some, List, [], ◌∷◌, ◌++◌, list_eq, nat_eq}
use neemata_proxy.Text.{Text, lit}
use neemata_proxy.Map.{lookup, remove}
use neemata_proxy.Lb.{TransportKind, http1, http2, ws, LoadBalancer}
use neemata_proxy.Router.Config.{PoolConfig}
use neemata_proxy.Proxy.Config.{pool_key_eq, Pools}
use neemata_proxy.Proxy.Listening.{HttpService}

-- What the task of a handle runs.
pub data Service : Type 0 where
  health_task : LoadBalancer → Service
  http_service : HttpService → Service

unfoldable pub spawn_lb_health_task : LoadBalancer → Service
spawn_lb_health_task lb = health_task lb

unfoldable pub lb_service_name : Text → TransportKind → Text
lb_service_name app http1 = lit "lb:" ++ app ++ lit ":http"
lb_service_name app http2 = lit "lb:" ++ app ++ lit ":http2"
lb_service_name app ws = lit "lb:" ++ app ++ lit ":ws"

abbrev pub main_http : Text
main_http = lit "main_http"

-- `initial_lb_tasks`, the pools at the time of the call.
unfoldable pub lb_tasks : Pools → List (Text × LoadBalancer)
unfolding lb_service_name
lb_tasks [] = []
lb_tasks (((app, t), pool) ∷ pools) = (lb_service_name app t, pool.lb) ∷ lb_tasks pools

-- The services that a call has yet to start and to remove.
pub record Tending : Type 0 where
  pub to_upsert : List (Text × LoadBalancer)
  pub to_remove : List Text

-- `to_upsert.push` for each new pool.
unfoldable pub upserts : Text → List (TransportKind × PoolConfig) → List (Text × LoadBalancer)
unfolding lb_service_name
upserts app [] = []
upserts app ((t, pool) ∷ new_pools) = (lb_service_name app t, pool.lb) ∷ upserts app new_pools

-- `if guard.pools.remove(…).is_some() { to_remove.push(…) }`
unfoldable pub push_removed : Option PoolConfig → Text → List Text → List Text
push_removed none name names = names
push_removed (some _) name names = name ∷ names

-- `to_remove`, over the transports without a pool.
unfoldable pub removals : Text → List TransportKind → Pools → List Text
unfolding lb_service_name push_removed
removals app [] pools = []
removals app (t ∷ ts) pools =
    push_removed (lookup (app, t) pools) (lb_service_name app t)
      (removals app ts (remove (app, t) pools))
