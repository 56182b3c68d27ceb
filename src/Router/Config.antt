-- ===== src/Router/Config.antt =====
-- src/router.rs: the routing table and the pools of each application, and the choice of an
-- application for a request.
use neemata_proxy.Common.{Bool, Option, none, some, List, list_eq, nat_eq}
use neemata_proxy.Text.{Text}
use neemata_proxy.Map.{lookup}
use neemata_proxy.Lb.{TransportKind, LoadBalancer}

pub record PoolConfig : Type 0 where
  pub lb : LoadBalancer
  pub secure : Bool
  pub verify_hostname : Text
  pub backends : List Text

pub record AppPools : Type 0 where
  pub http1 : Option PoolConfig
  pub ws : Option PoolConfig
  pub http2 : Option PoolConfig

pub record RouterConfig : Type 0 where
  pub subdomain_routes : List (Text × Text)
  pub path_routes : List (Text × Text)
  pub default_app : Option Text
  pub apps : List (Text × AppPools)

pub record ResolvedPool : Type 0 where
  pub lb : LoadBalancer
  pub secure : Bool
  pub verify_hostname : Text
  pub is_http2 : Bool
  pub transport : TransportKind
  pub backends : List Text

pub record ResolvedRoute : Type 0 where
  pub app_name : Text
  pub path_rewrite_segment : Option Text

-- `if let Some(k) = key && let Some(v) = map.get(k)`
abbrev pub lookup_opt : Option Text → List (Text × Text) → Option Text
lookup_opt none m = none
lookup_opt (some k) m = lookup k m

abbrev pub or_else {ℓ} : {A : Type ℓ} → Option A → Option A → Option A
or_else none b = b
or_else (some a) b = some a

abbrev to_route : Option Text → Option Text → Option ResolvedRoute
to_route segment none = none
to_route segment (some app) = some (record { app_name = app; path_rewrite_segment = segment })

unfoldable pub resolve_route : RouterConfig → Option Text → Option Text → Option ResolvedRoute
resolve_route config host path_first_segment =
    or_else (to_route none (lookup_opt host config.subdomain_routes)) (
      or_else (to_route path_first_segment (lookup_opt path_first_segment config.path_routes))
        (to_route none config.default_app))
