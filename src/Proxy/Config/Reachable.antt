-- ===== src/Proxy/Config/Reachable.antt =====
-- Every application that the options accept can be reached through the table made from them.
use neemata_proxy.Common.{◌≡◌, Option, none, some, list_eq, nat_eq}
use neemata_proxy.Text.{Text, to_ascii_lowercase}
use neemata_proxy.Map.{lookup}
use neemata_proxy.Options.{
  ApplicationOptionsParsed, ApplicationRoutingParsed, subdomain, path, default,
}
use neemata_proxy.Router.Config.{RouterConfig, ResolvedRoute, resolve_route, lookup_opt}
use neemata_proxy.Proxy.Config.{Pools, app_pools}

abbrev pub routed : Text → Option Text → Option ResolvedRoute
routed app segment = some (record { app_name = app; path_rewrite_segment = segment })

-- The requests that an application is meant for: its subdomain with any path; its first path
-- segment, where the host is no subdomain; and for the default what is neither.
abbrev pub IsRouted : RouterConfig → Text → ApplicationRoutingParsed → Type 0
IsRouted cfg app (subdomain n) =
    (seg : Option Text) → resolve_route cfg (some (to_ascii_lowercase n)) seg ≡ routed app none
IsRouted cfg app (path n) =
    (host : Option Text)
    → lookup_opt host cfg.subdomain_routes ≡ none
    → resolve_route cfg host (some n) ≡ routed app (some n)
IsRouted cfg app default =
    (host seg : Option Text)
    → lookup_opt host cfg.subdomain_routes ≡ none
    → lookup_opt seg cfg.path_routes ≡ none
    → resolve_route cfg host seg ≡ routed app none

pub record IsReachable (pools : Pools) (cfg : RouterConfig) (app : ApplicationOptionsParsed)
    : Type 0 where
  pub route : IsRouted cfg app.name app.routing
  pub pooled : lookup app.name cfg.apps ≡ some (app_pools pools app.name)
