-- ===== src/Tests/Upstreams.antt =====
-- Upstreams of a concrete application.
use neemata_proxy.Common.{◌↔◌, ◌≡◌, refl, false, none, List, [], ◌∷◌, list_eq, list_beq, nat_eq}
use neemata_proxy.Text.{lit, is_empty}
use neemata_proxy.Errors.{ok}
use neemata_proxy.Map.{lookup, insert, contains}
use neemata_proxy.Lb.{TransportKind, http1, http2, ws, transport_beq, transport_eq}
use neemata_proxy.Router.Config.{PoolConfig}
use neemata_proxy.Proxy.Upstreams.{
  PortUpstream, PortUpstreamOptions, port_options, Resolve, addresses, Builds, done,
  rebuild_app_pools, group_upstreams, push_upstream, build_pools, build_pool, finish_pool,
  resolve_all, removed_transports, pool_of, parse_port_upstream, parse_transport,
}
use neemata_proxy.Proxy.Upstreams.Parsing.{IsAccepted, parse_port_upstream_iff}
use neemata_proxy.Proxy.Upstreams.Pools.{IsRebuilt, rebuild_app_pools-IsRebuilt}
use neemata_proxy.Proxy.Services.{Tending}
use neemata_proxy.Proxy.Inner.{
  ProxyInner, add_upstream, read_application, find_application, rebuild_and_commit, commit,
  new_inner, no_upstreams,
}
use neemata_proxy.Proxy.Inner.Served.{IsConsistent}
use neemata_proxy.Proxy.Inner.Consistent.{created, added, IsReached-IsConsistent}
use neemata_proxy.Tests.Apps.{parsed, auth_app}

abbrev local : PortUpstream
local = record { transport = http1; secure = false; hostname = lit "localhost"; port = 3000 }

abbrev resolve : Resolve
resolve host port = addresses (lit "127.0.0.1:3000" ∷ [])

abbrev builds : Builds
builds addrs = none

abbrev pools : List (TransportKind × PoolConfig)
pools = (http1, pool_of false [] 5000 (lit "127.0.0.1:3000" ∷ [])) ∷ []

rebuilt :
    rebuild_app_pools resolve builds auth_app (local ∷ []) 5000 ≡ done (pools, http2 ∷ ws ∷ [])
unfolding rebuild_app_pools group_upstreams push_upstream build_pools build_pool finish_pool
    resolve_all removed_transports lookup insert transport_beq lit
rebuilt = refl

rebuild_app_pools-IsRebuilt_example :
    IsRebuilt resolve auth_app 5000 (local ∷ []) pools (http2 ∷ ws ∷ []) http1
rebuild_app_pools-IsRebuilt_example =
    rebuild_app_pools-IsRebuilt resolve builds auth_app (local ∷ []) 5000 pools (http2 ∷ ws ∷ [])
      http1 rebuilt

abbrev committed : ProxyInner × Tending
committed = commit (lit "auth") (local ∷ []) pools (http2 ∷ ws ∷ []) (new_inner parsed)

auth_added : add_upstream resolve builds (lit "auth") local (new_inner parsed) ≡ done committed
unfolding list_beq lit add_upstream read_application find_application rebuild_and_commit new_inner
    no_upstreams contains rebuild_app_pools group_upstreams push_upstream build_pools build_pool
    finish_pool resolve_all removed_transports lookup insert transport_beq
auth_added = refl

IsReached-IsConsistent_example : IsConsistent (insert (lit "auth") resolve []) committed.0
IsReached-IsConsistent_example =
    IsReached-IsConsistent parsed (insert (lit "auth") resolve []) committed.0 (
      added [] resolve builds (lit "auth") local (new_inner parsed) committed.0 committed.1 created
        auth_added)

abbrev asked : PortUpstreamOptions
asked = record {
  kind = lit "port";
  transport = lit "http";
  secure = false;
  hostname = lit "localhost";
  port = 3000;
}

asked_parsed : parse_port_upstream (port_options asked) ≡ ok local
unfolding list_beq lit parse_port_upstream parse_transport is_empty
asked_parsed = refl

parse_port_upstream_iff_example :
    (parse_port_upstream (port_options asked) ≡ ok local)
    ↔ ((o : PortUpstreamOptions) × (port_options asked ≡ port_options o) × IsAccepted o local)
parse_port_upstream_iff_example = parse_port_upstream_iff (port_options asked) local
