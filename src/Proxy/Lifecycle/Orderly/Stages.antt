-- ===== src/Proxy/Lifecycle/Orderly/Stages.antt =====
-- What holds at each stage of the task of a call, when calls are made one at a time.
use neemata_proxy.Common.{◌≡◌, ◌⊎◌, some, [], Option, list_eq, nat_eq}
use neemata_proxy.Map.{lookup, Distinct}
use neemata_proxy.Proxy.Config.{pool_key_eq, Pools}
use neemata_proxy.Proxy.Listening.{HttpService, BoundListenAddress}
use neemata_proxy.Proxy.Services.{http_service, main_http, lb_tasks}
use neemata_proxy.Proxy.Inner.{stopped, starting, running, stopping}
use neemata_proxy.Proxy.Inner.Tended.{Services, IsTended, upsert_all, remove_all}
use neemata_proxy.Proxy.Lifecycle.{
  Task, binding, spawning, settling, cancelling, cancelled, draining, ending, finishing, tending,
  Shared,
}

-- The listening service runs at this address, and each pool has its health check.
abbrev pub Serves : Option BoundListenAddress → Pools → Services → Type 0
Serves address pools services =
    IsTended pools services
    × (service : HttpService) × (lookup main_http services ≡ some (http_service service))
    × (address ≡ some service.listen_address)

-- The services are those of the state.
abbrev pub IsTidy : Shared → Type 0
IsTidy s =
    ((s.inner.state ≡ stopped) × (s.server.services ≡ []))
    ⊎ ((s.inner.state ≡ running) × Serves s.inner.listen_address s.inner.pools s.server.services)

abbrev pub Stage : Task → Shared → Type 0
Stage (binding c lbs) s =
    (s.inner.state ≡ starting) × (s.server.services ≡ []) × (lbs ≡ lb_tasks s.inner.pools)
Stage (spawning c service lbs) s =
    (s.inner.state ≡ starting) × IsTended s.inner.pools (upsert_all lbs s.server.services)
Stage (settling c address) s =
    (s.inner.state ≡ starting) × Serves (some address) s.inner.pools s.server.services
Stage cancelling s = ⊥
Stage cancelled s = ⊥
Stage (draining o) s = s.inner.state ≡ stopping
Stage ending s = s.inner.state ≡ stopping
Stage finishing s = s.server.services ≡ []
Stage (tending lbs names) s =
    ((s.inner.state ≡ stopped) × (s.server.services ≡ []) × (lbs ≡ []) × (names ≡ []))
    ⊎ ((s.inner.state ≡ running)
        × Serves s.inner.listen_address s.inner.pools
            (remove_all names (upsert_all lbs s.server.services)))
Stage _ s = IsTidy s

-- No pool stands twice in the map, and the services are as the stage says.
abbrev pub IsStage : Task → Shared → Type 0
IsStage t s = Distinct s.inner.pools × Stage t s
