-- ===== src/Proxy/Lifecycle/Orderly/Tasks.antt =====
-- The steps of the tasks of `start` and `stop`, and of the task that tends the services, keep the
-- stages.
use neemata_proxy.Common.{
  ◌≡◌, refl, ap, sym, subst, ◌∙◌, inl, inr, false, Option, none, some, List, [], list_eq, nat_eq, ℕ,
}
use neemata_proxy.Text.{Text}
use neemata_proxy.Map.{lookup, insert, remove, lookup-insert_self}
use neemata_proxy.Lb.{LoadBalancer}
use neemata_proxy.Server.{Server, upsert_service, remove_service, stop_all}
use neemata_proxy.Server.Counting.{services-end_old, services-end_all}
use neemata_proxy.Proxy.Config.{pool_key_eq}
use neemata_proxy.Proxy.Upstreams.{DeferredResult, done, fail}
use neemata_proxy.Proxy.Listening.{BoundListenAddress, HttpService, build_start_resources}
use neemata_proxy.Proxy.Services.{Service, http_service, main_http, lb_tasks}
use neemata_proxy.Proxy.Inner.{ProxyState, stopped, starting, running, stopping}
use neemata_proxy.Proxy.Inner.Tended.{IsTended, upsert_all, remove_all, main-IsTended}
use neemata_proxy.Proxy.Inner.Initial.{lb_tasks-IsTended}
use neemata_proxy.Proxy.Lifecycle.{
  Settlement, Task, binding, spawning, settling, tending, settled, Shared,
}
use neemata_proxy.Proxy.Lifecycle.Steps.{World, bind_listener, bound, fail_start, settle_start}
use neemata_proxy.Proxy.Lifecycle.Orderly.Stages.{Serves, IsStage}

abbrev pub After : Task × Shared → Type 0
After r = IsStage r.0 r.1

pub services-upsert_service :
    (name : Text) (service : Service) (s : Shared)
    → (upsert_service name service s.server).services ≡ insert name service s.server.services
unfolding upsert_service
services-upsert_service name service s =
    services-end_old (lookup name s.server.services)
      (record s.server { services = insert name service s.server.services })

pub services-remove_service :
    (name : Text) (s : Shared)
    → (remove_service name s.server).services ≡ remove name s.server.services
unfolding remove_service
services-remove_service name s =
    services-end_old (lookup name s.server.services)
      (record s.server { services = remove name s.server.services })

pub services-stop_all : (s : Shared) → (stop_all s.server).services ≡ []
unfolding stop_all
services-stop_all s = services-end_all s.server.services (record s.server { services = [] })

bound-IsStage :
    (c : ℕ) (lbs : List (Text × LoadBalancer)) (result : DeferredResult HttpService) (s : Shared)
    → IsStage (binding c lbs) s
    → After (bound c lbs result s)
unfolding bound fail_start
bound-IsStage c lbs (done service) s (d, (is, bare, all)) = (
  d,
  (
    is,
    subst (λ l. IsTended s.inner.pools (upsert_all l s.server.services)) (sym all)
        (subst (λ v. IsTended s.inner.pools (upsert_all (lb_tasks s.inner.pools) v)) (sym bare)
          (lb_tasks-IsTended s.inner.pools d)),
  ),
)
bound-IsStage c lbs (fail e) s (d, (is, bare, all)) = (d, inl (refl, bare))

pub bind_listener-IsStage :
    (w : World) (e : Option Text) (c : ℕ) (lbs : List (Text × LoadBalancer)) (s : Shared)
    → e ≡ none
    → IsStage (binding c lbs) s
    → After (bind_listener w e c lbs s)
unfolding bind_listener
bind_listener-IsStage w (some e) c lbs s calm v = absurd (cc)
bind_listener-IsStage w none c lbs s calm v =
    bound-IsStage c lbs (build_start_resources w.network s.inner.options.listen s.inner.options.tls)
      s v

pub settle_start-IsStage :
    (st : ProxyState) (c : ℕ) (address : BoundListenAddress) (s : Shared)
    → s.inner.state ≡ st
    → IsStage (settling c address) s
    → After (settle_start st c address s)
unfolding settle_start
settle_start-IsStage starting c address s h (d, (is, v)) = (d, inr (refl, v))
settle_start-IsStage running c address s h (d, (is, v)) = (d, inr (refl, v))
settle_start-IsStage stopping c address s h (d, (is, v)) =
    let bad : stopping ≡ starting = sym h ∙ is in absurd (cc)
settle_start-IsStage stopped c address s h (d, (is, v)) =
    let bad : stopped ≡ starting = sym h ∙ is in absurd (cc)

-- The listening service is started last.
pub spawned-IsStage :
    (c : ℕ) (service : HttpService) (s : Shared)
    → IsStage (spawning c service []) s
    → IsStage
        (settling c service.listen_address)
        (record s { server = upsert_service main_http (http_service service) s.server })
spawned-IsStage c service s (d, (is, v)) =
    let after = services-upsert_service main_http (http_service service) s in
    (
      d,
      (
        is,
        (
          subst (IsTended s.inner.pools) (sym after)
              (main-IsTended (http_service service) s.inner.pools s.server.services v),
          service,
          ap (lookup main_http) after
              ∙ lookup-insert_self main_http (http_service service) s.server.services,
          refl,
        ),
      ),
    )

-- A step of `tending`: the server after it, and what is left.
pub tending-IsStage :
    (lbs rest : List (Text × LoadBalancer)) (names left : List Text) (s : Shared)
    (server : Server Service)
    → remove_all left (upsert_all rest server.services)
      ≡ remove_all names (upsert_all lbs s.server.services)
    → (lbs ≡ [] → names ≡ [] → ⊥)
    → IsStage (tending lbs names) s
    → IsStage (tending rest left) (record s { server = server })
tending-IsStage lbs rest names left s server services some_left
      (d, inl (is, bare, no_lbs, no_names)) =
    absurd (some_left no_lbs no_names)
tending-IsStage lbs rest names left s server services some_left (d, inr (is, v)) =
    (d, inr (is, subst (Serves s.inner.listen_address s.inner.pools) (sym services) v))

pub tended-IsStage :
    (s : Shared) (o : Settlement)
    → IsStage (tending [] []) s
    → IsStage (settled o) (record s { locked = false })
tended-IsStage s o (d, inl (is, bare, no_lbs, no_names)) = (d, inl (is, bare))
tended-IsStage s o (d, inr (is, v)) = (d, inr (is, v))
