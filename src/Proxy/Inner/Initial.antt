-- ===== src/Proxy/Inner/Initial.antt =====
-- The services that a start begins with are the health checks of the pools there are.
use neemata_proxy.Common.{
  ◌≡◌, refl, ap, subst, ◌∙◌, inl, inr, Option, none, some, List, [], ◌∷◌, if◌then◌else◌, list_eq,
  nat_eq, Bool-cases,
}
use neemata_proxy.Text.{Text}
use neemata_proxy.Map.{
  lookup, insert, remove, lookup-insert, Distinct, insert-Distinct, remove-Distinct,
}
use neemata_proxy.Lb.{TransportKind}
use neemata_proxy.Router.Config.{PoolConfig}
use neemata_proxy.Proxy.Config.{pool_key_eq, pool_key_beq, pool_key_beq_iff, Pools}
use neemata_proxy.Proxy.Services.{Service, spawn_lb_health_task, lb_service_name, lb_tasks}
use neemata_proxy.Proxy.Services.Names.{beq-lb_service_name}
use neemata_proxy.Proxy.Inner.{insert_pools, remove_pools}
use neemata_proxy.Proxy.Inner.Tended.{Services, health_of, IsTended, upsert_all}

abbrev or_else : Option Service → Option Service → Option Service
or_else none o = o
or_else (some service) o = some service

lookup-upsert_all :
    (pools : Pools) (services : Services) (app : Text) (t : TransportKind)
    → Distinct pools
    → lookup (lb_service_name app t) (upsert_all (lb_tasks pools) services)
      ≡ or_else (health_of (lookup (app, t) pools)) (lookup (lb_service_name app t) services)
unfolding lb_tasks lookup
lookup-upsert_all [] services app t d = refl
lookup-upsert_all (((a, u), pool) ∷ pools) services app t d =
    let started = insert (lb_service_name a u) (spawn_lb_health_task pool.lb) services in
    let found =
      lookup-insert (lb_service_name a u) (lb_service_name app t) (spawn_lb_health_task pool.lb)
        services
      ∙ ap
          (λ b.
            if b
            then some (spawn_lb_health_task pool.lb)
            else lookup (lb_service_name app t) services)
          (beq-lb_service_name a app u t) in
    let rest = lookup-upsert_all pools started app t d.1 in
    elim (Bool-cases (pool_key_beq (a, u) (app, t))) [
      | inl same ↦
          let key = (pool_key_beq_iff (a, u) (app, t)).0 same in
          let gone : lookup (app, t) pools ≡ none = subst (λ k. lookup k pools ≡ none) key d.0 in
          rest ∙ rw gone (found ∙ rw same refl)
      | inr apart ↦ rest ∙ rw (found, apart) refl
    ]

or_none : (o : Option Service) → or_else o none ≡ o
or_none none = refl
or_none (some service) = refl

-- On a proxy that runs no service, a start brings it about that each pool has its health check.
pub lb_tasks-IsTended :
    (pools : Pools) → Distinct pools → IsTended pools (upsert_all (lb_tasks pools) [])
unfolding lookup
lb_tasks-IsTended pools d app t =
    lookup-upsert_all pools [] app t d ∙ or_none (health_of (lookup (app, t) pools))

pub insert_pools-Distinct :
    (app : Text) (new : List (TransportKind × PoolConfig)) (pools : Pools)
    → Distinct pools
    → Distinct (insert_pools app new pools)
unfolding insert_pools
insert_pools-Distinct app [] pools d = d
insert_pools-Distinct app ((t, pool) ∷ new) pools d =
    insert_pools-Distinct app new (insert (app, t) pool pools)
      (insert-Distinct (app, t) pool pools d)

pub remove_pools-Distinct :
    (app : Text) (ts : List TransportKind) (pools : Pools)
    → Distinct pools
    → Distinct (remove_pools app ts pools)
unfolding remove_pools
remove_pools-Distinct app [] pools d = d
remove_pools-Distinct app (t ∷ ts) pools d =
    remove_pools-Distinct app ts (remove (app, t) pools) (remove-Distinct (app, t) pools d)
