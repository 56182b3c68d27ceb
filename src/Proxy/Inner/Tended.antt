-- ===== src/Proxy/Inner/Tended.antt =====
-- When the services that run are the health checks of the pools, and that the changes which a call
-- leaves to do bring this about again.
use neemata_proxy.Common.{
  ◌≡◌, refl, ap, sym, ◌∙◌, Bool, true, false, Option, none, some, List, [], ◌∷◌, if◌then◌else◌,
  list_eq, nat_eq,
}
use neemata_proxy.Text.{Text}
use neemata_proxy.Map.{
  lookup, insert, remove, lookup-insert, lookup-remove, lookup-insert_ne, remove_absent,
}
use neemata_proxy.Lb.{TransportKind, LoadBalancer}
use neemata_proxy.Router.Config.{PoolConfig}
use neemata_proxy.Proxy.Config.{pool_key_eq, pool_key_beq, Pools}
use neemata_proxy.Proxy.Services.{
  Service, spawn_lb_health_task, lb_service_name, main_http, upserts, push_removed, removals,
}
use neemata_proxy.Proxy.Services.Names.{beq-lb_service_name, beq-main_http, beq-main_http_sym}
use neemata_proxy.Proxy.Inner.{insert_pools, remove_pools}

abbrev pub Services : Type 0
Services = List (Text × Service)

abbrev pub health_of : Option PoolConfig → Option Service
health_of none = none
health_of (some pool) = some (spawn_lb_health_task pool.lb)

-- Each pool has its health check under its name, and no other application and transport has one.
abbrev pub IsTended : Pools → Services → Type 0
IsTended pools services =
    (app : Text) (t : TransportKind)
    → lookup (lb_service_name app t) services ≡ health_of (lookup (app, t) pools)

-- What a list of balancers to start, and a list of names to remove, make of the services.
abbrev pub upsert_all : List (Text × LoadBalancer) → Services → Services
upsert_all [] services = services
upsert_all ((name, lb) ∷ lbs) services =
    upsert_all lbs (insert name (spawn_lb_health_task lb) services)

abbrev pub remove_all : List Text → Services → Services
remove_all [] services = services
remove_all (name ∷ names) services = remove_all names (remove name services)

-- A balancer's service does not touch another service.
pub lookup-main-upsert_all :
    (app : Text) (new : List (TransportKind × PoolConfig)) (services : Services)
    → lookup main_http (upsert_all (upserts app new) services) ≡ lookup main_http services
unfolding upserts
lookup-main-upsert_all app [] services = refl
lookup-main-upsert_all app ((t, pool) ∷ new) services =
    lookup-main-upsert_all app new
      (insert (lb_service_name app t) (spawn_lb_health_task pool.lb) services)
    ∙ lookup-insert_ne (lb_service_name app t) main_http _ services (beq-main_http app t)

lookup-main-push_removed :
    (o : Option PoolConfig) (app : Text) (t : TransportKind) (names : List Text)
    (services : Services)
    → ((others : Services) → lookup main_http (remove_all names others) ≡ lookup main_http others)
    → lookup main_http (remove_all (push_removed o (lb_service_name app t) names) services)
      ≡ lookup main_http services
unfolding push_removed
lookup-main-push_removed none app t names services rest = rest services
lookup-main-push_removed (some pool) app t names services rest =
    rest (remove (lb_service_name app t) services)
    ∙ lookup-remove (lb_service_name app t) main_http services
    ∙ ap (λ b. if b then none else lookup main_http services) (beq-main_http app t)

pub lookup-main-remove_all :
    (app : Text) (ts : List TransportKind) (pools : Pools) (services : Services)
    → lookup main_http (remove_all (removals app ts pools) services) ≡ lookup main_http services
unfolding removals
lookup-main-remove_all app [] pools services = refl
lookup-main-remove_all app (t ∷ ts) pools services =
    lookup-main-push_removed (lookup (app, t) pools) app t (removals app ts (remove (app, t) pools))
      services (lookup-main-remove_all app ts (remove (app, t) pools))

health-if :
    (b : Bool) (here there : Option PoolConfig) (h t : Option Service)
    → h ≡ health_of here
    → t ≡ health_of there
    → (if b then h else t) ≡ health_of (if b then here else there)
health-if true here there h t x y = x
health-if false here there h t x y = y

insert-IsTended :
    (a : Text) (u : TransportKind) (pool : PoolConfig) (pools : Pools) (services : Services)
    → IsTended pools services
    → IsTended
        (insert (a, u) pool pools)
        (insert (lb_service_name a u) (spawn_lb_health_task pool.lb) services)
insert-IsTended a u pool pools services v app t =
    lookup-insert (lb_service_name a u) (lb_service_name app t) (spawn_lb_health_task pool.lb)
      services
    ∙ ap
        (λ b.
          if b
          then some (spawn_lb_health_task pool.lb)
          else lookup (lb_service_name app t) services)
        (beq-lb_service_name a app u t)
    ∙ health-if (pool_key_beq (a, u) (app, t)) (some pool) (lookup (app, t) pools) _ _ refl
        (v app t)
    ∙ ap health_of (sym (lookup-insert (a, u) (app, t) pool pools))

remove-IsTended :
    (a : Text) (u : TransportKind) (pools : Pools) (services : Services)
    → IsTended pools services
    → IsTended (remove (a, u) pools) (remove (lb_service_name a u) services)
remove-IsTended a u pools services v app t =
    lookup-remove (lb_service_name a u) (lb_service_name app t) services
    ∙ ap (λ b. if b then none else lookup (lb_service_name app t) services)
        (beq-lb_service_name a app u t)
    ∙ health-if (pool_key_beq (a, u) (app, t)) none (lookup (app, t) pools) none _ refl (v app t)
    ∙ ap health_of (sym (lookup-remove (a, u) (app, t) pools))

-- The listening service is no balancer's.
pub main-IsTended :
    (service : Service) (pools : Pools) (services : Services)
    → IsTended pools services
    → IsTended pools (insert main_http service services)
main-IsTended service pools services v app t =
    lookup-insert main_http (lb_service_name app t) service services
    ∙ ap (λ b. if b then some service else lookup (lb_service_name app t) services)
        (beq-main_http_sym app t)
    ∙ v app t

-- The balancers of the new pools are started.
pub upsert_all-IsTended :
    (app : Text) (new : List (TransportKind × PoolConfig)) (pools : Pools) (services : Services)
    → IsTended pools services
    → IsTended (insert_pools app new pools) (upsert_all (upserts app new) services)
unfolding upserts insert_pools
upsert_all-IsTended app [] pools services v = v
upsert_all-IsTended app ((t, pool) ∷ new) pools services v =
    upsert_all-IsTended app new (insert (app, t) pool pools)
      (insert (lb_service_name app t) (spawn_lb_health_task pool.lb) services)
      (insert-IsTended app t pool pools services v)

push_removed-IsTended :
    (o : Option PoolConfig) (app : Text) (t : TransportKind) (names : List Text) (pools end : Pools)
    (services : Services)
    → lookup (app, t) pools ≡ o
    → ((others : Services)
        → IsTended (remove (app, t) pools) others
        → IsTended end (remove_all names others))
    → IsTended pools services
    → IsTended end (remove_all (push_removed o (lb_service_name app t) names) services)
unfolding push_removed
push_removed-IsTended none app t names pools end services lost rest v =
    rest services (λ a u.
      v a u ∙ ap (λ p. health_of (lookup (a, u) p)) (sym (remove_absent (app, t) pools lost)))
push_removed-IsTended (some pool) app t names pools end services there rest v =
    rest (remove (lb_service_name app t) services) (remove-IsTended app t pools services v)

-- The services of the pools that are taken out are ended.
pub remove_all-IsTended :
    (app : Text) (ts : List TransportKind) (pools : Pools) (services : Services)
    → IsTended pools services
    → IsTended (remove_pools app ts pools) (remove_all (removals app ts pools) services)
unfolding removals remove_pools
remove_all-IsTended app [] pools services v = v
remove_all-IsTended app (t ∷ ts) pools services v =
    push_removed-IsTended (lookup (app, t) pools) app t (removals app ts (remove (app, t) pools))
      pools _ services refl (remove_all-IsTended app ts (remove (app, t) pools)) v
