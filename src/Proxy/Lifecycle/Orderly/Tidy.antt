-- ===== src/Proxy/Lifecycle/Orderly/Tidy.antt =====
-- Calls that are made one at a time keep the services in step with the state.
use neemata_proxy.Common.{
  ◌≡◌, refl, ap, sym, subst, ◌∙◌, inl, inr, Option, none, some, [], ◌∷◌, list_eq, nat_eq, ℕ,
}
use neemata_proxy.Map.{Distinct}
use neemata_proxy.Options.{ProxyOptionsParsed}
use neemata_proxy.Server.{upsert_service, remove_service, new_server}
use neemata_proxy.Proxy.Config.{pool_key_eq}
use neemata_proxy.Proxy.Services.{spawn_lb_health_task}
use neemata_proxy.Proxy.Inner.{ProxyState, stopped, starting, running, stopping, new_inner}
use neemata_proxy.Proxy.Inner.Tended.{IsTended, upsert_all, remove_all}
use neemata_proxy.Proxy.Lifecycle.{
  Settlement, resolved, Task, binding, spawning, settling, cancelling, cancelled, waiting_start,
  draining, ending, finishing, waiting_stop, updating, tending, settled, Shared, new_shared,
}
use neemata_proxy.Proxy.Lifecycle.Calls.{
  start, start_in, begin_start, subscribe_start, subscribe_stop, stop, stop_in, mark_stopping,
}
use neemata_proxy.Proxy.Lifecycle.Steps.{World, finish_stop, change, advance}
use neemata_proxy.Proxy.Lifecycle.Runs.{
  Whenever, WheneverCalled, whenever-some, settle_with-Whenever, drain_with-Whenever,
  if_locked-Whenever,
}
use neemata_proxy.Proxy.Lifecycle.Orderly.{
  Call, starting_call, stopping_call, updating_call, make, IsOrderly, created, called, stepped,
}
use neemata_proxy.Proxy.Lifecycle.Orderly.Stages.{IsTidy, IsStage}
use neemata_proxy.Proxy.Lifecycle.Orderly.Tasks.{
  After, services-upsert_service, services-remove_service, services-stop_all, bind_listener-IsStage,
  settle_start-IsStage, spawned-IsStage, tending-IsStage, tended-IsStage,
}
use neemata_proxy.Proxy.Lifecycle.Orderly.Commits.{changed-IsStage}

advance-IsStage :
    (w : World) (t : Task) (s : Shared)
    → w.panicked ≡ none
    → IsStage t s
    → Whenever After (advance w t s)
unfolding advance finish_stop
advance-IsStage w (binding c lbs) s calm v = bind_listener-IsStage w w.panicked c lbs s calm v
advance-IsStage w (spawning c service ((name, lb) ∷ lbs)) s calm (d, (is, v)) = (
  d,
  (
    is,
    subst (λ l. IsTended s.inner.pools (upsert_all lbs l))
        (sym (services-upsert_service name (spawn_lb_health_task lb) s)) v,
  ),
)
advance-IsStage w (spawning c service []) s calm v = spawned-IsStage c service s v
advance-IsStage w (settling c address) s calm v =
    settle_start-IsStage s.inner.state c address s refl v
advance-IsStage w cancelling s calm (d, v) = absurd v
advance-IsStage w cancelled s calm (d, v) = absurd v
advance-IsStage w (waiting_start c) s calm v = settle_with-Whenever After _ s (λ _. v)
advance-IsStage w (draining none) s calm v = v
advance-IsStage w (draining (some c)) s calm v = drain_with-Whenever After _ s v
advance-IsStage w ending s calm (d, v) = (d, services-stop_all s)
advance-IsStage w finishing s calm (d, v) = (d, inl (refl, v))
advance-IsStage w (waiting_stop c) s calm v = settle_with-Whenever After _ s (λ _. v)
advance-IsStage w (updating c) s calm v =
    if_locked-Whenever After s.locked _ (λ _. changed-IsStage w c (change w c s.inner) s refl v)
advance-IsStage w (tending ((name, lb) ∷ lbs) names) s calm v =
    tending-IsStage ((name, lb) ∷ lbs) lbs names names s
      (upsert_service name (spawn_lb_health_task lb) s.server)
      (ap (λ l. remove_all names (upsert_all lbs l))
        (services-upsert_service name (spawn_lb_health_task lb) s))
      (λ no_lbs no_names. cc) v
advance-IsStage w (tending [] (name ∷ names)) s calm v =
    tending-IsStage [] [] (name ∷ names) names s (remove_service name s.server)
      (ap (remove_all names) (services-remove_service name s)) (λ no_lbs no_names. cc) v
advance-IsStage w (tending [] []) s calm v = tended-IsStage s resolved v
advance-IsStage w (settled outcome) s calm v = tt

subscribe_start-IsStage :
    (o : Option ℕ) (s : Shared)
    → Distinct s.inner.pools
    → IsTidy s
    → WheneverCalled IsStage (subscribe_start o s)
unfolding subscribe_start
subscribe_start-IsStage none s d v = tt
subscribe_start-IsStage (some c) s d v = (d, v)

start_in-IsStage :
    (st : ProxyState) (s : Shared)
    → s.inner.state ≡ st
    → Distinct s.inner.pools
    → IsTidy s
    → WheneverCalled IsStage (start_in st s)
unfolding start_in begin_start
start_in-IsStage stopped s h d (inl (is, bare)) = (d, (refl, bare, refl))
start_in-IsStage stopped s h d (inr (is, v)) =
    let bad : stopped ≡ running = sym h ∙ is in absurd (cc)
start_in-IsStage running s h d v = tt
start_in-IsStage stopping s h d v = tt
start_in-IsStage starting s h d v = subscribe_start-IsStage s.inner.start_notifier s d v

mark_stopping-IsStage :
    (o : Option ℕ) (s : Shared)
    → Distinct s.inner.pools
    → IsStage (draining s.inner.start_notifier) (mark_stopping o s)
unfolding mark_stopping
mark_stopping-IsStage none s d = (d, refl)
mark_stopping-IsStage (some c) s d = (d, refl)

subscribe_stop-IsStage :
    (o : Option ℕ) (s : Shared)
    → Distinct s.inner.pools
    → IsTidy s
    → WheneverCalled IsStage (subscribe_stop o s)
unfolding subscribe_stop
subscribe_stop-IsStage none s d v = tt
subscribe_stop-IsStage (some c) s d v = (d, v)

stop_in-IsStage :
    (st : ProxyState) (s : Shared)
    → s.inner.state ≡ st
    → Distinct s.inner.pools
    → IsTidy s
    → WheneverCalled IsStage (stop_in st s)
unfolding stop_in
stop_in-IsStage stopped s h d (inl (is, bare)) = (d, inl (is, bare))
stop_in-IsStage stopped s h d (inr (is, v)) =
    let bad : stopped ≡ running = sym h ∙ is in absurd (cc)
stop_in-IsStage starting s h d v = mark_stopping-IsStage s.inner.stop_notifier s d
stop_in-IsStage running s h d v = mark_stopping-IsStage s.inner.stop_notifier s d
stop_in-IsStage stopping s h d v = subscribe_stop-IsStage s.inner.stop_notifier s d v

make-IsStage :
    (c : Call) (s : Shared) → Distinct s.inner.pools → IsTidy s → WheneverCalled IsStage (make c s)
unfolding make start stop
make-IsStage starting_call s d v = start_in-IsStage s.inner.state s refl d v
make-IsStage stopping_call s d v = stop_in-IsStage s.inner.state s refl d v
make-IsStage (updating_call c) s d v = (d, v)

IsOrderly-IsStage :
    (options : ProxyOptionsParsed) (t : Task) (s : Shared) → IsOrderly options t s → IsStage t s
unfolding new_shared new_inner new_server
IsOrderly-IsStage options _ _ created = (tt, inl (refl, refl))
IsOrderly-IsStage options _ _ (called c o s t end before h) =
    let (d, v) = IsOrderly-IsStage options (settled o) s before in
    subst (WheneverCalled IsStage) h (make-IsStage c s d v)
IsOrderly-IsStage options _ _ (stepped w t s next end before calm h) =
    whenever-some After (advance w t s) (next, end)
      (advance-IsStage w t s calm (IsOrderly-IsStage options t s before)) h

-- When calls are made one at a time, and no blocking task panics: whatever the calls and the answers,
-- at every settled promise the proxy is stopped and runs no service, or it runs, the service
-- `main_http` listens at the address that it answers, each pool has its health check under its name,
-- and no other application and transport has one.
pub IsOrderly-IsTidy :
    (options : ProxyOptionsParsed) (o : Settlement) (s : Shared)
    → IsOrderly options (settled o) s
    → IsTidy s
IsOrderly-IsTidy options o s h = (IsOrderly-IsStage options (settled o) s h).1
