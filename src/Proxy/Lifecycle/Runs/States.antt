-- ===== src/Proxy/Lifecycle/Runs/States.antt =====
-- What the state says of the address and of the notifiers, in every run.
use neemata_proxy.Common.{ℕ, ◌≡◌, refl, sym, subst, Option, none, some, List, [], ◌∷◌, length}
use neemata_proxy.Text.{Text}
use neemata_proxy.Lb.{LoadBalancer}
use neemata_proxy.Options.{ProxyOptionsParsed}
use neemata_proxy.Proxy.Upstreams.{DeferredResult, done, fail}
use neemata_proxy.Proxy.Listening.{BoundListenAddress, HttpService, build_start_resources}
use neemata_proxy.Proxy.Services.{Tending}
use neemata_proxy.Proxy.Inner.{
  ProxyState, stopped, starting, running, stopping, ProxyInner, new_inner,
}
use neemata_proxy.Proxy.Inner.Untouched.{SameState}
use neemata_proxy.Proxy.Lifecycle.Changes.{change-SameState}
use neemata_proxy.Proxy.Lifecycle.{
  Change, Task, binding, spawning, settling, cancelling, cancelled, waiting_start, draining, ending,
  finishing, waiting_stop, updating, tending, settled, Shared, new_shared,
}
use neemata_proxy.Proxy.Lifecycle.Calls.{
  start, start_in, begin_start, subscribe_start, subscribe_stop, stop, stop_in, mark_stopping,
}
use neemata_proxy.Proxy.Lifecycle.Steps.{
  World, bind_listener, bound, fail_start, settle_start, finish_stop, change, changed, advance,
}
use neemata_proxy.Proxy.Lifecycle.Runs.{
  System, IsReached, Whenever, WheneverCalled, settle_with-Whenever, drain_with-Whenever,
  if_locked-Whenever, IsReached-keeps,
}

-- Stopped and starting, no address is kept; running, there is one; starting and stopping, there is
-- the notifier that further calls subscribe to.
abbrev pub Tied : ProxyState → Option BoundListenAddress → Option ℕ → Option ℕ → Type 0
Tied stopped address starts stops = address ≡ none
Tied starting address starts stops = (address ≡ none) × (c : ℕ) × (starts ≡ some c)
Tied running address starts stops = (a : BoundListenAddress) × (address ≡ some a)
Tied stopping address starts stops = (c : ℕ) × (stops ≡ some c)

abbrev pub IsTied : ProxyInner → Type 0
IsTied inner = Tied inner.state inner.listen_address inner.start_notifier inner.stop_notifier

IsTied-same : (before after : ProxyInner) → SameState before after → IsTied before → IsTied after
IsTied-same before after (_, a, b, c, d) v =
    subst (λ x. Tied x after.listen_address after.start_notifier after.stop_notifier) (sym a)
      (subst (λ x. Tied before.state x after.start_notifier after.stop_notifier) (sym b)
        (subst (λ x. Tied before.state before.listen_address x after.stop_notifier) (sym c)
          (subst (Tied before.state before.listen_address before.start_notifier) (sym d) v)))

settle_start-IsTied :
    (st : ProxyState) (c : ℕ) (address : BoundListenAddress) (s : Shared)
    → s.inner.state ≡ st
    → IsTied s.inner
    → IsTied (settle_start st c address s).1.inner
unfolding settle_start
settle_start-IsTied starting c address s h v = (address, refl)
settle_start-IsTied running c address s h v = (address, refl)
settle_start-IsTied stopping c address s h v =
    subst (λ st. Tied st s.inner.listen_address none s.inner.stop_notifier) (sym h)
      (subst (λ st. Tied st s.inner.listen_address s.inner.start_notifier s.inner.stop_notifier) h
        v)
settle_start-IsTied stopped c address s h v =
    subst (λ st. Tied st s.inner.listen_address none s.inner.stop_notifier) (sym h)
      (subst (λ st. Tied st s.inner.listen_address s.inner.start_notifier s.inner.stop_notifier) h
        v)

bound-IsTied :
    (c : ℕ) (lbs : List (Text × LoadBalancer)) (result : DeferredResult HttpService) (s : Shared)
    → IsTied s.inner
    → IsTied (bound c lbs result s).1.inner
unfolding bound fail_start
bound-IsTied c lbs (done service) s v = v
bound-IsTied c lbs (fail e) s v = refl

bind_listener-IsTied :
    (w : World) (e : Option Text) (c : ℕ) (lbs : List (Text × LoadBalancer)) (s : Shared)
    → IsTied s.inner
    → IsTied (bind_listener w e c lbs s).1.inner
unfolding bind_listener
bind_listener-IsTied w (some e) c lbs s v = v
bind_listener-IsTied w none c lbs s v =
    bound-IsTied c lbs (build_start_resources w.network s.inner.options.listen s.inner.options.tls)
      s v

changed-IsTied :
    (w : World) (c : Change) (result : DeferredResult (ProxyInner × Tending)) (s : Shared)
    → change w c s.inner ≡ result
    → IsTied s.inner
    → IsTied (changed result s).1.inner
unfolding changed
changed-IsTied w c (fail e) s h v = v
changed-IsTied w c (done end) s h v =
    IsTied-same s.inner end.0 (change-SameState w c s.inner end h) v

advance-IsTied :
    (w : World) (t : Task) (s : Shared)
    → IsTied s.inner
    → Whenever (λ r. IsTied r.1.inner) (advance w t s)
unfolding advance finish_stop
advance-IsTied w (binding c lbs) s v = bind_listener-IsTied w w.panicked c lbs s v
advance-IsTied w (spawning c service ((name, lb) ∷ lbs)) s v = v
advance-IsTied w (spawning c service []) s v = v
advance-IsTied w (settling c address) s v = settle_start-IsTied s.inner.state c address s refl v
advance-IsTied w cancelling s v = v
advance-IsTied w cancelled s v = refl
advance-IsTied w (waiting_start c) s v = settle_with-Whenever (λ r. IsTied r.1.inner) _ s (λ _. v)
advance-IsTied w (draining none) s v = v
advance-IsTied w (draining (some c)) s v = drain_with-Whenever (λ r. IsTied r.1.inner) _ s v
advance-IsTied w ending s v = v
advance-IsTied w finishing s v = refl
advance-IsTied w (waiting_stop c) s v = settle_with-Whenever (λ r. IsTied r.1.inner) _ s (λ _. v)
advance-IsTied w (updating c) s v =
    if_locked-Whenever (λ r. IsTied r.1.inner) s.locked _
      (λ _. changed-IsTied w c (change w c s.inner) s refl v)
advance-IsTied w (tending ((name, lb) ∷ lbs) names) s v = v
advance-IsTied w (tending [] (name ∷ names)) s v = v
advance-IsTied w (tending [] []) s v = v
advance-IsTied w (settled outcome) s v = tt

subscribe_start-IsTied :
    (o : Option ℕ) (s : Shared)
    → IsTied s.inner
    → WheneverCalled (λ t shared. IsTied shared.inner) (subscribe_start o s)
unfolding subscribe_start
subscribe_start-IsTied none s v = tt
subscribe_start-IsTied (some c) s v = v

start_in-IsTied :
    (st : ProxyState) (s : Shared)
    → IsTied s.inner
    → WheneverCalled (λ t shared. IsTied shared.inner) (start_in st s)
unfolding start_in begin_start
start_in-IsTied stopped s v = (refl, length s.start_channels, refl)
start_in-IsTied running s v = tt
start_in-IsTied stopping s v = tt
start_in-IsTied starting s v = subscribe_start-IsTied s.inner.start_notifier s v

mark_stopping-IsTied :
    (o : Option ℕ) (s : Shared) → s.inner.stop_notifier ≡ o → IsTied (mark_stopping o s).inner
unfolding mark_stopping
mark_stopping-IsTied none s h = (length s.stop_channels, refl)
mark_stopping-IsTied (some c) s h = (c, h)

subscribe_stop-IsTied :
    (o : Option ℕ) (s : Shared)
    → IsTied s.inner
    → WheneverCalled (λ t shared. IsTied shared.inner) (subscribe_stop o s)
unfolding subscribe_stop
subscribe_stop-IsTied none s v = tt
subscribe_stop-IsTied (some c) s v = v

stop_in-IsTied :
    (st : ProxyState) (s : Shared)
    → s.inner.state ≡ st
    → IsTied s.inner
    → WheneverCalled (λ t shared. IsTied shared.inner) (stop_in st s)
unfolding stop_in
stop_in-IsTied stopped s h v =
    subst (λ st. Tied st none s.inner.start_notifier s.inner.stop_notifier) (sym h) refl
stop_in-IsTied starting s h v = mark_stopping-IsTied s.inner.stop_notifier s refl
stop_in-IsTied running s h v = mark_stopping-IsTied s.inner.stop_notifier s refl
stop_in-IsTied stopping s h v = subscribe_stop-IsTied s.inner.stop_notifier s v

-- In every run, whatever the calls, the order of the steps and the answers: an address is kept while
-- the proxy runs, and none while it is stopped or starting; a starting proxy has the notifier of its
-- start, and a stopping one that of its stop.
pub IsReached-IsTied :
    (Allowed : World → Type 0) (options : ProxyOptionsParsed) (s : System)
    → IsReached Allowed options s
    → IsTied s.shared.inner
unfolding new_shared new_inner start stop
IsReached-IsTied A options =
    IsReached-keeps (λ s. IsTied s.inner) A options refl (λ s v. start_in-IsTied s.inner.state s v)
      (λ s v. stop_in-IsTied s.inner.state s refl v) advance-IsTied
