-- ===== src/Proxy/Lifecycle/Runs/Answered.antt =====
-- In every run, the channels whose senders live are those of the notifiers, so a receiver never
-- waits on a channel that nobody will answer on.
use neemata_proxy.Common.{ℕ, ◌≡◌, refl, sym, subst, Option, none, some, List, [], ◌∷◌}
use neemata_proxy.Text.{Text}
use neemata_proxy.Lb.{LoadBalancer}
use neemata_proxy.Options.{ProxyOptionsParsed}
use neemata_proxy.Proxy.Upstreams.{DeferredResult, done, fail}
use neemata_proxy.Proxy.Listening.{BoundListenAddress, HttpService, build_start_resources}
use neemata_proxy.Proxy.Services.{Tending}
use neemata_proxy.Proxy.Inner.{
  ProxyState, stopped, starting, running, stopping, ProxyInner, new_inner,
}
use neemata_proxy.Proxy.Lifecycle.{
  Change, Task, binding, spawning, settling, cancelling, cancelled, waiting_start, draining, ending,
  finishing, waiting_stop, updating, tending, settled, Shared, new_shared,
}
use neemata_proxy.Proxy.Lifecycle.Calls.{
  start, start_in, begin_start, subscribe_start, subscribe_stop, stop, stop_in, mark_stopping,
}
use neemata_proxy.Proxy.Lifecycle.Steps.{
  World, bind_listener, bound, fail_start, settle_start, finish_stop, change, changed, advance,
}
use neemata_proxy.Proxy.Lifecycle.Runs.{
  System, IsReached, Whenever, WheneverCalled, settle_with-Whenever, drain_with-Whenever,
  if_locked-Whenever, IsReached-keeps,
}
use neemata_proxy.Proxy.Lifecycle.Changes.{change-SameState}
use neemata_proxy.Proxy.Lifecycle.Runs.Channels.{
  OnlyOpen, snoc-OnlyOpen, send_last-OnlyOpen, drop_sender-OnlyOpen, renew-OnlyOpen,
}

abbrev pub IsAnswered : Shared → Type 0
IsAnswered s =
    OnlyOpen s.inner.start_notifier s.start_channels
    × OnlyOpen s.inner.stop_notifier s.stop_channels

settle_start-IsAnswered :
    (st : ProxyState) (c : ℕ) (address : BoundListenAddress) (s : Shared)
    → IsAnswered s
    → IsAnswered (settle_start st c address s).1
unfolding settle_start
settle_start-IsAnswered starting c address s v = (send_last-OnlyOpen _ _ _ v.0, v.1)
settle_start-IsAnswered running c address s v = (send_last-OnlyOpen _ _ _ v.0, v.1)
settle_start-IsAnswered stopping c address s v = (send_last-OnlyOpen _ _ _ v.0, v.1)
settle_start-IsAnswered stopped c address s v = (send_last-OnlyOpen _ _ _ v.0, v.1)

bound-IsAnswered :
    (c : ℕ) (lbs : List (Text × LoadBalancer)) (result : DeferredResult HttpService) (s : Shared)
    → IsAnswered s
    → IsAnswered (bound c lbs result s).1
unfolding bound fail_start
bound-IsAnswered c lbs (done service) s v = v
bound-IsAnswered c lbs (fail e) s v = (send_last-OnlyOpen _ _ _ v.0, v.1)

bind_listener-IsAnswered :
    (w : World) (e : Option Text) (c : ℕ) (lbs : List (Text × LoadBalancer)) (s : Shared)
    → IsAnswered s
    → IsAnswered (bind_listener w e c lbs s).1
unfolding bind_listener
bind_listener-IsAnswered w (some e) c lbs s v = v
bind_listener-IsAnswered w none c lbs s v =
    bound-IsAnswered c lbs
      (build_start_resources w.network s.inner.options.listen s.inner.options.tls) s v

changed-IsAnswered :
    (w : World) (c : Change) (result : DeferredResult (ProxyInner × Tending)) (s : Shared)
    → change w c s.inner ≡ result
    → IsAnswered s
    → IsAnswered (changed result s).1
unfolding changed
changed-IsAnswered w c (fail e) s h v = v
changed-IsAnswered w c (done end) s h v =
    let (_, _, _, starts, stops) = change-SameState w c s.inner end h in
    (
      subst (λ n. OnlyOpen n s.start_channels) (sym starts) v.0,
      subst (λ n. OnlyOpen n s.stop_channels) (sym stops) v.1,
    )

advance-IsAnswered :
    (w : World) (t : Task) (s : Shared)
    → IsAnswered s
    → Whenever (λ r. IsAnswered r.1) (advance w t s)
unfolding advance finish_stop
advance-IsAnswered w (binding c lbs) s v = bind_listener-IsAnswered w w.panicked c lbs s v
advance-IsAnswered w (spawning c service ((name, lb) ∷ lbs)) s v = v
advance-IsAnswered w (spawning c service []) s v = v
advance-IsAnswered w (settling c address) s v = settle_start-IsAnswered s.inner.state c address s v
advance-IsAnswered w cancelling s v = v
advance-IsAnswered w cancelled s v = v
advance-IsAnswered w (waiting_start c) s v = settle_with-Whenever (λ r. IsAnswered r.1) _ s (λ _. v)
advance-IsAnswered w (draining none) s v = v
advance-IsAnswered w (draining (some c)) s v = drain_with-Whenever (λ r. IsAnswered r.1) _ s v
advance-IsAnswered w ending s v = v
advance-IsAnswered w finishing s v = (drop_sender-OnlyOpen _ _ v.0, send_last-OnlyOpen _ _ _ v.1)
advance-IsAnswered w (waiting_stop c) s v = settle_with-Whenever (λ r. IsAnswered r.1) _ s (λ _. v)
advance-IsAnswered w (updating c) s v =
    if_locked-Whenever (λ r. IsAnswered r.1) s.locked _
      (λ _. changed-IsAnswered w c (change w c s.inner) s refl v)
advance-IsAnswered w (tending ((name, lb) ∷ lbs) names) s v = v
advance-IsAnswered w (tending [] (name ∷ names)) s v = v
advance-IsAnswered w (tending [] []) s v = v
advance-IsAnswered w (settled outcome) s v = tt

subscribe_start-IsAnswered :
    (o : Option ℕ) (s : Shared)
    → IsAnswered s
    → WheneverCalled (λ t shared. IsAnswered shared) (subscribe_start o s)
unfolding subscribe_start
subscribe_start-IsAnswered none s v = tt
subscribe_start-IsAnswered (some c) s v = v

start_in-IsAnswered :
    (st : ProxyState) (s : Shared)
    → IsAnswered s
    → WheneverCalled (λ t shared. IsAnswered shared) (start_in st s)
unfolding start_in begin_start
start_in-IsAnswered stopped s v =
    (renew-OnlyOpen s.inner.start_notifier s.start_channels _ v.0, v.1)
start_in-IsAnswered running s v = tt
start_in-IsAnswered stopping s v = tt
start_in-IsAnswered starting s v = subscribe_start-IsAnswered s.inner.start_notifier s v

mark_stopping-IsAnswered :
    (o : Option ℕ) (s : Shared)
    → s.inner.stop_notifier ≡ o
    → IsAnswered s
    → IsAnswered (mark_stopping o s)
unfolding mark_stopping
mark_stopping-IsAnswered none s h v =
    (v.0, snoc-OnlyOpen s.stop_channels _ (subst (λ n. OnlyOpen n s.stop_channels) h v.1))
mark_stopping-IsAnswered (some c) s h v = v

subscribe_stop-IsAnswered :
    (o : Option ℕ) (s : Shared)
    → IsAnswered s
    → WheneverCalled (λ t shared. IsAnswered shared) (subscribe_stop o s)
unfolding subscribe_stop
subscribe_stop-IsAnswered none s v = tt
subscribe_stop-IsAnswered (some c) s v = v

stop_in-IsAnswered :
    (st : ProxyState) (s : Shared)
    → IsAnswered s
    → WheneverCalled (λ t shared. IsAnswered shared) (stop_in st s)
unfolding stop_in
stop_in-IsAnswered stopped s v = v
stop_in-IsAnswered starting s v = mark_stopping-IsAnswered s.inner.stop_notifier s refl v
stop_in-IsAnswered running s v = mark_stopping-IsAnswered s.inner.stop_notifier s refl v
stop_in-IsAnswered stopping s v = subscribe_stop-IsAnswered s.inner.stop_notifier s v

-- In every run, a channel whose sender lives is that of the current notifier, for starts and for
-- stops.
pub IsReached-IsAnswered :
    (Allowed : World → Type 0) (options : ProxyOptionsParsed) (s : System)
    → IsReached Allowed options s
    → IsAnswered s.shared
unfolding new_shared new_inner start stop
IsReached-IsAnswered A options =
    IsReached-keeps IsAnswered A options
      ((λ c channel at alive. absurd (cc)), (λ c channel at alive. absurd (cc)))
      (λ s v. start_in-IsAnswered s.inner.state s v) (λ s v. stop_in-IsAnswered s.inner.state s v)
      advance-IsAnswered
