-- ===== src/Proxy/Lifecycle/Runs/Weights.antt =====
-- Every step brings its task nearer to its end, so a run in which nothing more is called ends.
use neemata_proxy.Common.{
  ℕ, ◌+◌, ◌<◌, ◌≡◌, refl, sym, subst, Option, none, some, List, [], ◌∷◌, arith, length,
}
use neemata_proxy.Text.{Text}
use neemata_proxy.Lb.{LoadBalancer}
use neemata_proxy.Proxy.Upstreams.{DeferredResult, done, fail}
use neemata_proxy.Proxy.Listening.{BoundListenAddress, HttpService, build_start_resources}
use neemata_proxy.Proxy.Services.{Tending}
use neemata_proxy.Proxy.Inner.{ProxyState, stopped, starting, running, stopping, ProxyInner}
use neemata_proxy.Proxy.Lifecycle.{
  Change, Task, binding, spawning, settling, cancelling, cancelled, waiting_start, draining, ending,
  finishing, waiting_stop, updating, tending, settled, Shared,
}
use neemata_proxy.Proxy.Lifecycle.Steps.{
  World, bind_listener, bound, settle_start, change, changed, advance,
}
use neemata_proxy.Proxy.Lifecycle.Runs.{
  run_task, System, Whenever, run_task-eq-some, whenever-some, settle_with-Whenever,
  drain_with-Whenever, if_locked-Whenever,
}
use neemata_proxy.Proxy.Lifecycle.Changes.{change-changes}
use neemata_proxy.Proxy.Lifecycle.Runs.Sums.{sum_of, sum_of-set}

-- A bound for the steps that a task has left. An upstream call leaves at most six changes to the
-- services.
abbrev pub weight : Task → ℕ
weight (binding c lbs) = length lbs + 5
weight (spawning c service lbs) = length lbs + 4
weight (settling c address) = 3
weight cancelling = 2
weight cancelled = 1
weight (waiting_start c) = 1
weight (draining o) = 3
weight ending = 2
weight finishing = 1
weight (waiting_stop c) = 1
weight (updating c) = 8
weight (tending lbs names) = length lbs + length names + 1
weight (settled outcome) = 0

settle_start-weight :
    (st : ProxyState) (c : ℕ) (address : BoundListenAddress) (s : Shared)
    → weight (settle_start st c address s).0 < 3
unfolding settle_start
settle_start-weight starting c address s = omega arith
settle_start-weight running c address s = omega arith
settle_start-weight stopping c address s = omega arith
settle_start-weight stopped c address s = omega arith

bound-weight :
    (c : ℕ) (lbs : List (Text × LoadBalancer)) (result : DeferredResult HttpService) (s : Shared)
    → weight (bound c lbs result s).0 < length lbs + 5
unfolding bound
bound-weight c lbs (done service) s = omega arith
bound-weight c lbs (fail e) s = omega arith

bind_listener-weight :
    (w : World) (e : Option Text) (c : ℕ) (lbs : List (Text × LoadBalancer)) (s : Shared)
    → weight (bind_listener w e c lbs s).0 < length lbs + 5
unfolding bind_listener
bind_listener-weight w (some e) c lbs s = omega arith
bind_listener-weight w none c lbs s =
    bound-weight c lbs (build_start_resources w.network s.inner.options.listen s.inner.options.tls)
      s

changed-weight :
    (w : World) (c : Change) (result : DeferredResult (ProxyInner × Tending)) (s : Shared)
    → change w c s.inner ≡ result
    → weight (changed result s).0 < 8
unfolding changed
changed-weight w c (fail e) s h = omega arith
changed-weight w c (done end) s h = omega (arith, change-changes w c s.inner end h)

advance-weight :
    (w : World) (t : Task) (s : Shared) → Whenever (λ r. weight r.0 < weight t) (advance w t s)
unfolding advance
advance-weight w (binding c lbs) s = bind_listener-weight w w.panicked c lbs s
advance-weight w (spawning c service ((name, lb) ∷ lbs)) s = omega arith
advance-weight w (spawning c service []) s = omega arith
advance-weight w (settling c address) s = settle_start-weight s.inner.state c address s
advance-weight w cancelling s = omega arith
advance-weight w cancelled s = omega arith
advance-weight w (waiting_start c) s =
    settle_with-Whenever (λ r. weight r.0 < 1) _ s (λ _. omega arith)
advance-weight w (draining none) s = omega arith
advance-weight w (draining (some c)) s = drain_with-Whenever (λ r. weight r.0 < 3) _ s (omega arith)
advance-weight w ending s = omega arith
advance-weight w finishing s = omega arith
advance-weight w (waiting_stop c) s =
    settle_with-Whenever (λ r. weight r.0 < 1) _ s (λ _. omega arith)
advance-weight w (updating c) s =
    if_locked-Whenever (λ r. weight r.0 < 8) s.locked _
      (λ _. changed-weight w c (change w c s.inner) s refl)
advance-weight w (tending ((name, lb) ∷ lbs) names) s = omega arith
advance-weight w (tending [] (name ∷ names)) s = omega arith
advance-weight w (tending [] []) s = omega arith
advance-weight w (settled outcome) s = tt

-- Each step of a task, whatever is answered, lowers the sum of what the tasks have left.
pub run_task-weight :
    (w : World) (i : ℕ) (s end : System)
    → run_task w i s ≡ some end
    → sum_of weight end.tasks < sum_of weight s.tasks
run_task-weight w i s end h =
    let (t, r, has, goes, is) = run_task-eq-some w i s end h in
    let less : weight r.0 < weight t =
      whenever-some (λ r. weight r.0 < weight t) (advance w t s.shared) r
        (advance-weight w t s.shared) goes in
    subst (λ (x : System). sum_of weight x.tasks < sum_of weight s.tasks) (sym is)
      (omega (arith, sum_of-set weight s.tasks i t r.0 has))
