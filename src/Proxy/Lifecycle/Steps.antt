-- ===== src/Proxy/Lifecycle/Steps.antt =====
-- src/proxy.rs: what each task of `start`, `stop` and the upstream calls does from one of its waits
-- to the next, and the runs of a proxy in which tasks and calls take turns.
use neemata_proxy.Common.{
  ℕ, true, false, Option, none, some, List, [], ◌∷◌, ◌++◌, get_elem?, if◌then◌else◌,
}
use neemata_proxy.Text.{Text, lit}
use neemata_proxy.Lb.{LoadBalancer}
use neemata_proxy.Server.{upsert_service, remove_service, stop_all}
use neemata_proxy.Proxy.Upstreams.{DeferredResult, done, fail, Resolve, Builds}
use neemata_proxy.Proxy.Listening.{BoundListenAddress, HttpService, Network, build_start_resources}
use neemata_proxy.Proxy.Services.{Tending, http_service, spawn_lb_health_task, main_http}
use neemata_proxy.Proxy.Inner.{
  ProxyState, stopped, starting, running, stopping, ProxyInner, add_upstream, remove_upstream,
}
use neemata_proxy.Proxy.Lifecycle.{
  ready, stop_ready, Channel, StartStatus, StopStatus, send_last, drop_sender, Settlement, resolved,
  rejected, rejected_with, wait_for_start_ready, wait_for_stop_ready, Change, adding, removing,
  Task, binding, spawning, settling, cancelling, cancelled, waiting_start, draining, ending,
  finishing, waiting_stop, updating, tending, settled, Shared,
}

-- What the program is answered during a step: by the system, by the resolver, by pingora, and by
-- tokio if the blocking task of a start panics.
pub record World : Type 0 where
  pub network : Network
  pub panicked : Option Text
  pub resolve : Resolve
  pub builds : Builds

abbrev pub cancelled_message : Text
cancelled_message = lit "Proxy start was cancelled while stopping"

-- The error of `build_start_resources`.
unfoldable pub fail_start : Text → Shared → Shared
unfolding send_last
fail_start msg s = record s {
  inner = record s.inner { state = stopped; listen_address = none; start_notifier = none };
  start_channels = send_last (ready (some msg)) s.inner.start_notifier s.start_channels;
}

unfoldable pub bound :
    ℕ → List (Text × LoadBalancer) → DeferredResult HttpService → Shared → Task × Shared
unfolding fail_start
bound c lbs (done service) s = (spawning c service lbs, s)
bound c lbs (fail e) s = (settled (rejected_with e), fail_start e.message s)

unfoldable pub bind_listener :
    World → Option Text → ℕ → List (Text × LoadBalancer) → Shared → Task × Shared
unfolding bound
bind_listener w (some e) c lbs s =
    (settled (rejected (lit "Proxy start task failed during listener setup: " ++ e)), s)
bind_listener w none c lbs s =
    bound c lbs (build_start_resources w.network s.inner.options.listen s.inner.options.tls) s

abbrev send_start : Option Text → Shared → Shared
send_start result s = record s {
  inner = record s.inner { start_notifier = none };
  start_channels = send_last (ready result) s.inner.start_notifier s.start_channels;
}

-- The match on the state when the services have been started, and the message of its result.
unfoldable pub settle_start : ProxyState → ℕ → BoundListenAddress → Shared → Task × Shared
unfolding send_last
settle_start starting c address s = (
  waiting_start c,
  send_start none
      (record s { inner = record s.inner { state = running; listen_address = some address } }),
)
settle_start running c address s = (
  waiting_start c,
  send_start none
      (record s { inner = record s.inner { state = running; listen_address = some address } }),
)
settle_start stopping c address s = (cancelling, send_start (some cancelled_message) s)
settle_start stopped c address s = (cancelling, send_start (some cancelled_message) s)

-- The last lock of a task of `stop`.
unfoldable pub finish_stop : Shared → Shared
unfolding send_last drop_sender
finish_stop s = record s {
  inner = record s.inner {
    state = stopped;
    listen_address = none;
    start_notifier = none;
    stop_notifier = none;
  };
  start_channels = drop_sender s.inner.start_notifier s.start_channels;
  stop_channels = send_last stop_ready s.inner.stop_notifier s.stop_channels;
}

-- A receiver that waits; a channel that does not exist is never waited for.
unfoldable pub awaited_start : Option (Channel StartStatus) → Option Settlement
unfolding wait_for_start_ready
awaited_start none = some resolved
awaited_start (some channel) = wait_for_start_ready channel

unfoldable pub awaited_stop : Option (Channel StopStatus) → Option Settlement
unfolding wait_for_stop_ready
awaited_stop none = some resolved
awaited_stop (some channel) = wait_for_stop_ready channel

-- The promise settles once there is an outcome.
unfoldable pub settle_with : Option Settlement → Shared → Option (Task × Shared)
settle_with none s = none
settle_with (some outcome) s = some (settled outcome, s)

-- `let _ = wait_for_start_ready(rx).await`
unfoldable pub drain_with : Option Settlement → Shared → Option (Task × Shared)
drain_with none s = none
drain_with (some _) s = some (ending, s)

unfoldable pub change : World → Change → ProxyInner → DeferredResult (ProxyInner × Tending)
change w (adding name upstream) inner = add_upstream w.resolve w.builds name upstream inner
change w (removing name upstream) inner = remove_upstream w.resolve w.builds name upstream inner

unfoldable pub changed : DeferredResult (ProxyInner × Tending) → Shared → Task × Shared
changed (fail e) s = (settled (rejected_with e), s)
changed (done (inner, left)) s =
    (tending left.to_upsert left.to_remove, record s { inner = inner; locked = true })

-- A step of a task; `none` while it has to wait, and at its end.
unfoldable pub advance : World → Task → Shared → Option (Task × Shared)
unfolding bind_listener settle_start finish_stop awaited_start awaited_stop settle_with drain_with
    change changed
advance w (binding c lbs) s = some (bind_listener w w.panicked c lbs s)
advance w (spawning c service ((name, lb) ∷ lbs)) s = some (
  spawning c service lbs,
  record s { server = upsert_service name (spawn_lb_health_task lb) s.server },
)
advance w (spawning c service []) s = some (
  settling c service.listen_address,
  record s { server = upsert_service main_http (http_service service) s.server },
)
advance w (settling c address) s = some (settle_start s.inner.state c address s)
advance w cancelling s = some (cancelled, record s { server = stop_all s.server })
advance w cancelled s = some (
  settled (rejected cancelled_message),
  record s { inner = record s.inner { state = stopped; listen_address = none } },
)
advance w (waiting_start c) s = settle_with (awaited_start (get_elem? s.start_channels c)) s
advance w (draining none) s = some (ending, s)
advance w (draining (some c)) s = drain_with (awaited_start (get_elem? s.start_channels c)) s
advance w ending s = some (finishing, record s { server = stop_all s.server })
advance w finishing s = some (settled resolved, finish_stop s)
advance w (waiting_stop c) s = settle_with (awaited_stop (get_elem? s.stop_channels c)) s
advance w (updating c) s = if s.locked then none else some (changed (change w c s.inner) s)
advance w (tending ((name, lb) ∷ lbs) names) s = some (
  tending lbs names,
  record s { server = upsert_service name (spawn_lb_health_task lb) s.server },
)
advance w (tending [] (name ∷ names)) s =
    some (tending [] names, record s { server = remove_service name s.server })
advance w (tending [] []) s = some (settled resolved, record s { locked = false })
advance w (settled outcome) s = none
