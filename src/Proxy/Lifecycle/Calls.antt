-- ===== src/Proxy/Lifecycle/Calls.antt =====
-- src/proxy.rs: the calls of `start` and `stop` up to the promise that they return, and `address`.
use neemata_proxy.Common.{ℕ, true, Option, none, some, [], ◌∷◌, ◌++◌, length, if◌then◌else◌}
use neemata_proxy.Text.{Text, lit}
use neemata_proxy.Errors.{Code, already_started}
use neemata_proxy.Proxy.Listening.{BoundListenAddress, ProxyAddress, proxy_address}
use neemata_proxy.Proxy.Services.{lb_tasks}
use neemata_proxy.Proxy.Inner.{
  ProxyState, stopped, starting, running, stopping, ProxyInner, is_running,
}
use neemata_proxy.Proxy.Lifecycle.{
  pending, stop_pending, drop_sender, resolved, Task, binding, waiting_start, draining,
  waiting_stop, settled, Shared,
}

-- A call throws, or it returns the promise of a task.
pub data Called : Type 0 where
  throws : Option Code → Text → Called
  promised : Task → Shared → Called

abbrev pub missing_start_notifier : Text
missing_start_notifier = lit "Proxy internal error: missing start notifier"

abbrev pub missing_stop_notifier : Text
missing_stop_notifier = lit "Proxy internal error: missing stop notifier"

-- From `guard.state = Starting` to the end of the lock.
unfoldable pub begin_start : Shared → Called
unfolding drop_sender lb_tasks
begin_start s =
    let c = length s.start_channels in
    promised (binding c (lb_tasks s.inner.pools)) (record s {
      inner = record s.inner { state = starting; listen_address = none; start_notifier = some c };
      start_channels =
          drop_sender s.inner.start_notifier s.start_channels
          ++ (record { value = pending; alive = true } ∷ []);
    })

-- The call joins the start that is under way.
unfoldable pub subscribe_start : Option ℕ → Shared → Called
subscribe_start none s = throws none missing_start_notifier
subscribe_start (some c) s = promised (waiting_start c) s

unfoldable pub start_in : ProxyState → Shared → Called
unfolding begin_start subscribe_start
start_in starting s = subscribe_start s.inner.start_notifier s
start_in running s = throws (some already_started) (lit "Proxy is already started")
start_in stopping s = throws (some already_started) (lit "Proxy is stopping")
start_in stopped s = begin_start s

unfoldable pub start : Shared → Called
unfolding start_in
start s = start_in s.inner.state s

-- The state becomes `Stopping`, with a notifier unless there is one.
unfoldable pub mark_stopping : Option ℕ → Shared → Shared
mark_stopping (some c) s = record s { inner = record s.inner { state = stopping } }
mark_stopping none s = record s {
  inner = record s.inner { state = stopping; stop_notifier = some (length s.stop_channels) };
  stop_channels = s.stop_channels ++ (record { value = stop_pending; alive = true } ∷ []);
}

unfoldable pub subscribe_stop : Option ℕ → Shared → Called
subscribe_stop none s = throws none missing_stop_notifier
subscribe_stop (some c) s = promised (waiting_stop c) s

unfoldable pub stop_in : ProxyState → Shared → Called
unfolding mark_stopping subscribe_stop
stop_in stopped s =
    promised (settled resolved) (record s { inner = record s.inner { listen_address = none } })
stop_in stopping s = subscribe_stop s.inner.stop_notifier s
stop_in starting s =
    promised (draining s.inner.start_notifier) (mark_stopping s.inner.stop_notifier s)
stop_in running s =
    promised (draining s.inner.start_notifier) (mark_stopping s.inner.stop_notifier s)

unfoldable pub stop : Shared → Called
unfolding stop_in
stop s = stop_in s.inner.state s

unfoldable pub address_of : Option BoundListenAddress → Option ProxyAddress
address_of none = none
address_of (some address) = some (proxy_address address)

unfoldable pub address : ProxyInner → Option ProxyAddress
unfolding is_running address_of
address inner = if is_running inner.state then address_of inner.listen_address else none
