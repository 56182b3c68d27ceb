-- ===== src/Proxy/Lifecycle/Runs/Safety.antt =====
-- What follows of the state of a run for its calls: the branches that report an internal error are
-- never taken, and `address` answers exactly while the proxy runs.
use neemata_proxy.Common.{◌≡◌, ◌≢◌, refl, ap, sym, ◌∙◌, none, some, arith}
use neemata_proxy.Options.{ProxyOptionsParsed}
use neemata_proxy.Proxy.Listening.{BoundListenAddress, proxy_address}
use neemata_proxy.Proxy.Inner.{
  ProxyState, stopped, starting, running, stopping, ProxyInner, is_running,
}
use neemata_proxy.Proxy.Lifecycle.{Shared, waiting_start, waiting_stop}
use neemata_proxy.Proxy.Lifecycle.Calls.{
  throws, promised, start, start_in, begin_start, subscribe_start, subscribe_stop, stop, stop_in,
  missing_start_notifier, missing_stop_notifier, address, address_of,
}
use neemata_proxy.Proxy.Lifecycle.Steps.{World}
use neemata_proxy.Proxy.Lifecycle.Runs.{System, IsReached}
use neemata_proxy.Proxy.Lifecycle.Runs.States.{Tied, IsReached-IsTied}

start_in-has-notifier :
    (st : ProxyState) (s : Shared)
    → Tied st s.inner.listen_address s.inner.start_notifier s.inner.stop_notifier
    → start_in st s ≢ throws none missing_start_notifier
unfolding start_in begin_start subscribe_start
start_in-has-notifier stopped s v e = cc
start_in-has-notifier running s v e = cc
start_in-has-notifier stopping s v e = cc
start_in-has-notifier starting s (_, c, has) e =
    let joins : promised (waiting_start c) s ≡ throws none missing_start_notifier =
      sym (ap (λ o. subscribe_start o s) has) ∙ e in
    cc

stop_in-has-notifier :
    (st : ProxyState) (s : Shared)
    → Tied st s.inner.listen_address s.inner.start_notifier s.inner.stop_notifier
    → stop_in st s ≢ throws none missing_stop_notifier
unfolding stop_in subscribe_stop
stop_in-has-notifier stopped s v e = cc
stop_in-has-notifier running s v e = cc
stop_in-has-notifier starting s v e = cc
stop_in-has-notifier stopping s (c, has) e =
    let joins : promised (waiting_stop c) s ≡ throws none missing_stop_notifier =
      sym (ap (λ o. subscribe_stop o s) has) ∙ e in
    cc

-- In every run, `start` never reports that its notifier is missing, and `stop` never that its own
-- is: whoever finds the proxy starting or stopping can join the call that is under way.
pub call-has-notifier :
    (Allowed : World → Type 0) (options : ProxyOptionsParsed) (s : System)
    → IsReached Allowed options s
    → (start s.shared ≢ throws none missing_start_notifier)
      × (stop s.shared ≢ throws none missing_stop_notifier)
unfolding start stop
call-has-notifier A options s h =
    let v = IsReached-IsTied A options s h in
    (
      start_in-has-notifier s.shared.inner.state s.shared v,
      stop_in-has-notifier s.shared.inner.state s.shared v,
    )

-- The address that JavaScript reads in a state.
abbrev pub Answers : ProxyState → ProxyInner → Type 0
Answers running inner =
    (a : BoundListenAddress) × (inner.listen_address ≡ some a)
    × (address inner ≡ some (proxy_address a))
Answers _ inner = address inner ≡ none

address-Answers :
    (st : ProxyState) (inner : ProxyInner)
    → inner.state ≡ st
    → Tied st inner.listen_address inner.start_notifier inner.stop_notifier
    → Answers st inner
unfolding address address_of is_running
address-Answers stopped inner h v = ground (arith, h)
address-Answers starting inner h v = ground (arith, h)
address-Answers stopping inner h v = ground (arith, h)
address-Answers running inner h (a, has) = (a, has, ground (arith, h, has))

-- In every run, `address` answers the listen address that the proxy keeps exactly while the proxy runs,
-- and it answers none in every other state.
pub IsReached-Answers :
    (Allowed : World → Type 0) (options : ProxyOptionsParsed) (s : System)
    → IsReached Allowed options s
    → Answers s.shared.inner.state s.shared.inner
IsReached-Answers A options s h =
    address-Answers s.shared.inner.state s.shared.inner refl (IsReached-IsTied A options s h)
