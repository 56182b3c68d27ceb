-- ===== src/Tests/Overlaps.antt =====
-- Calls that overlap, and a task that panics, at concrete inputs: where the state and the services of
-- the proxy come apart.
use neemata_proxy.Common.{◌≡◌, refl, false, none, some, [], ◌∷◌, length, list_eq, list_beq, nat_eq}
use neemata_proxy.Text.{lit}
use neemata_proxy.Map.{lookup, insert, remove, contains}
use neemata_proxy.Lb.{http1, transport_beq}
use neemata_proxy.Server.{new_server, upsert_service, end_old, stop_all, end_all}
use neemata_proxy.Proxy.Upstreams.{
  PortUpstream, Resolve, addresses, rebuild_app_pools, group_upstreams, push_upstream, build_pools,
  build_pool, finish_pool, resolve_all, removed_transports,
}
use neemata_proxy.Proxy.Config.{pool_key_beq}
use neemata_proxy.Proxy.Listening.{build_start_resources, build_tls_settings}
use neemata_proxy.Proxy.Services.{lb_tasks, upserts, push_removed, removals}
use neemata_proxy.Proxy.Inner.{
  stopped, running, new_inner, no_upstreams, add_upstream, read_application, find_application,
  rebuild_and_commit, commit, insert_pools, remove_pools, is_running,
}
use neemata_proxy.Proxy.Lifecycle.{
  resolved, rejected, settled, adding, new_shared, send_last, drop_sender, drop_found,
  wait_for_start_ready,
}
use neemata_proxy.Proxy.Lifecycle.Calls.{
  start, start_in, begin_start, subscribe_start, stop, stop_in, mark_stopping,
}
use neemata_proxy.Proxy.Lifecycle.Steps.{
  World, advance, bind_listener, bound, settle_start, finish_stop, awaited_start, settle_with,
  drain_with, cancelled_message, change, changed,
}
use neemata_proxy.Proxy.Lifecycle.Runs.{System, new_system, run_task, put, call, call_update}
use neemata_proxy.Tests.Lifecycle.{world, begun, both, after, seen, main_services}

-- A stop overtakes the start: the start is cancelled, and the stop ends its service. When the last
-- step of the cancelled start comes after a second start, it says `Stopped` of a proxy that serves.
abbrev overtaken : System
overtaken = after world (0 ∷ 0 ∷ 0 ∷ 1 ∷ 1 ∷ 1 ∷ 0 ∷ []) both

abbrev restarted : System
restarted = after world (2 ∷ 2 ∷ 2 ∷ 2 ∷ 0 ∷ []) (call (start overtaken.shared) overtaken)

stopped_while_serving : seen restarted ≡ (
  stopped,
  main_services,
  settled (rejected cancelled_message) ∷ settled resolved ∷ settled resolved ∷ [],
)
unfolding list_beq lit run_task put advance bind_listener bound settle_start send_last finish_stop
    awaited_start settle_with drain_with wait_for_start_ready build_start_resources
    build_tls_settings upsert_service end_old stop_all end_all lookup insert call start start_in
    begin_start stop stop_in mark_stopping drop_sender drop_found new_shared new_system new_inner
    new_server lb_tasks no_upstreams
stopped_while_serving = refl

-- An upstream that is added while the proxy starts: its pool is there, and its health check is not.
abbrev local : PortUpstream
local = record { transport = http1; secure = false; hostname = lit "localhost"; port = 3000 }

abbrev resolve : Resolve
resolve host port = addresses (lit "127.0.0.1:3000" ∷ [])

abbrev resolving : World
resolving = record world { resolve = resolve }

abbrev added : System
added = after resolving (1 ∷ 1 ∷ 0 ∷ 0 ∷ 0 ∷ 0 ∷ []) (call_update (adding (lit "auth") local) begun)

added_while_starting :
    (seen added ≡ (running, main_services, settled resolved ∷ settled resolved ∷ []))
    × (length added.shared.inner.pools ≡ 1)
unfolding list_beq lit run_task put advance bind_listener bound settle_start send_last awaited_start
    settle_with wait_for_start_ready build_start_resources build_tls_settings upsert_service end_old
    lookup insert remove contains call call_update start start_in begin_start drop_sender new_shared
    new_system new_inner new_server lb_tasks no_upstreams change changed add_upstream
    read_application find_application rebuild_and_commit commit insert_pools remove_pools is_running
    rebuild_app_pools group_upstreams push_upstream build_pools build_pool finish_pool resolve_all
    removed_transports transport_beq upserts removals push_removed pool_key_beq
added_while_starting = (refl, refl)

-- The task that makes the listener panics: the proxy stays `Starting`, and neither a second start nor
-- a stop can take a step.
abbrev panicking : World
panicking = record world { panicked = some (lit "panic") }

abbrev broken : System
broken = after panicking (0 ∷ []) begun

abbrev called_again : System
called_again = let joined = call (start broken.shared) broken in call (stop joined.shared) joined

stuck_after_panic : (run_task world 1 called_again ≡ none) × (run_task world 2 called_again ≡ none)
unfolding list_beq lit run_task put advance bind_listener awaited_start settle_with drain_with
    wait_for_start_ready call start start_in begin_start subscribe_start stop stop_in mark_stopping
    drop_sender new_shared new_system new_inner
stuck_after_panic = (refl, refl)
