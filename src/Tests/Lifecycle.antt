-- ===== src/Tests/Lifecycle.antt =====
-- Starting and stopping at concrete inputs.
use neemata_proxy.Common.{
  ℕ, ◌+◌, ◌<◌, ◌≤◌, ◌≡◌, ◌≢◌, refl, none, some, List, [], ◌∷◌, list_eq, list_beq, nat_eq, arith,
}
use neemata_proxy.Text.{Text, lit}
use neemata_proxy.Map.{lookup, insert}
use neemata_proxy.Server.{new_server, upsert_service, end_old}
use neemata_proxy.Proxy.Upstreams.{Resolve, Builds, addresses}
use neemata_proxy.Proxy.Listening.{
  BoundListenAddress, Listener, Network, granted, build_start_resources, build_tls_settings,
}
use neemata_proxy.Proxy.Services.{Service, http_service, lb_tasks}
use neemata_proxy.Proxy.Inner.{ProxyState, running, new_inner, no_upstreams}
use neemata_proxy.Proxy.Lifecycle.{
  Task, resolved, settled, new_shared, send_last, drop_sender, wait_for_start_ready,
}
use neemata_proxy.Proxy.Lifecycle.Calls.{
  start, start_in, begin_start, stop, stop_in, mark_stopping, throws, missing_start_notifier,
  missing_stop_notifier,
}
use neemata_proxy.Proxy.Lifecycle.Steps.{
  World, advance, bind_listener, bound, settle_start, awaited_start, settle_with,
}
use neemata_proxy.Proxy.Lifecycle.Runs.{
  System, new_system, run_task, run_schedule, put, call, IsReached, created, started, stopped_by,
}
use neemata_proxy.Proxy.Lifecycle.Runs.Sums.{sum_of}
use neemata_proxy.Proxy.Lifecycle.Runs.States.{IsTied, IsReached-IsTied}
use neemata_proxy.Proxy.Lifecycle.Runs.Safety.{call-has-notifier, Answers, IsReached-Answers}
use neemata_proxy.Proxy.Lifecycle.Runs.Weights.{weight}
use neemata_proxy.Proxy.Lifecycle.Runs.Worked.{IsWorked, IsReached-IsWorked}
use neemata_proxy.Proxy.Lifecycle.Runs.Progress.{Goes, IsReached-Goes}
use neemata_proxy.Proxy.Lifecycle.Runs.Liveness.{run_schedule-bound, Settles, IsReached-Settles}
use neemata_proxy.Tests.Apps.{parsed}

abbrev pub at_8080 : BoundListenAddress
at_8080 = record { hostname = lit "0.0.0.0"; port = 8080 }

abbrev listener : Listener
listener = record { local_addr = granted at_8080; set_nonblocking = granted tt }

abbrev network : Network
network = record { bind = λ listen. granted listener; intermediate = λ cert key. granted tt }

abbrev resolve : Resolve
resolve host port = addresses []

abbrev builds : Builds
builds addrs = none

abbrev pub world : World
world = record { network = network; panicked = none; resolve = resolve; builds = builds }

-- A call of `start`, and a call of `stop` while it is under way.
abbrev pub begun : System
begun = call (start (new_shared parsed)) (new_system parsed)

abbrev pub both : System
both = call (stop begun.shared) begun

begun-IsReached : (Allowed : World → Type 0) → IsReached Allowed parsed begun
unfolding new_system
begun-IsReached Allowed = started (new_system parsed) created

both-IsReached : (Allowed : World → Type 0) → IsReached Allowed parsed both
both-IsReached Allowed = stopped_by begun (begun-IsReached Allowed)

IsReached-IsTied_example : IsTied both.shared.inner
IsReached-IsTied_example = IsReached-IsTied (λ w. Unit) parsed both (both-IsReached (λ w. Unit))

call-has-notifier_example :
    (start both.shared ≢ throws none missing_start_notifier)
    × (stop both.shared ≢ throws none missing_stop_notifier)
call-has-notifier_example = call-has-notifier (λ w. Unit) parsed both (both-IsReached (λ w. Unit))

IsReached-Answers_example : Answers both.shared.inner.state both.shared.inner
IsReached-Answers_example = IsReached-Answers (λ w. Unit) parsed both (both-IsReached (λ w. Unit))

IsReached-IsWorked_example : IsWorked both
IsReached-IsWorked_example =
    IsReached-IsWorked parsed both (both-IsReached (λ w. w.panicked ≡ none))

open_promises : 0 < sum_of weight both.tasks
unfolding call start start_in begin_start stop stop_in mark_stopping new_shared new_system new_inner
    lb_tasks
open_promises = omega arith

IsReached-Goes_example : Goes world both
IsReached-Goes_example =
    IsReached-Goes parsed both world (both-IsReached (λ w. w.panicked ≡ none)) open_promises

IsReached-Settles_example : Settles parsed world refl both
IsReached-Settles_example =
    IsReached-Settles parsed world refl both (both-IsReached (λ w. w.panicked ≡ none))

-- What can be seen of a system: the state, the services that run, and the tasks.
abbrev pub View : Type 0
View = ProxyState × List (Text × Service) × List Task

abbrev pub seen : System → View
seen s = (s.shared.inner.state, s.shared.server.services, s.tasks)

abbrev pub after : World → List ℕ → System → System
after w [] s = s
after w (i ∷ steps) s = elim (run_task w i s) [ none ↦ s | some next ↦ after w steps next ]

abbrev pub main_services : List (Text × Service)
main_services =
    (lit "main_http", http_service (record { tls = none; listen_address = at_8080 })) ∷ []

-- The start runs to its end: the listener is made, the service is started, the state is settled,
-- and the promise resolves.
start_runs :
    seen (after world (0 ∷ 0 ∷ 0 ∷ 0 ∷ []) begun) ≡ (running, main_services, settled resolved ∷ [])
unfolding list_beq lit run_task put advance bind_listener bound settle_start send_last awaited_start
    settle_with wait_for_start_ready build_start_resources build_tls_settings upsert_service end_old
    lookup insert call start start_in begin_start drop_sender new_shared new_system new_inner
    new_server lb_tasks no_upstreams
start_runs = refl

-- The first step makes the listener.
bound_system : (end : System) × (run_schedule ((world, 0) ∷ []) begun ≡ some end)
unfolding run_schedule run_task put advance bind_listener bound build_start_resources
    build_tls_settings call start start_in begin_start new_shared new_system new_inner
bound_system = (_, refl)

run_schedule-bound_example : 1 + sum_of weight bound_system.0.tasks ≤ sum_of weight begun.tasks
run_schedule-bound_example =
    run_schedule-bound ((world, 0) ∷ []) begun bound_system.0 bound_system.1
