-- ===== src/Proxy/Lifecycle/Runs/Progress.antt =====
-- A run does not get stuck: while a promise is not settled, some task can take a step.
use neemata_proxy.Common.{
  ℕ, ◌<◌, ◌≡◌, refl, ◌⊎◌, inl, inr, none, some, arith, get_elem?, set, Bool-cases, Option-cases,
}
use neemata_proxy.Options.{ProxyOptionsParsed}
use neemata_proxy.Proxy.Lifecycle.{
  Settlement, Task, binding, spawning, settling, cancelling, cancelled, waiting_start, draining,
  ending, finishing, waiting_stop, updating, tending, settled,
}
use neemata_proxy.Proxy.Lifecycle.Steps.{
  World, awaited_start, awaited_stop, settle_with, drain_with, change, changed, advance,
}
use neemata_proxy.Proxy.Lifecycle.Runs.{System, run_task, put, IsReached}
use neemata_proxy.Proxy.Lifecycle.Runs.Sums.{sum_of, sum_of-positive}
use neemata_proxy.Proxy.Lifecycle.Runs.Channels.{OnlyOpen}
use neemata_proxy.Proxy.Lifecycle.Runs.Answered.{IsReached-IsAnswered}
use neemata_proxy.Proxy.Lifecycle.Runs.Workers.{starters, stoppers, tenders}
use neemata_proxy.Proxy.Lifecycle.Runs.Worked.{IsWorked, IsReached-IsWorked}
use neemata_proxy.Proxy.Lifecycle.Runs.Weights.{weight}
use neemata_proxy.Proxy.Lifecycle.Runs.Waits.{
  awaited_start-none, awaited_stop-none, Steps, starters-Steps, tending-Steps, tenders-Steps,
}

module _ (w : World) (s : System) where
  -- Some task takes a step.
  abbrev pub Goes : Type 0
  Goes = (i : ℕ) × (end : System) × (run_task w i s ≡ some end)

  run_task-Goes : (i : ℕ) (t : Task) → get_elem? s.tasks i ≡ some t → Steps w t s.shared → Goes
  unfolding run_task put
  run_task-Goes i t at (r, goes) =
      (i, record { tasks = set s.tasks i r.0; shared = r.1 }, ground (arith, at, goes))

  starters-Goes : 0 < sum_of starters s.tasks → Goes
  starters-Goes h =
      let (i, t, at, pos) = sum_of-positive starters s.tasks h in
      run_task-Goes i t at (starters-Steps w t s.shared pos)

  tenders-Goes : 0 < sum_of tenders s.tasks → Goes
  tenders-Goes h =
      let (i, t, at, pos) = sum_of-positive tenders s.tasks h in
      run_task-Goes i t at (tenders-Steps w t s.shared pos)

module _ (w : World) (s : System) (v : IsWorked s)
    (o : OnlyOpen s.shared.inner.start_notifier s.shared.start_channels)
    (p : OnlyOpen s.shared.inner.stop_notifier s.shared.stop_channels) where
  -- A receiver of a start is answered, or a starting task can go on.
  start-answered :
      (c : ℕ)
      → ((a : Settlement) × (awaited_start (get_elem? s.shared.start_channels c) ≡ some a))
        ⊎ Goes w s
  start-answered c = elim (Option-cases (awaited_start (get_elem? s.shared.start_channels c))) [
    | inr answered ↦ inl answered
    | inl waits ↦ inr (
        starters-Goes w s (
          v.starts c
            (awaited_start-none s.shared.inner.start_notifier s.shared.start_channels c o waits)))
  ]

  draining-Goes : (i : ℕ) (c : ℕ) → get_elem? s.tasks i ≡ some (draining (some c)) → Goes w s
  unfolding advance drain_with
  draining-Goes i c at = elim (start-answered c) [
    | inr goes ↦ goes
    | inl (a, answered) ↦
        run_task-Goes w s i (draining (some c)) at ((ending, s.shared), ground (arith, answered))
  ]

  stoppers-Goes : (i : ℕ) (t : Task) → get_elem? s.tasks i ≡ some t → 0 < stoppers t → Goes w s
  unfolding advance
  stoppers-Goes i (draining none) at h = run_task-Goes w s i (draining none) at (_, refl)
  stoppers-Goes i (draining (some c)) at h = draining-Goes i c at
  stoppers-Goes i ending at h = run_task-Goes w s i ending at (_, refl)
  stoppers-Goes i finishing at h = run_task-Goes w s i finishing at (_, refl)
  stoppers-Goes i (tending lbs names) at h = absurd (omega arith)
  stoppers-Goes i (binding c lbs) at h = absurd (omega arith)
  stoppers-Goes i (spawning c service lbs) at h = absurd (omega arith)
  stoppers-Goes i (settling c address) at h = absurd (omega arith)
  stoppers-Goes i cancelling at h = absurd (omega arith)
  stoppers-Goes i cancelled at h = absurd (omega arith)
  stoppers-Goes i (waiting_start c) at h = absurd (omega arith)
  stoppers-Goes i (waiting_stop c) at h = absurd (omega arith)
  stoppers-Goes i (updating c) at h = absurd (omega arith)
  stoppers-Goes i (settled outcome) at h = absurd (omega arith)

  waiting_stop-Goes : (i : ℕ) (c : ℕ) → get_elem? s.tasks i ≡ some (waiting_stop c) → Goes w s
  unfolding advance settle_with
  waiting_stop-Goes i c at =
      elim (Option-cases (awaited_stop (get_elem? s.shared.stop_channels c))) [
        | inr (a, answered) ↦
            run_task-Goes w s i (waiting_stop c) at
              ((settled a, s.shared), ground (arith, answered))
        | inl waits ↦
            let (j, u, there, pos) = sum_of-positive stoppers s.tasks (
              v.stops c (
                awaited_stop-none s.shared.inner.stop_notifier s.shared.stop_channels c p waits)) in
            stoppers-Goes j u there pos
      ]

  weight-Goes : (i : ℕ) (t : Task) → get_elem? s.tasks i ≡ some t → 0 < weight t → Goes w s
  unfolding advance settle_with
  weight-Goes i (binding c lbs) at h = run_task-Goes w s i (binding c lbs) at (_, refl)
  weight-Goes i (spawning c service lbs) at h =
      run_task-Goes w s i _ at (starters-Steps w (spawning c service lbs) s.shared (omega arith))
  weight-Goes i (settling c address) at h = run_task-Goes w s i (settling c address) at (_, refl)
  weight-Goes i cancelling at h = run_task-Goes w s i cancelling at (_, refl)
  weight-Goes i cancelled at h = run_task-Goes w s i cancelled at (_, refl)
  weight-Goes i (waiting_start c) at h = elim (start-answered c) [
    | inr goes ↦ goes
    | inl (a, answered) ↦
        run_task-Goes w s i (waiting_start c) at ((settled a, s.shared), ground (arith, answered))
  ]
  weight-Goes i (draining o) at h = stoppers-Goes i (draining o) at (omega arith)
  weight-Goes i ending at h = run_task-Goes w s i ending at (_, refl)
  weight-Goes i finishing at h = run_task-Goes w s i finishing at (_, refl)
  weight-Goes i (waiting_stop c) at h = waiting_stop-Goes i c at
  weight-Goes i (tending lbs names) at h =
      run_task-Goes w s i _ at (tending-Steps w lbs names s.shared)
  weight-Goes i (updating c) at h = elim (Bool-cases s.shared.locked) [
    | inl held ↦ tenders-Goes w s (v.locks held)
    | inr free ↦
        run_task-Goes w s i (updating c) at
          (changed (change w c s.shared.inner) s.shared, ground (arith, free))
  ]
  weight-Goes i (settled outcome) at h = absurd (omega arith)

-- In every run in which no blocking task panics: as long as a promise is not settled, some task can
-- take a step, whatever is answered in it.
pub IsReached-Goes :
    (options : ProxyOptionsParsed) (s : System) (w : World)
    → IsReached (λ w. w.panicked ≡ none) options s
    → 0 < sum_of weight s.tasks
    → Goes w s
IsReached-Goes options s w h open_promise =
    let (o, p) = IsReached-IsAnswered (λ w. w.panicked ≡ none) options s h in
    let (i, t, at, pos) = sum_of-positive weight s.tasks open_promise in
    weight-Goes w s (IsReached-IsWorked options s h) o p i t at pos
