-- ===== src/Proxy/Lifecycle/Runs/Liveness.antt =====
-- Once nothing more is called, every promise settles: the steps there are left are bounded, a step is
-- there until all promises are settled, and then the proxy is stopped or it runs.
use neemata_proxy.Common.{
  ℕ, zero, suc, ◌+◌, ◌<◌, ◌≤◌, ◌≡◌, refl, ap, subst, ◌⊎◌, inl, inr, false, none, some, List, [],
  ◌∷◌, arith, get_elem?, length, some-inj, Option-cases, Bool-cases,
}
use neemata_proxy.Options.{ProxyOptionsParsed}
use neemata_proxy.Proxy.Inner.{ProxyState, stopped, starting, running, stopping}
use neemata_proxy.Proxy.Lifecycle.{
  Settlement, Task, binding, spawning, settling, cancelling, cancelled, waiting_start, draining,
  ending, finishing, waiting_stop, updating, tending, settled,
}
use neemata_proxy.Proxy.Lifecycle.Steps.{World}
use neemata_proxy.Proxy.Lifecycle.Runs.{System, run_task, run_schedule, IsReached, ran}
use neemata_proxy.Proxy.Lifecycle.Runs.Sums.{sum_of, le-sum_of}
use neemata_proxy.Proxy.Lifecycle.Runs.States.{IsReached-IsTied, Tied}
use neemata_proxy.Proxy.Lifecycle.Runs.Workers.{starters, stoppers, tenders}
use neemata_proxy.Proxy.Lifecycle.Runs.Worked.{IsReached-IsWorked}
use neemata_proxy.Proxy.Lifecycle.Runs.Weights.{weight, run_task-weight}
use neemata_proxy.Proxy.Lifecycle.Runs.Progress.{IsReached-Goes}

-- From every system, no schedule of steps is longer than the sum of what its tasks have left,
-- whatever is answered on the way: once nothing more is called, the tasks come to an end.
pub run_schedule-bound :
    (schedule : List (World × ℕ)) (s end : System)
    → run_schedule schedule s ≡ some end
    → length schedule + sum_of weight end.tasks ≤ sum_of weight s.tasks
unfolding run_schedule
run_schedule-bound [] s end h =
    subst (λ (x : System). 0 + sum_of weight x.tasks ≤ sum_of weight s.tasks) (some-inj h)
      (omega arith)
run_schedule-bound ((w, i) ∷ schedule) s end h = elim (Option-cases (run_task w i s)) [
  | inl blocked ↦ absurd (ground (arith, blocked))
  | inr (next, step) ↦
      let rest = run_schedule-bound schedule next end (ground (arith, step)) in
      omega (arith, run_task-weight w i s next step)
]

weight-settled : (t : Task) → weight t ≡ 0 → (outcome : Settlement) × (t ≡ settled outcome)
weight-settled (settled outcome) h = (outcome, refl)
weight-settled (binding c lbs) h = absurd (omega arith)
weight-settled (spawning c service lbs) h = absurd (omega arith)
weight-settled (settling c address) h = absurd (omega arith)
weight-settled cancelling h = absurd (omega arith)
weight-settled cancelled h = absurd (omega arith)
weight-settled (waiting_start c) h = absurd (omega arith)
weight-settled (draining o) h = absurd (omega arith)
weight-settled ending h = absurd (omega arith)
weight-settled finishing h = absurd (omega arith)
weight-settled (waiting_stop c) h = absurd (omega arith)
weight-settled (updating c) h = absurd (omega arith)
weight-settled (tending lbs names) h = absurd (omega arith)

-- Tasks that are settled have no part in anything.
settled-part :
    (part : Task → ℕ) (ts : List Task)
    → ((outcome : Settlement) → part (settled outcome) ≡ 0)
    → sum_of weight ts ≡ 0
    → sum_of part ts ≡ 0
settled-part part [] none_left h = refl
settled-part part (t ∷ ts) none_left h =
    let (outcome, is) = weight-settled t (omega arith) in
    omega (arith, settled-part part ts none_left (omega arith), ap part is, none_left outcome)

-- All promises are settled, the proxy is stopped or runs, and `update_lock` is free.
pub record IsQuiet (s : System) : Type 0 where
  pub promises :
      (i : ℕ) (t : Task)
      → get_elem? s.tasks i ≡ some t
      → (outcome : Settlement) × (t ≡ settled outcome)
  pub state : (s.shared.inner.state ≡ stopped) ⊎ (s.shared.inner.state ≡ running)
  pub free : s.shared.locked ≡ false

module _ (options : ProxyOptionsParsed) (s : System)
    (h : IsReached (λ w. w.panicked ≡ none) options s) (done : sum_of weight s.tasks ≡ 0) where
  quiet-state :
      (st : ProxyState)
      → s.shared.inner.state ≡ st
      → Tied st s.shared.inner.listen_address s.shared.inner.start_notifier
          s.shared.inner.stop_notifier
      → (s.shared.inner.state ≡ stopped) ⊎ (s.shared.inner.state ≡ running)
  quiet-state stopped is v = inl is
  quiet-state running is v = inr is
  quiet-state starting is (_, c, has) =
      let v = IsReached-IsWorked options s h in
      let busy = v.starts c has in
      absurd (omega (arith, settled-part starters s.tasks (λ _. refl) done))
  quiet-state stopping is (c, has) =
      let v = IsReached-IsWorked options s h in
      let busy = v.stops c has in
      absurd (omega (arith, settled-part stoppers s.tasks (λ _. refl) done))

  quiet : IsQuiet s
  quiet = record {
    promises = λ i t at. weight-settled t (omega (arith, le-sum_of weight s.tasks i t at));
    state =
        quiet-state s.shared.inner.state refl
          (IsReached-IsTied (λ w. w.panicked ≡ none) options s h);
    free = elim (Bool-cases s.shared.locked) [
      | inr free ↦ free
      | inl held ↦
          let busy = (IsReached-IsWorked options s h).locks held in
          absurd (omega (arith, settled-part tenders s.tasks (λ _. refl) done))
    ];
  }

zero_or : (n : ℕ) → (n ≡ 0) ⊎ (0 < n)
zero_or zero = inl refl
zero_or (suc n) = inr (omega arith)

module _ (options : ProxyOptionsParsed) (w : World) (calm : w.panicked ≡ none) where
  abbrev pub Settles : System → Type 0
  Settles s =
      (schedule : List (World × ℕ)) × (end : System) × (run_schedule schedule s ≡ some end)
      × IsQuiet end

  fuel-Settles :
      (fuel : ℕ) (s : System)
      → sum_of weight s.tasks ≤ fuel
      → IsReached (λ w. w.panicked ≡ none) options s
      → Settles s
  unfolding run_schedule
  fuel-Settles zero s le h = ([], s, refl, quiet options s h (omega arith))
  fuel-Settles (suc fuel) s le h = elim (zero_or (sum_of weight s.tasks)) [
    | inl done ↦ ([], s, refl, quiet options s h done)
    | inr left ↦
        let (i, next, step) = IsReached-Goes options s w h left in
        let less = run_task-weight w i s next step in
        let (schedule, end, runs, still) =
          fuel-Settles fuel next (omega arith) (ran w i s next h calm step) in
        ((w, i) ∷ schedule, end, ground (arith, step, runs), still)
  ]

  -- From every system that is reached without a panic of a blocking task, whatever the calls and
  -- whatever has been answered, there is a schedule of steps after which all promises are settled,
  -- the proxy is stopped or runs, and `update_lock` is free.
  pub IsReached-Settles : (s : System) → IsReached (λ w. w.panicked ≡ none) options s → Settles s
  IsReached-Settles s h = fuel-Settles (sum_of weight s.tasks) s (omega arith) h
